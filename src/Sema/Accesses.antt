-- ===== src/Sema/Accesses.antt =====
-- What `sema_check_expr` does once the parts are checked: calls, methods, fields, elements, `try` and
-- literals.
use rayac.Base.{
  ℕ, Bool, false, not, ◌||◌, Option, none, some, List, [], ◌∷◌, codes, ◌==◌, if◌then◌else◌,
}
use rayac.Ast.Syntax.{AstNode, node, NodeList, nil, cons, field_decl, generic_param_decl, no_type}
use rayac.Diag.Engine.{SourceLocation, text, number, type_name}
use rayac.StringView.View.{StringView, content, sv_eq, sv_eq_cstr}
use rayac.Types.Shape.{SType, array, slice, pointer, reference, function, error_union}
use rayac.Types.Table.{shape_at, st_int, st_pointer, st_eq}
use rayac.Sema.Declare.{sema_get_type_fields, sema_make_fn_type}
use rayac.Sema.Methods.{method_table_lookup, sema_type_name_for_method}
use rayac.Sema.Resolve.{Env, resolve_opt}
use rayac.Sema.Rules.{coerces, failed, typed_void}
use rayac.Sema.State.{
  Sema, M, ◌>>=◌, ◌>>◌, pure, crash, gets, modify, when, sema_report, on_types, shape_of, typed,
}

-- The type behind one pointer or reference.
unfoldable pub referred : ℕ → SType → ℕ
referred r (pointer c base) = base
referred r (reference c base) = base
referred r _ = r

-- The argument with the number `i`, from 1 on.
unfoldable pub argument_rule : ℕ → SourceLocation → ℕ → ℕ → M (Unit {0})
argument_rule i loc arg param = do
  ok ← coerces arg param
  when (not ok) (
      sema_report loc "argument %zu: expected '%s', found '%s'"
        (number i ∷ type_name param ∷ type_name arg ∷ []))

-- The error of an error union, where a function returns one.
abbrev returned_error : Sema → Option ℕ
returned_error s = elim s.current_fn_return_type [
  | none ↦ none
  | some t ↦ error_part (shape_at s.types t)
]
  where
    error_part : SType → Option ℕ
    error_part (error_union success error) = some error
    error_part _ = none

propagate : SourceLocation → ℕ → Option ℕ → M (Unit {0})
propagate loc inner_err none =
    sema_report loc "'try' can only propagate errors when enclosing function returns an error union"
      []
propagate loc inner_err (some fn_err) = do
  ok ← coerces inner_err fn_err
  ret ← gets (λ s. s.current_fn_return_type)
  when (not ok) (
      sema_report loc "cannot propagate error '%s' into function returning '%s'"
        (type_name inner_err ∷ elim ret [ none ↦ [] | some t ↦ type_name t ∷ [] ]))

try_shape : ℕ → SourceLocation → ℕ → SType → M ℕ
unfolding propagate
try_shape id loc inner (error_union success error) = do
  fn_err ← gets returned_error
  propagate loc error fn_err
  typed id success
try_shape id loc inner _ = do
  sema_report loc "'try' requires error union type, got '%s'" (type_name inner ∷ [])
  typed id inner

unfoldable pub try_rule : ℕ → SourceLocation → ℕ → M ℕ
unfolding try_shape
try_rule id loc inner = do shape ← shape_of inner; try_shape id loc inner shape

abbrev element : SType → Option ℕ
element (array n base) = some base
element (slice c base) = some base
element _ = none

unfoldable pub index_rule : ℕ → ℕ → M ℕ
index_rule id obj = do
  shape ← shape_of obj
  elim (element shape) [ some base ↦ typed id base | none ↦ typed_void id ]

-- `f->field_decl.name`. The list of a union's fields holds its generic parameters, whose name has the
-- same place in memory.
abbrev field_name : AstNode → Option StringView
field_name (node id loc (field_decl n is_pub type default attrs)) = some n
field_name (node id loc (generic_param_decl n traits)) = some n
field_name _ = none

abbrev is_named : StringView → Option StringView → Bool
is_named name none = false
is_named name (some n) = sv_eq n name

-- The first field with the name.
unfoldable pub find_field : NodeList → StringView → Option AstNode
find_field nil name = none
find_field (cons f fs) name =
    let rest = find_field fs name in if is_named name (field_name f) then some f else rest

module _ (env : Env) where
  -- `sema_resolve_type(s, f->field_decl.type)`. In a generic parameter the number of its traits has
  -- the place of the pointer: 0 is the null pointer.
  field_type : AstNode → M ℕ
  field_type (node id loc (field_decl n is_pub type default attrs)) = resolve_opt env type
  field_type (node id loc (generic_param_decl n [])) = resolve_opt env no_type
  field_type _ = crash

  -- The search of the fields of a struct or a union.
  field_search : ℕ → SourceLocation → ℕ → ℕ → StringView → Option NodeList → M ℕ
  unfolding field_type
  field_search id loc base struct_type name none =
      failed id loc "field access on non-struct type '%s'" (type_name base ∷ [])
  field_search id loc base struct_type name (some fields) = elim (find_field fields name) [
    | some f ↦ do t ← field_type f; typed id t
    | none ↦
        failed id loc "struct '%s' has no field '%.*s'"
          (type_name struct_type ∷ text (content name) ∷ [])
  ]

  field_in : ℕ → SourceLocation → ℕ → SType → StringView → M ℕ
  unfolding field_search
  field_in id loc base shape name = do
    fields ← sema_get_type_fields (referred base shape)
    field_search id loc base (referred base shape) name fields

  -- The fields that every slice has come first.
  field_shape : ℕ → SourceLocation → ℕ → SType → StringView → M ℕ
  unfolding field_in
  field_shape id loc base (slice c elem) name =
      if sv_eq_cstr name (codes "ptr")
      then (do t ← on_types (λ t. st_pointer t false elem); typed id t)
      else if sv_eq_cstr name (codes "len")
      then (do t ← on_types (λ t. st_int t false 64); typed id t)
      else field_in id loc base (slice c elem) name
  field_shape id loc base shape name = field_in id loc base shape name

  unfoldable pub field_access_rule : ℕ → SourceLocation → ℕ → StringView → M ℕ
  unfolding field_shape
  field_access_rule id loc base name = do shape ← shape_of base; field_shape id loc base shape name

  -- A field of a struct literal; without the fields of a declaration, the code reads a null pointer.
  unfoldable pub initializer_rule :
      SourceLocation → ℕ → Option NodeList → StringView → ℕ → M (Unit {0})
  unfolding field_type
  initializer_rule loc st none name fval = crash
  initializer_rule loc st (some fields) name fval = elim (find_field fields name) [
    | none ↦
        sema_report loc "struct '%s' has no field '%.*s'" (type_name st ∷ text (content name) ∷ [])
    | some f ↦ do
      t ← field_type f
      ok ← coerces fval t
      when (not ok) (
          sema_report loc "field '%.*s' expects '%s', got '%s'"
            (text (content name) ∷ type_name t ∷ type_name fval ∷ []))
  ]

  -- The signature of a method, with `Self` for the receiver's type.
  signature : ℕ → AstNode → M ℕ
  signature concrete method = do
    prev ← gets (λ s. s.current_self_type)
    modify (λ s. record s { current_self_type = some concrete })
    t ← sema_make_fn_type env method
    modify (λ s. record s { current_self_type = prev })
    pure t

  -- The receiver against the first parameter; the other parameters and the result are returned.
  receiver_rule : SourceLocation → ℕ → StringView → SType → M (Option (List ℕ × ℕ))
  receiver_rule loc recv name (function [] ret variadic) = do
    sema_report loc "method '%.*s' has no 'self' parameter" (text (content name) ∷ [])
    pure none
  receiver_rule loc recv name (function (self_param ∷ params) ret variadic) = do
    ok ← coerces recv self_param
    when (not (st_eq recv self_param || ok)) (
        sema_report loc "method '%.*s' expects receiver of type '%s', found '%s'"
          (text (content name) ∷ type_name self_param ∷ type_name recv ∷ []))
    pure (some (params, ret))
  receiver_rule loc recv name _ = pure none

  found_method :
      SourceLocation → ℕ → ℕ → StringView → StringView → Option AstNode → M (Option (List ℕ × ℕ))
  unfolding signature receiver_rule
  found_method loc recv concrete type name none = do
    sema_report loc "no method '%.*s' on type '%.*s'"
        (text (content name) ∷ text (content type) ∷ [])
    pure none
  found_method loc recv concrete type name (some method) = do
    t ← signature concrete method
    shape ← shape_of t
    receiver_rule loc recv name shape

  -- The lookup of a method and the check of its receiver; `none` where the type is `void`.
  unfoldable pub method_rule : SourceLocation → ℕ → StringView → M (Option (List ℕ × ℕ))
  unfolding found_method
  method_rule loc recv name = do
    shape ← shape_of recv
    type ← sema_type_name_for_method (referred recv shape)
    method ← method_table_lookup type name
    if type.len == 0
        then (do sema_report loc "cannot call method on type '%s'" (type_name recv ∷ []); pure none)
        else found_method loc recv (referred recv shape) type name method

  -- The type of the elements so far, with the element `t`, the number `i` from 1 on.
  unfoldable pub element_rule : ℕ → SourceLocation → Option ℕ → ℕ → M (Option ℕ)
  element_rule i loc none t = pure (some t)
  element_rule i loc (some elem) t = do
    keep ← coerces t elem
    widen ← coerces elem t
    if st_eq elem t || keep then pure (some elem) else if widen then pure (some t) else (do
      sema_report loc "array element %zu: expected '%s', found '%s'"
          (number i ∷ type_name elem ∷ type_name t ∷ [])
      pure (some elem))
