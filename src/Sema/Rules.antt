-- ===== src/Sema/Rules.antt =====
-- What `sema_check_stmt` and `sema_check_expr` do once the parts of a node are checked: statements
-- and identifiers.
use rayac.Base.{
  ℕ, Bool, true, false, not, ◌&&◌, ◌||◌, Option, none, some, List, [], ◌∷◌, String, codes,
  if◌then◌else◌,
}
use rayac.Ast.Syntax.{
  AstNode, node, identifier, NodeOpt, null, at, loc_of, TypeOpt, no_type, of_type,
}
use rayac.Diag.Engine.{SourceLocation, text, number, type_name}
use rayac.StringView.View.{StringView, content, sv_eq_cstr}
use rayac.Symbol.Scope.{Symbol, symbol_new, sym_const, sym_var}
use rayac.Types.Coerce.{st_can_coerce}
use rayac.Types.Shape.{SType, bool, error_union}
use rayac.Types.Table.{shape_at, st_void, st_eq}
use rayac.Sema.Resolve.{Env, sema_resolve_type, is_const}
use rayac.Sema.State.{
  Sema, M, crash, ◌>>=◌, ◌>>◌, pure, gets, modify, when, sema_report, on_types, shape_of, typed,
  set_symbol, latest, declare, lookup_from,
}

abbrev pub coerces : ℕ → ℕ → M Bool
coerces from to = gets λ s. st_can_coerce s.types from to

-- `expr->sema_type = st_void(s->types); return expr->sema_type;`
unfoldable pub typed_void : ℕ → M ℕ
typed_void id = do t ← on_types st_void; typed id t

-- A report, and the type `void`.
unfoldable pub failed : ℕ → SourceLocation → String → List rayac.Diag.Engine.Arg → M ℕ
failed id loc format args = do sema_report loc format args; typed_void id

abbrev pub is_bool : SType → Bool
is_bool bool = true
is_bool _ = false

abbrev pub is_error_union : SType → Bool
is_error_union (error_union s e) = true
is_error_union _ = false

-- A report at a node; where that could not be parsed, the code reads a null pointer.
report_at : NodeOpt → String → M (Unit {0})
report_at null format = crash
report_at (at e) format = sema_report (loc_of e) format []

-- A condition.
unfoldable pub expect_bool : NodeOpt → String → ℕ → M (Unit {0})
unfolding report_at
expect_bool condition format r = do
  shape ← shape_of r
  when (not (is_bool shape)) (report_at condition format)

-- The type of a local variable, and the check of its initializer.
unfoldable pub local_type : Env → SourceLocation → StringView → TypeOpt → Bool → ℕ → M ℕ
local_type env loc name no_type has_init init_type = pure init_type
local_type env loc name (of_type te) has_init init_type = do
  decl_type ← sema_resolve_type env te
  ok ← coerces init_type decl_type
  when (has_init && not ok) (
      sema_report loc "cannot initialize variable '%.*s' of type '%s' with '%s'"
        (text (content name) ∷ type_name decl_type ∷ type_name init_type ∷ []))
  pure decl_type

unfoldable pub declare_local : Bool → StringView → ℕ → AstNode → M ℕ
declare_local constant name type decl = do
  declare (symbol_new (if constant then sym_const else sym_var) name (some type) (some decl))
  on_types st_void

-- `stmt->return_stmt.is_error_return = b;`
abbrev set_error_return : ℕ → Bool → M (Unit {0})
set_error_return id b = modify λ s. record s { error_returns = (id, b) ∷ s.error_returns }

-- `s->current_fn_return_type ? s->current_fn_return_type : st_void(s->types)`
unfoldable pub expected_type : M ℕ
expected_type = do
  set ← gets (λ s. s.current_fn_return_type)
  elim set [ some t ↦ pure t | none ↦ on_types st_void ]

-- The return from a function of an error union.
unfoldable pub return_either : ℕ → SourceLocation → ℕ → ℕ → ℕ → ℕ → M (Unit {0})
return_either id loc ret expected success error = do
  shape ← shape_of ret
  to_error ← coerces ret error
  to_success ← coerces ret success
  if is_error_union shape && st_eq ret expected || to_error
      then set_error_return id true
      else if to_success
      then set_error_return id false
      else sema_report loc "cannot return '%s' from function returning '%s'"
          (type_name ret ∷ type_name expected ∷ [])

unfoldable pub return_rule : ℕ → SourceLocation → ℕ → ℕ → M (Unit {0})
return_rule id loc ret expected = do
  shape ← shape_of expected
  ok ← coerces ret expected
  elim shape [
    | error_union success error ↦ return_either id loc ret expected success error
    | _ ↦ when (not ok) (
        sema_report loc "return type mismatch: expected '%s', found '%s'"
          (type_name expected ∷ type_name ret ∷ []))
  ]

-- The test of `errdefer`.
unfoldable pub errdefer_rule : SourceLocation → M (Unit {0})
errdefer_rule loc s =
    when (not (returns_error s.current_fn_return_type))
      (sema_report loc "'errdefer' only valid in functions returning error unions" []) s
  where
    returns_error : Option ℕ → Bool
    returns_error none = false
    returns_error (some t) = is_error_union (shape_at s.types t)

-- The symbol that the left side of an assignment was bound to, where that is an identifier.
abbrev pub assigned_symbol : AstNode → Sema → Option (Symbol AstNode)
assigned_symbol (node id loc (identifier name)) s = elim (latest id s.node_symbols) [
  | none ↦ none
  | some sym ↦ sym
]
assigned_symbol _ s = none

assign_constant : SourceLocation → Option (Symbol AstNode) → M (Unit {0})
assign_constant loc none = pure tt
assign_constant loc (some sym) =
    when (is_const sym.kind)
      (sema_report loc "cannot assign to constant '%.*s'" (text (content sym.name) ∷ []))

unfoldable pub assign_rule : SourceLocation → AstNode → ℕ → ℕ → M ℕ
unfolding assign_constant
assign_rule loc lhs l r = do
  sym ← gets (assigned_symbol lhs)
  assign_constant loc sym
  ok ← coerces r l
  when (not ok) (sema_report loc "cannot assign '%s' to '%s'" (type_name r ∷ type_name l ∷ []))
  on_types st_void

unfoldable pub bound_identifier : ℕ → SourceLocation → StringView → M ℕ
bound_identifier id loc name = do
  sym ← lookup_from (λ s. s.current_scope) name
  set_symbol id sym
  elim sym [
    | none ↦ failed id loc "use of undeclared identifier '%.*s'" (text (content name) ∷ [])
    | some x ↦ elim x.type [ some t ↦ typed id t | none ↦ typed_void id ]
  ]

unfoldable pub identifier_rule : ℕ → SourceLocation → StringView → M ℕ
identifier_rule id loc name s =
    if sv_eq_cstr name (codes "self") && outside s.current_self_type
    then (do set_symbol id none; failed id loc "'self' can only be used inside methods" []) s
    else bound_identifier id loc name s
  where
    outside : Option ℕ → Bool
    outside none = true
    outside (some t) = false
