-- ===== src/Sema/Declare.antt =====
-- The first pass, `sema_collect_decls`, with `sema_make_fn_type` and `sema_get_type_fields`. A field
-- of a node that the parser never puts in its place is a crash.
use rayac.Base.{ℕ, Bool, true, false, not, Option, none, some, List, [], ◌∷◌, ◌==◌, if◌then◌else◌}
use rayac.Ast.Syntax.{
  AstNode, node, NodeList, nil, cons, compilation_unit, import_decl, fn_decl, struct_decl,
  union_decl, enum_decl, traits_decl, extend_decl, type_alias, const_decl, var_decl, param_decl,
}
use rayac.Diag.Engine.{SourceLocation, text}
use rayac.StringView.View.{StringView, content}
use rayac.Symbol.Scope.{
  Symbol, SymbolKind, symbol_new, scope_lookup_current, sym_module, sym_function, sym_var,
  sym_const, sym_struct, sym_union, sym_enum, sym_trait, sym_type_alias,
}
use rayac.Base.{get_elem?}
use rayac.Types.Shape.{SType, struct_, union_}
use rayac.Types.Table.{st_void, st_function}
use rayac.Sema.Methods.{method_table_add}
use rayac.Sema.Resolve.{Env, resolve_opt}
use rayac.Sema.State.{
  Sema, M, ◌>>=◌, ◌>>◌, pure, crash, gets, modify, when, sema_report, on_types, shape_of,
  declare_in, lookup_from,
}

-- The name of a struct or a union.
abbrev fields_name : SType → Option StringView
fields_name (struct_ name k x) = some name
fields_name (union_ name k x) = some name
fields_name _ = none

abbrev has_fields : SymbolKind → Bool
has_fields sym_struct = true
has_fields sym_union = true
has_fields _ = false

-- `&decl->union_decl.fields` is the memory of `struct_decl.generic_params`: a union is built in the
-- fields of `struct_decl`, and read by those of `union_decl`.
abbrev fields_of : AstNode → Option NodeList
fields_of (node id loc (struct_decl name is_pub generic_params fields attrs)) = some fields
fields_of (node id loc (union_decl name is_pub generic_params fields attrs)) = some generic_params
fields_of _ = none

abbrev decl_fields : Option AstNode → Option NodeList
decl_fields none = none
decl_fields (some decl) = fields_of decl

-- The fields of the declaration that the name was found to have.
abbrev pub declared_fields : Option (Symbol AstNode) → Option NodeList
declared_fields none = none
declared_fields (some sym) = if has_fields sym.kind then decl_fields sym.decl else none

unfoldable pub sema_get_type_fields : ℕ → M (Option NodeList)
sema_get_type_fields r = do
  shape ← shape_of r
  elim (fields_name shape) [
    | none ↦ pure none
    | some name ↦ do sym ← lookup_from (λ s. s.module_scope) name; pure (declared_fields sym)
  ]

module _ (env : Env) where
  unfoldable pub param_type : AstNode → M ℕ
  param_type (node id loc (param_decl name type default is_comptime is_self)) = resolve_opt env type
  param_type _ = crash

  unfoldable pub param_types : NodeList → M (List ℕ)
  param_types nil = pure []
  param_types (cons p ps) = do r ← param_type p; rs ← param_types ps; pure (r ∷ rs)

  unfoldable pub sema_make_fn_type : AstNode → M ℕ
  sema_make_fn_type (node id loc (fn_decl n p c u e generic_params params ret_type body attrs)) = do
    ps ← param_types params
    ret ← resolve_opt env ret_type
    on_types (λ t. st_function t ps ret false)
  sema_make_fn_type _ = crash

  -- `alias.len == 0`: the last part of the path.
  abbrev last_part : List StringView → Option StringView
  last_part [] = none
  last_part (x ∷ []) = some x
  last_part (x ∷ y ∷ rest) = last_part (y ∷ rest)

  import_name : List StringView → StringView → M StringView
  import_name parts alias =
      if alias.len == 0
      then elim (last_part parts) [ none ↦ crash | some name ↦ pure name ]
      else pure alias

  unfoldable pub collect_import : AstNode → M (Unit {0})
  unfolding import_name
  collect_import (node id loc (import_decl parts alias)) = do
    name ← import_name parts alias
    t ← on_types st_void
    scope ← gets λ s. s.module_scope
    declare_in scope
        (symbol_new sym_module name (some t) (some (node id loc (import_decl parts alias))))
  collect_import _ = crash

  unfoldable pub collect_imports : NodeList → M (Unit {0})
  collect_imports nil = pure tt
  collect_imports (cons x xs) = do collect_import x; collect_imports xs

  -- The end of the loop over the declarations.
  unfoldable pub declare_name :
      AstNode → SourceLocation → Bool → Bool → SymbolKind → StringView → Option ℕ → M (Unit {0})
  declare_name decl loc is_pub is_comptime kind name type s =
      let new = record (symbol_new kind name type (some decl)) {
        is_pub = is_pub;
        is_comptime = is_comptime;
      } in
      elim (in_module s) [
        | some old ↦ sema_report loc "redefinition of '%.*s'" (text (content name) ∷ []) s
        | none ↦ declare_in s.module_scope new s
      ]
    where
      in_module : Sema → Option (Symbol AstNode)
      in_module s = elim (get_elem? s.scopes s.module_scope) [
        | none ↦ none
        | some sc ↦ scope_lookup_current sc name
      ]

  abbrev pub is_extendable : Option (Symbol AstNode) → Bool
  is_extendable none = false
  is_extendable (some sym) = elim sym.kind [
    | sym_struct ↦ true
    | sym_union ↦ true
    | sym_enum ↦ true
    | _ ↦ false
  ]

  collect_method : StringView → AstNode → M (Unit {0})
  collect_method target
        (node id loc (fn_decl n p c u e generic_params params ret_type body attrs)) =
      method_table_add target n
        (node id loc (fn_decl n p c u e generic_params params ret_type body attrs))
  collect_method target _ = pure tt

  unfoldable pub collect_methods : StringView → NodeList → M (Unit {0})
  unfolding collect_method
  collect_methods target nil = pure tt
  collect_methods target (cons x xs) = do collect_method target x; collect_methods target xs

  -- `type = st_void(s->types)`
  with_void : (Option ℕ → M (Unit {0})) → M (Unit {0})
  with_void f = do t ← on_types st_void; f (some t)

  unfoldable pub collect_decl : AstNode → M (Unit {0})
  unfolding with_void
  collect_decl (node id loc (fn_decl n p c u e generic_params params ret_type body attrs)) = do
    let decl = node id loc (fn_decl n p c u e generic_params params ret_type body attrs)
    t ← sema_make_fn_type decl
    declare_name decl loc p c sym_function n (some t)
  collect_decl (node id loc (struct_decl n p generic_params fields attrs)) = with_void (
      declare_name (node id loc (struct_decl n p generic_params fields attrs)) loc p false
        sym_struct n)
  collect_decl (node id loc (union_decl n p generic_params fields attrs)) = with_void (
      declare_name (node id loc (union_decl n p generic_params fields attrs)) loc p false sym_union
        n)
  collect_decl (node id loc (enum_decl n p variants attrs)) =
      with_void (declare_name (node id loc (enum_decl n p variants attrs)) loc p false sym_enum n)
  collect_decl (node id loc (traits_decl n p methods attrs)) =
      with_void (declare_name (node id loc (traits_decl n p methods attrs)) loc p false sym_trait n)
  collect_decl (node id loc (type_alias n p type attrs)) =
      declare_name (node id loc (type_alias n p type attrs)) loc p false sym_type_alias n none
  collect_decl (node id loc (const_decl n p c type init attrs)) =
      declare_name (node id loc (const_decl n p c type init attrs)) loc p c sym_const n none
  collect_decl (node id loc (var_decl n p c type init attrs)) =
      declare_name (node id loc (var_decl n p c type init attrs)) loc p c sym_var n none
  collect_decl (node id loc (extend_decl target generic_params traits methods attrs)) = do
    sym ← lookup_from (λ s. s.module_scope) target
    when (not (is_extendable sym)) (
        sema_report loc "extend target '%.*s' is not a struct, union, or enum"
          (text (content target) ∷ []))
    collect_methods target methods
  collect_decl _ = pure tt

  unfoldable pub collect_each : NodeList → M (Unit {0})
  collect_each nil = pure tt
  collect_each (cons x xs) = do collect_decl x; collect_each xs

  -- On a node that is no compilation unit the flag stays set.
  unfoldable pub sema_collect_decls : AstNode → M (Unit {0})
  sema_collect_decls (node id loc (compilation_unit name imports decls)) = do
    modify (λ s. record s { in_collect_decls = true })
    collect_imports imports
    collect_each decls
    modify (λ s. record s { in_collect_decls = false })
  sema_collect_decls _ = modify (λ s. record s { in_collect_decls = true })
