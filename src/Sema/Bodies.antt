-- ===== src/Sema/Bodies.antt =====
-- The second pass, `sema_check_fn_body` and `sema_resolve_bodies`, and `sema_run`.
use rayac.Base.{
  ℕ, Bool, true, false, not, ◌&&◌, Option, none, some, [], ◌∷◌, String, codes, ltb, if◌then◌else◌,
}
use rayac.Ast.Syntax.{
  AstNode, node, NodeList, nil, cons, NodeOpt, null, at, compilation_unit, fn_decl, extend_decl,
  const_decl, var_decl, param_decl, generic_param_decl, loc_of, TypeOpt, no_type, of_type,
}
use rayac.Diag.Engine.{SourceLocation, text, type_name}
use rayac.StringView.View.{StringView, content, sv_from_cstr}
use rayac.Symbol.Scope.{Symbol, scope_new, symbol_new, sym_var, sym_generic_param, set_type}
use rayac.Types.Table.{st_void, st_eq}
use rayac.Sema.Check.{check_expr, check_body}
use rayac.Sema.Declare.{sema_collect_decls, is_extendable}
use rayac.Sema.Diverge.{is_noreturn}
use rayac.Sema.Forms.{is_given}
use rayac.Sema.Resolve.{Env, resolve_opt, is_void}
use rayac.Sema.Rules.{coerces}
use rayac.Sema.State.{
  Sema, M, ◌>>=◌, ◌>>◌, pure, crash, gets, modify, when, sema_report, on_types, shape_of,
  declare_in, lookup_from,
}

module _ (env : Env) where
  generic_param : ℕ → AstNode → M (Unit {0})
  generic_param scope (node id loc (generic_param_decl name bounds)) = do
    t ← on_types st_void
    declare_in scope (
        symbol_new sym_generic_param name (some t)
          (some (node id loc (generic_param_decl name bounds))))
  generic_param scope _ = crash

  unfoldable pub declare_generics : ℕ → NodeList → M (Unit {0})
  unfolding generic_param
  declare_generics scope nil = pure tt
  declare_generics scope (cons x xs) = do generic_param scope x; declare_generics scope xs

  -- The type of `self`: the one that is written, or that of the methods' target.
  self_type : TypeOpt → Option ℕ → M ℕ
  self_type (of_type t) self = resolve_opt env (of_type t)
  self_type no_type (some t) = pure t
  self_type no_type none = on_types st_void

  abbrev is_none : Option ℕ → Bool
  is_none none = true
  is_none (some t) = false

  fn_param : ℕ → AstNode → M (Unit {0})
  unfolding self_type sv_from_cstr
  fn_param scope (node id loc (param_decl name type default is_comptime true)) = do
    self ← gets (λ s. s.current_self_type)
    when (is_none self) (sema_report loc "'self' parameter only allowed in methods" [])
    t ← self_type type self
    modify (λ s. record s { current_self_type = some t })
    declare_in scope (
        symbol_new sym_var (sv_from_cstr (codes "self")) (some t)
          (some (node id loc (param_decl name type default is_comptime true))))
  fn_param scope (node id loc (param_decl name type default is_comptime false)) = do
    t ← resolve_opt env type
    declare_in scope (
        symbol_new sym_var name (some t)
          (some (node id loc (param_decl name type default is_comptime false))))
  fn_param scope _ = crash

  unfoldable pub declare_params : ℕ → NodeList → M (Unit {0})
  unfolding fn_param
  declare_params scope nil = pure tt
  declare_params scope (cons x xs) = do fn_param scope x; declare_params scope xs

  -- The report at the body's location; without a body the code reads a null pointer.
  report_body : NodeOpt → ℕ → ℕ → M (Unit {0})
  report_body null ret body_type = crash
  report_body (at b) ret body_type =
      sema_report (loc_of b) "expected return type '%s', found '%s'"
        (type_name ret ∷ type_name body_type ∷ [])

  -- The type of the body against the type of the result, where the body has no `return`.
  unfoldable pub body_rule : NodeOpt → ℕ → ℕ → M (Unit {0})
  unfolding report_body
  body_rule body ret body_type = do
    returned ← gets (λ s. s.current_fn_has_return)
    shape ← shape_of body_type
    ok ← coerces body_type ret
    when (not returned && not (st_eq ret body_type) && not (is_noreturn shape) && not ok)
        (report_body body ret body_type)

  -- The new scope of a function, below that of the module, which becomes the current one.
  unfoldable pub enter_fn : AstNode → Bool → M ℕ
  enter_fn fn is_unsafe s =
      let (n, scopes) = scope_new s.scopes (some s.module_scope) (some fn) in
      some (
        n,
        record s {
          scopes = scopes;
          current_scope = n;
          current_fn = some fn;
          current_fn_has_return = false;
          in_unsafe = is_unsafe;
        },
      )

  -- What is put back at the end, as it was in `before`.
  unfoldable pub leave_fn : Sema → M (Unit {0})
  leave_fn before = modify λ s. record s {
    current_scope = before.current_scope;
    current_fn = before.current_fn;
    current_self_type = before.current_self_type;
    in_unsafe = before.in_unsafe;
    current_fn_return_type = none;
  }

  unfoldable pub sema_check_fn_body : AstNode → M (Unit {0})
  sema_check_fn_body (node id loc (fn_decl n p c u e generic_params params ret_type body attrs)) =
      do
        before ← gets (λ s. s)
        scope ←
            enter_fn (node id loc (fn_decl n p c u e generic_params params ret_type body attrs)) u
        declare_generics scope generic_params
        declare_params scope params
        ret ← resolve_opt env ret_type
        modify (λ s. record s { current_fn_return_type = some ret })
        body_type ← check_body env body
        body_rule body ret body_type
        leave_fn before
  sema_check_fn_body _ = crash

  abbrev is_fn : AstNode → Bool
  is_fn (node id loc (fn_decl n p c u e generic_params params ret_type body attrs)) = true
  is_fn _ = false

  unfoldable pub check_methods : NodeList → M (Unit {0})
  check_methods nil = pure tt
  check_methods (cons x xs) = do when (is_fn x) (sema_check_fn_body x); check_methods xs

  -- `target_sym->type && target_sym->type->kind != ST_VOID ? target_sym->type : st_void(s->types)`
  unfoldable pub target_type : Option (Symbol AstNode) → M ℕ
  target_type none = on_types st_void
  target_type (some sym) = elim sym.type [
    | none ↦ on_types st_void
    | some t ↦ do shape ← shape_of t; if is_void shape then on_types st_void else pure t
  ]

  unfoldable pub check_extension : StringView → NodeList → M (Unit {0})
  check_extension target methods = do
    sym ← lookup_from (λ s. s.module_scope) target
    if not (is_extendable env sym) then pure tt else (do
      prev ← gets (λ s. s.current_self_type)
      t ← target_type sym
      modify (λ s. record s { current_self_type = some t })
      check_methods methods
      modify (λ s. record s { current_self_type = prev }))

  -- The declared type of a global, against the type of its initializer.
  unfoldable pub global_type : SourceLocation → String → StringView → TypeOpt → ℕ → M (Unit {0})
  global_type loc what name no_type init_type = pure tt
  global_type loc what name (of_type te) init_type = do
    decl_type ← resolve_opt env (of_type te)
    ok ← coerces init_type decl_type
    when (not ok) (
        sema_report loc "cannot initialize %s '%.*s' of type '%s' with '%s'" (
          text (codes what) ∷ text (content name) ∷ type_name decl_type ∷ type_name init_type ∷ []))

  -- `sym->type = ...` on the symbol of the module that the name is bound to.
  set_global : StringView → ℕ → M (Unit {0})
  set_global name t = modify λ s. record s { scopes = set_type s.scopes s.module_scope name t }

  bind_global : StringView → TypeOpt → ℕ → Option (Symbol AstNode) → M (Unit {0})
  unfolding set_global
  bind_global name type init_type none = pure tt
  bind_global name type init_type (some sym) = elim sym.type [
    | some t ↦ pure tt
    | none ↦ do
      t ← if is_given type then resolve_opt env type else pure init_type
      set_global name t
  ]

  unfoldable pub check_global :
      SourceLocation → String → StringView → TypeOpt → NodeOpt → M (Unit {0})
  unfolding bind_global
  check_global loc what name type null = pure tt
  check_global loc what name type (at init) = do
    init_type ← check_expr env (at init)
    global_type loc what name type init_type
    sym ← lookup_from (λ s. s.module_scope) name
    bind_global name type init_type sym

  unfoldable pub resolve_decl : AstNode → M (Unit {0})
  resolve_decl (node id loc (fn_decl n p c u e generic_params params ret_type body attrs)) = do
    modify (λ s. record s { current_self_type = none })
    sema_check_fn_body (node id loc (fn_decl n p c u e generic_params params ret_type body attrs))
  resolve_decl (node id loc (const_decl n p c type init attrs)) =
      check_global loc "constant" n type init
  resolve_decl (node id loc (var_decl n p c type init attrs)) =
      check_global loc "variable" n type init
  resolve_decl (node id loc (extend_decl target generic_params traits methods attrs)) =
      check_extension target methods
  resolve_decl _ = pure tt

  unfoldable pub resolve_each : NodeList → M (Unit {0})
  resolve_each nil = pure tt
  resolve_each (cons x xs) = do resolve_decl x; resolve_each xs

  unfoldable pub sema_resolve_bodies : AstNode → M (Unit {0})
  sema_resolve_bodies (node id loc (compilation_unit name imports decls)) = resolve_each decls
  sema_resolve_bodies _ = pure tt

  unfoldable pub sema_run : AstNode → M (Unit {0})
  sema_run module_ = do
    sema_collect_decls env module_
    errors ← gets (λ s. s.error_count)
    when (not (ltb 0 errors)) (sema_resolve_bodies module_)
