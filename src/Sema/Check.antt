-- ===== src/Sema/Check.antt =====
-- `sema_check_block`, `sema_check_stmt` and `sema_check_expr`. The last two are `check` with a flag
-- that is set for a statement: `sema_check_stmt` calls `sema_check_expr` on the same node where it is
-- not a statement.
use rayac.Base.{
  ℕ, suc, Bool, true, false, ◌&&◌, Option, none, some, List, [], ◌∷◌, ◌==◌, if◌then◌else◌,
}
use rayac.Ast.Syntax.{
  AstNode, node, NodeList, nil, cons, NodeOpt, null, at, AstKind, const_decl, var_decl, block,
  expr_stmt, return_stmt, if_stmt, while_stmt, for_stmt, defer_stmt, errdefer_stmt, break_stmt,
  continue_stmt, match_stmt, match_arm, assign_stmt, int_literal, float_literal, string_literal,
  char_literal, bool_literal, identifier, binary_expr, unary_expr, call_expr, method_call_expr,
  field_access_expr, index_expr, slice_expr, cast_expr, try_expr, error_capture_expr,
  unsafe_block_expr, array_literal, struct_literal, loc_of, TypeOpt, no_type, of_type,
}
use rayac.Diag.Engine.{SourceLocation, type_name}
use rayac.Symbol.Scope.{symbol_new, sym_var}
use rayac.Types.Table.{st_void, st_bool, st_int, st_float, st_slice}
use rayac.Sema.Accesses.{
  argument_rule, try_rule, index_rule, field_access_rule, initializer_rule, method_rule,
  element_rule,
}
use rayac.Sema.Declare.{sema_get_type_fields}
use rayac.Sema.Forms.{
  is_given, is_missing, is_present, count, array_type, explicit_type, in_block, call_rule,
  method_call, capture_rule,
}
use rayac.Sema.Operators.{binary_rule, unary_rule}
use rayac.Sema.Resolve.{Env, resolve_opt}
use rayac.Sema.Rules.{
  typed_void, failed, expect_bool, local_type, declare_local, expected_type, return_rule,
  errdefer_rule, assign_rule, identifier_rule,
}
use rayac.Sema.State.{
  M, ◌>>=◌, ◌>>◌, pure, crash, gets, modify, when, sema_report, on_types, shape_of, typed,
  enter_scope, leave_scope, declare,
}

module _ (env : Env) where
  unfoldable mutual
    unfolding explicit_type in_block call_rule method_call capture_rule

    -- `stmt` is set for `sema_check_stmt`.
    pub check : Bool → AstNode → M ℕ
    check stmt (node id loc k) = check_kind stmt id loc k

    pub check_kind : Bool → ℕ → SourceLocation → AstKind → M ℕ
    check_kind true id loc (var_decl n p c type init attrs) = do
      void ← on_types st_void
      init_type ← check_or void init
      t ← local_type env loc n type (is_present init) init_type
      declare_local false n t (node id loc (var_decl n p c type init attrs))
    check_kind true id loc (const_decl n p c type init attrs) = do
      void ← on_types st_void
      init_type ← check_or void init
      t ← local_type env loc n type (is_present init) init_type
      declare_local true n t (node id loc (const_decl n p c type init attrs))
    check_kind true id loc (return_stmt value) = do
      modify (λ s. record s { current_fn_has_return = true })
      before ← gets (λ s. s.error_count)
      void ← on_types st_void
      ret ← check_or void value
      expected ← expected_type
      after ← gets (λ s. s.error_count)
      when (after == before) (return_rule id loc ret expected)
      on_types st_void
    check_kind true id loc (expr_stmt e) = do check_expr e; on_types st_void
    check_kind true id loc (block stmts trailing) =
        in_block (node id loc (block stmts trailing)) (λ void. check_stmts void stmts)
          (λ last. check_or last trailing)
    check_kind true id loc (if_stmt condition then_block else_block) = do
      cond ← check_expr condition
      expect_bool condition "if condition must be boolean" cond
      check_body then_block
      check_else else_block
      on_types st_void
    check_kind true id loc (while_stmt condition body) = do
      cond ← check_expr condition
      expect_bool condition "while condition must be boolean" cond
      check_body body
      on_types st_void
    check_kind true id loc (for_stmt name type iterable body) = do
      prev ← enter_scope (node id loc (for_stmt name type iterable body))
      check_expr iterable
      vt ← loop_type type
      declare (
          symbol_new sym_var name (some vt) (some (node id loc (for_stmt name type iterable body))))
      check_body body
      leave_scope prev
      on_types st_void
    check_kind true id loc (defer_stmt e) = do check_expr e; on_types st_void
    check_kind true id loc (errdefer_stmt body) = do
      errdefer_rule loc
      check_body body
      on_types st_void
    check_kind true id loc break_stmt = on_types st_void
    check_kind true id loc continue_stmt = on_types st_void
    check_kind true id loc (match_stmt e arms) = do check_expr e; on_types st_void
    check_kind true id loc (assign_stmt op lhs rhs) = do
      l ← check false lhs
      r ← check_expr rhs
      assign_rule loc lhs l r
    check_kind stmt id loc (int_literal v) = do t ← on_types (λ t. st_int t true 64); typed id t
    check_kind stmt id loc (float_literal v) = do t ← on_types (λ t. st_float t 64); typed id t
    check_kind stmt id loc (string_literal v) = do
      u8 ← on_types (λ t. st_int t false 8)
      t ← on_types (λ t. st_slice t true u8)
      typed id t
    check_kind stmt id loc (char_literal v) = do t ← on_types (λ t. st_int t false 8); typed id t
    check_kind stmt id loc (bool_literal v) = do t ← on_types st_bool; typed id t
    check_kind stmt id loc (identifier name) = identifier_rule id loc name
    check_kind stmt id loc (binary_expr op left right) = do
      l ← check_expr left
      r ← check_expr right
      binary_rule id loc op l r
    check_kind stmt id loc (unary_expr op operand) = do
      o ← check_expr operand
      unary_rule id loc op o
    check_kind stmt id loc (call_expr callee args) = do
      c ← check_expr callee
      shape ← shape_of c
      call_rule id loc shape (count args) (λ params. check_args 1 params args)
    check_kind stmt id loc (method_call_expr receiver name args) = do
      recv ← check_expr receiver
      found ← method_rule env loc recv name
      method_call id loc name found (count args) (λ params. check_args 1 params args)
    check_kind stmt id loc (field_access_expr object name) = do
      base ← check_expr object
      field_access_rule env id loc base name
    check_kind stmt id loc (index_expr object index) = do
      obj ← check_expr object
      check_expr index
      index_rule id obj
    check_kind stmt id loc (slice_expr object start end) = do
      check_expr object
      check_or 0 start
      check_or 0 end
      typed_void id
    check_kind stmt id loc (cast_expr e type) = do
      t ← resolve_opt env type
      check_expr e
      typed id t
    check_kind stmt id loc (try_expr e) = do inner ← check_expr e; try_rule id loc inner
    check_kind stmt id loc (unsafe_block_expr body) = do
      prev ← gets (λ s. s.in_unsafe)
      modify (λ s. record s { in_unsafe = true })
      t ← check_body body
      modify (λ s. record s { in_unsafe = prev })
      typed id t
    check_kind stmt id loc (array_literal type len elements sentinel) = do
      elem ← check_elements 1 none elements
      t ← explicit_type env loc type elem
      a ← array_type env len t
      typed id a
    check_kind stmt id loc (struct_literal type fields) = do
      st ← resolve_opt env type
      typed id st
      decl_fields ← sema_get_type_fields st
      if is_missing decl_fields && is_given type
          then sema_report loc "cannot resolve fields for type '%s'" (type_name st ∷ [])
          else check_fields st decl_fields fields
      pure st
    check_kind stmt id loc (match_arm pattern e) = do t ← check_expr e; typed id t
    check_kind stmt id loc (error_capture_expr (node i l (try_expr e)) name fallback) = do
      inner ← check_expr e
      shape ← shape_of inner
      capture_rule (node id loc (error_capture_expr (node i l (try_expr e)) name fallback)) id loc
          inner shape name fallback (check_body fallback)
    check_kind stmt id loc (error_capture_expr e name fallback) =
        failed id loc "internal error: try else without try expression" []
    check_kind stmt id loc _ = typed_void id

    -- `sema_check_expr` on a pointer that may be null
    pub check_expr : NodeOpt → M ℕ
    check_expr null = on_types st_void
    check_expr (at e) = check false e

    -- A part that is checked only where it is there.
    pub check_or : ℕ → NodeOpt → M ℕ
    check_or default null = pure default
    check_or default (at e) = check false e

    pub check_block : AstNode → M ℕ
    check_block (node id loc (block stmts trailing)) =
        in_block (node id loc (block stmts trailing)) (λ void. check_stmts void stmts)
          (λ last. check_or last trailing)
    check_block _ = crash

    -- `sema_check_block` on a pointer that may be null
    pub check_body : NodeOpt → M ℕ
    check_body null = on_types st_void
    check_body (at b) = check_block b

    pub check_else : NodeOpt → M (Unit {0})
    check_else null = pure tt
    check_else (at b) = do check_block b; pure tt

    pub check_stmts : ℕ → NodeList → M ℕ
    check_stmts last nil = pure last
    check_stmts last (cons x xs) = do t ← check true x; check_stmts t xs

    -- The type of the variable of a loop.
    pub loop_type : TypeOpt → M ℕ
    loop_type no_type = on_types (λ t. st_int t true 64)
    loop_type (of_type t) = resolve_opt env (of_type t)

    pub check_args : ℕ → List ℕ → NodeList → M (Unit {0})
    check_args i params nil = pure tt
    check_args i [] (cons a rest) = pure tt
    check_args i (p ∷ ps) (cons a rest) = do
      t ← check false a
      argument_rule i (loc_of a) t p
      check_args (suc i) ps rest

    pub check_elements : ℕ → Option ℕ → NodeList → M (Option ℕ)
    check_elements i elem nil = pure elem
    check_elements i elem (cons x xs) = do
      t ← check false x
      next ← element_rule env i (loc_of x) elem t
      check_elements (suc i) next xs

    pub check_fields : ℕ → Option NodeList → NodeList → M (Unit {0})
    check_fields st fields nil = pure tt
    check_fields st fields (cons x xs) = do check_field st fields x; check_fields st fields xs

    pub check_field : ℕ → Option NodeList → AstNode → M (Unit {0})
    check_field st fields (node id loc (assign_stmt op (node i l (identifier name)) rhs)) = do
      fval ← check_expr rhs
      initializer_rule env loc st fields name fval
    check_field st fields (node id loc _) = sema_report loc "invalid struct field initializer" []
