-- ===== src/Sema/Forms.antt =====
-- What `sema_check_stmt` and `sema_check_expr` do around the checks of the parts of a node, which are
-- arguments here.
use rayac.Base.{
  ℕ, suc, Bool, true, false, not, ◌&&◌, Option, none, some, List, [], ◌∷◌, length, ◌==◌,
  if◌then◌else◌,
}
use rayac.Ast.Syntax.{AstNode, NodeList, nil, cons, NodeOpt, null, at, TypeOpt, no_type, of_type}
use rayac.Diag.Engine.{SourceLocation, text, number, type_name}
use rayac.StringView.View.{StringView, content}
use rayac.Symbol.Scope.{symbol_new, sym_var}
use rayac.Types.Shape.{SType, error_union, function}
use rayac.Types.Table.{st_void, st_slice, st_array}
use rayac.Sema.Diverge.{block_opt_diverges}
use rayac.Sema.Resolve.{Env, resolve_opt, sema_eval_const_expr}
use rayac.Sema.Rules.{coerces, typed_void, failed}
use rayac.Sema.State.{
  M, ◌>>=◌, ◌>>◌, pure, gets, when, sema_report, on_types, typed, enter_scope, leave_scope, declare,
}

abbrev pub is_given : TypeOpt → Bool
is_given no_type = false
is_given (of_type t) = true

abbrev pub is_missing : Option NodeList → Bool
is_missing none = true
is_missing (some fields) = false

abbrev pub is_present : NodeOpt → Bool
is_present null = false
is_present (at e) = true

abbrev pub count : NodeList → ℕ
count nil = 0
count (cons x xs) = suc (count xs)

-- The type of a literal array, of the type of its elements.
abbrev pub array_type : Env → NodeOpt → ℕ → M ℕ
array_type env null elem = on_types λ t. st_slice t false elem
array_type env (at e) elem = do n ← sema_eval_const_expr env (at e); on_types λ t. st_array t n elem

-- The explicit type of the elements, against the type `elem` that they have.
unfoldable pub explicit_type : Env → SourceLocation → TypeOpt → Option ℕ → M ℕ
explicit_type env loc no_type none = on_types st_void
explicit_type env loc no_type (some elem) = pure elem
explicit_type env loc type none = resolve_opt env type
explicit_type env loc type (some elem) = do
  t ← resolve_opt env type
  ok ← coerces elem t
  when (not ok) (
      sema_report loc "cannot initialize array of '%s' with '%s'"
        (type_name t ∷ type_name elem ∷ []))
  pure t

-- The fallback of `try else`, with the type `fb`, where the value has the type `succ`.
unfoldable pub fallback_rule : SourceLocation → NodeOpt → ℕ → ℕ → M (Unit {0})
fallback_rule loc fallback fb succ = do
  diverges ← gets (λ s. block_opt_diverges s fallback)
  ok ← coerces fb succ
  when (not diverges && not ok) (
      sema_report loc "'try else' fallback produces '%s', expected '%s' or diverging block"
        (type_name fb ∷ type_name succ ∷ []))

unfoldable pub capture_failed : ℕ → SourceLocation → ℕ → M ℕ
capture_failed id loc inner = do
  sema_report loc "'try else' requires error union type, got '%s'" (type_name inner ∷ [])
  typed id inner

-- The scope of a block, its statements and its last expression.
unfoldable pub in_block : AstNode → (ℕ → M ℕ) → (ℕ → M ℕ) → M ℕ
in_block owner stmts trailing = do
  prev ← enter_scope owner
  void ← on_types st_void
  last ← stmts void
  t ← trailing last
  leave_scope prev
  pure t

-- The arguments, which are checked only where they are as many as the parameters.
unfoldable pub call_rule : ℕ → SourceLocation → SType → ℕ → (List ℕ → M (Unit {0})) → M ℕ
call_rule id loc (function params ret variadic) got check_args = do
  if got == length params
      then check_args params
      else sema_report loc "function expects %zu argument(s), got %zu"
          (number (length params) ∷ number got ∷ [])
  typed id ret
call_rule id loc _ got check_args = failed id loc "called object is not a function" []

unfoldable pub method_call :
    ℕ → SourceLocation → StringView → Option (List ℕ × ℕ) → ℕ → (List ℕ → M (Unit {0})) → M ℕ
method_call id loc name none got check_args = typed_void id
method_call id loc name (some (params, ret)) got check_args = do
  if got == length params
      then check_args params
      else sema_report loc "method '%.*s' expects %zu argument(s) (including self), got %zu"
          (text (content name) ∷ number (suc (length params)) ∷ number (suc got) ∷ [])
  typed id ret

-- The fallback of `try else` in a scope of its own, with the error under its name.
unfoldable pub capture_rule :
    AstNode → ℕ → SourceLocation → ℕ → SType → StringView → NodeOpt → M ℕ → M ℕ
unfolding fallback_rule capture_failed
capture_rule owner id loc inner (error_union succ err) name fallback check_fallback = do
  prev ← enter_scope owner
  declare (symbol_new sym_var name (some err) (some owner))
  fb ← check_fallback
  leave_scope prev
  fallback_rule loc fallback fb succ
  typed id succ
capture_rule owner id loc inner shape name fallback check_fallback = capture_failed id loc inner
