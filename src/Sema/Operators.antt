-- ===== src/Sema/Operators.antt =====
-- What `sema_check_expr` does once the operands of an operator are checked.
use rayac.Base.{ℕ, Bool, true, false, not, ◌||◌, [], if◌then◌else◌}
use rayac.Diag.Engine.{SourceLocation}
use rayac.Lexer.Token.{
  TokenKind, tok_plus, tok_minus, tok_star, tok_slash, tok_percent, tok_eq, tok_ne, tok_lt, tok_gt,
  tok_le, tok_ge, tok_and_and, tok_or_or, tok_ampersand, tok_pipe, tok_caret, tok_shl, tok_shr,
  tok_tilde, tok_bang,
}
use rayac.Types.Coerce.{is_integer, is_numeric}
use rayac.Types.Shape.{SType, floating, pointer, reference}
use rayac.Types.Table.{st_bool, st_float, st_reference}
use rayac.Sema.State.{M, ◌>>=◌, ◌>>◌, gets, when, sema_report, on_types, shape_of, typed}
use rayac.Sema.Rules.{failed, is_bool}

-- The classes of the operators.
pub data BinaryClass : Type 0 where
  arithmetic comparison logical bitwise other : BinaryClass

unfoldable pub binary_class : TokenKind → BinaryClass
binary_class tok_plus = arithmetic
binary_class tok_minus = arithmetic
binary_class tok_star = arithmetic
binary_class tok_slash = arithmetic
binary_class tok_percent = arithmetic
binary_class tok_eq = comparison
binary_class tok_ne = comparison
binary_class tok_lt = comparison
binary_class tok_gt = comparison
binary_class tok_le = comparison
binary_class tok_ge = comparison
binary_class tok_and_and = logical
binary_class tok_or_or = logical
binary_class tok_ampersand = bitwise
binary_class tok_pipe = bitwise
binary_class tok_caret = bitwise
binary_class tok_shl = bitwise
binary_class tok_shr = bitwise
binary_class _ = other

abbrev is_floating : SType → Bool
is_floating (floating b) = true
is_floating _ = false

arithmetic_rule : ℕ → SourceLocation → SType → SType → ℕ → M ℕ
arithmetic_rule id loc f g l =
    if not (is_numeric f) || not (is_numeric g)
    then failed id loc "invalid operands to arithmetic expression" []
    else if is_floating f || is_floating g
    then (do t ← on_types (λ t. st_float t 64); typed id t)
    else typed id l

unfoldable pub binary_rule : ℕ → SourceLocation → TokenKind → ℕ → ℕ → M ℕ
unfolding arithmetic_rule
binary_rule id loc op l r = do
  f ← shape_of l
  g ← shape_of r
  elim (binary_class op) [
    | arithmetic ↦ arithmetic_rule id loc f g l
    | comparison ↦ do t ← on_types st_bool; typed id t
    | logical ↦ do
      when (not (is_bool f) || not (is_bool g))
          (sema_report loc "logical operators require boolean operands" [])
      t ← on_types st_bool
      typed id t
    | bitwise ↦ do
      when (not (is_integer f) || not (is_integer g))
          (sema_report loc "bitwise operators require integer operands" [])
      typed id l
    | other ↦ typed id l
  ]

-- `*` on a value of the shape.
dereference : ℕ → SourceLocation → SType → M ℕ
dereference id loc (pointer c base) = do
  allowed ← gets (λ s. s.in_unsafe)
  when (not allowed) (sema_report loc "dereferencing raw pointer requires 'unsafe' context" [])
  typed id base
dereference id loc (reference c base) = typed id base
dereference id loc _ = failed id loc "cannot dereference non-pointer type" []

unfoldable pub unary_rule : ℕ → SourceLocation → TokenKind → ℕ → M ℕ
unfolding dereference
unary_rule id loc op o = do
  shape ← shape_of o
  elim op [
    | tok_minus ↦ do
      when (not (is_numeric shape)) (sema_report loc "invalid operand to unary operator" [])
      typed id o
    | tok_tilde ↦ do
      when (not (is_numeric shape)) (sema_report loc "invalid operand to unary operator" [])
      typed id o
    | tok_bang ↦ do
      when (not (is_bool shape)) (sema_report loc "logical not requires boolean operand" [])
      t ← on_types st_bool
      typed id t
    | tok_star ↦ dereference id loc shape
    | tok_ampersand ↦ do t ← on_types (λ t. st_reference t false o); typed id t
    | _ ↦ typed id o
  ]
