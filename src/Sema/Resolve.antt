-- ===== src/Sema/Resolve.antt =====
-- `sema_eval_const_expr` and `sema_resolve_type`.
use rayac.Base.{
  ℕ, zero, suc, ◌+◌, ◌-◌, ◌*◌, ◌/◌, ◌%◌, ◌^◌, Bool, true, false, not, ◌&&◌, Option, none, some,
  List, [], ◌∷◌, Bytes, codes, length, ltb, ◌==◌, if◌then◌else◌,
}
use rayac.Ast.Syntax.{
  AstNode, node, NodeOpt, null, at, AstKind, const_decl, int_literal, identifier, binary_expr,
  unary_expr, TypeExpr, type_expr, TypeList, end, more, TypeOpt, no_type, of_type, TypeKind,
  type_named, type_reference, type_pointer, type_slice, type_optional, type_error_union, type_array,
  type_function, type_loc,
}
use rayac.Diag.Engine.{SourceLocation, text, type_name}
use rayac.Lexer.Token.{TokenKind, tok_plus, tok_minus, tok_star, tok_slash, tok_percent}
use rayac.StringView.View.{
  StringView, content, sv_eq_cstr, sv_slice, sv_to_int, value, minus_one, overflow, out_of_bounds,
}
use rayac.Symbol.Scope.{
  Symbol, SymbolKind, sym_const, sym_struct, sym_union, sym_enum, sym_type_alias, sym_trait,
}
use rayac.Types.FromAst.{st_from_ast, first_char, is_int_width, is_float_width}
use rayac.Types.Shape.{SType, void, noreturn, struct_, union_, enum_}
use rayac.Types.Table.{
  allocate, st_void, st_bool, st_int, st_float, st_pointer, st_reference, st_slice, st_array,
  st_optional, st_error_union, st_function,
}
use rayac.Sema.State.{
  M, ◌>>=◌, ◌>>◌, pure, crash, gets, when, sema_report, on_types, shape_of, lookup_from,
}

-- What the analysis is run with: the depth of the evaluation of constants at which the stack
-- overflows, and the C library's `atoi`.
pub record Env : Type 0 where
  pub const_fuel : ℕ
  pub atoi : Bytes → ℕ

-- The value of an arithmetic operator on 64 bits, or `none` for another operator.
unfoldable pub const_op : TokenKind → ℕ → ℕ → Option ℕ
const_op tok_plus l r = some ((l + r) % 2 ^ 64)
const_op tok_minus l r = some ((l + 2 ^ 64 - r) % 2 ^ 64)
const_op tok_star l r = some (l * r % 2 ^ 64)
const_op tok_slash l r = some (if r == 0 then 0 else l / r)
const_op tok_percent l r = some (if r == 0 then 0 else l % r)
const_op _ l r = none

abbrev is_minus : TokenKind → Bool
is_minus tok_minus = true
is_minus _ = false

abbrev pub is_const : SymbolKind → Bool
is_const sym_const = true
is_const _ = false

-- `decl->var_decl.init` of a constant's declaration.
abbrev init_of : AstNode → NodeOpt
init_of (node id loc (const_decl n p c t init attrs)) = init
init_of _ = null

-- The initializer of a symbol that is a compile-time constant.
unfoldable pub const_init : Option (Symbol AstNode) → NodeOpt
const_init none = null
const_init (some sym) =
    if is_const sym.kind then elim sym.decl [ none ↦ null | some d ↦ init_of d ] else null

unfoldable pub eval_identifier : (NodeOpt → M ℕ) → SourceLocation → StringView → NodeOpt → M ℕ
eval_identifier eval loc name (at e) = eval (at e)
eval_identifier eval loc name null = do
  sema_report loc "'%.*s' is not a compile-time constant" (text (content name) ∷ [])
  pure 0

-- A node of a constant expression; `eval` evaluates the nodes below.
unfoldable pub eval_node : (NodeOpt → M ℕ) → SourceLocation → AstKind → M ℕ
unfolding const_op const_init eval_identifier
eval_node eval loc (int_literal v) = pure v
eval_node eval loc (binary_expr op left right) = do
  l ← eval left
  r ← eval right
  elim (const_op op l r) [
    | some v ↦ pure v
    | none ↦ do sema_report loc "unsupported operator in constant expression" []; pure 0
  ]
eval_node eval loc (unary_expr op operand) =
    if is_minus op
    then (do v ← eval operand; pure ((2 ^ 64 - v) % 2 ^ 64))
    else (do sema_report loc "unsupported unary operator in constant expression" []; pure 0)
eval_node eval loc (identifier name) = do
  sym ← lookup_from (λ s. s.current_scope) name
  eval_identifier eval loc name (const_init sym)
eval_node eval loc _ = do sema_report loc "expression is not compile-time evaluable" []; pure 0

unfoldable pub eval_const_in : ℕ → NodeOpt → M ℕ
unfolding eval_node
eval_const_in zero e = crash
eval_const_in (suc fuel) null = pure 0
eval_const_in (suc fuel) (at (node id loc k)) = eval_node (eval_const_in fuel) loc k

abbrev pub sema_eval_const_expr : Env → NodeOpt → M ℕ
sema_eval_const_expr env = eval_const_in env.const_fuel

-- `sv_to_int` where the test of the widths reads it; an overflow and a read out of
-- bounds are undefined behaviour.
abbrev width_of : StringView → M ℕ
width_of n = elim (sv_to_int (sv_slice n 1 n.len)) [
  | value v ↦ pure v
  | minus_one ↦ pure 0
  | overflow ↦ crash
  | out_of_bounds ↦ crash
]

abbrev pub names_type : Option (Symbol AstNode) → Bool
names_type none = false
names_type (some sym) = elim sym.kind [
  | sym_struct ↦ true
  | sym_union ↦ true
  | sym_enum ↦ true
  | sym_type_alias ↦ true
  | sym_trait ↦ true
  | _ ↦ false
]

-- `Self`
unfoldable pub resolve_self : SourceLocation → M ℕ
resolve_self loc s = elim s.current_self_type [
  | some t ↦ some (t, s)
  | none ↦ (do sema_report loc "Self outside of method context" []; on_types st_void) s
]

-- A type that is no primitive; its symbol is looked for in the second pass only.
unfoldable pub resolve_declared : Env → SourceLocation → StringView → TypeList → M ℕ
resolve_declared env loc n args = do
  collecting ← gets λ s. s.in_collect_decls
  sym ← lookup_from (λ s. s.module_scope) n
  when (not collecting && not (names_type sym))
      (sema_report loc "unknown type '%.*s'" (text (content n) ∷ []))
  on_types (st_from_ast env.atoi (type_expr loc (type_named n args)))

-- `noreturn`: a type that is allocated, and not interned.
unfoldable pub fresh_noreturn : M ℕ
fresh_noreturn = on_types λ t. allocate t (record { shape = noreturn; hash = 0 })

-- The number behind the first letter, where the name has that letter.
sized : ℕ → StringView → M ℕ
sized letter n = if ltb 1 n.len && first_char n == letter then width_of n else pure 0

-- The chain of tests behind the three widths.
unfoldable pub resolve_sized : Env → SourceLocation → StringView → TypeList → ℕ → ℕ → ℕ → M ℕ
resolve_sized env loc n args i u f =
    if is_int_width i
    then on_types (λ t. st_int t true i)
    else if is_int_width u
    then on_types (λ t. st_int t false u)
    else if is_float_width f
    then on_types (λ t. st_float t f)
    else if sv_eq_cstr n (codes "noreturn")
    then fresh_noreturn
    else resolve_declared env loc n args

-- The primitive types with a width, then the declared ones.
unfoldable pub resolve_widths : Env → SourceLocation → StringView → TypeList → M ℕ
unfolding sized
resolve_widths env loc n args = do
  i ← sized b'i' n
  u ← sized b'u' n
  f ← sized b'f' n
  resolve_sized env loc n args i u f

unfoldable pub resolve_named : Env → SourceLocation → StringView → TypeList → M ℕ
resolve_named env loc n args =
    if sv_eq_cstr n (codes "Self")
    then resolve_self loc
    else if sv_eq_cstr n (codes "void")
    then on_types st_void
    else if sv_eq_cstr n (codes "bool")
    then on_types st_bool
    else if sv_eq_cstr n (codes "isize")
    then on_types (λ t. st_int t true 64)
    else if sv_eq_cstr n (codes "usize")
    then on_types (λ t. st_int t false 64)
    else resolve_widths env loc n args

abbrev pub is_error_type : SType → Bool
is_error_type (struct_ n k x) = true
is_error_type (union_ n k x) = true
is_error_type (enum_ n k x) = true
is_error_type _ = false

abbrev pub is_void : SType → Bool
is_void void = true
is_void _ = false

-- The report at the success type; where that could not be parsed, the code reads a null pointer.
report_success : TypeOpt → M (Unit {0})
report_success no_type = crash
report_success (of_type success) =
    sema_report (type_loc success)
      "error union success type cannot be 'void'; use 'noreturn' if function always fails" []

-- The checks on the two types of an error union.
unfoldable pub check_error_union : SourceLocation → TypeOpt → ℕ → ℕ → M ℕ
unfolding report_success
check_error_union error_loc success err succ = do
  e ← shape_of err
  when (not (is_error_type e)) (
      sema_report error_loc "error type '%s' must be a struct, union, or enum" (type_name err ∷ []))
  u ← shape_of succ
  when (is_void u) (report_success success)
  on_types (λ t. st_error_union t succ err)

module _ (env : Env) where
  unfoldable mutual
    pub sema_resolve_type : TypeExpr → M ℕ
    sema_resolve_type (type_expr loc k) = resolve_kind loc k

    pub resolve_kind : SourceLocation → TypeKind → M ℕ
    resolve_kind loc (type_named n args) = resolve_named env loc n args
    resolve_kind loc (type_reference c child) = do
      r ← resolve_opt child
      on_types (λ t. st_reference t c r)
    resolve_kind loc (type_pointer c child) = do
      r ← resolve_opt child
      on_types (λ t. st_pointer t c r)
    resolve_kind loc (type_slice c child) = do r ← resolve_opt child; on_types (λ t. st_slice t c r)
    resolve_kind loc (type_optional child) = do
      r ← sema_resolve_type child
      on_types (λ t. st_optional t r)
    resolve_kind loc (type_error_union error success) = do
      err ← sema_resolve_type error
      succ ← resolve_opt success
      check_error_union (type_loc error) success err succ
    resolve_kind loc (type_function params ret) = do
      ps ← resolve_list params
      r ← resolve_opt ret
      on_types (λ t. st_function t ps r false)
    resolve_kind loc (type_array length elem) = do
      n ← sema_eval_const_expr env length
      r ← resolve_opt elem
      on_types (λ t. st_array t n r)

    pub resolve_list : TypeList → M (List ℕ)
    resolve_list end = pure []
    resolve_list (more x xs) = do r ← resolve_opt x; rs ← resolve_list xs; pure (r ∷ rs)

    -- `sema_resolve_type` on a pointer that may be null
    pub resolve_opt : TypeOpt → M ℕ
    resolve_opt no_type = on_types st_void
    resolve_opt (of_type x) = sema_resolve_type x
