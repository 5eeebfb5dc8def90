-- ===== src/Ast/TypeExprs.antt =====
-- The constructors of type expressions and patterns, and the two tests, of src/ast.c.
use rayac.Base.{Bool, false, ◌||◌, ◌==◌, List, [], ◌∷◌, String, codes}
use rayac.Ast.Lists.{type_expr_list_push, pattern_fields_push}
use rayac.Ast.Syntax.{
  NodeOpt, TypeExpr, type_expr, TypeOpt, no_type, end, type_named, type_reference, type_pointer,
  type_slice, type_optional, type_error_union, type_array, type_function, Pattern, pattern_at,
  PatternOpt, no_fields, pattern_wildcard, pattern_literal, pattern_identifier,
  pattern_enum_variant, pattern_struct_field,
}
use rayac.Diag.Engine.{SourceLocation}
use rayac.Lexer.Token.{
  TokenKind, kind_index, tok_assign, tok_plus_assign, tok_minus_assign, tok_star_assign,
  tok_slash_assign, tok_percent_assign, tok_and_assign, tok_or_assign, tok_xor_assign,
  tok_shl_assign, tok_shr_assign,
}
use rayac.StringView.View.{StringView, sv_eq_cstr}

abbrev pub type_new_named : StringView → SourceLocation → TypeExpr
type_new_named name loc = type_expr loc (type_named name end)

abbrev pub type_new_reference : TypeOpt → Bool → SourceLocation → TypeExpr
type_new_reference child is_const loc = type_expr loc (type_reference is_const child)

abbrev pub type_new_pointer : TypeOpt → Bool → SourceLocation → TypeExpr
type_new_pointer child is_const loc = type_expr loc (type_pointer is_const child)

abbrev pub type_new_slice : TypeOpt → Bool → SourceLocation → TypeExpr
type_new_slice child is_const loc = type_expr loc (type_slice is_const child)

abbrev pub type_new_array : NodeOpt → TypeOpt → SourceLocation → TypeExpr
type_new_array length elem loc = type_expr loc (type_array length elem)

abbrev pub type_new_optional : TypeExpr → SourceLocation → TypeExpr
type_new_optional child loc = type_expr loc (type_optional child)

abbrev pub type_new_error_union : TypeExpr → TypeOpt → SourceLocation → TypeExpr
type_new_error_union err success loc = type_expr loc (type_error_union err success)

abbrev pub type_new_function : SourceLocation → TypeExpr
type_new_function loc = type_expr loc (type_function end no_type)

abbrev pub type_add_generic_arg : TypeExpr → TypeOpt → TypeExpr
type_add_generic_arg (type_expr loc (type_named name args)) arg =
    type_expr loc (type_named name (type_expr_list_push args arg))
type_add_generic_arg t arg = t

abbrev pub type_func_add_param : TypeExpr → TypeOpt → TypeExpr
type_func_add_param (type_expr loc (type_function params ret)) param =
    type_expr loc (type_function (type_expr_list_push params param) ret)
type_func_add_param t param = t

abbrev pub type_func_set_ret : TypeExpr → TypeOpt → TypeExpr
type_func_set_ret (type_expr loc (type_function params old)) ret =
    type_expr loc (type_function params ret)
type_func_set_ret t ret = t

abbrev pub pattern_new_wildcard : SourceLocation → Pattern
pattern_new_wildcard loc = pattern_at loc pattern_wildcard

abbrev pub pattern_new_literal : NodeOpt → SourceLocation → Pattern
pattern_new_literal lit loc = pattern_at loc (pattern_literal lit)

abbrev pub pattern_new_identifier : StringView → SourceLocation → Pattern
pattern_new_identifier name loc = pattern_at loc (pattern_identifier name)

abbrev pub pattern_new_enum_variant : StringView → PatternOpt → SourceLocation → Pattern
pattern_new_enum_variant name inner loc = pattern_at loc (pattern_enum_variant name inner)

abbrev pub pattern_new_struct_field : SourceLocation → Pattern
pattern_new_struct_field loc = pattern_at loc (pattern_struct_field no_fields)

abbrev pub pattern_struct_add_field : Pattern → StringView → Pattern → Pattern
pattern_struct_add_field (pattern_at loc (pattern_struct_field fields)) name field_pat =
    pattern_at loc (pattern_struct_field (pattern_fields_push fields name field_pat))
pattern_struct_add_field pat name field_pat = pat

-- The array `primitives`.
abbrev primitives : List String
primitives =
    "void" ∷ "bool" ∷ "noreturn" ∷ "i8" ∷ "i16" ∷ "i32" ∷ "i64" ∷ "i128" ∷ "isize" ∷ "u8" ∷ "u16"
    ∷ "u32" ∷ "u64" ∷ "u128" ∷ "usize" ∷ "f32" ∷ "f64" ∷ []

abbrev any_eq : StringView → List String → Bool
any_eq sv [] = false
any_eq sv (name ∷ names) = sv_eq_cstr sv (codes name) || any_eq sv names

abbrev pub sv_is_primitive_type : StringView → Bool
sv_is_primitive_type sv = any_eq sv primitives

abbrev kind_in : TokenKind → List TokenKind → Bool
kind_in k [] = false
kind_in k (j ∷ js) = kind_index k == kind_index j || kind_in k js

abbrev pub token_is_assignment_op : TokenKind → Bool
token_is_assignment_op kind = kind_in kind (
    tok_assign ∷ tok_plus_assign ∷ tok_minus_assign ∷ tok_star_assign ∷ tok_slash_assign
    ∷ tok_percent_assign ∷ tok_and_assign ∷ tok_or_assign ∷ tok_xor_assign ∷ tok_shl_assign
    ∷ tok_shr_assign ∷ [])
