-- ===== src/Ast/Exprs.antt =====
-- The constructors of expressions of src/ast.c.
use rayac.Base.{ℕ, Bool, false}
use rayac.Ast.Lists.{ast_node_list_push}
use rayac.Ast.Syntax.{
  AstNode, node, nil, NodeOpt, null, TypeOpt, no_type, int_literal, float_literal, string_literal,
  char_literal, bool_literal, null_literal, undefined_literal, identifier, binary_expr, unary_expr,
  call_expr, method_call_expr, field_access_expr, index_expr, slice_expr, cast_expr, try_expr,
  error_capture_expr, unsafe_block_expr, array_literal, struct_literal,
}
use rayac.Diag.Engine.{SourceLocation}
use rayac.Lexer.Token.{TokenKind}
use rayac.StringView.View.{StringView}

abbrev pub ast_new_int_literal : ℕ → SourceLocation → ℕ → AstNode
ast_new_int_literal value loc id = node id loc (int_literal value)

abbrev pub ast_new_float_literal : ℕ → SourceLocation → ℕ → AstNode
ast_new_float_literal value loc id = node id loc (float_literal value)

abbrev pub ast_new_string_literal : StringView → SourceLocation → ℕ → AstNode
ast_new_string_literal value loc id = node id loc (string_literal value)

abbrev pub ast_new_char_literal : StringView → SourceLocation → ℕ → AstNode
ast_new_char_literal value loc id = node id loc (char_literal value)

abbrev pub ast_new_bool_literal : Bool → SourceLocation → ℕ → AstNode
ast_new_bool_literal value loc id = node id loc (bool_literal value)

abbrev pub ast_new_null_literal : SourceLocation → ℕ → AstNode
ast_new_null_literal loc id = node id loc null_literal

abbrev pub ast_new_undefined_literal : SourceLocation → ℕ → AstNode
ast_new_undefined_literal loc id = node id loc undefined_literal

abbrev pub ast_new_identifier : StringView → SourceLocation → ℕ → AstNode
ast_new_identifier name loc id = node id loc (identifier name)

abbrev pub ast_new_binary : TokenKind → NodeOpt → NodeOpt → SourceLocation → ℕ → AstNode
ast_new_binary op left right loc id = node id loc (binary_expr op left right)

abbrev pub ast_new_unary : TokenKind → NodeOpt → SourceLocation → ℕ → AstNode
ast_new_unary op operand loc id = node id loc (unary_expr op operand)

abbrev pub ast_new_call : NodeOpt → SourceLocation → ℕ → AstNode
ast_new_call callee loc id = node id loc (call_expr callee nil)

abbrev pub ast_new_method_call : NodeOpt → StringView → SourceLocation → ℕ → AstNode
ast_new_method_call receiver method loc id = node id loc (method_call_expr receiver method nil)

abbrev pub ast_new_field_access : NodeOpt → StringView → SourceLocation → ℕ → AstNode
ast_new_field_access object field loc id = node id loc (field_access_expr object field)

abbrev pub ast_new_index : NodeOpt → NodeOpt → SourceLocation → ℕ → AstNode
ast_new_index object index loc id = node id loc (index_expr object index)

abbrev pub ast_new_slice : NodeOpt → NodeOpt → NodeOpt → SourceLocation → ℕ → AstNode
ast_new_slice object start stop loc id = node id loc (slice_expr object start stop)

abbrev pub ast_new_cast : NodeOpt → TypeOpt → SourceLocation → ℕ → AstNode
ast_new_cast expr type loc id = node id loc (cast_expr expr type)

abbrev pub ast_new_try : NodeOpt → SourceLocation → ℕ → AstNode
ast_new_try expr loc id = node id loc (try_expr expr)

abbrev pub ast_new_error_capture : AstNode → StringView → NodeOpt → SourceLocation → ℕ → AstNode
ast_new_error_capture expr err_name fallback loc id =
    node id loc (error_capture_expr expr err_name fallback)

abbrev pub ast_new_unsafe_block : NodeOpt → SourceLocation → ℕ → AstNode
ast_new_unsafe_block body loc id = node id loc (unsafe_block_expr body)

abbrev pub ast_new_array_literal : SourceLocation → ℕ → AstNode
ast_new_array_literal loc id = node id loc (array_literal no_type null nil false)

abbrev pub ast_new_struct_literal : TypeOpt → SourceLocation → ℕ → AstNode
ast_new_struct_literal type loc id = node id loc (struct_literal type nil)

abbrev pub ast_call_add_arg : AstNode → AstNode → AstNode
ast_call_add_arg (node id loc (method_call_expr receiver method args)) arg =
    node id loc (method_call_expr receiver method (ast_node_list_push args arg))
ast_call_add_arg (node id loc (call_expr callee args)) arg =
    node id loc (call_expr callee (ast_node_list_push args arg))
ast_call_add_arg n arg = n

abbrev pub ast_array_add_elem : AstNode → AstNode → AstNode
ast_array_add_elem (node id loc (array_literal type length elements sentinel)) elem =
    node id loc (array_literal type length (ast_node_list_push elements elem) sentinel)
ast_array_add_elem n e = n

abbrev pub ast_struct_add_field_init : AstNode → AstNode → AstNode
ast_struct_add_field_init (node id loc (struct_literal type fields)) field_init =
    node id loc (struct_literal type (ast_node_list_push fields field_init))
ast_struct_add_field_init n field_init = n
