-- ===== src/Ast/Lists.antt =====
-- The lists of src/ast.c: a push puts the item at the end. How the buffer grows is in `Growth`.
use rayac.Base.{List, [], ◌∷◌, ◌++◌}
use rayac.Ast.Syntax.{
  AstNode, NodeList, nil, cons, TypeOpt, TypeList, end, more, Pattern, PatternFields, no_fields,
  with_field, AttributeList, no_attrs, attribute,
}
use rayac.Diag.Engine.{SourceLocation}
use rayac.StringView.View.{StringView}

abbrev pub ast_node_list_push : NodeList → AstNode → NodeList
ast_node_list_push nil n = cons n nil
ast_node_list_push (cons m ns) n = cons m (ast_node_list_push ns n)

abbrev pub type_expr_list_push : TypeList → TypeOpt → TypeList
type_expr_list_push end t = more t end
type_expr_list_push (more s ts) t = more s (type_expr_list_push ts t)

abbrev pub string_view_list_push : List StringView → StringView → List StringView
string_view_list_push views sv = views ++ sv ∷ []

-- The pushes on the two lists of a struct pattern, side by side.
abbrev pub pattern_fields_push : PatternFields → StringView → Pattern → PatternFields
pattern_fields_push no_fields name pat = with_field name pat no_fields
pattern_fields_push (with_field n p rest) name pat =
    with_field n p (pattern_fields_push rest name pat)

abbrev pub attribute_list_push :
    AttributeList → StringView → NodeList → SourceLocation → AttributeList
attribute_list_push no_attrs name args loc = attribute name args loc no_attrs
attribute_list_push (attribute n xs l rest) name args loc =
    attribute n xs l (attribute_list_push rest name args loc)
