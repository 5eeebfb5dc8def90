-- ===== src/Ast/Decls.antt =====
-- The constructors of declarations of src/ast.c. A node is cleared before its parts are set: lists are
-- empty, flags false and pointers null.
use rayac.Base.{ℕ, false, [], ◌∷◌}
use rayac.Ast.Lists.{ast_node_list_push, string_view_list_push}
use rayac.Ast.Syntax.{
  AstNode, node, nil, null, no_type, no_attrs, compilation_unit, module_decl, import_decl, fn_decl,
  struct_decl, union_decl, enum_decl, traits_decl, extend_decl, type_alias, const_decl, var_decl,
  test_decl, field_decl, variant_decl, trait_method_decl, param_decl, generic_param_decl,
}
use rayac.Diag.Engine.{SourceLocation}
use rayac.StringView.View.{StringView}

-- The bytes of a cleared view.
abbrev pub no_text : StringView
no_text = record { data_ = []; len = 0 }

abbrev pub ast_new_compilation_unit : SourceLocation → ℕ → AstNode
ast_new_compilation_unit loc id = node id loc (compilation_unit no_text nil nil)

abbrev pub ast_new_module_decl : StringView → SourceLocation → ℕ → AstNode
ast_new_module_decl name loc id = node id loc (module_decl name)

abbrev pub ast_new_import_decl : StringView → SourceLocation → ℕ → AstNode
ast_new_import_decl first loc id = node id loc (import_decl (first ∷ []) no_text)

abbrev pub ast_new_fn_decl : StringView → SourceLocation → ℕ → AstNode
ast_new_fn_decl name loc id =
    node id loc (fn_decl name false false false false nil nil no_type null no_attrs)

abbrev pub ast_new_struct_decl : StringView → SourceLocation → ℕ → AstNode
ast_new_struct_decl name loc id = node id loc (struct_decl name false nil nil no_attrs)

abbrev pub ast_new_union_decl : StringView → SourceLocation → ℕ → AstNode
ast_new_union_decl name loc id = node id loc (union_decl name false nil nil no_attrs)

abbrev pub ast_new_enum_decl : StringView → SourceLocation → ℕ → AstNode
ast_new_enum_decl name loc id = node id loc (enum_decl name false nil no_attrs)

abbrev pub ast_new_traits_decl : StringView → SourceLocation → ℕ → AstNode
ast_new_traits_decl name loc id = node id loc (traits_decl name false nil no_attrs)

abbrev pub ast_new_extend_decl : StringView → SourceLocation → ℕ → AstNode
ast_new_extend_decl target loc id = node id loc (extend_decl target nil [] nil no_attrs)

abbrev pub ast_new_type_alias : StringView → SourceLocation → ℕ → AstNode
ast_new_type_alias name loc id = node id loc (type_alias name false no_type no_attrs)

abbrev pub ast_new_const_decl : StringView → SourceLocation → ℕ → AstNode
ast_new_const_decl name loc id = node id loc (const_decl name false false no_type null no_attrs)

abbrev pub ast_new_var_decl : StringView → SourceLocation → ℕ → AstNode
ast_new_var_decl name loc id = node id loc (var_decl name false false no_type null no_attrs)

abbrev pub ast_new_test_decl : StringView → SourceLocation → ℕ → AstNode
ast_new_test_decl name loc id = node id loc (test_decl name null no_attrs)

abbrev pub ast_new_field_decl : StringView → SourceLocation → ℕ → AstNode
ast_new_field_decl name loc id = node id loc (field_decl name false no_type null no_attrs)

abbrev pub ast_new_variant_decl : StringView → SourceLocation → ℕ → AstNode
ast_new_variant_decl name loc id = node id loc (variant_decl name no_type null)

abbrev pub ast_new_trait_method_decl : StringView → SourceLocation → ℕ → AstNode
ast_new_trait_method_decl name loc id = node id loc (trait_method_decl name false nil no_type)

abbrev pub ast_new_param_decl : StringView → SourceLocation → ℕ → AstNode
ast_new_param_decl name loc id = node id loc (param_decl name no_type null false false)

abbrev pub ast_new_generic_param_decl : StringView → SourceLocation → ℕ → AstNode
ast_new_generic_param_decl name loc id = node id loc (generic_param_decl name [])

abbrev pub ast_import_add_part : AstNode → StringView → AstNode
ast_import_add_part (node id loc (import_decl parts alias)) part =
    node id loc (import_decl (string_view_list_push parts part) alias)
ast_import_add_part n part = n

abbrev pub ast_import_set_alias : AstNode → StringView → AstNode
ast_import_set_alias (node id loc (import_decl parts old)) alias =
    node id loc (import_decl parts alias)
ast_import_set_alias n alias = n

abbrev pub ast_set_module : AstNode → StringView → AstNode
ast_set_module (node id loc (compilation_unit old imports decls)) name =
    node id loc (compilation_unit name imports decls)
ast_set_module n name = n

abbrev pub ast_add_import : AstNode → AstNode → AstNode
ast_add_import (node id loc (compilation_unit name imports decls)) import_ =
    node id loc (compilation_unit name (ast_node_list_push imports import_) decls)
ast_add_import n import_ = n

abbrev pub ast_add_decl : AstNode → AstNode → AstNode
ast_add_decl (node id loc (compilation_unit name imports decls)) decl =
    node id loc (compilation_unit name imports (ast_node_list_push decls decl))
ast_add_decl n decl = n

abbrev pub ast_fn_add_param : AstNode → AstNode → AstNode
ast_fn_add_param (node id loc (fn_decl name pub_ ct un ex gs ps ret body attrs)) p =
    node id loc (fn_decl name pub_ ct un ex gs (ast_node_list_push ps p) ret body attrs)
ast_fn_add_param n p = n

abbrev pub ast_fn_add_generic : AstNode → AstNode → AstNode
ast_fn_add_generic (node id loc (fn_decl name pub_ ct un ex gs ps ret body attrs)) g =
    node id loc (fn_decl name pub_ ct un ex (ast_node_list_push gs g) ps ret body attrs)
ast_fn_add_generic n g = n

-- A union is built in the same place of the node.
abbrev pub ast_struct_add_field : AstNode → AstNode → AstNode
ast_struct_add_field (node id loc (struct_decl name pub_ gs fields attrs)) f =
    node id loc (struct_decl name pub_ gs (ast_node_list_push fields f) attrs)
ast_struct_add_field (node id loc (union_decl name pub_ gs fields attrs)) f =
    node id loc (union_decl name pub_ gs (ast_node_list_push fields f) attrs)
ast_struct_add_field n f = n

abbrev pub ast_struct_add_generic : AstNode → AstNode → AstNode
ast_struct_add_generic (node id loc (struct_decl name pub_ gs fields attrs)) g =
    node id loc (struct_decl name pub_ (ast_node_list_push gs g) fields attrs)
ast_struct_add_generic (node id loc (union_decl name pub_ gs fields attrs)) g =
    node id loc (union_decl name pub_ (ast_node_list_push gs g) fields attrs)
ast_struct_add_generic n g = n

abbrev pub ast_enum_add_variant : AstNode → AstNode → AstNode
ast_enum_add_variant (node id loc (enum_decl name pub_ variants attrs)) v =
    node id loc (enum_decl name pub_ (ast_node_list_push variants v) attrs)
ast_enum_add_variant n v = n

abbrev pub ast_traits_add_method : AstNode → AstNode → AstNode
ast_traits_add_method (node id loc (traits_decl name pub_ methods attrs)) m =
    node id loc (traits_decl name pub_ (ast_node_list_push methods m) attrs)
ast_traits_add_method n m = n

abbrev pub ast_extend_add_method : AstNode → AstNode → AstNode
ast_extend_add_method (node id loc (extend_decl target gs traits methods attrs)) m =
    node id loc (extend_decl target gs traits (ast_node_list_push methods m) attrs)
ast_extend_add_method n m = n

abbrev pub ast_extend_add_generic : AstNode → AstNode → AstNode
ast_extend_add_generic (node id loc (extend_decl target gs traits methods attrs)) g =
    node id loc (extend_decl target (ast_node_list_push gs g) traits methods attrs)
ast_extend_add_generic n g = n

abbrev pub ast_extend_add_trait : AstNode → StringView → AstNode
ast_extend_add_trait (node id loc (extend_decl target gs traits methods attrs)) t =
    node id loc (extend_decl target gs (string_view_list_push traits t) methods attrs)
ast_extend_add_trait n t = n
