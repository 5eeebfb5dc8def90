-- ===== src/Ast/Syntax.antt =====
-- `AstNode` and `TypeExpr`. The list and the nullable pointer of nodes and of type expressions are
-- types of the block; a node carries a number that stands for its address. The parser leaves a null
-- pointer where a part could not be read, so the parts that it reads by a call are nullable. The field
-- `extern_abi`, which nothing writes or reads, is left out.
use rayac.Base.{ℕ, Bool, List}
use rayac.Diag.Engine.{SourceLocation}
use rayac.Lexer.Token.{TokenKind}
use rayac.StringView.View.{StringView}

mutual
  pub data AstNode : Type 0 where
    node : ℕ → SourceLocation → AstKind → AstNode

  pub data NodeList : Type 0 where
    nil : NodeList
    cons : AstNode → NodeList → NodeList

  pub data NodeOpt : Type 0 where
    null : NodeOpt
    at : AstNode → NodeOpt

  pub data TypeExpr : Type 0 where
    type_expr : SourceLocation → TypeKind → TypeExpr

  pub data TypeList : Type 0 where
    end : TypeList
    more : TypeOpt → TypeList → TypeList

  pub data TypeOpt : Type 0 where
    no_type : TypeOpt
    of_type : TypeExpr → TypeOpt

  pub data TypeKind : Type 0 where
    type_named : StringView → TypeList → TypeKind
    type_reference type_pointer type_slice : Bool → TypeOpt → TypeKind
    type_optional : TypeExpr → TypeKind
    -- error, success
    type_error_union : TypeExpr → TypeOpt → TypeKind
    type_array : NodeOpt → TypeOpt → TypeKind
    type_function : TypeList → TypeOpt → TypeKind

  pub data Pattern : Type 0 where
    pattern_at : SourceLocation → PatternKind → Pattern

  pub data PatternOpt : Type 0 where
    no_pattern : PatternOpt
    of_pattern : Pattern → PatternOpt

  -- The names and the patterns of a struct pattern, side by side.
  pub data PatternFields : Type 0 where
    no_fields : PatternFields
    with_field : StringView → Pattern → PatternFields → PatternFields

  pub data PatternKind : Type 0 where
    pattern_wildcard : PatternKind
    pattern_literal : NodeOpt → PatternKind
    pattern_identifier : StringView → PatternKind
    pattern_enum_variant : StringView → PatternOpt → PatternKind
    pattern_struct_field : PatternFields → PatternKind

  pub data AttributeList : Type 0 where
    no_attrs : AttributeList
    -- name, args, loc
    attribute : StringView → NodeList → SourceLocation → AttributeList → AttributeList

  pub data AstKind : Type 0 where
    compilation_unit : StringView → NodeList → NodeList → AstKind
    module_decl : StringView → AstKind
    import_decl : List StringView → StringView → AstKind
    -- name, is_pub, is_comptime, is_unsafe, is_extern, generic_params, params, ret_type, body, attrs
    fn_decl :
        StringView
        → Bool
        → Bool
        → Bool
        → Bool
        → NodeList
        → NodeList
        → TypeOpt
        → NodeOpt
        → AttributeList
        → AstKind
    -- name, is_pub, generic_params, fields, attrs: a union is built in the fields of `struct_decl`
    struct_decl union_decl : StringView → Bool → NodeList → NodeList → AttributeList → AstKind
    enum_decl : StringView → Bool → NodeList → AttributeList → AstKind
    traits_decl : StringView → Bool → NodeList → AttributeList → AstKind
    -- target_name, generic_params, trait_names, methods, attrs
    extend_decl : StringView → NodeList → List StringView → NodeList → AttributeList → AstKind
    type_alias : StringView → Bool → TypeOpt → AttributeList → AstKind
    -- name, is_pub, is_comptime, type, init, attrs
    const_decl var_decl : StringView → Bool → Bool → TypeOpt → NodeOpt → AttributeList → AstKind
    test_decl : StringView → NodeOpt → AttributeList → AstKind
    field_decl : StringView → Bool → TypeOpt → NodeOpt → AttributeList → AstKind
    variant_decl : StringView → TypeOpt → NodeOpt → AstKind
    trait_method_decl : StringView → Bool → NodeList → TypeOpt → AstKind
    -- name, type, default_value, is_comptime, is_self
    param_decl : StringView → TypeOpt → NodeOpt → Bool → Bool → AstKind
    generic_param_decl : StringView → List StringView → AstKind
    block : NodeList → NodeOpt → AstKind
    expr_stmt : NodeOpt → AstKind
    return_stmt : NodeOpt → AstKind
    if_stmt : NodeOpt → NodeOpt → NodeOpt → AstKind
    while_stmt : NodeOpt → NodeOpt → AstKind
    for_stmt : StringView → TypeOpt → NodeOpt → NodeOpt → AstKind
    defer_stmt errdefer_stmt : NodeOpt → AstKind
    break_stmt continue_stmt : AstKind
    match_stmt : NodeOpt → NodeList → AstKind
    match_arm : Pattern → NodeOpt → AstKind
    assign_stmt : TokenKind → AstNode → NodeOpt → AstKind
    int_literal : ℕ → AstKind
    float_literal : ℕ → AstKind
    string_literal char_literal : StringView → AstKind
    bool_literal : Bool → AstKind
    null_literal undefined_literal : AstKind
    identifier : StringView → AstKind
    binary_expr : TokenKind → NodeOpt → NodeOpt → AstKind
    unary_expr : TokenKind → NodeOpt → AstKind
    call_expr : NodeOpt → NodeList → AstKind
    method_call_expr : NodeOpt → StringView → NodeList → AstKind
    field_access_expr : NodeOpt → StringView → AstKind
    index_expr : NodeOpt → NodeOpt → AstKind
    slice_expr : NodeOpt → NodeOpt → NodeOpt → AstKind
    cast_expr : NodeOpt → TypeOpt → AstKind
    try_expr : NodeOpt → AstKind
    error_capture_expr : AstNode → StringView → NodeOpt → AstKind
    unsafe_block_expr : NodeOpt → AstKind
    -- explicit_type, length, elements, sentinel
    array_literal : TypeOpt → NodeOpt → NodeList → Bool → AstKind
    struct_literal : TypeOpt → NodeList → AstKind

abbrev pub kind_of : AstNode → AstKind
kind_of (node id loc k) = k

abbrev pub loc_of : AstNode → SourceLocation
loc_of (node id loc k) = loc

abbrev pub id_of : AstNode → ℕ
id_of (node id loc k) = id

abbrev pub type_loc : TypeExpr → SourceLocation
type_loc (type_expr loc k) = loc

abbrev pub type_kind : TypeExpr → TypeKind
type_kind (type_expr loc k) = k
