-- ===== src/Types/FromAst.antt =====
-- `st_from_ast`. The C library's `atoi` is an argument; it gives a number for what it reads, whose
-- sign does not matter here. The two calls for an error union are made for the success type first.
use rayac.Base.{
  ℕ, Bool, true, false, ◌&&◌, ◌||◌, List, [], ◌∷◌, Bytes, codes, drop, get_or, ltb, ◌==◌,
  if◌then◌else◌,
}
use rayac.Ast.Syntax.{
  NodeOpt, at, node, int_literal, TypeExpr, type_expr, TypeList, end, more, TypeOpt, no_type,
  of_type, TypeKind, type_named, type_reference, type_pointer, type_slice, type_optional,
  type_error_union, type_array, type_function,
}
use rayac.StringView.View.{StringView, sv_eq_cstr}
use rayac.Types.Shape.{noreturn, struct_, zero_struct}
use rayac.Types.Table.{
  TypeTable, intern_type, st_void, st_bool, st_int, st_float, st_pointer, st_reference, st_slice,
  st_array, st_optional, st_error_union, st_function,
}

abbrev pub T : Type 0 → Type 0
T A = TypeTable → A × TypeTable

infixl 5 ◌>>=◌
abbrev pub ◌>>=◌ : {A B : Type 0} → T A → (A → T B) → T B
◌>>=◌ m f t = let (a, t') = m t in f a t'

abbrev pure : {A : Type 0} → A → T A
pure a t = (a, t)

abbrev pub first_char : StringView → ℕ
first_char n = get_or n.data_ 0 0

abbrev pub is_int_width : ℕ → Bool
is_int_width b = b == 8 || b == 16 || b == 32 || b == 64 || b == 128

abbrev pub is_float_width : ℕ → Bool
is_float_width b = b == 32 || b == 64

-- The case of a named type.
unfoldable pub named_type : (Bytes → ℕ) → StringView → T ℕ
named_type atoi n t =
    let b = atoi (drop 1 n.data_) in
    if sv_eq_cstr n (codes "void")
    then st_void t
    else if sv_eq_cstr n (codes "bool")
    then st_bool t
    else if sv_eq_cstr n (codes "isize")
    then st_int t true 64
    else if sv_eq_cstr n (codes "usize")
    then st_int t false 64
    else if ltb 1 n.len && first_char n == b'i' && is_int_width b
    then st_int t true b
    else if ltb 1 n.len && first_char n == b'u' && is_int_width b
    then st_int t false b
    else if ltb 1 n.len && first_char n == b'f' && is_float_width b
    then st_float t b
    else if sv_eq_cstr n (codes "noreturn")
    then intern_type t noreturn
    else intern_type t (struct_ n 0 zero_struct)

-- The length of an array type: that of a literal, or 0.
abbrev literal_length : NodeOpt → ℕ
literal_length (at (node id loc (int_literal n))) = n
literal_length _ = 0

module _ (atoi : Bytes → ℕ) where
  unfoldable mutual
    unfolding named_type

    pub st_from_ast : TypeExpr → T ℕ
    st_from_ast (type_expr loc k) = from_kind k

    pub from_kind : TypeKind → T ℕ
    from_kind (type_named n args) = named_type atoi n
    from_kind (type_pointer c child) = do r ← from_opt child; λ t. st_pointer t c r
    from_kind (type_reference c child) = do r ← from_opt child; λ t. st_reference t c r
    from_kind (type_slice c child) = do r ← from_opt child; λ t. st_slice t c r
    from_kind (type_array length elem) = do
      r ← from_opt elem
      λ t. st_array t (literal_length length) r
    from_kind (type_optional child) = do r ← st_from_ast child; λ t. st_optional t r
    from_kind (type_error_union error success) = do
      s ← from_opt success
      e ← st_from_ast error
      λ t. st_error_union t s e
    from_kind (type_function params ret) = do
      ps ← from_list params
      r ← from_opt ret
      λ t. st_function t ps r false

    pub from_list : TypeList → T (List ℕ)
    from_list end = pure []
    from_list (more x xs) = do r ← from_opt x; rs ← from_list xs; pure (r ∷ rs)

    pub from_opt : TypeOpt → T ℕ
    from_opt no_type = st_void
    from_opt (of_type x) = st_from_ast x
