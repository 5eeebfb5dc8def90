-- ===== src/Sema/Methods.antt =====
-- The method table, and the name under which a type's methods are kept.
use rayac.Base.{
  ℕ, zero, suc, ◌+◌, ◌-◌, ◌*◌, ◌%◌, ◌^◌, ◌&&◌, Option, none, some, List, [], ◌∷◌, Bytes, bit_xor,
  get_or, set, ltb, if◌then◌else◌,
}
use rayac.Ast.Syntax.{AstNode}
use rayac.StringView.View.{StringView, content, sv_eq, sv_from_cstr}
use rayac.Types.Shape.{SType, pointer, reference, struct_, union_, enum_}
use rayac.Types.Table.{TypeTable, shape_at}
use rayac.Sema.State.{MethodEntry, M, gets, modify, method_table_buckets}

-- A `char` is signed, so that a byte from 128 on is extended by ones to 64 bits.
abbrev pub extend_char : ℕ → ℕ
extend_char c = if ltb c 128 then c else c + (2 ^ 64 - 256)

unfoldable pub hash_chars : ℕ → Bytes → ℕ
hash_chars h [] = h
hash_chars h (c ∷ cs) = hash_chars (bit_xor h (extend_char c) * 0x100000001b3 % 2 ^ 64) cs

unfoldable pub hash_method_key : StringView → StringView → ℕ
hash_method_key type name = hash_chars (hash_chars 0xcbf29ce484222325 (content type)) (content name)

abbrev pub method_bucket : StringView → StringView → ℕ
method_bucket type name = hash_method_key type name % method_table_buckets

-- `method_table_add` on the buckets.
unfoldable pub add_method :
    List (List MethodEntry) → StringView → StringView → AstNode → List (List MethodEntry)
add_method table type_name method_name fn_decl =
    let idx = method_bucket type_name method_name in
    let e : MethodEntry = record {
      type_name = type_name;
      method_name = method_name;
      fn_decl = fn_decl;
    } in
    set table idx (e ∷ get_or table idx [])

unfoldable pub find_method : List MethodEntry → StringView → StringView → Option AstNode
find_method [] type_name method_name = none
find_method (e ∷ es) type_name method_name =
    if sv_eq e.type_name type_name && sv_eq e.method_name method_name
    then some e.fn_decl
    else find_method es type_name method_name

-- `method_table_lookup` on the buckets.
unfoldable pub lookup_method : List (List MethodEntry) → StringView → StringView → Option AstNode
lookup_method table type_name method_name =
    find_method (get_or table (method_bucket type_name method_name) []) type_name method_name

unfoldable pub method_table_add : StringView → StringView → AstNode → M (Unit {0})
method_table_add type_name method_name fn_decl =
    modify λ s. record s { method_table = add_method s.method_table type_name method_name fn_decl }

unfoldable pub method_table_lookup : StringView → StringView → M (Option AstNode)
method_table_lookup type_name method_name =
    gets λ s. lookup_method s.method_table type_name method_name

-- The name of the type, behind at most `fuel` pointers and references; a type is built of older
-- types, so that its place is fuel enough.
unfoldable pub method_type_name : ℕ → TypeTable → SType → StringView
unfolding sv_from_cstr
method_type_name zero t shape = sv_from_cstr []
method_type_name (suc fuel) t (pointer c base) = method_type_name fuel t (shape_at t base)
method_type_name (suc fuel) t (reference c base) = method_type_name fuel t (shape_at t base)
method_type_name (suc fuel) t (struct_ name k x) = name
method_type_name (suc fuel) t (union_ name k x) = name
method_type_name (suc fuel) t (enum_ name k x) = name
method_type_name (suc fuel) t _ = sv_from_cstr []

unfoldable pub sema_type_name_for_method : ℕ → M StringView
sema_type_name_for_method r = gets λ s. method_type_name (suc r) s.types (shape_at s.types r)
