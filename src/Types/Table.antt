-- ===== src/Types/Table.antt =====
-- `TypeTable`, `intern_type` and the constructors of types.
use rayac.Base.{
  ℕ, ◌%◌, Bool, ◌&&◌, Option, none, some, List, [], ◌∷◌, ◌++◌, length, get_or, set, replicate, ◌==◌,
  if◌then◌else◌,
}
use rayac.Types.Shape.{
  SType, void, bool, integer, floating, pointer, reference, slice, array, optional, error_union,
  function, hash_type_shape, type_shape_eq,
}

-- A type with its field `hash`, which holds the number of its bucket.
pub record Cell : Type 0 where
  pub shape : SType
  pub hash : ℕ

-- `cells` holds the types in the order in which the arena gave their memory, and `address` the
-- addresses that it gave. The chain of a bucket, threaded through `next_hash`, is a list.
pub record TypeTable : Type 0 where
  pub cells : List Cell
  pub buckets : List (List ℕ)
  pub address : ℕ → ℕ

abbrev pub type_table_buckets : ℕ
type_table_buckets = 256

unfoldable pub type_table_new : (ℕ → ℕ) → TypeTable
type_table_new address = record {
  cells = [];
  buckets = replicate type_table_buckets [];
  address = address;
}

-- `*p`
abbrev pub cell_at : TypeTable → ℕ → Cell
cell_at tt_ r = get_or tt_.cells r (record { shape = void; hash = 0 })

abbrev pub shape_at : TypeTable → ℕ → SType
shape_at tt_ r = (cell_at tt_ r).shape

abbrev pub bucket_of : TypeTable → SType → ℕ
bucket_of tt_ t = hash_type_shape tt_.address t % type_table_buckets

-- The loop of `intern_type` over the chain of a bucket.
unfoldable pub find_in_chain : TypeTable → List ℕ → ℕ → SType → Option ℕ
find_in_chain tt_ [] h proto = none
find_in_chain tt_ (r ∷ rs) h proto =
    if (cell_at tt_ r).hash == h && type_shape_eq (shape_at tt_ r) proto
    then some r
    else find_in_chain tt_ rs h proto

-- The type of the table that has the shape, if there is one.
unfoldable pub find_type : TypeTable → SType → Option ℕ
find_type tt_ proto =
    let h = bucket_of tt_ proto in find_in_chain tt_ (get_or tt_.buckets h []) h proto

-- `arena_alloc` and `memcpy` of a type that is not yet in the table.
unfoldable pub allocate : TypeTable → Cell → ℕ × TypeTable
allocate tt_ c = (length tt_.cells, record tt_ { cells = tt_.cells ++ c ∷ [] })

-- The end of `intern_type`: the type that was found, or the prototype at the head of its bucket.
unfoldable pub intern_with : TypeTable → SType → Option ℕ → ℕ × TypeTable
unfolding allocate
intern_with tt_ proto (some r) =
    (r, (allocate tt_ (record { shape = proto; hash = bucket_of tt_ proto })).1)
intern_with tt_ proto none =
    let h = bucket_of tt_ proto in
    let (p, tt') = allocate tt_ (record { shape = proto; hash = h }) in
    (p, record tt' { buckets = set tt'.buckets h (p ∷ get_or tt'.buckets h []) })

-- The allocation of a prototype and `intern_type`, which every constructor makes.
unfoldable pub intern_type : TypeTable → SType → ℕ × TypeTable
intern_type tt_ proto = intern_with tt_ proto (find_type tt_ proto)

unfoldable pub st_void : TypeTable → ℕ × TypeTable
st_void tt_ = intern_type tt_ void

unfoldable pub st_bool : TypeTable → ℕ × TypeTable
st_bool tt_ = intern_type tt_ bool

unfoldable pub st_int : TypeTable → Bool → ℕ → ℕ × TypeTable
st_int tt_ is_signed bits = intern_type tt_ (integer is_signed bits)

unfoldable pub st_float : TypeTable → ℕ → ℕ × TypeTable
st_float tt_ bits = intern_type tt_ (floating bits)

unfoldable pub st_pointer : TypeTable → Bool → ℕ → ℕ × TypeTable
st_pointer tt_ is_const base = intern_type tt_ (pointer is_const base)

unfoldable pub st_reference : TypeTable → Bool → ℕ → ℕ × TypeTable
st_reference tt_ is_const base = intern_type tt_ (reference is_const base)

unfoldable pub st_slice : TypeTable → Bool → ℕ → ℕ × TypeTable
st_slice tt_ is_const base = intern_type tt_ (slice is_const base)

unfoldable pub st_array : TypeTable → ℕ → ℕ → ℕ × TypeTable
st_array tt_ size base = intern_type tt_ (array size base)

unfoldable pub st_optional : TypeTable → ℕ → ℕ × TypeTable
st_optional tt_ base = intern_type tt_ (optional base)

unfoldable pub st_error_union : TypeTable → ℕ → ℕ → ℕ × TypeTable
st_error_union tt_ success error = intern_type tt_ (error_union success error)

unfoldable pub st_function : TypeTable → List ℕ → ℕ → Bool → ℕ × TypeTable
st_function tt_ params ret variadic = intern_type tt_ (function params ret variadic)

abbrev pub st_eq : ℕ → ℕ → Bool
st_eq a b = a == b
