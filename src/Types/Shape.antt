-- ===== src/Types/Shape.antt =====
-- `SType`, `hash_type_shape` and `type_shape_eq`. A pointer to a type is its place in the list of
-- the types that were allocated.
use rayac.Base.{ℕ, Option, ◌%◌, ◌^◌, Bool, true, false, ◌&&◌, List, [], ◌∷◌, ◌==◌, length}
use rayac.Ast.Syntax.{NodeOpt, null}
use rayac.StringView.View.{StringView, content, sv_eq}
use rayac.Symbol.Scope.{fnv_step, hash_bytes}

-- A field of a struct or a union; the type is a place, or none for a null pointer.
pub record TypeField : Type 0 where
  pub name : StringView
  pub type : Option ℕ
  pub default_value : NodeOpt

-- What the struct of a kind holds besides its name and its third word.
pub record StructRest : Type 0 where
  pub generic_args : List ℕ
  pub fields : List TypeField
  pub field_count : ℕ
  pub decl : NodeOpt

pub record UnionRest : Type 0 where
  pub fields : List TypeField
  pub decl : NodeOpt

pub record EnumRest : Type 0 where
  pub variants : List StringView
  pub decl : NodeOpt

pub record TraitRest : Type 0 where
  pub required_methods : List ℕ

-- The rest of a struct whose bytes are all zero.
abbrev pub zero_struct : StructRest
zero_struct = record { generic_args = []; fields = []; field_count = 0; decl = null }

-- The named kinds carry the name, the third word of their struct, which `hash_type_shape` and
-- `type_shape_eq` read as `generic_arg_count` (it is the number of generic arguments, fields, variants
-- or methods), and the rest of the struct.
pub data SType : Type 0 where
  void bool noreturn opaque : SType
  integer : Bool → ℕ → SType
  floating : ℕ → SType
  pointer reference slice : Bool → ℕ → SType
  array : ℕ → ℕ → SType
  optional : ℕ → SType
  error_union : ℕ → ℕ → SType
  function : List ℕ → ℕ → Bool → SType
  struct_ : StringView → ℕ → StructRest → SType
  union_ : StringView → ℕ → UnionRest → SType
  enum_ : StringView → ℕ → EnumRest → SType
  trait : StringView → ℕ → TraitRest → SType
  generic_param : StringView → ℕ → SType

-- The value of the enumerator.
unfoldable pub kind_number : SType → ℕ
kind_number void = 0
kind_number bool = 1
kind_number (integer _ _) = 2
kind_number (floating _) = 3
kind_number noreturn = 4
kind_number (pointer _ _) = 5
kind_number (reference _ _) = 6
kind_number (slice _ _) = 7
kind_number (array _ _) = 8
kind_number (optional _) = 9
kind_number (error_union _ _) = 10
kind_number (function _ _ _) = 11
kind_number (struct_ _ _ _) = 12
kind_number (union_ _ _ _) = 13
kind_number (enum_ _ _ _) = 14
kind_number (trait _ _ _) = 15
kind_number (generic_param _ _) = 16
kind_number opaque = 17

abbrev pub bit : Bool → ℕ
bit true = 1
bit false = 0

abbrev pub low32 : ℕ → ℕ
low32 n = n % 2 ^ 32

-- `address` gives the address of the type at a place.
module _ (address : ℕ → ℕ) where
  abbrev pub hash_ref : ℕ → ℕ → ℕ
  hash_ref h r = fnv_step h (low32 (address r))

  unfoldable pub hash_refs : ℕ → List ℕ → ℕ
  hash_refs h [] = h
  hash_refs h (r ∷ rs) = hash_refs (hash_ref h r) rs

  hash_fields : ℕ → SType → ℕ
  unfolding hash_refs
  hash_fields h (integer s b) = fnv_step (fnv_step h (bit s)) b
  hash_fields h (floating b) = fnv_step h b
  hash_fields h (pointer c r) = hash_ref (fnv_step h (bit c)) r
  hash_fields h (reference c r) = hash_ref (fnv_step h (bit c)) r
  hash_fields h (slice c r) = hash_ref (fnv_step h (bit c)) r
  hash_fields h (array n r) = hash_ref (fnv_step h (low32 n)) r
  hash_fields h (optional r) = hash_ref h r
  hash_fields h (error_union succ err) = hash_ref (hash_ref h err) succ
  hash_fields h (function ps ret v) =
      hash_ref (hash_refs (fnv_step (fnv_step h (low32 (length ps))) (bit v)) ps) ret
  hash_fields h (struct_ n k x) = fnv_step (hash_bytes h (content n)) (low32 k)
  hash_fields h (union_ n k x) = fnv_step (hash_bytes h (content n)) (low32 k)
  hash_fields h (enum_ n k x) = fnv_step (hash_bytes h (content n)) (low32 k)
  hash_fields h (trait n k x) = fnv_step (hash_bytes h (content n)) (low32 k)
  hash_fields h (generic_param n i) = fnv_step (hash_bytes h (content n)) (low32 i)
  hash_fields h _ = h

  unfoldable pub hash_type_shape : SType → ℕ
  unfolding hash_fields kind_number
  hash_type_shape t = hash_fields (fnv_step 2166136261 (kind_number t)) t

abbrev pub same_bool : Bool → Bool → Bool
same_bool a b = bit a == bit b

-- The parameters of two function types, compared in turn.
unfoldable pub same_refs : List ℕ → List ℕ → Bool
same_refs [] [] = true
same_refs (r ∷ rs) (s ∷ ss) = r == s && same_refs rs ss
same_refs _ _ = false

unfoldable pub type_shape_eq : SType → SType → Bool
unfolding same_refs sv_eq
type_shape_eq void void = true
type_shape_eq bool bool = true
type_shape_eq noreturn noreturn = true
type_shape_eq opaque opaque = true
type_shape_eq (integer s b) (integer s' b') = same_bool s s' && b == b'
type_shape_eq (floating b) (floating b') = b == b'
type_shape_eq (pointer c r) (pointer c' r') = same_bool c c' && r == r'
type_shape_eq (reference c r) (reference c' r') = same_bool c c' && r == r'
type_shape_eq (slice c r) (slice c' r') = same_bool c c' && r == r'
type_shape_eq (array n r) (array n' r') = n == n' && r == r'
type_shape_eq (optional r) (optional r') = r == r'
type_shape_eq (error_union s e) (error_union s' e') = e == e' && s == s'
type_shape_eq (function ps r v) (function ps' r' v') =
    length ps == length ps' && (same_bool v v' && (r == r' && same_refs ps ps'))
type_shape_eq (struct_ n k x) (struct_ n' k' x') = sv_eq n n' && k == k'
type_shape_eq (union_ n k x) (union_ n' k' x') = sv_eq n n' && k == k'
type_shape_eq (enum_ n k x) (enum_ n' k' x') = sv_eq n n' && k == k'
type_shape_eq (trait n k x) (trait n' k' x') = sv_eq n n' && k == k'
type_shape_eq (generic_param n i) (generic_param n' i') = sv_eq n n' && i == i'
type_shape_eq _ _ = false
