-- ===== src/Types/Key.antt =====
-- The shape test and the key of a type, which is what the test compares.
use rayac.Base.{
  ℕ, zero, suc, true, ◌&&◌, ◌≡◌, ◌↔◌, refl, ap, ◌∙◌, sym, List, [], ◌∷◌, Bytes, bytes_eq,
  bytes_eq_sound, bytes_eq_refl, ◌==◌, ==_iff, ==_self, take, arith, Bool-cases, inl, inr,
  &&-eq-true,
}
use rayac.Ast.Syntax.{null}
use rayac.StringView.View.{StringView, content, sv_eq}
use rayac.Types.Shape.{
  SType, zero_struct, UnionRest, EnumRest, TraitRest, function, struct_, union_, enum_, trait,
  generic_param, same_refs, type_shape_eq, hash_type_shape,
}

-- The view over the bytes that it shows.
abbrev own : StringView → StringView
own n = record { data_ = content n; len = n.len }

-- The rest of the other kinds, forgotten.
abbrev zero_union : UnionRest
zero_union = record { fields = []; decl = null }

abbrev zero_enum : EnumRest
zero_enum = record { variants = []; decl = null }

abbrev zero_trait : TraitRest
zero_trait = record { required_methods = [] }

-- What the shape test compares: the kind, the numbers, the types referred to, the characters of the
-- name, and one count. Where the bytes of the name lie is forgotten, and so are the generic arguments,
-- the fields, the variants, the methods and the declaration of a named kind.
pub key : SType → SType
key (struct_ n k x) = struct_ (own n) k zero_struct
key (union_ n k x) = union_ (own n) k zero_union
key (enum_ n k x) = enum_ (own n) k zero_enum
key (trait n k x) = trait (own n) k zero_trait
key (generic_param n i) = generic_param (own n) i
key t = t

take-take : (n : ℕ) (xs : Bytes) → take n (take n xs) ≡ take n xs
take-take zero xs = refl
take-take (suc n) [] = refl
take-take (suc n) (x ∷ xs) = ap (◌∷◌ x) (take-take n xs)

sv_eq-own : (a b : StringView) → sv_eq a b ≡ true → own a ≡ own b
unfolding sv_eq
sv_eq-own a b h = elim (Bool-cases (a.len == b.len)) [
  | inr differ ↦ ground arith
  | inl same ↦
      let e = (==_iff a.len b.len).0 same in
      let m : bytes_eq (take a.len a.data_) (take a.len b.data_) ≡ true = ground arith in
      let c = bytes_eq_sound _ _ m ∙ ap (λ (n : ℕ). take n b.data_) e in
      λ i. record { data_ = c i; len = e i }
]

sv_eq_self : (a : StringView) → sv_eq a a ≡ true
unfolding sv_eq
sv_eq_self a = rw (==_self a.len, bytes_eq_refl)

same_refs_sound : (rs ss : List ℕ) → same_refs rs ss ≡ true → rs ≡ ss
unfolding same_refs
same_refs_sound [] [] h = refl
same_refs_sound (r ∷ rs) (s ∷ ss) h = ground (arith, same_refs_sound rs ss)
same_refs_sound rs ss h = ground arith

same_refs_self : (rs : List ℕ) → same_refs rs rs ≡ true
unfolding same_refs
same_refs_self [] = refl
same_refs_self (r ∷ rs) = ground (arith, same_refs_self rs)

-- A test of a name and a number, as in the named kinds.
named-key :
    (n n' : StringView) (k k' : ℕ) → (sv_eq n n' && k == k') ≡ true → (own n ≡ own n') × (k ≡ k')
named-key n n' k k' h = let (p, q) = &&-eq-true _ _ h in (sv_eq-own n n' p, (==_iff k k').0 q)

shape_eq-key : (a b : SType) → type_shape_eq a b ≡ true → key a ≡ key b
unfolding type_shape_eq key
shape_eq-key (struct_ n k x) (struct_ n' k' x') h =
    let (p, q) = named-key n n' k k' h in λ i. struct_ (p i) (q i) zero_struct
shape_eq-key (union_ n k x) (union_ n' k' x') h =
    let (p, q) = named-key n n' k k' h in λ i. union_ (p i) (q i) zero_union
shape_eq-key (enum_ n k x) (enum_ n' k' x') h =
    let (p, q) = named-key n n' k k' h in λ i. enum_ (p i) (q i) zero_enum
shape_eq-key (trait n k x) (trait n' k' x') h =
    let (p, q) = named-key n n' k k' h in λ i. trait (p i) (q i) zero_trait
shape_eq-key (generic_param n k) (generic_param n' k') h =
    let (p, q) = named-key n n' k k' h in λ i. generic_param (p i) (q i)
shape_eq-key (function ps r v) (function ps' r' v') h = ground (arith, same_refs_sound ps ps')
shape_eq-key a b h = ground arith

named_alike : (a b : StringView) → own a ≡ own b → sv_eq a b ≡ true
unfolding sv_eq
named_alike a b e =
    let n : a.len ≡ b.len = ap (λ (v : StringView). v.len) e in
    let shown : take a.len a.data_ ≡ take a.len b.data_ =
      ap (λ (v : StringView). v.data_) e ∙ ap (λ (m : ℕ). take m b.data_) (sym n) in
    rw ((==_iff a.len b.len).1 n, shown) (bytes_eq_refl _)

-- The name of a named kind; the kinds with no name have an empty one.
abbrev name_of : SType → StringView
name_of (struct_ n k x) = n
name_of (union_ n k x) = n
name_of (enum_ n k x) = n
name_of (trait n k x) = n
name_of (generic_param n i) = n
name_of t = record { data_ = []; len = 0 }

own_name : (a b : SType) → key a ≡ key b → own (name_of a) ≡ own (name_of b)
own_name a b e = back a ∙ ap name_of e ∙ sym (back b)
  where
    back : (t : SType) → own (name_of t) ≡ name_of (key t)
    back (struct_ n k x) = unfold key in refl
    back t = unfold key in refl

key-shape_eq : (a b : SType) → key a ≡ key b → type_shape_eq a b ≡ true
unfolding type_shape_eq key
key-shape_eq (struct_ n k x) (struct_ n' k' x') h =
    ground (arith, named_alike n n' (own_name (struct_ n k x) (struct_ n' k' x') h))
key-shape_eq (union_ n k x) (union_ n' k' x') h =
    ground (arith, named_alike n n' (own_name (union_ n k x) (union_ n' k' x') h))
key-shape_eq (enum_ n k x) (enum_ n' k' x') h =
    ground (arith, named_alike n n' (own_name (enum_ n k x) (enum_ n' k' x') h))
key-shape_eq (trait n k x) (trait n' k' x') h =
    ground (arith, named_alike n n' (own_name (trait n k x) (trait n' k' x') h))
key-shape_eq (generic_param n k) (generic_param n' k') h =
    ground (arith, named_alike n n' (own_name (generic_param n k) (generic_param n' k') h))
key-shape_eq (function ps r v) (function ps' r' v') h = ground (arith, same_refs_self ps)
key-shape_eq a b h = ground arith

-- The shape test holds of two types exactly when their keys are equal: the kinds, the numbers, the
-- types they refer to, the characters of the names and, of a named kind, its count (of generic
-- arguments, fields, variants or methods; the index of a generic parameter). It is not equality of the
-- types: the generic arguments, fields, variants, methods and declarations themselves are no part of a
-- key.
pub type_shape_eq_iff : (a b : SType) → (type_shape_eq a b ≡ true) ↔ (key a ≡ key b)
type_shape_eq_iff a b = (shape_eq-key a b, key-shape_eq a b)

pub shape_eq_refl : (a : SType) → type_shape_eq a a ≡ true
shape_eq_refl a = key-shape_eq a a refl

pub shape_eq_trans :
    (a b c : SType) → type_shape_eq a b ≡ true → type_shape_eq b c ≡ true → type_shape_eq a c ≡ true
shape_eq_trans a b c p q = key-shape_eq a c (shape_eq-key a b p ∙ shape_eq-key b c q)

pub shape_eq_sym : (a b : SType) → type_shape_eq a b ≡ true → type_shape_eq b a ≡ true
shape_eq_sym a b p = key-shape_eq b a (sym (shape_eq-key a b p))

hash-key :
    (address : ℕ → ℕ) (t : SType) → hash_type_shape address t ≡ hash_type_shape address (key t)
unfolding hash_type_shape key
hash-key address (struct_ n k x) = rw (take-take n.len n.data_)
hash-key address (union_ n k x) = rw (take-take n.len n.data_)
hash-key address (enum_ n k x) = rw (take-take n.len n.data_)
hash-key address (trait n k x) = rw (take-take n.len n.data_)
hash-key address (generic_param n k) = rw (take-take n.len n.data_)
hash-key address t = refl

-- Types of one shape have one hash, so they are looked for in one bucket.
pub shape_eq-hash :
    (address : ℕ → ℕ) (a b : SType)
    → type_shape_eq a b ≡ true
    → hash_type_shape address a ≡ hash_type_shape address b
shape_eq-hash address a b h =
    hash-key address a
    ∙ ap (hash_type_shape address) (shape_eq-key a b h)
    ∙ sym (hash-key address b)
