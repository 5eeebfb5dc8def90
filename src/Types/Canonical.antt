-- ===== src/Types/Canonical.antt =====
-- Pointer equality of interned types is equality of their shapes.
use native.Mathlib.Nat.{mod-lt}
use rayac.Base.{
  ℕ, zero, suc, ◌<◌, Bool, true, false, ◌≡◌, refl, ap, ◌∙◌, sym, subst, some, List, [], ◌∷◌, length,
  length-append, get_or, get_or-set, length-set, length-replicate, replicate, ◌==◌, ==_iff,
  if◌then◌else◌, arith, Bool-cases, Option-cases, Bool-ext, ◌⊎◌, inl, inr,
}
use rayac.Types.Interning.{
  IsValid, AreBelow, AreBelow-mono, Extends, with_proto, with_proto-Extends, with_new, intern_found,
  intern_new, find-intern, find_congr, get_or_last,
}
use rayac.Types.Key.{shape_eq_refl, shape_eq_sym, shape_eq_trans}
use rayac.Types.Shape.{SType, type_shape_eq, hash_type_shape, void}
use rayac.Types.Table.{
  Cell, TypeTable, type_table_new, type_table_buckets, shape_at, bucket_of, find_in_chain,
  find_type, intern_type, st_eq,
}

-- What a search of a chain returns lies in the table and has the shape.
chain_sound :
    (t : TypeTable) (rs : List ℕ) (h : ℕ) (p : SType) (r : ℕ)
    → AreBelow rs (length t.cells)
    → find_in_chain t rs h p ≡ some r
    → (r < length t.cells) × (type_shape_eq (shape_at t r) p ≡ true)
unfolding find_in_chain
chain_sound t [] h p r b e = cc
chain_sound t (s ∷ rs) h p r b e = ground (arith, chain_sound t rs h p r)

find_sound :
    (t : TypeTable) (p : SType) (r : ℕ)
    → IsValid t
    → find_type t p ≡ some r
    → (r < length t.cells) × (type_shape_eq (shape_at t r) p ≡ true)
unfolding find_type
find_sound t p r v e =
    chain_sound t (get_or t.buckets (bucket_of t p) []) (bucket_of t p) p r (v.refs (bucket_of t p))
      e

-- What interning promises of its table and of the type that it returns.
pub record Interned (t : TypeTable) (p : SType) (r : ℕ × TypeTable) : Type 0 where
  pub valid : IsValid r.1
  pub extends : Extends t r.1
  pub within : r.0 < length r.1.cells
  pub shape : type_shape_eq (shape_at r.1 r.0) p ≡ true

with_proto-IsValid : (t : TypeTable) (p : SType) → IsValid t → IsValid (with_proto t p)
with_proto-IsValid t p v = record {
  buckets = v.buckets;
  refs = λ h. AreBelow-mono (get_or t.buckets h []) _ _ (with_proto-Extends t p).0 (v.refs h);
}

with_new-IsValid : (t : TypeTable) (p : SType) → IsValid t → IsValid (with_new t p)
with_new-IsValid t p v = record {
  buckets = length-set t.buckets _ _ ∙ v.buckets;
  refs = λ k. refs_at k;
}
  where
    refs_at : (k : ℕ) → AreBelow (get_or (with_new t p).buckets k []) (length (with_new t p).cells)
    refs_at k =
        let h = bucket_of t p in
        let w = with_proto-IsValid t p v in
        let in_range : h < length t.buckets =
          omega (arith, v.buckets, mod-lt (hash_type_shape t.address p) {m = type_table_buckets}) in
        let longer = length-append t.cells (record { shape = p; hash = h } ∷ []) in
        rw (get_or-set t.buckets h k (length t.cells ∷ get_or t.buckets h []) [] in_range)
          (either (h == k) _ _ _ (omega arith, w.refs h) (w.refs k))
      where
        either :
            (b : Bool) (xs ys : List ℕ) (n : ℕ)
            → AreBelow xs n
            → AreBelow ys n
            → AreBelow (if b then xs else ys) n
        either true xs ys n p q = p
        either false xs ys n p q = q

-- Interning keeps a valid table valid and every type in its place, and returns a type of the
-- prototype's shape.
pub intern_type-Interned : (t : TypeTable) (p : SType) → IsValid t → Interned t p (intern_type t p)
intern_type-Interned t p v = elim (Option-cases (find_type t p)) [
  | inl none_ ↦ subst (Interned t p) (sym (intern_new t p none_)) (record {
    valid = with_new-IsValid t p v;
    extends = with_proto-Extends t p;
    within = omega (arith, length-append t.cells (record { shape = p; hash = bucket_of t p } ∷ []));
    shape = shape_of_last;
  })
  | inr (r, found) ↦
      let (below, shape_) = find_sound t p r v found in
      let e = with_proto-Extends t p in
      subst (Interned t p) (sym (intern_found t p r found)) (record {
        valid = with_proto-IsValid t p v;
        extends = e;
        within = omega (arith, e.0);
        shape = ap (λ (c : Cell). type_shape_eq c.shape p) (e.1 r below) ∙ shape_;
      })
]
  where
    shape_of_last : type_shape_eq (shape_at (with_new t p) (length t.cells)) p ≡ true
    shape_of_last =
        ap (λ (c : Cell). type_shape_eq c.shape p)
          (get_or_last t.cells _ (record { shape = void; hash = 0 }))
        ∙ shape_eq_refl p

-- The table behind further internings.
pub intern_all : TypeTable → List SType → TypeTable
intern_all t [] = t
intern_all t (p ∷ ps) = intern_all (intern_type t p).1 ps

-- A type that is found for a shape is found for it behind an interning.
kept :
    (t : TypeTable) (q p : SType) (r : ℕ)
    → IsValid t
    → find_type t p ≡ some r
    → find_type (intern_type t q).1 p ≡ some r
kept t q p r v e = find-intern t q p v ∙ same (Bool-cases (type_shape_eq q p))
  where
    same :
        (type_shape_eq q p ≡ true) ⊎ (type_shape_eq q p ≡ false)
        → (if type_shape_eq q p then some (intern_type t q).0 else find_type t p) ≡ some r
    same (inr miss) = rw miss e
    same (inl hit) =
        let found = intern_found t q r (find_congr t q p hit ∙ e) in
        rw hit (ap (λ (x : ℕ × TypeTable). some x.0) found)

-- A type that was returned for a shape is found for it, whatever is interned later.
still_found :
    (t : TypeTable) (ps : List SType) (p : SType) (r : ℕ)
    → IsValid t
    → find_type t p ≡ some r
    → (type_shape_eq (shape_at t r) p ≡ true)
    → (r < length t.cells)
    → (find_type (intern_all t ps) p ≡ some r)
      × IsValid (intern_all t ps)
      × (type_shape_eq (shape_at (intern_all t ps) r) p ≡ true)
      × (r < length (intern_all t ps).cells)
unfolding intern_all
still_found t [] p r v e s w = (e, v, s, w)
still_found t (q ∷ ps) p r v e s w =
    let i = intern_type-Interned t q v in
    still_found (intern_type t q).1 ps p r i.valid (kept t q p r v e)
      (ap (λ (c : Cell). type_shape_eq c.shape p) (i.extends.1 r w) ∙ s)
      (omega (arith, i.extends.0))

-- The type that an interning returns is found for its shape.
found_again :
    (t : TypeTable) (p : SType)
    → IsValid t
    → find_type (intern_type t p).1 p ≡ some (intern_type t p).0
found_again t p v = find-intern t p p v ∙ rw (shape_eq_refl p)

-- From a valid table on, two internings return the same type exactly when the prototypes have one shape, whatever was
-- interned in between: `st_eq`, which compares pointers, decides equality of shapes.
pub st_eq-intern :
    (t : TypeTable) (p : SType) (ps : List SType) (q : SType)
    → IsValid t
    → st_eq (intern_type t p).0 (intern_type (intern_all (intern_type t p).1 ps) q).0
      ≡ type_shape_eq p q
st_eq-intern t p ps q v =
    let i = intern_type-Interned t p v in
    let r = (intern_type t p).0 in
    let (e, v', s, w) =
      still_found (intern_type t p).1 ps p r i.valid (found_again t p v) i.shape i.within in
    let u = intern_all (intern_type t p).1 ps in
    let j = intern_type-Interned u q v' in
    let s' = ap (λ (c : Cell). type_shape_eq c.shape p) (j.extends.1 r w) ∙ s in
    Bool-ext _ _
      (λ h.
        let same : r ≡ (intern_type u q).0 = (==_iff _ _).0 h in
        let here =
          ap (λ (n : ℕ). type_shape_eq (shape_at (intern_type u q).1 n) q) same ∙ j.shape in
        shape_eq_trans p _ q (shape_eq_sym _ p s') here)
      (λ h.
        (==_iff _ _).1 (
          sym
            (ap (λ (x : ℕ × TypeTable). x.0) (intern_found u q r (sym (find_congr u p q h) ∙ e)))))

AreBelow-nil : (h : ℕ) (address : ℕ → ℕ) → AreBelow (get_or (type_table_new address).buckets h []) 0
unfolding type_table_new
AreBelow-nil h address = rw (empties type_table_buckets h) tt
  where
    empties : (n h : ℕ) → get_or {A = List ℕ} (replicate n []) h [] ≡ []
    empties zero h = refl
    empties (suc n) zero = refl
    empties (suc n) (suc h) = empties n h

pub type_table_new-IsValid : (address : ℕ → ℕ) → IsValid (type_table_new address)
unfolding type_table_new
type_table_new-IsValid address = record {
  buckets = length-replicate {A = List ℕ} type_table_buckets [];
  refs = λ h. AreBelow-nil h address;
}
