-- ===== src/Types/Interning.antt =====
-- The type table is a map from shapes to types: a shape has one type, for good.
use native.Mathlib.Nat.{mod-lt}
use rayac.Base.{
  ℕ, zero, suc, ◌%◌, ◌≤◌, ◌<◌, true, false, ◌≡◌, refl, ap, ◌∙◌, sym, none, some, List, [], ◌∷◌,
  ◌++◌, length, length-append, get_or, get_or-set, set, ◌==◌, ==_iff, ==_self, if◌then◌else◌, arith,
  Bool-cases, Option-cases, ◌⊎◌, inl, inr, Bool-ext,
}
use rayac.Types.Key.{shape_eq_sym, shape_eq_trans, shape_eq-hash}
use rayac.Types.Shape.{SType, type_shape_eq, hash_type_shape, void}
use rayac.Types.Table.{
  Cell, TypeTable, type_table_buckets, cell_at, shape_at, bucket_of, find_in_chain, find_type,
  intern_with, intern_type,
}

-- The references lie in the table.
abbrev pub AreBelow : List ℕ → ℕ → Type 0
AreBelow [] n = Unit
AreBelow (r ∷ rs) n = (r < n) × AreBelow rs n

-- The table has its 256 buckets, which hold references to its types.
pub record IsValid (t : TypeTable) : Type 0 where
  pub buckets : length t.buckets ≡ type_table_buckets
  pub refs : (h : ℕ) → AreBelow (get_or t.buckets h []) (length t.cells)

-- The types that a later table keeps.
abbrev pub Extends : TypeTable → TypeTable → Type 0
Extends t t' =
    (length t.cells ≤ length t'.cells) × ((r : ℕ) → r < length t.cells → cell_at t' r ≡ cell_at t r)

pub get_or-append :
    {A : Type 0} (xs ys : List A) (i : ℕ) (d : A)
    → i < length xs
    → get_or (xs ++ ys) i d ≡ get_or xs i d
get_or-append [] ys i d h = elim h [ ]
get_or-append (x ∷ xs) ys zero d h = refl
get_or-append (x ∷ xs) ys (suc i) d h = get_or-append xs ys i d (omega arith)

pub get_or_last : {A : Type 0} (xs : List A) (x d : A) → get_or (xs ++ x ∷ []) (length xs) d ≡ x
get_or_last [] x d = refl
get_or_last (y ∷ xs) x d = get_or_last xs x d

pub AreBelow-mono : (rs : List ℕ) (n m : ℕ) → n ≤ m → AreBelow rs n → AreBelow rs m
AreBelow-mono [] n m h b = tt
AreBelow-mono (r ∷ rs) n m h b = (omega arith, AreBelow-mono rs n m h b.1)

-- A chain is searched alike in a later table.
find_in_chain-Extends :
    (t t' : TypeTable) (rs : List ℕ) (h : ℕ) (proto : SType)
    → Extends t t'
    → AreBelow rs (length t.cells)
    → find_in_chain t' rs h proto ≡ find_in_chain t rs h proto
unfolding find_in_chain
find_in_chain-Extends t t' [] h proto e b = refl
find_in_chain-Extends t t' (r ∷ rs) h proto e b =
    let same = e.1 r b.0 in
    rw (
      ap (λ (c : Cell). c.hash) same,
      ap (λ (c : Cell). c.shape) same,
      find_in_chain-Extends t t' rs h proto e b.1,
    )

-- The prototype that `intern_type` allocates, and the table that holds it.
abbrev pub with_proto : TypeTable → SType → TypeTable
with_proto t p = record t { cells = t.cells ++ record { shape = p; hash = bucket_of t p } ∷ [] }

pub with_proto-Extends : (t : TypeTable) (p : SType) → Extends t (with_proto t p)
with_proto-Extends t p = (
  omega (arith, length-append t.cells (record { shape = p; hash = bucket_of t p } ∷ [])),
  λ r h. get_or-append t.cells _ r _ h,
)

-- The table behind an interning that found no type.
abbrev pub with_new : TypeTable → SType → TypeTable
with_new t p = record (with_proto t p) {
  buckets = set t.buckets (bucket_of t p) (length t.cells ∷ get_or t.buckets (bucket_of t p) []);
}

pub intern_found :
    (t : TypeTable) (p : SType) (r : ℕ)
    → find_type t p ≡ some r
    → intern_type t p ≡ (r, with_proto t p)
unfolding intern_type intern_with
intern_found t p r e = ap (intern_with t p) e

pub intern_new :
    (t : TypeTable) (p : SType)
    → find_type t p ≡ none
    → intern_type t p ≡ (length t.cells, with_new t p)
unfolding intern_type intern_with
intern_new t p e = ap (intern_with t p) e

-- Prototypes of one shape are found alike.
chain_congr :
    (t : TypeTable) (rs : List ℕ) (h : ℕ) (p q : SType)
    → type_shape_eq p q ≡ true
    → find_in_chain t rs h p ≡ find_in_chain t rs h q
unfolding find_in_chain
chain_congr t [] h p q e = refl
chain_congr t (r ∷ rs) h p q e =
    let test : type_shape_eq (shape_at t r) p ≡ type_shape_eq (shape_at t r) q =
      Bool-ext _ _ (λ x. shape_eq_trans (shape_at t r) p q x e)
        (λ x. shape_eq_trans (shape_at t r) q p x (shape_eq_sym p q e)) in
    rw (test, chain_congr t rs h p q e)

pub find_congr :
    (t : TypeTable) (p q : SType) → type_shape_eq p q ≡ true → find_type t p ≡ find_type t q
unfolding find_type
find_congr t p q e =
    let same : bucket_of t p ≡ bucket_of t q =
      ap (λ (n : ℕ). n % type_table_buckets) (shape_eq-hash t.address p q e) in
    chain_congr t (get_or t.buckets (bucket_of t p) []) (bucket_of t p) p q e
    ∙ ap (λ (h : ℕ). find_in_chain t (get_or t.buckets h []) h q) same

find-with_proto :
    (t : TypeTable) (p q : SType) → IsValid t → find_type (with_proto t p) q ≡ find_type t q
unfolding find_type
find-with_proto t p q v =
    find_in_chain-Extends t (with_proto t p) (get_or t.buckets (bucket_of t q) []) (bucket_of t q) q
      (with_proto-Extends t p) (v.refs (bucket_of t q))

-- The new type at the head of a chain.
chain_head :
    (t t' : TypeTable) (rs : List ℕ) (h : ℕ) (p q : SType)
    → cell_at t' (length t.cells) ≡ record { shape = p; hash = h }
    → Extends t t'
    → AreBelow rs (length t.cells)
    → find_in_chain t' (length t.cells ∷ rs) h q
      ≡ (if type_shape_eq p q then some (length t.cells) else find_in_chain t rs h q)
chain_head t t' rs h p q c e b =
    let rest = find_in_chain-Extends t t' rs h q e b in
    let hash_is = ap (λ (x : Cell). x.hash) c in
    let shape_is = ap (λ (x : Cell). x.shape) c in
    unfold find_in_chain in (rw (hash_is, shape_is, ==_self h, rest))

find-with_new :
    (t : TypeTable) (p q : SType)
    → IsValid t
    → find_type (with_new t p) q
      ≡ (if type_shape_eq p q then some (length t.cells) else find_type t q)
unfolding find_type
find-with_new t p q v =
    let h = bucket_of t p in
    let k = bucket_of t q in
    let chain = length t.cells ∷ get_or t.buckets h [] in
    let in_range : h < length t.buckets =
      omega (arith, v.buckets, mod-lt (hash_type_shape t.address p) {m = type_table_buckets}) in
    let law = get_or-set t.buckets h k chain [] in_range in
    let last =
      get_or_last t.cells (record { shape = p; hash = h }) (record { shape = void; hash = 0 }) in
    let e = with_proto-Extends t p in
    elim (Bool-cases (h == k)) [
      | inl same ↦
          let hk = (==_iff h k).0 same in
          let here = chain_head t (with_new t p) (get_or t.buckets h []) h p q last e (v.refs h) in
          rw (law, same)
            (ap (λ (n : ℕ). find_in_chain (with_new t p) chain n q) (sym hk)
              ∙ here
              ∙ ap
                  (λ (n : ℕ).
                    if type_shape_eq p q
                    then some (length t.cells)
                    else find_in_chain t (get_or t.buckets n []) n q)
                  hk)
      | inr other ↦ elim (Bool-cases (type_shape_eq p q)) [
        | inl hit ↦ absurd (
            differ h k other
              (ap (λ (n : ℕ). n % type_table_buckets) (shape_eq-hash t.address p q hit)))
        | inr miss ↦
            rw (law, other, miss)
              (find_in_chain-Extends t (with_new t p) (get_or t.buckets k []) k q e (v.refs k))
      ]
    ]
  where
    differ : (h k : ℕ) → (h == k) ≡ false → h ≡ k → ⊥
    differ h k o e = ground arith

-- Behind an interning in a valid table, the shapes of the prototype have the type that was returned, and every
-- other shape has the type that it had.
pub find-intern :
    (t : TypeTable) (p q : SType)
    → IsValid t
    → find_type (intern_type t p).1 q
      ≡ (if type_shape_eq p q then some (intern_type t p).0 else find_type t q)
find-intern t p q v = elim (Option-cases (find_type t p)) [
  | inl none_ ↦ rw (intern_new t p none_) (find-with_new t p q v)
  | inr (r, found) ↦
      rw (intern_found t p r found)
        (find-with_proto t p q v ∙ known r found (Bool-cases (type_shape_eq p q)))
]
  where
    known :
        (r : ℕ)
        → find_type t p ≡ some r
        → (type_shape_eq p q ≡ true) ⊎ (type_shape_eq p q ≡ false)
        → find_type t q ≡ (if type_shape_eq p q then some r else find_type t q)
    known r found (inl hit) = rw hit (sym (find_congr t p q hit) ∙ found)
    known r found (inr miss) = rw miss refl
