-- ===== src/Types/Coercions.antt =====
-- The recursion of `st_can_coerce`, whose fuel is enough, and what it answers for floats.
use rayac.Base.{
  ℕ, zero, suc, ◌<◌, Bool, true, false, ◌≡◌, refl, ap, ◌∙◌, sym, if◌then◌else◌, arith, Bool-cases,
  ==_iff, inl, inr,
}
use rayac.Types.Shape.{SType, integer, floating, optional, error_union}
use rayac.Types.Table.{TypeTable, shape_at, st_eq}
use rayac.Types.Coerce.{
  optional_part, union_part, coerce_shapes, coerce_step, can_coerce_in, st_can_coerce,
}

-- The types inside an optional or an error union at the place `r` stand before it.
abbrev pub IsOlder : SType → ℕ → Type 0
IsOlder (optional b) r = b < r
IsOlder (error_union s e) r = (s < r) × (e < r)
IsOlder _ r = Unit

abbrev pub AreOlder : TypeTable → Type 0
AreOlder t = (r : ℕ) → IsOlder (shape_at t r) r

parts_agree :
    (f g : ℕ → Bool) (t : SType) (r : ℕ)
    → IsOlder t r
    → ((b : ℕ) → b < r → f b ≡ g b)
    → (optional_part f t ≡ optional_part g t) × (union_part f t ≡ union_part g t)
parts_agree f g (optional b) r o h = (h b o, refl)
parts_agree f g (error_union s e) r o h = (refl, ground (arith, h s o.0, h e o.1))
parts_agree f g t r o h = (refl, refl)

step_agree :
    (t : TypeTable) (f g : ℕ → Bool) (from to : ℕ)
    → optional_part f (shape_at t to) ≡ optional_part g (shape_at t to)
    → union_part f (shape_at t to) ≡ union_part g (shape_at t to)
    → coerce_step t f from to ≡ coerce_step t g from to
step_agree t f g from to p q = unfold coerce_step in (ground arith)

-- Any two fuels above the place of the target type give one answer.
fuel_agrees :
    (t : TypeTable) (from : ℕ)
    → AreOlder t
    → (f g to : ℕ) → to < f
    → to < g
    → can_coerce_in f t from to ≡ can_coerce_in g t from to
unfolding can_coerce_in
fuel_agrees t from o zero g to p q = absurd (omega arith)
fuel_agrees t from o (suc f) zero to p q = absurd (omega arith)
fuel_agrees t from o (suc f) (suc g) to p q =
    let (a, b) =
      parts_agree (λ b. can_coerce_in f t from b) (λ b. can_coerce_in g t from b) (shape_at t to) to
        (o to) (λ b h. fuel_agrees t from o f g b (omega arith) (omega arith)) in
    ap (λ (x : Bool). if st_eq from to then true else x)
      (step_agree t (λ b. can_coerce_in f t from b) (λ b. can_coerce_in g t from b) from to a b)

-- `st_can_coerce` satisfies the recursion of the source, in a table where types are built of older
-- ones: the fuel is enough.
pub st_can_coerce_lem :
    (t : TypeTable) (from to : ℕ)
    → AreOlder t
    → st_can_coerce t from to
      ≡ (if st_eq from to then true else coerce_step t (λ b. st_can_coerce t from b) from to)
unfolding st_can_coerce can_coerce_in
st_can_coerce_lem t from to o =
    let (a, b) =
      parts_agree (λ b. can_coerce_in to t from b) (λ b. can_coerce_in (suc b) t from b)
        (shape_at t to) to (o to) (λ b h. fuel_agrees t from o to (suc b) b h (omega arith)) in
    ap (λ (x : Bool). if st_eq from to then true else x)
      (step_agree t (λ b. can_coerce_in to t from b) (λ b. can_coerce_in (suc b) t from b) from to a
        b)

-- The answer for two types that are not one.
distinct :
    (t : TypeTable) (from to : ℕ) (f g : SType)
    → st_eq from to ≡ false
    → shape_at t from ≡ f
    → shape_at t to ≡ g
    → st_can_coerce t from to ≡ coerce_shapes f g (λ b. can_coerce_in to t from b) from to
unfolding st_can_coerce can_coerce_in coerce_step
distinct t from to f g n p q =
    rw n (λ i. coerce_shapes (p i) (q i) (λ b. can_coerce_in to t from b) from to)

-- Types at one place have one shape.
one_shape :
    (t : TypeTable) (from to : ℕ) (f g : SType)
    → st_eq from to ≡ true
    → shape_at t from ≡ f
    → shape_at t to ≡ g
    → f ≡ g
one_shape t from to f g h p q = sym p ∙ ap (λ (r : ℕ). shape_at t r) ((==_iff from to).0 h) ∙ q

-- A floating point type is never taken for an integer type.
pub coerce_float_integer :
    (t : TypeTable) (from to : ℕ) (s : Bool) (b b' : ℕ)
    → shape_at t from ≡ floating b
    → shape_at t to ≡ integer s b'
    → st_can_coerce t from to ≡ false
coerce_float_integer t from to s b b' p q = elim (Bool-cases (st_eq from to)) [
  | inl same ↦ cc (one_shape t from to (floating b) (integer s b') same p q)
  | inr other ↦
      rw (distinct t from to (floating b) (integer s b') other p q) (unfold coerce_shapes in refl)
]
