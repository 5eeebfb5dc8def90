-- ===== src/StringView/Number.antt =====
-- `sv_to_int` against the value of a decimal numeral.
use rayac.Base.{
  ℕ, ◌+◌, ◌-◌, ◌*◌, ◌≤◌, Bool, true, ◌≡◌, refl, ◌&&◌, [], ◌∷◌, Bytes, arith, ◌≢◌, zero, suc, take,
  length, ◌==◌, Bool-cases, inl, inr,
}
use rayac.StringView.View.{
  StringView, content, IsReadable, value, int_max, is_decimal, to_int_loop, sv_to_int,
}

abbrev pub all_decimal : Bytes → Bool
all_decimal [] = true
all_decimal (c ∷ cs) = is_decimal c && all_decimal cs

-- The number that a numeral means, from the number that the digits before it mean.
abbrev pub decimal_from : ℕ → Bytes → ℕ
decimal_from n [] = n
decimal_from n (c ∷ cs) = decimal_from (n * 10 + (c - b'0')) cs

decimal_from-le : (cs : Bytes) (n : ℕ) → n ≤ decimal_from n cs
decimal_from-le [] n = omega arith
decimal_from-le (c ∷ cs) n = omega (arith, decimal_from-le cs (n * 10 + (c - b'0')))

loop-value :
    (k : ℕ) (cs : Bytes) (n : ℕ)
    → k ≤ length cs
    → all_decimal (take k cs) ≡ true
    → decimal_from n (take k cs) ≤ int_max
    → to_int_loop k cs n ≡ value (decimal_from n (take k cs))
unfolding to_int_loop
loop-value zero cs n r d h = refl
loop-value (suc k) [] n r d h = absurd (omega (arith, r))
loop-value (suc k) (c ∷ cs) n r d h = ground (
  arith,
  decimal_from-le (take k cs) (n * 10 + (c - b'0')),
  loop-value k cs (n * 10 + (c - b'0')),
)

loop-value_inv :
    (k : ℕ) (cs : Bytes) (n v : ℕ)
    → n ≤ int_max
    → to_int_loop k cs n ≡ value v
    → (k ≤ length cs)
      × (all_decimal (take k cs) ≡ true)
      × (v ≡ decimal_from n (take k cs))
      × (v ≤ int_max)
unfolding to_int_loop
loop-value_inv zero cs n v m h = (omega arith, refl, ground arith, ground arith)
loop-value_inv (suc k) [] n v m h = ground arith
loop-value_inv (suc k) (c ∷ cs) n v m h =
    ground (arith, loop-value_inv k cs (n * 10 + (c - b'0')) v)

-- A readable view of decimal digits, at least one, whose number is at most `INT_MAX` is read as that
-- number.
pub sv_to_int-decimal :
    (sv : StringView)
    → sv.len ≢ 0
    → IsReadable sv
    → all_decimal (content sv) ≡ true
    → decimal_from 0 (content sv) ≤ int_max
    → sv_to_int sv ≡ value (decimal_from 0 (content sv))
unfolding sv_to_int
sv_to_int-decimal sv ne r d h = ground (arith, loop-value sv.len sv.data_ 0 r d h)

-- A number is returned only for a view that is not empty, lies in its memory and has nothing but decimal
-- digits; it is the number that they mean, and at most `INT_MAX`.
pub sv_to_int_sound :
    (sv : StringView) (v : ℕ)
    → sv_to_int sv ≡ value v
    → (sv.len ≢ 0)
      × IsReadable sv
      × (all_decimal (content sv) ≡ true)
      × (v ≡ decimal_from 0 (content sv))
      × (v ≤ int_max)
unfolding sv_to_int
sv_to_int_sound sv v h = elim (Bool-cases (sv.len == 0)) [
  | inl e ↦ ground arith
  | inr e ↦
      let (r, d, e', m) = loop-value_inv sv.len sv.data_ 0 v (omega arith) (ground arith) in
      (λ z. ground arith, r, d, e', m)
]
