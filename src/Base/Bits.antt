-- ===== src/Base/Bits.antt =====
-- Laws of `bit_and` at variables, from the digit recursion that it stands for.
use Prim.Native.Nat.{
  ℕ, zero, suc, ◌+◌, ◌-◌, ◌*◌, ◌/◌, ◌%◌, ◌^◌, ◌≤◌, ◌<◌, min, bit_and, digits, bit_and-bitwise,
}
use mathlib.Core.Path.{◌≡◌, refl, ap, ◌∙◌, sym}
use native.Mathlib.Nat.{
  pow-suc, pow-le-pow_right, mod-lt, mod-eq_of_lt, div-add-mod', add-mul-mod_self_right,
}
use Prim.Native.Nat.add
use native.Mathlib.Omega.{arith}

-- The recursion, with the number of digits that it may read last.
abbrev conjunction : ℕ → ℕ → ℕ → ℕ
conjunction x y budget = digits (λ rest. 0) min budget x y

conjunction_none : (y budget : ℕ) → conjunction 0 y budget ≡ 0
conjunction_none y zero = refl
conjunction_none y (suc budget) = refl

-- Any two budgets that cover the digits of `x` give the same digits.
conjunction_budget :
    (one two x y : ℕ) → (x ≤ one) × (x ≤ two) → conjunction x y one ≡ conjunction x y two
conjunction_budget one two zero y covered = conjunction_none y one ∙ sym (conjunction_none y two)
conjunction_budget zero two (suc x) y covered = absurd (omega (arith, covered.0))
conjunction_budget (suc one) zero (suc x) y covered = absurd (omega (arith, covered.1))
conjunction_budget (suc one) (suc two) (suc x) y covered =
    let halves =
      conjunction_budget one two (suc x / 2) (y / 2)
        (omega (arith, covered.0), omega (arith, covered.1)) in
    ap (λ (high : ℕ). high * 2 + min (suc x % 2) (y % 2)) halves

pub zero-bit_and : (y : ℕ) → bit_and 0 y ≡ 0
zero-bit_and y = bit_and-bitwise 0 y ∙ conjunction_none y 0

pub bit_and_step : (x y : ℕ) → bit_and x y ≡ bit_and (x / 2) (y / 2) * 2 + min (x % 2) (y % 2)
bit_and_step zero y = omega (arith, zero-bit_and (y / 2), zero-bit_and y)
bit_and_step (suc x) y =
    let own = bit_and-bitwise (suc x) y in
    let half = bit_and-bitwise (suc x / 2) (y / 2) in
    let shorter : (suc x / 2 ≤ x) × (suc x / 2 ≤ suc x / 2) = (omega arith, omega arith) in
    let same = conjunction_budget x (suc x / 2) (suc x / 2) (y / 2) shorter in
    omega (arith, own, half, same)

pub pow-two_pos : (j : ℕ) → 1 ≤ 2 ^ j
pow-two_pos zero = omega arith
pow-two_pos (suc j) = omega (arith, pow-suc 2 j, pow-two_pos j)

and_ones_step : (p x : ℕ) → 1 ≤ p → bit_and (x / 2) (p - 1) ≡ x / 2 → bit_and x (p * 2 - 1) ≡ x
and_ones_step p x h ih =
    let half : (p * 2 - 1) / 2 ≡ p - 1 = omega arith in
    omega (arith, bit_and_step x (p * 2 - 1), ap (bit_and (x / 2)) half)

-- x & (2 ^ j - 1) is x where x has at most j digits.
and_ones : (j x : ℕ) → x < 2 ^ j → bit_and x (2 ^ j - 1) ≡ x
and_ones zero x h = let e : x ≡ 0 = omega arith in rw e (zero-bit_and 0)
and_ones (suc j) x h =
    rw (pow-suc 2 j)
      (and_ones_step (2 ^ j) x (pow-two_pos j) (and_ones j (x / 2) (omega (arith, pow-suc 2 j))))

mod_double : (p x : ℕ) → 1 ≤ p → x % (p * 2) ≡ x / 2 % p * 2 + x % 2
mod_double p x h =
    let d = x / 2 % p * 2 + x % 2 in
    let q = x / 2 / p in
    let small : d < p * 2 = omega (arith, mod-lt (x / 2) h) in
    let whole : x ≡ d + q * (p * 2) = omega (arith, div-add-mod' (x / 2) p) in
    ap (λ (n : ℕ). n % (p * 2)) whole ∙ add-mul-mod_self_right d q (p * 2) ∙ mod-eq_of_lt small

and_high_step :
    (p q x : ℕ)
    → 1 ≤ p
    → p ≤ q
    → bit_and (x / 2) (q - p) + x / 2 % p ≡ x / 2
    → bit_and x (q * 2 - p * 2) + x % (p * 2) ≡ x
and_high_step p q x h k ih =
    let half : (q * 2 - p * 2) / 2 ≡ q - p = omega arith in
    omega (arith, bit_and_step x (q * 2 - p * 2), ap (bit_and (x / 2)) half, mod_double p x h)

-- x & (2 ^ (k + j) - 2 ^ k) clears the k lowest digits of x.
pub bit_and_high : (k j x : ℕ) → x < 2 ^ (k + j) → bit_and x (2 ^ (k + j) - 2 ^ k) + x % 2 ^ k ≡ x
bit_and_high zero j x h =
    let e : 0 + j ≡ j = omega arith in
    let h' : x < 2 ^ j = rw e at h in
    let ones : bit_and x (2 ^ (0 + j) - 1) ≡ x = rw e (and_ones j x h') in omega (arith, ones)
bit_and_high (suc k) j x h =
    let e : 2 ^ (suc k + j) ≡ 2 ^ (k + j) * 2 =
      ap (λ (n : ℕ). 2 ^ n) (add.suc k j) ∙ pow-suc 2 (k + j) in
    let le : 2 ^ k ≤ 2 ^ (k + j) = pow-le-pow_right (omega arith) (omega arith) in
    rw (e, pow-suc 2 k)
      (and_high_step (2 ^ k) (2 ^ (k + j)) x (pow-two_pos k) le
        (bit_and_high k j (x / 2) (omega (arith, e))))
