-- ===== src/Arena/Align.antt =====
-- Powers of two, and the offsets that are rounded up to them.
use native.Mathlib.Nat.{pow-suc, mod-lt, mod-eq_of_lt, div-add-mod', mul-mod_left, pow-le-pow_right}
use rayac.Base.{
  ℕ, zero, suc, ◌+◌, ◌-◌, ◌*◌, ◌/◌, ◌%◌, ◌^◌, ◌≤◌, ◌<◌, true, ◌≡◌, ◌≢◌, ap, ◌∙◌, subst, bit_and,
  arith, ◌⊎◌, inl, inr, ◌↔◌,
}
use native.Mathlib.Decide.{dec_lt}
use rayac.Base.Bits.{bit_and_step, zero-bit_and, bit_and_high, pow-two_pos}
use rayac.Arena.Chunks.{
  Chunk, size_not, wrap, is_power_of_two, round_up, align_up, aligned_offset, returns,
}

parity : (x : ℕ) → ((y : ℕ) × (x ≡ y * 2)) ⊎ ((y : ℕ) × (x ≡ y * 2 + 1))
parity x = elim (dec_lt 0 (x % 2)) [
  | yes p ↦ inr (x / 2, omega arith)
  | no p ↦ inl (x / 2, omega arith)
]

bit_and_self : (fuel x : ℕ) → x ≤ fuel → bit_and x x ≡ x
bit_and_self zero x h = let e : x ≡ 0 = omega arith in rw e (zero-bit_and 0)
bit_and_self (suc fuel) zero h = zero-bit_and 0
bit_and_self (suc fuel) (suc x) h =
    omega (arith, bit_and_step (suc x) (suc x), bit_and_self fuel (suc x / 2) (omega arith))

pow_of_and : (fuel x : ℕ) → x ≤ fuel → x ≢ 0 → bit_and x (x - 1) ≡ 0 → (k : ℕ) × (x ≡ 2 ^ k)
pow_of_and zero x h n e = absurd (n (omega arith))
pow_of_and (suc fuel) x h n e = elim (parity x) [
  | inl (y, p) ↦
      let half : (x - 1) / 2 ≡ y - 1 = omega arith in
      let here : x / 2 ≡ y = omega arith in
      let step = bit_and_step x (x - 1) in
      let low : bit_and y (y - 1) ≡ 0 =
        omega (arith, step, ap (bit_and (x / 2)) half, ap (λ (m : ℕ). bit_and m (y - 1)) here) in
      let (k, q) = pow_of_and fuel y (omega arith) (λ z. n (omega arith)) low in
      (suc k, omega (arith, pow-suc 2 k))
  | inr (y, p) ↦
      let half : (x - 1) / 2 ≡ y = omega arith in
      let here : x / 2 ≡ y = omega arith in
      let step = bit_and_step x (x - 1) in
      let low : y ≡ 0 = omega (
        arith,
        step,
        ap (bit_and (x / 2)) half,
        ap (λ (m : ℕ). bit_and m y) here,
        bit_and_self y y (omega arith),
      ) in
      (0, omega arith)
]

pow-and : (k : ℕ) → bit_and (2 ^ k) (2 ^ k - 1) ≡ 0
pow-and zero = omega (arith, bit_and_step 1 0, zero-bit_and 0)
pow-and (suc k) =
    let p = pow-two_pos k in
    let half : (2 ^ k * 2 - 1) / 2 ≡ 2 ^ k - 1 = omega arith in
    let here : 2 ^ k * 2 / 2 ≡ 2 ^ k = omega arith in
    rw (pow-suc 2 k) (
      omega (
        arith,
        bit_and_step (2 ^ k * 2) (2 ^ k * 2 - 1),
        ap (bit_and (2 ^ k * 2 / 2)) half,
        ap (λ (m : ℕ). bit_and m (2 ^ k - 1)) here,
        pow-and k,
      ))

-- The test `x != 0 && (x & (x - 1)) == 0` holds exactly of the powers of two.
pub is_power_of_two_iff : (x : ℕ) → (is_power_of_two x ≡ true) ↔ ((k : ℕ) × (x ≡ 2 ^ k))
unfolding is_power_of_two
is_power_of_two_iff x = (
  λ h. pow_of_and x x (omega arith) (ground arith) (ground arith),
  λ (k, e). rw e (ground (arith, pow-and k, pow-two_pos k)),
)

-- `align` is a power of two that a `size_t` holds.
module _ (align k : ℕ) (power : align ≡ 2 ^ k) (k_le : k ≤ 64) where
  clear_low : (x : ℕ) → x < 2 ^ 64 → bit_and x (size_not (align - 1)) + x % align ≡ x
  clear_low x h =
      let e : k + (64 - k) ≡ 64 = omega arith in
      let law = bit_and_high k (64 - k) x in
      let law' : x < 2 ^ 64 → bit_and x (2 ^ 64 - 2 ^ k) + x % 2 ^ k ≡ x =
        subst (λ (n : ℕ). x < 2 ^ n → bit_and x (2 ^ n - 2 ^ k) + x % 2 ^ k ≡ x) e law in
      let mask : size_not (align - 1) ≡ 2 ^ 64 - 2 ^ k = omega (arith, power, pow-two_pos k) in
      omega (arith, law' h, ap (bit_and x) mask, ap (λ (n : ℕ). x % n) power)

  -- Where the alignment is a power of two up to 2 ^ 64 and its sum with the bytes in use is at most
  -- 2 ^ 64, the offset is the least multiple of the alignment that
  -- is not below the bytes in use.
  pub aligned_offset_lem :
      (c : Chunk)
      → c.used + align ≤ 2 ^ 64
      → (c.used ≤ aligned_offset c align)
        × (aligned_offset c align < c.used + align)
        × (aligned_offset c align % align ≡ 0)
  unfolding aligned_offset
  aligned_offset_lem c h =
      let pos : 1 ≤ align = omega (arith, power, pow-two_pos k) in
      let x = c.used + align - 1 in
      let e : wrap (c.used + align + 2 ^ 64 - 1) ≡ x = omega arith in
      let law = clear_low x (omega arith) in
      let multiple : bit_and x (size_not (align - 1)) ≡ x / align * align =
        omega (arith, law, div-add-mod' x align) in
      let even : bit_and x (size_not (align - 1)) % align ≡ 0 =
        ap (λ (n : ℕ). n % align) multiple ∙ mul-mod_left (x / align) align in
      let low = mod-lt x pos in rw e (omega (arith, law), omega (arith, law), even)

  pub align_up-zero : is_power_of_two align ≡ true → align_up 0 align ≡ returns 0
  unfolding align_up round_up
  align_up-zero h =
      let pos : 1 ≤ align = omega (arith, power, pow-two_pos k) in
      let le : align ≤ 2 ^ 64 = omega (arith, power, pow-le-pow_right {n = 2} (omega arith) k_le) in
      let law = clear_low (align - 1) (omega arith) in
      let e : wrap (0 + (align - 1)) ≡ align - 1 = omega arith in
      let small : (align - 1) % align ≡ align - 1 = mod-eq_of_lt (omega arith) in
      let zero_ : bit_and (wrap (0 + (align - 1))) (size_not (align - 1)) ≡ 0 =
        omega (arith, law, small, ap (λ (n : ℕ). bit_and n (size_not (align - 1))) e) in
      ground (arith, zero_)
