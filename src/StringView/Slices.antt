-- ===== src/StringView/Slices.antt =====
-- Comparison and slices of views, in terms of the bytes that they show.
use rayac.Base.{
  ℕ, zero, suc, ◌+◌, ◌-◌, ◌≤◌, true, ◌≡◌, refl, ap, ◌↔◌, [], ◌∷◌, ◌∙◌, length, take, drop,
  length-take, length-drop, bytes_eq, bytes_eq_sound, bytes_eq_refl, ltb, ◌==◌, ==_iff, arith,
  Bytes, Bool-cases, inl, inr, sym,
}
use rayac.StringView.View.{StringView, content, IsReadable, sv_eq, sv_eq_cstr, sv_slice, between}

pub take_all : (xs : Bytes) → take (length xs) xs ≡ xs
take_all [] = refl
take_all (x ∷ xs) = ap (◌∷◌ x) (take_all xs)

pub take-drop-take :
    (k n m : ℕ) (xs : Bytes) → n + k ≤ m → take n (drop k xs) ≡ take n (drop k (take m xs))
take-drop-take zero zero m xs h = refl
take-drop-take zero (suc n) zero xs h = absurd (omega arith)
take-drop-take zero (suc n) (suc m) [] h = refl
take-drop-take zero (suc n) (suc m) (x ∷ xs) h =
    ap (◌∷◌ x) (take-drop-take zero n m xs (omega arith))
take-drop-take (suc k) n zero xs h = absurd (omega arith)
take-drop-take (suc k) n (suc m) [] h = refl
take-drop-take (suc k) n (suc m) (x ∷ xs) h = take-drop-take k n m xs (omega arith)

pub length-content : (s : StringView) → IsReadable s → length (content s) ≡ s.len
length-content s h = omega (arith, length-take s.len s.data_)

-- Two readable views are equal for `sv_eq` exactly when they show the same bytes.
pub sv_eq_iff :
    (a b : StringView) → IsReadable a → IsReadable b → (sv_eq a b ≡ true) ↔ (content a ≡ content b)
unfolding sv_eq
sv_eq_iff a b ra rb = (to, from)
  where
    lengths : content a ≡ content b → a.len ≡ b.len
    lengths e = omega (arith, ap length e, length-content a ra, length-content b rb)

    to : sv_eq a b ≡ true → content a ≡ content b
    to h = elim (Bool-cases (a.len == b.len)) [
      | inl same ↦
          let e = (==_iff a.len b.len).0 same in
          let h' : bytes_eq (take a.len a.data_) (take a.len b.data_) ≡ true = ground arith in
          bytes_eq_sound _ _ h' ∙ ap (λ n. take n b.data_) e
      | inr differ ↦ ground arith
    ]

    from : content a ≡ content b → sv_eq a b ≡ true
    from e =
        let el = lengths e in
        let shown : take a.len a.data_ ≡ take a.len b.data_ =
          e ∙ ap (λ n. take n b.data_) (sym el) in
        rw ((==_iff a.len b.len).1 el, shown) (bytes_eq_refl _)

-- A readable view equals a C string for `sv_eq_cstr` exactly when it shows its bytes.
pub sv_eq_cstr_iff :
    (a : StringView) (b : Bytes) → IsReadable a → (sv_eq_cstr a b ≡ true) ↔ (content a ≡ b)
unfolding sv_eq_cstr
sv_eq_cstr_iff a b ra = (to, from)
  where
    to : sv_eq_cstr a b ≡ true → content a ≡ b
    to h = elim (Bool-cases (a.len == length b)) [
      | inl same ↦
          let e = (==_iff a.len (length b)).0 same in
          let h' : bytes_eq (take a.len a.data_) (take a.len b) ≡ true = ground arith in
          bytes_eq_sound _ _ h' ∙ ap (λ n. take n b) e ∙ take_all b
      | inr differ ↦ ground arith
    ]

    from : content a ≡ b → sv_eq_cstr a b ≡ true
    from e =
        let el : a.len ≡ length b = omega (arith, ap length e, length-content a ra) in
        let shown : take a.len a.data_ ≡ take a.len b =
          e ∙ sym (take_all b) ∙ ap (λ n. take n b) (sym el) in
        rw ((==_iff a.len (length b)).1 el, shown) (bytes_eq_refl _)

between-content :
    (s : StringView) (i j : ℕ)
    → i ≤ j
    → j ≤ s.len
    → content (between s i j) ≡ take (j - i) (drop i (content s))
unfolding between
between-content s i j h k = elim (Bool-cases (ltb j i)) [
  | inl swapped ↦ absurd (ground arith)
  | inr order ↦ rw order (take-drop-take i (j - i) s.len s.data_ (omega arith))
]

-- Within the view, in order, `sv_slice` shows the bytes from `start` up to `end`.
pub sv_slice-content :
    (s : StringView) (start end : ℕ)
    → start ≤ end
    → end ≤ s.len
    → content (sv_slice s start end) ≡ take (end - start) (drop start (content s))
unfolding sv_slice
sv_slice-content s start end h k = elim (Bool-cases (ltb s.len start)) [
  | inl over ↦ absurd (ground arith)
  | inr fits ↦ elim (Bool-cases (ltb s.len end)) [
    | inl over ↦ absurd (ground arith)
    | inr fits' ↦ rw (fits, fits') (between-content s start end h k)
  ]
]

-- Whatever the two positions are, a slice of a readable view is readable, and no longer.
pub sv_slice-IsReadable :
    (s : StringView) (start end : ℕ)
    → IsReadable s
    → IsReadable (sv_slice s start end) × ((sv_slice s start end).len ≤ s.len)
unfolding sv_slice between
sv_slice-IsReadable s start end r =
    ground (arith, length-drop start s.data_, length-drop end s.data_, length-drop s.len s.data_)
