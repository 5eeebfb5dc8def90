-- ===== src/Lexer/Idents.antt =====
-- An identifier is as long as it can be.
use rayac.Base.{
  ℕ, zero, suc, ◌≤◌, ◌<◌, Bool, true, false, ◌&&◌, ◌≡◌, ltb, if◌then◌else◌, arith, Bool-cases, inl,
  inr, &&-eq-true, ltb→lt,
}
use native.Mathlib.Decide.{ℕ_discrete}
use rayac.Lexer.Chars.{Lexer, char_at, advance, is_ident_char}
use rayac.Lexer.Moves.{advance-Moves, advance-pos}
use rayac.Lexer.Scan.{ident_loop, scan_ident}
use rayac.Lexer.Skip.{left}

abbrev pub at_ident : Lexer → Bool
at_ident l = ltb l.pos l.source_len && is_ident_char (char_at l l.pos)

ident_loop_stops : (fuel : ℕ) (l : Lexer) → left l ≤ fuel → at_ident (ident_loop fuel l) ≡ false
unfolding ident_loop
ident_loop_stops zero l h = ground arith
ident_loop_stops (suc fuel) l h = elim (Bool-cases (at_ident l)) [
  | inl on ↦ rw on (
      ident_loop_stops fuel (advance l) (
        omega
          (arith, advance-pos l (ltb→lt _ _ (&&-eq-true _ _ on).0), (advance-Moves l).source_len)))
  | inr off ↦ rw off off
]

-- The state after one test of the loop.
abbrev tested : Lexer → Lexer → Lexer
tested l rest = if at_ident l then rest else l

outside : (l rest : Lexer) (i : ℕ) → at_ident l ≡ false → l.pos ≤ i → i < (tested l rest).pos → ⊥
outside l rest i off p q = ground arith

inside : (l rest : Lexer) (i : ℕ) → at_ident l ≡ true → i < (tested l rest).pos → i < rest.pos
inside l rest i on q = ground arith

ident_loop_chars :
    (fuel : ℕ) (l : Lexer) (i : ℕ)
    → l.pos ≤ i
    → i < (ident_loop fuel l).pos
    → is_ident_char (char_at l i) ≡ true
unfolding ident_loop
ident_loop_chars zero l i p q = absurd (omega arith)
ident_loop_chars (suc fuel) l i p q = elim (Bool-cases (at_ident l)) [
  | inr off ↦ absurd (outside l (ident_loop fuel (advance l)) i off p q)
  | inl on ↦ elim (ℕ_discrete i l.pos) [
    | yes e ↦ rw e (&&-eq-true _ _ on).1
    | no ne ↦
        let on' = advance-pos l (ltb→lt _ _ (&&-eq-true _ _ on).0) in
        let later =
          ident_loop_chars fuel (advance l) i (omega arith)
            (inside l (ident_loop fuel (advance l)) i on q) in
        cc (later, (advance-Moves l).source)
  ]
]

-- Every character that `scan_ident` runs over is an identifier character, and where it ran over one,
-- none follows at its end.
pub scan_ident_maximal :
    (start l : Lexer) (i : ℕ)
    → l.pos ≤ i
    → i < (scan_ident start l).1.pos
    → (is_ident_char (char_at l i) ≡ true) × (at_ident (scan_ident start l).1 ≡ false)
unfolding scan_ident
scan_ident_maximal start l i p q =
    (ident_loop_chars (left l) l i p q, ident_loop_stops (left l) l (omega arith))
