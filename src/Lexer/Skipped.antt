-- ===== src/Lexer/Skipped.antt =====
-- What `lexer_skip_whitespace` does: it only moves the lexer, and stops at the end of the source or
-- at a character that begins a token.
use rayac.Base.{
  ℕ, zero, suc, ◌+◌, ◌-◌, ◌≤◌, ◌<◌, Bool, true, false, not, ◌&&◌, ◌≡◌, refl, ltb, ◌==◌, arith,
  Bool-cases, inl, inr, ◌⊎◌, &&-eq-true, ltb→lt,
}
use rayac.Lexer.Chars.{Lexer, char_at, advance, is_space}
use rayac.Lexer.Moves.{
  Moves, Moves-stay, Moves-trans, newlines_upto-one, advance-Moves, advance-pos, report-Moves,
}
use rayac.Lexer.Skip.{
  left, skip_line, pair_at, comment_char, comment_round, nesting_error, skip_block, Round, stop,
  go_on, round, skip_loop, lexer_skip_whitespace,
}

line_step :
    (l : Lexer)
    → (ltb l.pos l.source_len && not (char_at l l.pos == b'\n')) ≡ true
    → Moves l (record l { pos = l.pos + 1 })
line_step l h = ground (arith, newlines_upto-one l.pos l.source)

skip_line-Moves : (fuel : ℕ) (l : Lexer) → Moves l (skip_line fuel l)
unfolding skip_line
skip_line-Moves zero l = Moves-stay l
skip_line-Moves (suc fuel) l =
    elim (Bool-cases (ltb l.pos l.source_len && not (char_at l l.pos == b'\n'))) [
      | inl on ↦
          rw on (Moves-trans (line_step l on) (skip_line-Moves fuel (record l { pos = l.pos + 1 })))
      | inr off ↦ rw off (Moves-stay l)
    ]

-- Two characters that are no newlines.
two_step :
    (l : Lexer) (a b k : ℕ)
    → (pair_at l a b) ≡ true
    → (a == b'\n') ≡ false
    → (b == b'\n') ≡ false
    → Moves l (record l { pos = l.pos + 2; column = k })
two_step l a b k h p q =
    let e : l.pos + 2 ≡ (l.pos + 1) + 1 = omega arith in
    ground (arith, e, newlines_upto-one l.pos l.source, newlines_upto-one (l.pos + 1) l.source)

comment_char-Moves : (l : Lexer) → l.pos < l.source_len → Moves l (comment_char l)
unfolding comment_char
comment_char-Moves l h = ground (arith, newlines_upto-one l.pos l.source)

comment_round-Moves :
    (l : Lexer) (depth : ℕ) → l.pos < l.source_len → Moves l (comment_round l depth).1
unfolding comment_round
comment_round-Moves l depth h = elim (Bool-cases (pair_at l b'/' b'*')) [
  | inl opens ↦ rw opens (two_step l b'/' b'*' l.column opens refl refl)
  | inr other ↦ elim (Bool-cases (pair_at l b'*' b'/')) [
    | inl closes ↦ rw (other, closes) (two_step l b'*' b'/' l.column closes refl refl)
    | inr plain ↦ rw (other, plain) (comment_char-Moves l h)
  ]
]

nesting_error-Moves : (l : Lexer) → Moves l (nesting_error l)
unfolding nesting_error
nesting_error-Moves l = report-Moves l _ _

skip_block-Moves : (fuel depth : ℕ) (l : Lexer) → Moves l (skip_block fuel depth l)
unfolding skip_block
skip_block-Moves zero depth l = Moves-stay l
skip_block-Moves (suc fuel) depth l = elim (Bool-cases (ltb l.pos l.source_len && ltb 0 depth)) [
  | inl on ↦
      let moved = comment_round-Moves l depth (ltb→lt _ _ (&&-eq-true _ _ on).0) in
      elim (Bool-cases (ltb 16 (comment_round l depth).0)) [
        | inl deep ↦
            rw (on, deep) (Moves-trans moved (nesting_error-Moves (comment_round l depth).1))
        | inr fine ↦
            rw (on, fine)
              (Moves-trans moved
                (skip_block-Moves fuel (comment_round l depth).0 (comment_round l depth).1))
      ]
  | inr off ↦ rw off (Moves-stay l)
]

-- A token begins here: no white space, and no comment.
abbrev pub begins_token : Lexer → Bool
begins_token l =
    not (is_space (char_at l l.pos)) && (not (pair_at l b'/' b'/') && not (pair_at l b'/' b'*'))

skip_line-forward :
    (l : Lexer)
    → l.pos + 1 < l.source_len
    → (char_at l l.pos == b'/') ≡ true
    → l.pos < (skip_line (left l) l).pos
skip_line-forward l h s =
    let e : left l ≡ suc (l.source_len - l.pos - 1) = omega arith in
    rw e (step (l.source_len - l.pos - 1))
  where
    step : (n : ℕ) → l.pos < (skip_line (suc n) l).pos
    step n =
        let on : (ltb l.pos l.source_len && not (char_at l l.pos == b'\n')) ≡ true = ground arith in
        let m = skip_line-Moves n (record l { pos = l.pos + 1 }) in
        let stepped : skip_line (suc n) l ≡ skip_line n (record l { pos = l.pos + 1 }) =
          unfold skip_line in (rw on) in
        rw stepped (omega (arith, m.forward))

-- A round that goes on moves the lexer by one character at least.
abbrev RoundHolds : Lexer → Round → Type 0
RoundHolds l stop = begins_token l ≡ true
RoundHolds l (go_on l') = Moves l l' × (l.pos < l'.pos)

abbrev opened : Lexer → Lexer
opened l = record l { pos = l.pos + 2; column = l.column + 2 }

module _ (l : Lexer) (here : l.pos < l.source_len) where
  space_round : (is_space (char_at l l.pos)) ≡ true → RoundHolds l (go_on (advance l))
  space_round s = (advance-Moves l, omega (arith, advance-pos l here))

  line_round : (pair_at l b'/' b'/') ≡ true → RoundHolds l (go_on (skip_line (left l) l))
  line_round p = (skip_line-Moves (left l) l, skip_line-forward l (ground arith) (ground arith))

  block_round :
      (pair_at l b'/' b'*') ≡ true
      → RoundHolds l (go_on (skip_block (left (opened l)) 1 (opened l)))
  block_round p =
      let m = skip_block-Moves (left (opened l)) 1 (opened l) in
      (Moves-trans (two_step l b'/' b'*' (l.column + 2) p refl refl) m, omega (arith, m.forward))

  round_lem : RoundHolds l (round l)
  unfolding round
  round_lem = elim (Bool-cases (is_space (char_at l l.pos))) [
    | inl s ↦ rw s (space_round s)
    | inr ns ↦ elim (Bool-cases (char_at l l.pos == b'/' && ltb (l.pos + 1) l.source_len)) [
      | inr plain ↦ rw (ns, plain) (ground arith)
      | inl slash ↦ elim (Bool-cases (char_at l (l.pos + 1) == b'/')) [
        | inl line ↦ rw (ns, slash, line) (line_round (ground arith))
        | inr nl ↦ elim (Bool-cases (char_at l (l.pos + 1) == b'*')) [
          | inl block ↦ rw (ns, slash, nl, block) (block_round (ground arith))
          | inr nb ↦ rw (ns, slash, nl, nb) (ground arith)
        ]
      ]
    ]
  ]

-- At the end of the source, or where a token begins.
abbrev Skipped : Lexer → Type 0
Skipped l = (l.source_len ≤ l.pos) ⊎ (begins_token l ≡ true)

after_round :
    (l : Lexer) (rest : Lexer → Lexer) (r : Round)
    → RoundHolds l r
    → {fuel : ℕ} → ((l' : Lexer) → left l' ≤ fuel → Moves l' (rest l') × Skipped (rest l'))
    → left l ≤ suc fuel
    → Moves l (elim r [ stop ↦ l | go_on l' ↦ rest l' ])
      × Skipped (elim r [ stop ↦ l | go_on l' ↦ rest l' ])
after_round l rest stop b ih h = (Moves-stay l, inr b)
after_round l rest (go_on l') (m, f) ih h =
    let (m', s) = ih l' (omega (arith, m.source_len)) in (Moves-trans m m', s)

skip_loop_lem :
    (fuel : ℕ) (l : Lexer) → left l ≤ fuel → Moves l (skip_loop fuel l) × Skipped (skip_loop fuel l)
unfolding skip_loop
skip_loop_lem zero l h = (Moves-stay l, inl (omega arith))
skip_loop_lem (suc fuel) l h = elim (Bool-cases (ltb l.pos l.source_len)) [
  | inr off ↦ rw off (Moves-stay l, inl (ground arith))
  | inl on ↦ rw on (
      after_round l (skip_loop fuel) (round l) (round_lem l (ltb→lt _ _ on))
        (λ l' b. skip_loop_lem fuel l' b) h)
]

pub skip_whitespace-Moves : (l : Lexer) → Moves l (lexer_skip_whitespace l)
unfolding lexer_skip_whitespace
skip_whitespace-Moves l = (skip_loop_lem (left l) l (omega arith)).0

-- Where `lexer_skip_whitespace` stops before the end of the source, there is neither white space
-- nor the start of a comment.
pub skip_whitespace-begins_token :
    (l : Lexer)
    → (lexer_skip_whitespace l).pos < (lexer_skip_whitespace l).source_len
    → begins_token (lexer_skip_whitespace l) ≡ true
unfolding lexer_skip_whitespace
skip_whitespace-begins_token l h = elim (skip_loop_lem (left l) l (omega arith)).1 [
  | inl e ↦ absurd (omega arith)
  | inr b ↦ b
]
