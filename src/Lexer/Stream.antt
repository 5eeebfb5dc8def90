-- ===== src/Lexer/Stream.antt =====
-- The tokens of a whole source, and the token that `lexer_peek` keeps back.
use rayac.Base.{
  ℕ, zero, suc, ◌≤◌, ◌<◌, true, false, ◌≡◌, refl, List, [], ◌∷◌, some, length, arith, Bool-cases,
  inl, inr,
}
use rayac.Lexer.Chars.{Lexer}
use rayac.Lexer.Laws.{IsValid, Lexed, lexer_next-Lexed}
use rayac.Lexer.Next.{lexer_next, lexer_peek, lexer_advance, all_tokens}
use rayac.Lexer.Scan.{Libc}
use rayac.Lexer.Skip.{left}
use rayac.Lexer.Token.{Token, is_eof}

-- A token that is not the end takes a byte from the bytes that are left.
next-left :
    (libc : Libc) (l : Lexer)
    → Lexed l (lexer_next libc l)
    → is_eof (lexer_next libc l).0.kind ≡ false
    → left (lexer_next libc l).1 < left l
next-left libc l x n = elim x.ends [
  | inl (e, _, _) ↦ cc
  | inr (_, f) ↦ omega (arith, x.behind, x.extent, x.source_len, x.valid.within)
]

more_fuel :
    (libc : Libc) (fuel : ℕ) (l : Lexer)
    → is_eof (lexer_next libc l).0.kind ≡ false
    → {ts : List Token} → all_tokens libc fuel (lexer_next libc l).1 ≡ some ts
    → all_tokens libc (suc fuel) l ≡ some ((lexer_next libc l).0 ∷ ts)
unfolding all_tokens
more_fuel libc fuel l n e = rw (n, e)

last_token :
    (libc : Libc) (fuel : ℕ) (l : Lexer)
    → is_eof (lexer_next libc l).0.kind ≡ true
    → all_tokens libc (suc fuel) l ≡ some []
unfolding all_tokens
last_token libc fuel l e = rw e

-- From a valid lexer with no token kept back, the loop over the tokens of a source ends: with more fuel than bytes are left it reaches the end
-- of the source, after at most one token for each byte.
pub all_tokens_total :
    (libc : Libc) (fuel : ℕ) (l : Lexer)
    → l.has_current ≡ false
    → IsValid l
    → left l < fuel
    → (ts : List Token) × (all_tokens libc fuel l ≡ some ts) × (length ts ≤ left l)
all_tokens_total libc zero l c v h = absurd (omega arith)
all_tokens_total libc (suc fuel) l c v h =
    let x = lexer_next-Lexed libc l c v in
    elim (Bool-cases (is_eof (lexer_next libc l).0.kind)) [
      | inl e ↦ ([], last_token libc fuel l e, omega arith)
      | inr n ↦
          let d = next-left libc l x n in
          let (ts, run, bound) =
            all_tokens_total libc fuel (lexer_next libc l).1 x.has_current x.valid (omega arith) in
          ((lexer_next libc l).0 ∷ ts, more_fuel libc fuel l n run, omega arith)
    ]

-- `lexer_next` and `lexer_peek`, where a token is kept back and where none is.
module _ (libc : Libc) (l : Lexer) where
  next_kept :
      l.has_current ≡ true → lexer_next libc l ≡ (l.current, record l { has_current = false })
  unfolding lexer_next
  next_kept e = ground arith

  peek_kept : l.has_current ≡ true → lexer_peek libc l ≡ (l.current, l)
  unfolding lexer_peek
  peek_kept e = ground arith

  peek_fresh :
      l.has_current ≡ false
      → lexer_peek libc l ≡ (
        (lexer_next libc l).0,
        record (lexer_next libc l).1 { current = (lexer_next libc l).0; has_current = true },
      )
  unfolding lexer_peek
  peek_fresh e = ground arith

-- Peeking takes nothing from the stream: `lexer_peek` shows the token that `lexer_next` would return,
-- and `lexer_next` behind it returns that token and leaves the lexer where it leaves it without the
-- peek, but for the token that `current` holds. A second peek changes nothing, and `lexer_advance`
-- leaves the lexer as a peek and a `lexer_next` leave it.
pub lexer_peek-next :
    (libc : Libc) (l : Lexer)
    → ((lexer_peek libc l).0 ≡ (lexer_next libc l).0)
      × ((lexer_next libc (lexer_peek libc l).1).0 ≡ (lexer_next libc l).0)
      × ((lexer_next libc (lexer_peek libc l).1).1
          ≡ record (lexer_next libc l).1 { current = (lexer_next libc l).0; has_current = false })
      × (lexer_peek libc (lexer_peek libc l).1 ≡ lexer_peek libc l)
      × (lexer_advance libc l ≡ (lexer_next libc (lexer_peek libc l).1).1)
lexer_peek-next libc l = elim (Bool-cases l.has_current) [
  | inl kept ↦
      let p = peek_kept libc l kept in
      let n = next_kept libc l kept in
      (cc (p, n), cc p, kept_state n p, cc p, unfold lexer_advance in (cc (p, n)))
  | inr fresh ↦
      let p = peek_fresh libc l fresh in
      let k = record (lexer_next libc l).1 {
        current = (lexer_next libc l).0;
        has_current = true;
      } in
      let p' = peek_kept libc k refl in
      let n' = next_kept libc k refl in
      (cc p, cc (p, n'), cc (p, n'), cc (p, p'), unfold lexer_advance in (cc (p, n')))
]
  where
    kept_state :
        lexer_next libc l ≡ (l.current, record l { has_current = false })
        → lexer_peek libc l ≡ (l.current, l)
        → (lexer_next libc (lexer_peek libc l).1).1
          ≡ record (lexer_next libc l).1 { current = (lexer_next libc l).0; has_current = false }
    kept_state n p = rw (p, n) refl
