-- ===== src/Lexer/Moves.antt =====
-- How the lexer's position and line move together: the line counts the newlines that were read.
use rayac.Base.{
  ℕ, zero, suc, ◌+◌, ◌≤◌, ◌<◌, ◌≡◌, refl, [], ◌∷◌, Bytes, get_or, ◌==◌, if◌then◌else◌, arith, ◌∙◌,
}
use rayac.Diag.Engine.{SourceLocation, Message}
use rayac.Lexer.Chars.{Lexer, char_at, lexer_advance_char, step_past, advance, report}

-- The newlines among the first `n` bytes.
abbrev pub newlines_upto : ℕ → Bytes → ℕ
newlines_upto zero s = 0
newlines_upto (suc n) [] = 0
newlines_upto (suc n) (c ∷ s) = (if c == b'\n' then 1 else 0) + newlines_upto n s

newlines_upto-suc :
    (n : ℕ) (s : Bytes)
    → newlines_upto (suc n) s ≡ newlines_upto n s + (if get_or s n 0 == b'\n' then 1 else 0)
newlines_upto-suc zero [] = refl
newlines_upto-suc zero (c ∷ s) = omega arith
newlines_upto-suc (suc n) [] = refl
newlines_upto-suc (suc n) (c ∷ s) = omega (arith, newlines_upto-suc n s)

pub newlines_upto-one :
    (n : ℕ) (s : Bytes)
    → newlines_upto (n + 1) s ≡ newlines_upto n s + (if get_or s n 0 == b'\n' then 1 else 0)
newlines_upto-one n s = let e : n + 1 ≡ suc n = omega arith in rw e (newlines_upto-suc n s)

-- The newlines before the position.
abbrev pub newlines : Lexer → ℕ
newlines l = newlines_upto l.pos l.source

-- What every move of the lexer keeps.
pub record Moves (l l' : Lexer) : Type 0 where
  pub source : l'.source ≡ l.source
  pub source_len : l'.source_len ≡ l.source_len
  pub filename : l'.filename ≡ l.filename
  pub has_current : l'.has_current ≡ l.has_current
  pub forward : l.pos ≤ l'.pos
  pub within : l.pos ≤ l.source_len → l'.pos ≤ l.source_len
  pub lines : l'.line + newlines l ≡ l.line + newlines l'

pub Moves-stay : (l : Lexer) → Moves l l
Moves-stay l = record {
  source = refl;
  source_len = refl;
  filename = refl;
  has_current = refl;
  forward = omega arith;
  within = λ h. h;
  lines = refl;
}

pub Moves-trans : {l m n : Lexer} → Moves l m → Moves m n → Moves l n
Moves-trans {l} {m} {n} p q = record {
  source = q.source ∙ p.source;
  source_len = q.source_len ∙ p.source_len;
  filename = q.filename ∙ p.filename;
  has_current = q.has_current ∙ p.has_current;
  forward = omega (arith, p.forward, q.forward);
  within = λ h. ground (arith, p.within h, q.within);
  lines = omega (arith, p.lines, q.lines);
}

-- A report moves nothing.
pub report-Moves : (l : Lexer) (loc : SourceLocation) (m : Message) → Moves l (report l loc m)
unfolding report
report-Moves l loc m = ground (arith, Moves-stay l)

pub step_past-Moves : (l : Lexer) → l.pos < l.source_len → Moves l (step_past (char_at l l.pos) l)
unfolding step_past
step_past-Moves l h = ground (arith, newlines_upto-one l.pos l.source)

pub advance-Moves : (l : Lexer) → Moves l (advance l)
unfolding lexer_advance_char
advance-Moves l = ground (arith, step_past-Moves l, Moves-stay l)

-- A move by one character at least.
pub advance-pos : (l : Lexer) → l.pos < l.source_len → (advance l).pos ≡ l.pos + 1
unfolding lexer_advance_char
advance-pos l h = ground arith
