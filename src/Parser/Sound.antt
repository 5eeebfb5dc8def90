-- ===== src/Parser/Sound.antt =====
-- Runs of the parsing functions that cannot fault, and a rule for each way to build one.
pub mod Decls
pub mod Exprs
pub mod Members
pub mod Pratt
pub mod Stmts
pub mod TypeExprs
pub mod Unit
pub mod Calls
use rayac.Base.{
  ℕ, zero, suc, ◌+◌, ◌≤◌, ◌<◌, Bool, true, false, Option, none, some, List, [], ◌∷◌, ◌++◌, String,
  ◌⊎◌, inl, inr, ◌≡◌, refl, ap, sym, ◌∙◌, length, get_elem?, leb, leb-false→lt, if◌then◌else◌,
  arith, Bool-cases,
}
use rayac.Ast.Syntax.{AstNode}
use rayac.Lexer.Token.{Token, TokenKind}
use rayac.StringView.View.{IsReadable}
use rayac.Parser.State.{
  Parser, Outcome, returns, faults, out_of_fuel, P, Done, pure, no_fuel, then_on, ◌>>=◌, ◌>>◌, when,
  read, last_token, token_at, parser_current, parser_peek, is_kind, parser_check, parser_at_end,
  step, stepped, parser_match, parser_error, expected, parser_expect, new, loop,
}

abbrev pub has_any {ℓ} : {A : Type ℓ} → List A → Bool
has_any [] = false
has_any (x ∷ xs) = true

-- The parser stands on a list of tokens that is not empty, the text of each lies in its memory, and the
-- flag is set where something was reported.
pub record IsValid (p : Parser) : Type 0 where
  pub counted : p.count ≡ length p.tokens
  pub nonempty : 0 < p.count
  pub flagged : p.had_error ≡ has_any p.reports
  pub readable : (i : ℕ) (t : Token) → get_elem? p.tokens i ≡ some t → IsReadable t.text

-- What a run leaves of the state before it.
pub record Follows (p q : Parser) : Type 0 where
  pub tokens : q.tokens ≡ p.tokens
  pub pos : p.pos ≤ q.pos
  pub next_id : p.next_id ≤ q.next_id
  pub errors : p.had_error ≡ true → q.had_error ≡ true

abbrev pub Ends {ℓ} : {A : Type ℓ} → Parser → Outcome A → Type 0
Ends p (returns a q) = IsValid q × Follows p q
Ends p faults = ⊥
Ends p out_of_fuel = Unit {0}

-- From a valid state, the run does not fault, and where it returns, the state is valid again and
-- follows the first one.
pub record Sound {ℓ} {A : Type ℓ} (m : P A) : Type 0 where
  pub at : (p : Parser) → IsValid p → Ends p (m p)

Follows-refl : (p : Parser) → Follows p p
Follows-refl p = record { tokens = refl; pos = omega arith; next_id = omega arith; errors = λ h. h }

Follows-trans : {p q r : Parser} → Follows p q → Follows q r → Follows p r
Follows-trans f g = record {
  tokens = g.tokens ∙ f.tokens;
  pos = ground (arith, f.pos, g.pos);
  next_id = ground (arith, f.next_id, g.next_id);
  errors = λ h. g.errors (f.errors h);
}

module _ {ℓ} {A : Type ℓ} where
  pub Sound-pure : (a : A) → Sound (pure a)
  unfolding pure
  Sound-pure a = record { at = λ p v. (v, Follows-refl p) }

  pub Sound-no_fuel : Sound (no_fuel {A = A})
  unfolding no_fuel
  Sound-no_fuel = record { at = λ p v. tt }

  pub Sound-if : (b : Bool) (m n : P A) → Sound m → Sound n → Sound (if b then m else n)
  Sound-if true m n sm sn = sm
  Sound-if false m n sm sn = sn

  Ends-Follows : {p q : Parser} (o : Outcome A) → Follows p q → Ends q o → Ends p o
  Ends-Follows (returns a r) f (v, g) = (v, Follows-trans f g)
  Ends-Follows faults f e = e
  Ends-Follows out_of_fuel f e = tt

module _ {ℓ} {A B : Type ℓ} where
  then_on-Ends :
      (p : Parser) (o : Outcome A) (f : A → P B)
      → Ends p o
      → ((a : A) → Sound (f a))
      → Ends p (then_on o f)
  then_on-Ends p (returns a q) f (v, g) sf = Ends-Follows (f a q) g ((sf a).at q v)
  then_on-Ends p faults f e sf = e
  then_on-Ends p out_of_fuel f e sf = tt

  pub Sound-bind : (m : P A) (f : A → P B) → Sound m → ((a : A) → Sound (f a)) → Sound (m >>= f)
  unfolding ◌>>=◌
  Sound-bind m f sm sf = record { at = λ p v. then_on-Ends p (m p) f (sm.at p v) sf }

pub Sound-step : Sound step
unfolding step
Sound-step = record {
  at = λ p v. (
    record {
      counted = v.counted;
      nonempty = v.nonempty;
      flagged = v.flagged;
      readable = v.readable;
    },
    record { tokens = refl; pos = omega arith; next_id = omega arith; errors = λ h. h },
  );
}

pub Sound-new : (make_ : ℕ → AstNode) → Sound (new make_)
unfolding new
Sound-new make_ = record {
  at = λ p v. (
    record {
      counted = v.counted;
      nonempty = v.nonempty;
      flagged = v.flagged;
      readable = v.readable;
    },
    record { tokens = refl; pos = omega arith; next_id = omega arith; errors = λ h. h },
  );
}

has_any-push {ℓ} : {A : Type ℓ} (xs : List A) (x : A) → true ≡ has_any (xs ++ x ∷ [])
has_any-push [] x = refl
has_any-push (y ∷ ys) x = refl

pub Sound-error : (t : Token) (message : String) → Sound (parser_error t message)
unfolding parser_error
Sound-error t message = record {
  at = λ p v. (
    record {
      counted = v.counted;
      nonempty = v.nonempty;
      flagged = has_any-push p.reports (t.loc, message);
      readable = v.readable;
    },
    record { tokens = refl; pos = omega arith; next_id = omega arith; errors = λ h. refl },
  );
}

pub get_elem?-some {ℓ} :
    {A : Type ℓ} (xs : List A) (i : ℕ) → i < length xs → (a : A) × (get_elem? xs i ≡ some a)
get_elem?-some [] i h = elim h [ ]
get_elem?-some (x ∷ xs) zero h = (x, refl)
get_elem?-some (x ∷ xs) (suc i) h = get_elem?-some xs i (omega arith)

last_token-some :
    (tokens : List Token) (count : ℕ)
    → count ≡ length tokens
    → 0 < count
    → (t : Token) × (last_token tokens count ≡ some t)
unfolding last_token
last_token-some tokens zero e h = elim h [ ]
last_token-some tokens (suc n) e h = get_elem?-some tokens n (omega arith)

token_at-some : (p : Parser) (i : ℕ) → IsValid p → (t : Token) × (token_at p i ≡ some t)
unfolding token_at
token_at-some p i v = elim (Bool-cases (leb p.count i)) [
  | inl h ↦ rw h (last_token-some p.tokens p.count v.counted v.nonempty)
  | inr h ↦ rw h (get_elem?-some p.tokens i (ground (arith, v.counted, leb-false→lt p.count i h)))
]

read-Ends : (p : Parser) (i : ℕ) → IsValid p → Ends p (read (token_at p i) p)
unfolding read
read-Ends p i v = let (t, e) = token_at-some p i v in rw e (v, Follows-refl p)

pub Sound-current : Sound parser_current
unfolding parser_current
Sound-current = record { at = λ p v. read-Ends p p.pos v }

token_at-IsReadable :
    (p : Parser) (i : ℕ) (t : Token) → IsValid p → token_at p i ≡ some t → IsReadable t.text
unfolding token_at
token_at-IsReadable p i t v e = elim (Bool-cases (leb p.count i)) [
  | inl h ↦
      last p.count
        (sym (ap (λ b. if b then last_token p.tokens p.count else get_elem? p.tokens i) h) ∙ e)
  | inr h ↦
      v.readable i t
        (sym (ap (λ b. if b then last_token p.tokens p.count else get_elem? p.tokens i) h) ∙ e)
]
  where
    last : (n : ℕ) → last_token p.tokens n ≡ some t → IsReadable t.text
    last zero c = unfold last_token in ground (arith, c)
    last (suc n) c = unfold last_token in v.readable n t c

-- What is done with the token at hand may read its text.
pub Sound-with_current :
    {B : Type 0} (f : Token → P B)
    → ((t : Token) → IsReadable t.text → Sound (f t))
    → Sound (parser_current >>= f)
unfolding parser_current read ◌>>=◌
Sound-with_current f sf = record {
  at = λ p v.
      let (t, e) = token_at-some p p.pos v in
      rw e ((sf t (token_at-IsReadable p p.pos t v e)).at p v);
}

pub Sound-peek : (offset : ℕ) → Sound (parser_peek offset)
unfolding parser_peek
Sound-peek offset = record { at = λ p v. read-Ends p (p.pos + offset) v }

pub ruleset sound_steps = (
  Sound-pure, Sound-no_fuel, Sound-if, Sound-bind, Sound-step, Sound-new, Sound-error,
  Sound-current, Sound-peek,
)

pub Sound-when : (b : Bool) (m : P Done) → Sound m → Sound (when b m)
unfolding when
Sound-when b m sm = search sound_steps

pub Sound-check : (kind : TokenKind) → Sound (parser_check kind)
unfolding parser_check
Sound-check kind = search sound_steps

pub Sound-at_end : Sound parser_at_end
unfolding parser_at_end
Sound-at_end = search Sound-check

Sound-stepped : (found : Bool) → Sound (stepped found)
unfolding stepped
Sound-stepped true = search sound_steps
Sound-stepped false = search sound_steps

pub Sound-match : (kind : TokenKind) → Sound (parser_match kind)
unfolding parser_match
Sound-match kind = search (sound_steps, Sound-check, Sound-stepped)

Sound-expected : (found : Bool) (message : String) → Sound (expected found message)
unfolding expected
Sound-expected true message = search sound_steps
Sound-expected false message = search sound_steps

pub Sound-expect : (kind : TokenKind) (message : String) → Sound (parser_expect kind message)
unfolding parser_expect
Sound-expect kind message = search (sound_steps, Sound-match, Sound-expected)

module _ {ℓ} {S R : Type ℓ} where
  loop_next :
      (fuel : ℕ) (body : S → P (S ⊎ R))
      → ((s : S) → Sound (loop fuel body s))
      → (r : S ⊎ R) → Sound {A = R} (elim r [ inl s' ↦ loop fuel body s' | inr out ↦ pure out ])
  loop_next fuel body rest (inl s') = rest s'
  loop_next fuel body rest (inr out) = Sound-pure out

  pub Sound-loop :
      (fuel : ℕ) (body : S → P (S ⊎ R)) (s : S)
      → ((s' : S) → Sound (body s'))
      → Sound (loop fuel body s)
  unfolding loop
  Sound-loop zero body s sb = Sound-no_fuel
  Sound-loop (suc fuel) body s sb =
      Sound-bind (body s) _ (sb s) (loop_next fuel body (λ s'. Sound-loop fuel body s' sb))

pub ruleset sound_rules =
    (sound_steps, Sound-when, Sound-check, Sound-at_end, Sound-match, Sound-expect, Sound-loop)
