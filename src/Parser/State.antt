-- ===== src/Parser/State.antt =====
-- `Parser`, its moves over the tokens and its reports, and the monad of the parsing functions. The
-- nodes of the tree are numbered in the order in which the code allocates them.
use rayac.Base.{
  ℕ, zero, suc, ◌+◌, Bool, true, false, Option, none, some, List, [], ◌∷◌, ◌++◌, String, ◌⊎◌, inl,
  inr, get_elem?, leb, ◌==◌, if◌then◌else◌,
}
use rayac.Ast.Syntax.{AstNode}
use rayac.Diag.Engine.{SourceLocation}
use rayac.Lexer.Token.{Token, TokenKind, kind_index, tok_eof}

-- The arena is the number of the next node, and the text on `stderr` the list of the reports.
pub record Parser : Type 0 where
  pub tokens : List Token
  pub count : ℕ
  pub pos : ℕ
  pub next_id : ℕ
  pub had_error : Bool
  pub reports : List (SourceLocation × String)

unfoldable pub parser_init : List Token → ℕ → ℕ → Parser
parser_init tokens count arena = record {
  tokens = tokens;
  count = count;
  pos = 0;
  next_id = arena;
  had_error = false;
  reports = [];
}

-- What a run ends in: a value, a read through a null pointer or outside the tokens, or none within the
-- fuel.
pub data Outcome {ℓ} (A : Type ℓ) : Type ℓ where
  returns : A → Parser → Outcome A
  faults : Outcome A
  out_of_fuel : Outcome A

abbrev pub P {ℓ} : Type ℓ → Type ℓ
P A = Parser → Outcome A

module _ {ℓ} {A : Type ℓ} where
  unfoldable pub pure : A → P A
  pure a p = returns a p

  unfoldable pub fault : P A
  fault p = faults

  unfoldable pub no_fuel : P A
  no_fuel p = out_of_fuel

module _ {ℓ} {A B : Type ℓ} where
  abbrev pub then_on : Outcome A → (A → P B) → Outcome B
  then_on (returns a p) f = f a p
  then_on faults f = faults
  then_on out_of_fuel f = out_of_fuel

  infixl 5 ◌>>=◌ ◌>>◌
  unfoldable pub ◌>>=◌ : P A → (A → P B) → P B
  ◌>>=◌ m f p = then_on (m p) f

  abbrev pub ◌>>◌ : P A → P B → P B
  m >> n = m >>= λ _. n

abbrev pub Done : Type 0
Done = Unit {0}

unfoldable pub when : Bool → P Done → P Done
when b m = if b then m else pure tt

-- An element of an array, which is none outside of it.
unfoldable pub read : {A : Type 0} → Option A → P A
read none p = faults
read (some t) p = returns t p

unfoldable pub last_token : List Token → ℕ → Option Token
last_token tokens zero = none
last_token tokens (suc n) = get_elem? tokens n

-- The token at a place; behind the last one it is the last one.
unfoldable pub token_at : Parser → ℕ → Option Token
token_at p i = if leb p.count i then last_token p.tokens p.count else get_elem? p.tokens i

unfoldable pub parser_current : P Token
parser_current p = read (token_at p p.pos) p

unfoldable pub parser_peek : ℕ → P Token
parser_peek offset p = read (token_at p (p.pos + offset)) p

abbrev pub is_kind : TokenKind → Token → Bool
is_kind kind t = kind_index t.kind == kind_index kind

unfoldable pub parser_check : TokenKind → P Bool
parser_check kind = do t ← parser_current; pure (is_kind kind t)

unfoldable pub parser_at_end : P Bool
parser_at_end = parser_check tok_eof

-- `p->pos++`
unfoldable pub step : P Done
step p = returns tt (record p { pos = p.pos + 1 })

unfoldable pub stepped : Bool → P Bool
stepped true = do step; pure true
stepped false = pure false

unfoldable pub parser_match : TokenKind → P Bool
parser_match kind = do found ← parser_check kind; stepped found

unfoldable pub parser_error : Token → String → P Done
parser_error t message p =
    returns tt (record p { had_error = true; reports = p.reports ++ (t.loc, message) ∷ [] })

unfoldable pub expected : Bool → String → P Bool
expected true message = pure true
expected false message = do t ← parser_current; parser_error t message; pure false

unfoldable pub parser_expect : TokenKind → String → P Bool
parser_expect kind message = do found ← parser_match kind; expected found message

-- A node is allocated.
unfoldable pub new : (ℕ → AstNode) → P AstNode
new make p = returns (make p.next_id) (record p { next_id = p.next_id + 1 })

-- A loop: each round gives the variables of the next one, or the result.
unfoldable pub loop {ℓ} : {S R : Type ℓ} → ℕ → (S → P (S ⊎ R)) → S → P R
loop zero body s = no_fuel
loop (suc fuel) body s = body s >>= λ r. elim r [ inl s' ↦ loop fuel body s' | inr out ↦ pure out ]
