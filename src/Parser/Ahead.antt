-- ===== src/Parser/Ahead.antt =====
-- The tokens that lie ahead of the parser.
use rayac.Base.{
  ℕ, zero, suc, ◌+◌, ◌<◌, false, some, List, [], ◌∷◌, ◌≡◌, refl, ap, ◌∙◌, length, drop, get_elem?,
  leb, arith,
}
use rayac.Lexer.Token.{Token}
use rayac.Parser.State.{Parser, token_at}

-- The parser after some tokens more.
abbrev pub moved : Parser → ℕ → Parser
moved p n = record p { pos = p.pos + n }

pub record Reads (p : Parser) (ts : List Token) : Type 0 where
  pub counted : p.count ≡ length p.tokens
  pub ahead : drop p.pos p.tokens ≡ ts

pub moved-moved : (p : Parser) (a b : ℕ) → moved (moved p a) b ≡ moved p (a + b)
moved-moved p a b = ap (λ i. record p { pos = i }) (omega arith)

suc_add : (n i : ℕ) → suc n + i ≡ suc (n + i)
suc_add n i = omega arith

drop-nil {ℓ} : {A : Type ℓ} (n : ℕ) → drop {A = A} n [] ≡ []
drop-nil zero = refl
drop-nil (suc n) = refl

get_elem?-drop {ℓ} :
    {A : Type ℓ} (xs : List A) (n i : ℕ) → get_elem? xs (n + i) ≡ get_elem? (drop n xs) i
get_elem?-drop xs zero i = ap (get_elem? xs) (omega arith)
get_elem?-drop [] (suc n) i = refl
get_elem?-drop (x ∷ xs) (suc n) i = ap (get_elem? (x ∷ xs)) (suc_add n i) ∙ get_elem?-drop xs n i

get_elem?-bound {ℓ} :
    {A : Type ℓ} (xs : List A) (i : ℕ) (a : A) → get_elem? xs i ≡ some a → i < length xs
get_elem?-bound [] i a h = absurd (cc)
get_elem?-bound (x ∷ xs) zero a h = omega arith
get_elem?-bound (x ∷ xs) (suc i) a h = omega (arith, get_elem?-bound xs i a h)

drop-step {ℓ} :
    {A : Type ℓ} (xs ys : List A) (n : ℕ) (y : A) → drop n xs ≡ y ∷ ys → drop (n + 1) xs ≡ ys
drop-step {A = A} [] ys n y h = absurd (cc (drop-nil {A = A} n))
drop-step (x ∷ xs) ys zero y h = cc
drop-step (x ∷ xs) ys (suc n) y h = ap (λ k. drop k (x ∷ xs)) (suc_add n 1) ∙ drop-step xs ys n y h

leb_lt : (a b : ℕ) → b < a → leb a b ≡ false
leb_lt a b h = ground arith

token_at-get :
    (p : Parser) (i : ℕ) (t : Token)
    → p.count ≡ length p.tokens
    → get_elem? p.tokens i ≡ some t
    → token_at p i ≡ some t
unfolding token_at
token_at-get p i t c h =
    simp (leb_lt p.count i (omega (arith, c, get_elem?-bound p.tokens i t h)), h)

pub token_at-Reads :
    (p : Parser) (ts : List Token) (i : ℕ) (t : Token)
    → Reads p ts
    → get_elem? ts i ≡ some t
    → token_at p (p.pos + i) ≡ some t
token_at-Reads p ts i t r h =
    token_at-get p (p.pos + i) t r.counted
      (get_elem?-drop p.tokens p.pos i ∙ ap (λ xs. get_elem? xs i) r.ahead ∙ h)

pub Reads-moved :
    (p : Parser) (t : Token) (ts : List Token) → Reads p (t ∷ ts) → Reads (moved p 1) ts
Reads-moved p t ts r = record { counted = r.counted; ahead = drop-step p.tokens ts p.pos t r.ahead }

pub token_now :
    (p : Parser) (t : Token) (ts : List Token) → Reads p (t ∷ ts) → token_at p p.pos ≡ some t
token_now p t ts r = ap (token_at p) (omega arith) ∙ token_at-Reads p (t ∷ ts) 0 t r refl
