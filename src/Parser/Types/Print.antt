-- ===== src/Parser/Types/Print.antt =====
-- `parser_parse_type` on the tokens of a type.
use rayac.Base.{
  ℕ, zero, suc, ◌+◌, ◌<◌, Bool, false, List, ◌∷◌, ◌≡◌, refl, ap, sym, subst, ◌≤◌, ◌∙◌, arith,
  Option, some, none,
}
use rayac.Ast.Syntax.{TypeExpr, TypeOpt, of_type}
use rayac.Diag.Engine.{SourceLocation}
use rayac.Lexer.Token.{Token, kind_index, tok_const}
use rayac.Ast.TypeExprs.{type_new_reference, type_new_pointer, type_new_slice}
use rayac.Parser.Ahead.{Reads, Reads-moved, moved, moved-moved}
use rayac.Parser.State.{Parser, returns, is_kind}
use rayac.Parser.TypeExprs.{unary_type}
use rayac.Parser.Unit.{calls}
use rayac.Parser.Types.{
  Word, is_const, Ty, name, optional, reference, pointer, slice, fallible, with_const, print_type,
  const_size, size, tree, Stops,
}
use rayac.Parser.Types.Steps.{
  moved_none, primary_type-name, suffix-Stops, suffix-optional, suffix-fallible, whole_type,
  unary-print, reference-unary, pointer-unary, slice-unary,
}

starts :
    (t : Ty) (ts : List Token)
    → (t0 : Token) × (ts0 : List Token) × (print_type t ts ≡ t0 ∷ ts0)
      × (is_kind tok_const t0 ≡ false)
unfolding kind_index
starts (name w) ts = (_, _, refl, refl)
starts (optional w q) ts = (_, _, refl, refl)
starts (fallible w b t) ts = (_, _, refl, refl)
starts (reference w c t) ts = (_, _, refl, refl)
starts (pointer w c t) ts = (_, _, refl, refl)
starts (slice w w' c t) ts = (_, _, refl, refl)

Reads-const :
    (p : Parser) (c : Option Word) (ts : List Token)
    → Reads p (with_const c ts)
    → Reads (moved p (const_size c)) ts
Reads-const p (some w) ts h = Reads-moved p _ _ h
Reads-const p none ts h = subst (λ q. Reads q ts) (sym (moved_none p)) h

-- What the parser does with a type, given to it with enough fuel.
abbrev Parses : ℕ → Ty → Token → List Token → Type 0
Parses n t r rest =
    (p : Parser)
    → Reads p (print_type t (r ∷ rest))
    → (calls n).parse_type p ≡ returns (of_type (tree r.loc t)) (moved p (size t))

-- A prefix before a type.
prefixed :
    (n : ℕ) (build : TypeOpt → Bool → SourceLocation → TypeExpr) (c : Option Word)
    (loc : SourceLocation) (t : Ty) (r : Token) (rest : List Token) (p : Parser)
    → Parses n t r rest
    → Reads p (with_const c (print_type t (r ∷ rest)))
    → unary_type n (calls n) build loc p
      ≡ returns
          (of_type (build (of_type (tree r.loc t)) (is_const c) loc))
          (moved p (const_size c + size t))
prefixed n build c loc t r rest p ih h =
    let (t0, ts0, e, k) = starts t (r ∷ rest) in
    unary-print n (calls n) build c p (moved p (const_size c + size t)) loc t0 ts0 _
      (subst (λ ts. Reads p (with_const c ts)) e h) k
      (ih (moved p (const_size c)) (Reads-const p c _ h)
        ∙ ap (returns (of_type (tree r.loc t))) (moved-moved p (const_size c) (size t)))

Reads-twice :
    (p : Parser) (a b : ℕ) (ts : List Token)
    → Reads (moved (moved p a) b) ts
    → Reads (moved p (a + b)) ts
Reads-twice p a b ts h = subst (λ q. Reads q ts) (moved-moved p a b) h

-- Behind the type, what follows it is ahead.
Reads-print :
    (t : Ty) (ts : List Token) (p : Parser)
    → Reads p (print_type t ts)
    → Reads (moved p (size t)) ts
Reads-print (name w) ts p h = Reads-moved p _ _ h
Reads-print (optional w q) ts p h =
    Reads-twice p 1 1 ts (Reads-moved (moved p 1) _ _ (Reads-moved p _ _ h))
Reads-print (fallible w b t) ts p h = Reads-twice p 2 (size t) ts (
    Reads-print t ts (moved p 2)
      (Reads-twice p 1 1 _ (Reads-moved (moved p 1) _ _ (Reads-moved p _ _ h))))
Reads-print (reference w c t) ts p h = Reads-twice p 1 _ ts (
    Reads-twice (moved p 1) (const_size c) (size t) ts
      (Reads-print t ts _ (Reads-const (moved p 1) c _ (Reads-moved p _ _ h))))
Reads-print (pointer w c t) ts p h = Reads-twice p 1 _ ts (
    Reads-twice (moved p 1) (const_size c) (size t) ts
      (Reads-print t ts _ (Reads-const (moved p 1) c _ (Reads-moved p _ _ h))))
Reads-print (slice w w' c t) ts p h = Reads-twice p 1 _ ts (
    Reads-twice (moved p 1) 1 _ ts (
      Reads-twice (moved (moved p 1) 1) (const_size c) (size t) ts (
        Reads-print t ts _ (
          Reads-const (moved (moved p 1) 1) c _
            (Reads-moved (moved p 1) _ _ (Reads-moved p _ _ h))))))

size_pos : (t : Ty) → 0 < size t
size_pos (name w) = omega arith
size_pos (optional w q) = omega arith
size_pos (fallible w b t) = omega arith
size_pos (reference w c t) = omega arith
size_pos (pointer w c t) = omega arith
size_pos (slice w w' c t) = omega arith

joined :
    (y : TypeOpt) (p : Parser) (a b : ℕ)
    → returns y (moved (moved p a) b) ≡ returns y (moved p (a + b))
joined y p a b = ap (returns y) (moved-moved p a b)

-- The types covered are names without generic arguments, a name with `?`, a name with `!` and a
-- type, and `&`, `*` or `[]` with or without `const` before a type; array, function and keyword
-- types are not. Every token of the type has a text, a place and a value of its own, of which
-- nothing is asked. If these tokens are ahead, and then one that is none of `(`, `?` and `!`,
-- then `parser_parse_type` returns the tree of the type, with the text of its names (`Self` is
-- written anew), with `const` where the tokens have it and the place of each node from its own
-- first token (for an optional type: from the token behind it), stands behind the type's tokens
-- and has changed nothing else, for any fuel from the number of these tokens on.
pub parse_type-print_type :
    (n : ℕ) (t : Ty) (r : Token) (rest : List Token)
    → Stops r
    → size t ≤ n
    → (p : Parser) → Reads p (print_type t (r ∷ rest))
    → (calls n).parse_type p ≡ returns (of_type (tree r.loc t)) (moved p (size t))
unfolding calls kind_index
parse_type-print_type zero t r rest s le p h = absurd (omega (arith, size_pos t, le))
parse_type-print_type (suc n) (name w) r rest s le p h =
    whole_type n (calls n) p (moved p 1) (moved p 1) _ _ _ _ h
      (primary_type-name n (calls n) p w r rest h s.paren)
      (suffix-Stops n (calls n) (moved p 1) w.loc _ r rest (Reads-moved p _ _ h) s)
parse_type-print_type (suc n) (optional w q) r rest s le p h =
    whole_type n (calls n) p (moved p 1) (moved p 2) _ _ _ _ h
      (primary_type-name n (calls n) p w _ _ h refl)
      (suffix-optional n (calls n) (moved p 1) w.loc _ q r rest (Reads-moved p _ _ h)
        ∙ joined (of_type (tree r.loc (optional w q))) p 1 1)
parse_type-print_type (suc n) (fallible w b t) r rest s le p h =
    let h2 = Reads-twice p 1 1 _ (Reads-moved (moved p 1) _ _ (Reads-moved p _ _ h)) in
    whole_type n (calls n) p (moved p 1) (moved p (2 + size t)) _ _ _ _ h
      (primary_type-name n (calls n) p w _ _ h refl)
      (suffix-fallible n (calls n) (moved p 1) (moved p (2 + size t)) w.loc _ _ b _
        (Reads-moved p _ _ h)
        (ap (calls n).parse_type (moved-moved p 1 1)
          ∙ parse_type-print_type n t r rest s (omega arith) (moved p 2) h2
          ∙ joined (of_type (tree r.loc t)) p 2 (size t)))
parse_type-print_type (suc n) (reference w c t) r rest s le p h =
    whole_type n (calls n) p (moved p (size (reference w c t))) (moved p (size (reference w c t))) _
      _ _ _ h
      (reference-unary n (calls n) p w _ h
        ∙ prefixed n type_new_reference c w.loc t r rest (moved p 1)
            (parse_type-print_type n t r rest s (omega arith)) (Reads-moved p _ _ h)
        ∙ joined (of_type (tree r.loc (reference w c t))) p 1 (const_size c + size t))
      (suffix-Stops n (calls n) _ w.loc _ r rest (Reads-print (reference w c t) (r ∷ rest) p h) s)
parse_type-print_type (suc n) (pointer w c t) r rest s le p h =
    whole_type n (calls n) p (moved p (size (pointer w c t))) (moved p (size (pointer w c t))) _ _ _
      _ h
      (pointer-unary n (calls n) p w _ h
        ∙ prefixed n type_new_pointer c w.loc t r rest (moved p 1)
            (parse_type-print_type n t r rest s (omega arith)) (Reads-moved p _ _ h)
        ∙ joined (of_type (tree r.loc (pointer w c t))) p 1 (const_size c + size t))
      (suffix-Stops n (calls n) _ w.loc _ r rest (Reads-print (pointer w c t) (r ∷ rest) p h) s)
parse_type-print_type (suc n) (slice w w' c t) r rest s le p h =
    whole_type n (calls n) p (moved p (size (slice w w' c t))) (moved p (size (slice w w' c t))) _ _
      _ _ h
      (slice-unary n (calls n) p w w' _ h
        ∙ prefixed n type_new_slice c w.loc t r rest (moved (moved p 1) 1)
            (parse_type-print_type n t r rest s (omega arith))
            (Reads-moved (moved p 1) _ _ (Reads-moved p _ _ h))
        ∙ joined (of_type (tree r.loc (slice w w' c t))) (moved p 1) 1 (const_size c + size t)
        ∙ joined (of_type (tree r.loc (slice w w' c t))) p 1 (1 + (const_size c + size t)))
      (suffix-Stops n (calls n) _ w.loc _ r rest (Reads-print (slice w w' c t) (r ∷ rest) p h) s)
