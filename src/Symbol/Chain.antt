-- ===== src/Symbol/Chain.antt =====
-- The walk of `scope_lookup` to the ancestors ends, and finds the innermost symbol.
use rayac.Base.{
  ℕ, zero, suc, ◌<◌, ◌≡◌, refl, ap, ◌∙◌, sym, Option, none, some, List, arith, get_elem?, inl, inr,
  Option-cases,
}
use rayac.StringView.View.{StringView}
use rayac.Symbol.Scope.{Symbol, Scope, scope_lookup_current, scope_lookup_in, scope_lookup}

-- A parent stands before the scope at `i`.
abbrev pub Below : Option ℕ → ℕ → Type 0
Below none i = Unit
Below (some p) i = p < i

module _ {D : Type 0} where
  -- Every scope's parent stands before it.
  abbrev pub AreNested : List (Scope D) → Type 0
  AreNested scopes = (i : ℕ) (sc : Scope D) → get_elem? scopes i ≡ some sc → Below sc.parent i

  abbrev pub or_else : Option (Symbol D) → Option (Symbol D) → Option (Symbol D)
  or_else (some x) y = some x
  or_else none y = y

  abbrev pub lookup_parent : List (Scope D) → Option ℕ → StringView → Option (Symbol D)
  lookup_parent scopes none name = none
  lookup_parent scopes (some p) name = scope_lookup scopes p name

  step :
      (fuel : ℕ) (scopes : List (Scope D)) (s : ℕ) (sc : Scope D) (name : StringView)
      → get_elem? scopes s ≡ some sc
      → scope_lookup_in (suc fuel) scopes (some s) name
        ≡ or_else (scope_lookup_current sc name) (scope_lookup_in fuel scopes sc.parent name)
  unfolding scope_lookup_in
  step fuel scopes s sc name e = ground arith

  dangling :
      (f g : ℕ) (scopes : List (Scope D)) (s : ℕ) (name : StringView)
      → get_elem? scopes s ≡ none
      → scope_lookup_in (suc f) scopes (some s) name ≡ scope_lookup_in (suc g) scopes (some s) name
  unfolding scope_lookup_in
  dangling f g scopes s name e = ground arith

  no_scope :
      (f g : ℕ) (scopes : List (Scope D)) (name : StringView)
      → scope_lookup_in f scopes none name ≡ scope_lookup_in g scopes none name
  unfolding scope_lookup_in
  no_scope zero zero scopes name = refl
  no_scope zero (suc g) scopes name = refl
  no_scope (suc f) zero scopes name = refl
  no_scope (suc f) (suc g) scopes name = refl

  -- The same answer for any two fuels above the place of the scope.
  same_answer :
      (scopes : List (Scope D)) (name : StringView)
      → AreNested scopes
      → (f g : ℕ) (s : Option ℕ) → Below s f
      → Below s g
      → scope_lookup_in f scopes s name ≡ scope_lookup_in g scopes s name
  same_answer scopes name n f g none p q = no_scope f g scopes name
  same_answer scopes name n zero g (some s) p q = absurd (omega arith)
  same_answer scopes name n (suc f) zero (some s) p q = absurd (omega arith)
  same_answer scopes name n (suc f) (suc g) (some s) p q =
      elim (Option-cases (get_elem? scopes s)) [
        | inl gone ↦ dangling f g scopes s name gone
        | inr (sc, e) ↦
            step f scopes s sc name e
            ∙ ap (or_else (scope_lookup_current sc name)) (
                same_answer scopes name n f g sc.parent (lower sc.parent s f (n s sc e) p)
                  (lower sc.parent s g (n s sc e) q))
            ∙ sym (step g scopes s sc name e)
      ]
    where
      lower : (o : Option ℕ) (s k : ℕ) → Below o s → s < suc k → Below o k
      lower none s k b h = tt
      lower (some o) s k b h = omega arith

  -- Where parents stand before their children, `scope_lookup` answers what the scope itself holds
  -- under the name, and what the lookup in its parent answers where it holds nothing.
  pub scope_lookup_lem :
      (scopes : List (Scope D)) (s : ℕ) (sc : Scope D) (name : StringView)
      → AreNested scopes
      → get_elem? scopes s ≡ some sc
      → scope_lookup scopes s name
        ≡ or_else (scope_lookup_current sc name) (lookup_parent scopes sc.parent name)
  unfolding scope_lookup
  scope_lookup_lem scopes s sc name n e =
      step s scopes s sc name e
      ∙ ap (or_else (scope_lookup_current sc name)) (up sc.parent (n s sc e))
    where
      up :
          (o : Option ℕ) → Below o s → scope_lookup_in s scopes o name ≡ lookup_parent scopes o name
      up none b = no_scope s s scopes name ∙ gone s
        where
          gone : (f : ℕ) → scope_lookup_in f scopes none name ≡ none
          gone zero = unfold scope_lookup_in in refl
          gone (suc f) = unfold scope_lookup_in in refl
      up (some p) b = same_answer scopes name n s (suc p) (some p) b (omega arith)
