-- ===== src/Symbol/Lookup.antt =====
-- A scope is a map from names to symbols: the symbol of a name is the one that was put in last, in
-- the innermost scope that has one.
use native.Mathlib.Nat.{mod-lt}
use rayac.Base.{
  ℕ, ◌%◌, ◌<◌, true, false, ◌≡◌, refl, ap, ◌∙◌, some, [], ◌∷◌, Bytes, bytes_eq_sound, length,
  get_or, get_or-set, length-set, take, ◌==◌, ==_iff, if◌then◌else◌, arith, Bool-cases, inl, inr,
  &&-eq-true,
}
use rayac.StringView.View.{StringView, content}
use rayac.Symbol.Scope.{
  Symbol, Scope, has_name, hash_sv, find_in_chain, bucket_of, scope_lookup_current, scope_insert,
  scope_new, scope_lookup_in, scope_lookup, scope_buckets,
}

module _ {D : Type 0} where
  -- The table has the buckets that its count says, at least one.
  pub record IsValid (s : Scope D) : Type 0 where
    pub buckets : length s.buckets ≡ s.bucket_count
    pub some_bucket : 0 < s.bucket_count

  has_name-content :
      (name : StringView) (x : Symbol D) → has_name name x ≡ true → content x.name ≡ content name
  has_name-content name x h =
      let (l, m) = &&-eq-true _ _ h in
      ap (λ (n : ℕ). take n x.name.data_) ((==_iff x.name.len name.len).0 l) ∙ bytes_eq_sound _ _ m

  has_name-bucket :
      (s : Scope D) (name : StringView) (x : Symbol D)
      → has_name name x ≡ true
      → bucket_of s x.name ≡ bucket_of s name
  unfolding hash_sv
  has_name-bucket s name x h =
      ap (λ (b : Bytes). rayac.Symbol.Scope.hash_bytes 2166136261 b % s.bucket_count)
        (has_name-content name x h)

  pub scope_insert-IsValid : {s : Scope D} (x : Symbol D) → IsValid s → IsValid (scope_insert s x)
  unfolding scope_insert
  scope_insert-IsValid {s} x v = record {
    buckets = length-set s.buckets _ _ ∙ v.buckets;
    some_bucket = v.some_bucket;
  }

  -- A lookup behind an insertion into a valid scope finds the new symbol under its name, and under any other name
  -- what it found before.
  pub lookup_current-insert :
      (s : Scope D) (x : Symbol D) (name : StringView)
      → IsValid s
      → scope_lookup_current (scope_insert s x) name
        ≡ (if has_name name x then some x else scope_lookup_current s name)
  unfolding scope_lookup_current scope_insert find_in_chain
  lookup_current-insert s x name v =
      let h = bucket_of s x.name in
      let k = bucket_of s name in
      let chain = x ∷ get_or s.buckets h [] in
      let in_range : h < length s.buckets =
        omega (arith, v.buckets, mod-lt (hash_sv x.name) v.some_bucket) in
      let law = get_or-set s.buckets h k chain [] in_range in
      elim (Bool-cases (h == k)) [
        | inl same ↦
            let e = (==_iff h k).0 same in
            rw (law, same)
              (ap
                (λ (n : ℕ).
                  if has_name name x then some x else find_in_chain (get_or s.buckets n []) name)
                e)
        | inr other ↦ elim (Bool-cases (has_name name x)) [
          | inl hit ↦ absurd (differ h k other (has_name-bucket s name x hit))
          | inr miss ↦ rw (law, other, miss) refl
        ]
      ]
    where
      differ : (h k : ℕ) → (h == k) ≡ false → h ≡ k → ⊥
      differ h k o e = ground arith
