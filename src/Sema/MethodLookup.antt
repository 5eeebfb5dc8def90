-- ===== src/Sema/MethodLookup.antt =====
-- The method table is a map from the names of a type and of a method to declarations.
use native.Mathlib.Nat.{mod-lt}
use rayac.Base.{
  ℕ, ◌%◌, ◌<◌, true, false, ◌&&◌, ◌≡◌, refl, ap, ◌∙◌, sym, some, List, [], ◌∷◌, Bytes,
  bytes_eq_sound, length, get_or, get_or-set, length-set, take, ◌==◌, ==_iff, if◌then◌else◌, arith,
  Bool-cases, inl, inr, &&-eq-true,
}
use rayac.Ast.Syntax.{AstNode}
use rayac.Sema.Methods.{
  method_bucket, hash_method_key, hash_chars, add_method, find_method, lookup_method,
}
use rayac.Sema.State.{MethodEntry, method_table_buckets}
use rayac.StringView.View.{StringView, content, sv_eq}

sv_eq-content : (a b : StringView) → sv_eq a b ≡ true → content a ≡ content b
unfolding sv_eq
sv_eq-content a b h = elim (Bool-cases (a.len == b.len)) [
  | inr differ ↦ ground arith
  | inl same ↦
      let e = (==_iff a.len b.len).0 same in
      let h' : rayac.Base.bytes_eq (take a.len a.data_) (take a.len b.data_) ≡ true =
        ground arith in
      bytes_eq_sound _ _ h' ∙ ap (λ (n : ℕ). take n b.data_) e
]

same_bucket :
    (t t' n n' : StringView)
    → (sv_eq t t' && sv_eq n n') ≡ true
    → method_bucket t n ≡ method_bucket t' n'
unfolding hash_method_key
same_bucket t t' n n' h =
    let (a, b) = &&-eq-true _ _ h in
    ap
      (λ (x : Bytes).
        hash_chars (hash_chars 0xcbf29ce484222325 x) (content n) % method_table_buckets)
      (sv_eq-content t t' a)
    ∙ ap
        (λ (x : Bytes).
          hash_chars (hash_chars 0xcbf29ce484222325 (content t')) x % method_table_buckets)
        (sv_eq-content n n' b)

-- In a table of 64 buckets, a lookup behind `method_table_add` finds the new declaration under its two
-- names, and under any other names what it found before.
pub lookup_method-add :
    (table : List (List MethodEntry)) (t n : StringView) (d : AstNode) (t' n' : StringView)
    → length table ≡ method_table_buckets
    → lookup_method (add_method table t n d) t' n'
      ≡ (if sv_eq t t' && sv_eq n n' then some d else lookup_method table t' n')
unfolding lookup_method add_method find_method
lookup_method-add table t n d t' n' size =
    let h = method_bucket t n in
    let k = method_bucket t' n' in
    let e : MethodEntry = record { type_name = t; method_name = n; fn_decl = d } in
    let chain = e ∷ get_or table h [] in
    let some_bucket : 0 < method_table_buckets = omega arith in
    let in_range : h < length table =
      omega (arith, size, mod-lt (hash_method_key t n) some_bucket) in
    let law = get_or-set table h k chain [] in_range in
    elim (Bool-cases (h == k)) [
      | inl same ↦
          let p = (==_iff h k).0 same in
          rw (law, same)
            (ap
              (λ (i : ℕ).
                if sv_eq t t' && sv_eq n n' then some d else find_method (get_or table i []) t' n')
              p)
      | inr other ↦ elim (Bool-cases (sv_eq t t' && sv_eq n n')) [
        | inl hit ↦ absurd (differ h k other (same_bucket t t' n n' hit))
        | inr miss ↦ rw (law, other, miss) refl
      ]
    ]
  where
    differ : (h k : ℕ) → (h == k) ≡ false → h ≡ k → ⊥
    differ h k o e = ground arith
