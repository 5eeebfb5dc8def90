-- ===== src/Tests/Storage.antt =====
-- The arena and the scopes at small inputs.
use rayac.Base.{
  ℕ, zero, suc, subst, ◌+◌, ◌-◌, ◌^◌, ◌≤◌, ◌<◌, ◌%◌, true, false, ◌≡◌, ◌↔◌, refl, Option, none,
  some, List, [], ◌∷◌, codes, replicate, if◌then◌else◌, arith, inl, inr,
}
use rayac.Arena.Align.{is_power_of_two_iff, aligned_offset_lem}
use rayac.Arena.Chunks.{
  Arena, returns, aborts, is_power_of_two, aligned_offset, arena_set, arena_alloc_aligned,
}
use rayac.Arena.Chunks.{arena_alloc}
use rayac.Arena.Layout.{Held, IsLaidOut, Apart, chain, arena_alloc_aligned-Apart}
use rayac.Arena.Pointer.{arena_alloc_aligned-aborts, arena_alloc_aligned_wraps}
use rayac.StringView.View.{StringView}
use rayac.Symbol.Chain.{Below, AreNested, or_else, lookup_parent, scope_lookup_lem}
use rayac.Symbol.Lookup.{lookup_current-insert}
use rayac.Symbol.Scope.{
  Symbol, Scope, sym_var, has_name, scope_insert, scope_lookup, scope_lookup_current,
}

-- 100 bytes of a chunk are in use.
abbrev one_chunk : Arena
one_chunk = record { head = record { base = 4096; used = 100; capacity = 1000 }; next = [] }

arena_alloc_aligned-Apart_example :
    (p : ℕ) × (a' : Arena) × (arena_alloc_aligned (some 8192) one_chunk 24 8 ≡ returns (p, a'))
    × Held (chain a') p 24
    × IsLaidOut (chain a')
    × Held (chain a') 4096 100
    × Apart 4096 100 p 24
arena_alloc_aligned-Apart_example =
    arena_alloc_aligned-Apart 24 8 3 refl (omega arith) (omega arith) 8192 one_chunk
      (omega arith, omega arith, tt, tt) (inr (omega arith), tt) 4096 100
      (inl (omega arith, omega arith))

aligned_offset_lem_example :
    (100 ≤ aligned_offset one_chunk.head 8)
    × (aligned_offset one_chunk.head 8 < 108)
    × (aligned_offset one_chunk.head 8 % 8 ≡ 0)
aligned_offset_lem_example = aligned_offset_lem 8 3 refl (omega arith) one_chunk.head (omega arith)

is_power_of_two_iff_example : (is_power_of_two 64 ≡ true) ↔ ((k : ℕ) × (64 ≡ 2 ^ k))
is_power_of_two_iff_example = is_power_of_two_iff 64

no_power : is_power_of_two 24 ≡ false
unfolding is_power_of_two
no_power = refl

arena_alloc_aligned-aborts_example : arena_alloc_aligned (some 8192) one_chunk 8 24 ≡ aborts
arena_alloc_aligned-aborts_example =
    arena_alloc_aligned-aborts (some 8192) one_chunk 8 24 (inl no_power)

power_and_offset : (is_power_of_two 8 ≡ true) × (aligned_offset one_chunk.head 8 ≡ 104)
unfolding is_power_of_two aligned_offset
power_and_offset = (refl, refl)

arena_alloc_aligned_wraps_example :
    (arena_alloc_aligned none one_chunk (2 ^ 64 - 104) 8
      ≡ returns (4096 + aligned_offset one_chunk.head 8, arena_set one_chunk))
    × (arena_alloc none (arena_set one_chunk) 24
        ≡ returns (4096, record one_chunk { head = record (one_chunk.head) { used = 24 } }))
arena_alloc_aligned_wraps_example =
    arena_alloc_aligned_wraps none none one_chunk (2 ^ 64 - 104) 24 8 power_and_offset.0
      (omega (arith, power_and_offset.1)) (omega arith) (omega arith)

abbrev name_x : StringView
name_x = record { data_ = codes "x + y"; len = 1 }

abbrev symbol_x : Symbol ℕ
symbol_x = record {
  kind = sym_var;
  name = name_x;
  type = some 3;
  decl = none;
  is_pub = false;
  is_comptime = false;
}

abbrev empty_scope : Option ℕ → Scope ℕ
empty_scope parent = record {
  parent = parent;
  buckets = replicate 32 [];
  bucket_count = 32;
  children = none;
  next_sibling = none;
  node = none;
}

lookup_current-insert_example :
    scope_lookup_current (scope_insert (empty_scope none) symbol_x) name_x ≡ (
      if has_name name_x symbol_x
      then some symbol_x
      else scope_lookup_current (empty_scope none) name_x)
lookup_current-insert_example =
    lookup_current-insert (empty_scope none) symbol_x name_x
      (record { buckets = refl; some_bucket = omega arith })

abbrev two_scopes : List (Scope ℕ)
two_scopes = empty_scope none ∷ empty_scope (some 0) ∷ []

two_scopes-AreNested : AreNested two_scopes
two_scopes-AreNested zero sc e =
    let p : empty_scope none ≡ sc = cc e in subst (λ (c : Scope ℕ). Below c.parent zero) p tt
two_scopes-AreNested (suc zero) sc e =
    let p : empty_scope (some 0) ≡ sc = cc e in
    subst (λ (c : Scope ℕ). Below c.parent 1) p (omega arith)
two_scopes-AreNested (suc (suc i)) sc e = absurd (cc e)

scope_lookup_lem_example :
    scope_lookup two_scopes 1 name_x
    ≡ or_else
        (scope_lookup_current (empty_scope (some 0)) name_x)
        (lookup_parent two_scopes (some 0) name_x)
scope_lookup_lem_example =
    scope_lookup_lem two_scopes 1 (empty_scope (some 0)) name_x two_scopes-AreNested refl
