-- ===== src/Arena/Pointer.antt =====
-- What a failed allocation does, and the sizes for which the sum in the test of a chunk wraps.
use rayac.Base.{
  ℕ, ◌+◌, ◌^◌, ◌<◌, ◌≤◌, Bool, true, false, not, ◌&&◌, ◌≡◌, Option, none, List, [], ◌∷◌, arith, ◌⊎◌,
  inl, inr,
}
use rayac.Arena.Chunks.{
  Chunk, Arena, returns, aborts, wrap, is_power_of_two, aligned_offset, arena_set, fits, place,
  in_new_chunk, arena_new_chunk, alloc_in, arena_alloc_aligned, arena_alloc,
}
use rayac.Arena.Layout.{chain}

-- No chunk of the chain fits the block.
abbrev pub none_fits : List Chunk → ℕ → ℕ → Bool
none_fits [] size align = true
none_fits (c ∷ cs) size align = not (fits c size align) && none_fits cs size align

in_new_chunk-none : (size align : ℕ) → in_new_chunk none size align ≡ aborts
unfolding in_new_chunk arena_new_chunk
in_new_chunk-none size align = ground arith

alloc_in-none :
    (cs : List Chunk) (size align : ℕ)
    → none_fits cs size align ≡ true
    → alloc_in none cs size align ≡ aborts
unfolding alloc_in
alloc_in-none [] size align h = rw (in_new_chunk-none size align)
alloc_in-none (c ∷ cs) size align h =
    let e : fits c size align ≡ false = ground arith in
    rw (e, alloc_in-none cs size align (ground arith))

-- Where no chunk fits the block and `malloc` fails, `arena_alloc_aligned` aborts; so it does for an
-- alignment that is no power of two, whatever `malloc` gives.
pub arena_alloc_aligned-aborts :
    (block : Option ℕ) (a : Arena) (size align : ℕ)
    → (is_power_of_two align ≡ false) ⊎ ((block ≡ none) × (none_fits (chain a) size align ≡ true))
    → arena_alloc_aligned block a size align ≡ aborts
unfolding arena_alloc_aligned
arena_alloc_aligned-aborts block a size align (inl h) = ground arith
arena_alloc_aligned-aborts block a size align (inr (e, h)) =
    let failed : alloc_in block (chain a) size align ≡ aborts =
      rw e (alloc_in-none (chain a) size align h) in
    ground (arith, failed)

alloc_wraps :
    (block : Option ℕ) (a : Arena) (size align : ℕ)
    → is_power_of_two align ≡ true
    → aligned_offset a.head align + size ≡ 2 ^ 64
    → arena_alloc_aligned block a size align
      ≡ returns (a.head.base + aligned_offset a.head align, arena_set a)
unfolding arena_alloc_aligned alloc_in fits place arena_set is_power_of_two
alloc_wraps block a size align p h =
    let e : wrap (aligned_offset a.head align + size) ≡ 0 = omega arith in ground (arith, e)

-- `arena_alloc` on an arena whose first chunk is marked as unused.
alloc_from_start :
    (block : Option ℕ) (a : Arena) (size : ℕ)
    → a.head.capacity < 2 ^ 64
    → size ≤ a.head.capacity
    → arena_alloc block (arena_set a) size
      ≡ returns (a.head.base, record a { head = record (a.head) { used = size } })
unfolding arena_alloc arena_alloc_aligned alloc_in fits place is_power_of_two aligned_offset
    arena_set
alloc_from_start block a size c h =
    let e : wrap (0 + size) ≡ size = omega arith in
    let z : a.head.base + 0 ≡ a.head.base = omega arith in ground (arith, e, z)

-- The sum in the test of a chunk wraps. For an alignment that is a power of two and the size that
-- makes the sum 2 ^ 64, the first chunk is taken whatever its capacity, and it is marked as unused.
-- An `arena_alloc` after that, of a size that the capacity holds, starts at the chunk's first byte.
pub arena_alloc_aligned_wraps :
    (block block' : Option ℕ) (a : Arena) (size size' align : ℕ)
    → is_power_of_two align ≡ true
    → aligned_offset a.head align + size ≡ 2 ^ 64
    → a.head.capacity < 2 ^ 64
    → size' ≤ a.head.capacity
    → (arena_alloc_aligned block a size align
        ≡ returns (a.head.base + aligned_offset a.head align, arena_set a))
      × (arena_alloc block' (arena_set a) size'
          ≡ returns (a.head.base, record a { head = record (a.head) { used = size' } }))
arena_alloc_aligned_wraps block block' a size size' align p h c h' =
    (alloc_wraps block a size align p h, alloc_from_start block' a size' c h')
