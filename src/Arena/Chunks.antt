-- ===== src/Arena/Chunks.antt =====
-- The arena: a chain of chunks, from the one that the caller holds on. A chunk is known by the
-- address and the size of its block. The addresses that `malloc` returns are arguments; an abort
-- of the program is a result. `size_t` arithmetic wraps at 2 ^ 64.
use rayac.Base.{
  ℕ, ◌+◌, ◌-◌, ◌*◌, ◌%◌, ◌^◌, Bool, not, ◌&&◌, ◌||◌, Option, none, some, List, [], ◌∷◌, ◌++◌, map,
  bit_and, leb, ltb, ◌==◌, if◌then◌else◌,
}

abbrev pub size_max : ℕ
size_max = 2 ^ 64 - 1

abbrev pub wrap : ℕ → ℕ
wrap n = n % 2 ^ 64

-- `~m` in `size_t`
abbrev pub size_not : ℕ → ℕ
size_not m = size_max - m

pub record Chunk : Type 0 where
  pub base : ℕ
  pub used : ℕ
  pub capacity : ℕ

-- The caller's chunk and the chunks behind it.
pub record Arena : Type 0 where
  pub head : Chunk
  pub next : List Chunk

pub data Outcome {ℓ} (A : Type ℓ) : Type ℓ where
  returns : A → Outcome A
  aborts : Outcome A

abbrev pub default_capacity : ℕ
default_capacity = 1024 * 1024

unfoldable pub is_power_of_two : ℕ → Bool
is_power_of_two x = not (x == 0) && bit_and x (x - 1) == 0

-- `(value + mask) & ~mask`
unfoldable pub round_up : ℕ → ℕ → ℕ
round_up value mask = bit_and (wrap (value + mask)) (size_not mask)

unfoldable pub align_up : ℕ → ℕ → Outcome ℕ
align_up value align =
    if not (is_power_of_two align)
    then aborts
    else if ltb (size_max - (align - 1)) value
    then aborts
    else returns (round_up value (align - 1))

-- `malloc` gives the address of a block, or `none`.
unfoldable pub arena_init : Option ℕ → ℕ → Outcome Arena
arena_init block initial_capacity =
    let capacity = if initial_capacity == 0 then default_capacity else initial_capacity in
    elim block [
      | none ↦ aborts
      | some base ↦
          returns
            (record { head = record { base = base; used = 0; capacity = capacity }; next = [] })
    ]

unfoldable pub arena_new_chunk : Option ℕ → ℕ → Outcome Chunk
arena_new_chunk block min_size =
    let cap = if ltb default_capacity min_size then min_size else default_capacity in
    elim block [
      | none ↦ aborts
      | some base ↦ returns (record { base = base; used = 0; capacity = cap })
    ]

-- The offset at which the loop would put a block in the chunk.
unfoldable pub aligned_offset : Chunk → ℕ → ℕ
aligned_offset c align = bit_and (wrap (c.used + align + 2 ^ 64 - 1)) (size_not (align - 1))

-- `aligned + size <= chunk->capacity`
unfoldable pub fits : Chunk → ℕ → ℕ → Bool
fits c size align = leb (wrap (aligned_offset c align + size)) c.capacity

unfoldable pub place : Chunk → ℕ → ℕ → ℕ × Chunk
place c size align =
    (c.base + aligned_offset c align, record c { used = wrap (aligned_offset c align + size) })

-- The block in a new chunk behind the last one.
unfoldable pub in_new_chunk : Option ℕ → ℕ → ℕ → Outcome (ℕ × Chunk)
in_new_chunk block size align =
    if ltb (size_max - align) size
    then aborts
    else elim (arena_new_chunk block (wrap (size + align))) [
      | aborts ↦ aborts
      | returns c ↦ elim (align_up 0 align) [
        | aborts ↦ aborts
        | returns aligned ↦ returns (c.base + aligned, record c { used = wrap (aligned + size) })
      ]
    ]

abbrev pub prepend : Chunk → Outcome (ℕ × List Chunk) → Outcome (ℕ × List Chunk)
prepend c (returns (p, cs)) = returns (p, c ∷ cs)
prepend c aborts = aborts

-- The chain where the block lies in a new chunk at its end.
abbrev pub extend : List Chunk → Outcome (ℕ × Chunk) → Outcome (ℕ × List Chunk)
extend cs (returns (p, c)) = returns (p, cs ++ c ∷ [])
extend cs aborts = aborts

-- The loop over the chunks: the first one that fits takes the block.
unfoldable pub alloc_in : Option ℕ → List Chunk → ℕ → ℕ → Outcome (ℕ × List Chunk)
alloc_in block [] size align = extend [] (in_new_chunk block size align)
alloc_in block (c ∷ cs) size align =
    if fits c size align
    then returns ((place c size align).0, (place c size align).1 ∷ cs)
    else prepend c (alloc_in block cs size align)

abbrev pub to_arena : Outcome (ℕ × List Chunk) → Outcome (ℕ × Arena)
to_arena (returns (p, [])) = aborts
to_arena (returns (p, c ∷ cs)) = returns (p, record { head = c; next = cs })
to_arena aborts = aborts

unfoldable pub arena_alloc_aligned : Option ℕ → Arena → ℕ → ℕ → Outcome (ℕ × Arena)
arena_alloc_aligned block a size align =
    if align == 0 || not (is_power_of_two align)
    then aborts
    else to_arena (alloc_in block (a.head ∷ a.next) size align)

unfoldable pub arena_alloc : Option ℕ → Arena → ℕ → Outcome (ℕ × Arena)
arena_alloc block a size = arena_alloc_aligned block a size 8

unfoldable pub arena_set : Arena → Arena
arena_set a = record a { head = record (a.head) { used = 0 } }

unfoldable pub arena_reset : Arena → Arena
arena_reset a = record {
  head = record (a.head) { used = 0 };
  next = map (λ (c : Chunk). record c { used = 0 }) a.next;
}

-- The blocks that `arena_free_all` frees, in its order, and the arena that it leaves; a null
-- pointer is the address 0.
unfoldable pub arena_free_all : Arena → List ℕ × Arena
arena_free_all a = (
  a.head.base ∷ map (λ (c : Chunk). c.base) a.next,
  record { head = record { base = 0; used = 0; capacity = 0 }; next = [] },
)
