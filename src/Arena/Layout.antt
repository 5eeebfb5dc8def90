-- ===== src/Arena/Layout.antt =====
-- The blocks of an arena: an allocation keeps every block that was handed out, and its own block
-- overlaps none of them.
use rayac.Base.{
  ℕ, ◌+◌, ◌-◌, ◌^◌, ◌≤◌, true, false, ◌≡◌, refl, some, List, [], ◌∷◌, ltb, ◌==◌, if◌then◌else◌,
  arith, Bool-cases, ◌⊎◌, inl, inr,
}
use rayac.Arena.Align.{aligned_offset_lem, align_up-zero, is_power_of_two_iff}
use rayac.Base.Bits.{pow-two_pos}
use rayac.Arena.Chunks.{
  Chunk, Outcome, returns, aborts, default_capacity, size_max, wrap, arena_new_chunk,
  aligned_offset, fits, place, in_new_chunk, prepend, alloc_in, Arena, to_arena,
  arena_alloc_aligned,
}

-- The block of `n` bytes at `a` lies in the part of a chunk that is in use.
abbrev pub Held : List Chunk → ℕ → ℕ → Type 0
Held [] a n = ⊥
Held (c ∷ cs) a n = ((c.base ≤ a) × (a + n ≤ c.base + c.used)) ⊎ Held cs a n

abbrev pub Apart : ℕ → ℕ → ℕ → ℕ → Type 0
Apart a n b m = (a + n ≤ b) ⊎ (b + m ≤ a)

-- The block of `n` bytes at `a` lies outside the blocks of all chunks.
abbrev pub Outside : ℕ → ℕ → List Chunk → Type 0
Outside a n [] = Unit
Outside a n (c ∷ cs) = Apart a n c.base c.capacity × Outside a n cs

-- The blocks of the chunks are apart from one another, as `malloc` gives them, each is at most
-- 2 ^ 63 bytes long, and no chunk uses more than its block.
abbrev pub IsLaidOut : List Chunk → Type 0
IsLaidOut [] = Unit
IsLaidOut (c ∷ cs) =
    (c.used ≤ c.capacity) × (c.capacity ≤ 2 ^ 63) × Outside c.base c.capacity cs × IsLaidOut cs

-- The chunks of an arena.
abbrev pub chain : Arena → List Chunk
chain a = a.head ∷ a.next

-- The size of the block that `arena_new_chunk` asks `malloc` for.
abbrev pub chunk_size : ℕ → ℕ → ℕ
chunk_size size align =
    if ltb default_capacity (wrap (size + align)) then wrap (size + align) else default_capacity

-- A block inside the block of a chunk, against a block that another chunk holds.
Held-Apart :
    (cs : List Chunk) (a n b m p s : ℕ)
    → IsLaidOut cs
    → Outside b m cs
    → b ≤ p
    → p + s ≤ b + m
    → Held cs a n
    → Apart a n p s
Held-Apart [] a n b m p s v o h k e = elim e [ ]
Held-Apart (c ∷ cs) a n b m p s v o h k (inl (q, r)) = elim o.0 [
  | inl before ↦ inr (omega (arith, v.0))
  | inr behind ↦ inl (omega (arith, v.0))
]
Held-Apart (c ∷ cs) a n b m p s v o h k (inr e) = Held-Apart cs a n b m p s v.3 o.1 h k e

Apart-sym : (a n b m : ℕ) → Apart a n b m → Apart b m a n
Apart-sym a n b m (inl h) = inr h
Apart-sym a n b m (inr h) = inl h

-- What the allocation of the block of `size` bytes at `p` does to the chunks `cs`, where a new
-- chunk is the block of `nm` bytes at `nb`.
record Allocated (cs : List Chunk) (size nb nm p : ℕ) (cs' : List Chunk) : Type 0 where
  held : Held cs' p size
  keeps : (a n : ℕ) → Held cs a n → Held cs' a n
  apart : (a n : ℕ) → Held cs a n → Apart a n p size
  laid_out : IsLaidOut cs'
  outside : (b m : ℕ) → Outside b m cs → Apart b m nb nm → Outside b m cs'
  clear : (b m : ℕ) → Outside b m cs → Apart b m nb nm → Apart b m p size

Allocated-cons :
    (c : Chunk) (cs cs' : List Chunk) (size nb nm p : ℕ)
    → IsLaidOut (c ∷ cs)
    → Apart c.base c.capacity nb nm
    → Allocated cs size nb nm p cs'
    → Allocated (c ∷ cs) size nb nm p (c ∷ cs')
Allocated-cons c cs cs' size nb nm p v f al = record {
  held = inr al.held;
  keeps = λ a n. keep a n;
  apart = λ a n. away a n;
  laid_out = (v.0, v.1, al.outside c.base c.capacity v.2 f, al.laid_out);
  outside = λ b m o g. (o.0, al.outside b m o.1 g);
  clear = λ b m o g. al.clear b m o.1 g;
}
  where
    keep : (a n : ℕ) → Held (c ∷ cs) a n → Held (c ∷ cs') a n
    keep a n (inl h) = inl h
    keep a n (inr h) = inr (al.keeps a n h)

    away : (a n : ℕ) → Held (c ∷ cs) a n → Apart a n p size
    away a n (inr h) = al.apart a n h
    away a n (inl (h, k)) = elim (al.clear c.base c.capacity v.2 f) [
      | inl before ↦ inl (omega (arith, v.0))
      | inr behind ↦ inr (omega (arith, v.0))
    ]

module _ (size align k : ℕ) (power : align ≡ 2 ^ k) (k_le : k ≤ 64)
    (small : size + align ≤ 2 ^ 63) where
  -- The block in a chunk that fits it.
  placed :
      (c : Chunk)
      → c.used ≤ c.capacity
      → c.capacity ≤ 2 ^ 63
      → fits c size align ≡ true
      → (c.base + c.used ≤ (place c size align).0)
        × ((place c size align).0 + size ≡ c.base + (place c size align).1.used)
        × ((place c size align).1.used ≤ c.capacity)
        × (c.used ≤ (place c size align).1.used)
  unfolding fits place
  placed c v w h =
      let o = aligned_offset_lem align k power k_le c (omega arith) in
      let e : wrap (aligned_offset c align + size) ≡ aligned_offset c align + size =
        omega (arith, o.0, o.1) in
      let r : wrap (aligned_offset c align + size) ≤ c.capacity = ground arith in
      (omega (arith, o.0), omega arith, omega arith, omega (arith, o.0))

  -- The head of the chain with more bytes in use.
  head-Allocated :
      (c : Chunk) (cs : List Chunk) (nb nm p u : ℕ)
      → IsLaidOut (c ∷ cs)
      → c.base + c.used ≤ p
      → p + size ≡ c.base + u
      → u ≤ c.capacity
      → c.used ≤ u
      → Allocated (c ∷ cs) size nb nm p (record c { used = u } ∷ cs)
  head-Allocated c cs nb nm p u v low end room grow = record {
    held = inl (omega arith, omega arith);
    keeps = λ a n. keep a n;
    apart = λ a n. away a n;
    laid_out = (room, v.1, v.2, v.3);
    outside = λ b m o g. o;
    clear = λ b m o g. clear_of b m o.0;
  }
    where
      keep : (a n : ℕ) → Held (c ∷ cs) a n → Held (record c { used = u } ∷ cs) a n
      keep a n (inl (h, k)) = inl (h, omega arith)
      keep a n (inr h) = inr h

      away : (a n : ℕ) → Held (c ∷ cs) a n → Apart a n p size
      away a n (inl (h, k)) = inl (omega arith)
      away a n (inr h) =
          Held-Apart cs a n c.base c.capacity p size v.3 v.2 (omega arith) (omega arith) h

      clear_of : (b m : ℕ) → Apart b m c.base c.capacity → Apart b m p size
      clear_of b m (inl h) = inl (omega arith)
      clear_of b m (inr h) = inr (omega arith)

  place-Allocated :
      (c : Chunk) (cs : List Chunk) (nb nm : ℕ)
      → IsLaidOut (c ∷ cs)
      → fits c size align ≡ true
      → Allocated (c ∷ cs) size nb nm (place c size align).0 ((place c size align).1 ∷ cs)
  place-Allocated c cs nb nm v h =
      let (low, end, room, grow) = placed c v.0 v.1 h in
      unfold place in
      head-Allocated c cs nb nm (place c size align).0 (place c size align).1.used v low end room
        grow

  abbrev new_chunk : ℕ → Chunk
  new_chunk nb = record { base = nb; used = wrap (0 + size); capacity = chunk_size size align }

  in_new_chunk_lem : (nb : ℕ) → in_new_chunk (some nb) size align ≡ returns (nb + 0, new_chunk nb)
  unfolding in_new_chunk arena_new_chunk
  in_new_chunk_lem nb =
      let no_overflow : ltb (size_max - align) size ≡ false = ground arith in
      let test = (is_power_of_two_iff align).1 (k, power) in
      rw (no_overflow, align_up-zero align k power k_le test)

  new-Allocated :
      (nb : ℕ) → Allocated [] size nb (chunk_size size align) (nb + 0) (new_chunk nb ∷ [])
  new-Allocated nb =
      let used_is : wrap (0 + size) ≡ size = omega arith in
      let asked : wrap (size + align) ≡ size + align = omega arith in
      let room : size ≤ chunk_size size align = ground arith in
      let room' : chunk_size size align ≤ 2 ^ 63 = ground arith in
      record {
        held = inl (omega arith, omega arith);
        keeps = λ a n h. elim h [ ];
        apart = λ a n h. elim h [ ];
        laid_out = (omega arith, room', tt, tt);
        outside = λ b m o g. (g, tt);
        clear = λ b m o g. clear_of b m g;
      }
    where
      clear_of : (b m : ℕ) → Apart b m nb (chunk_size size align) → Apart b m (nb + 0) size
      clear_of b m (inl h) = inl (omega arith)
      clear_of b m (inr h) =
          let asked : wrap (size + align) ≡ size + align = omega arith in
          let room : size ≤ chunk_size size align = ground arith in inr (omega arith)

  abbrev AllocatesAs : List Chunk → ℕ → Outcome (ℕ × List Chunk) → Type 0
  AllocatesAs cs nb (returns (p, cs')) = Allocated cs size nb (chunk_size size align) p cs'
  AllocatesAs cs nb aborts = ⊥

  prepend-AllocatesAs :
      (c : Chunk) (cs : List Chunk) (nb : ℕ) (r : Outcome (ℕ × List Chunk))
      → IsLaidOut (c ∷ cs)
      → Apart c.base c.capacity nb (chunk_size size align)
      → AllocatesAs cs nb r
      → AllocatesAs (c ∷ cs) nb (prepend c r)
  prepend-AllocatesAs c cs nb aborts v f al = elim al [ ]
  prepend-AllocatesAs c cs nb (returns (p, cs')) v f al =
      Allocated-cons c cs cs' size nb (chunk_size size align) p v f al

  alloc_in-AllocatesAs :
      (nb : ℕ) (cs : List Chunk)
      → IsLaidOut cs
      → Outside nb (chunk_size size align) cs
      → AllocatesAs cs nb (alloc_in (some nb) cs size align)
  unfolding alloc_in
  alloc_in-AllocatesAs nb [] v o = rw (in_new_chunk_lem nb) (new-Allocated nb)
  alloc_in-AllocatesAs nb (c ∷ cs) v o = elim (Bool-cases (fits c size align)) [
    | inl here ↦ rw here (place-Allocated c cs nb (chunk_size size align) v here)
    | inr later ↦ rw later (
        prepend-AllocatesAs c cs nb (alloc_in (some nb) cs size align) v
          (Apart-sym nb (chunk_size size align) c.base c.capacity o.0)
          (alloc_in-AllocatesAs nb cs v.3 o.1))
  ]

  -- The result of an allocation: the block of `size` bytes at `p`, in an arena that holds it and
  -- every block that it held before, which are apart from it.
  abbrev Yields : Arena → Outcome (ℕ × Arena) → Type 0
  Yields a r =
      (p : ℕ) × (a' : Arena) × (r ≡ returns (p, a'))
      × Held (chain a') p size
      × IsLaidOut (chain a')
      × ((b n : ℕ) → Held (chain a) b n → Held (chain a') b n × Apart b n p size)

  to_arena-Yields :
      (a : Arena) (nb : ℕ) (r : Outcome (ℕ × List Chunk))
      → AllocatesAs (chain a) nb r
      → Yields a (to_arena r)
  to_arena-Yields a nb aborts al = elim al [ ]
  to_arena-Yields a nb (returns (p, [])) al = absurd al.held
  to_arena-Yields a nb (returns (p, c ∷ cs)) al = (
    p,
    record { head = c; next = cs },
    refl,
    al.held,
    al.laid_out,
    λ b n h. (al.keeps b n h, al.apart b n h),
  )

  arena_alloc_aligned-Yields :
      (nb : ℕ) (a : Arena)
      → IsLaidOut (chain a)
      → Outside nb (chunk_size size align) (chain a)
      → Yields a (arena_alloc_aligned (some nb) a size align)
  unfolding arena_alloc_aligned
  arena_alloc_aligned-Yields nb a v o =
      let test = (is_power_of_two_iff align).1 (k, power) in
      let nonzero : (align == 0) ≡ false = ground (arith, power, pow-two_pos k) in
      rw (nonzero, test)
        (to_arena-Yields a nb (alloc_in (some nb) (chain a) size align)
          (alloc_in-AllocatesAs nb (chain a) v o))

  -- With a power of two for the alignment, and a size that with it is at most 2 ^ 63,
  -- `arena_alloc_aligned` returns where `malloc` does, provided that `malloc` gives a block apart
  -- from the chunks. Its block lies in the part of a chunk that is in use, the chunks stay apart
  -- from one another, and a block that the arena held is still held and is apart from the new one.
  pub arena_alloc_aligned-Apart :
      (nb : ℕ) (a : Arena)
      → IsLaidOut (chain a)
      → Outside nb (chunk_size size align) (chain a)
      → (b n : ℕ) → Held (chain a) b n
      → (p : ℕ) × (a' : Arena) × (arena_alloc_aligned (some nb) a size align ≡ returns (p, a'))
        × Held (chain a') p size
        × IsLaidOut (chain a')
        × Held (chain a') b n
        × Apart b n p size
  arena_alloc_aligned-Apart nb a v o b n h =
      let (p, a', e, held, laid_out, others) = arena_alloc_aligned-Yields nb a v o in
      (p, a', e, held, laid_out, (others b n h).0, (others b n h).1)
