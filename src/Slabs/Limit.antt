-- ===== src/Slabs/Limit.antt =====
-- The limits of memory: of all pages, and of the preallocated block.
use memcached4chaos.Base.{ℕ, ◌+◌, ◌*◌, ◌%◌, ◌^◌, ◌<◌, ◌≤◌, ◌≡◌, ◌≢◌, arith, true, inl, inr, ◌⊎◌}
use memcached4chaos.System.{null, Env}
use memcached4chaos.Slabs.{SlabAllocator, do_slabs_newslab, memory_allocate, slabs}
use memcached4chaos.Slabs.Page.{do_slabs_newslab-outcome}

module _ ⦃env : Env⦄ where
  -- A page that would take the allocator over its limit is only granted to a class with no page,
  -- where its length is an int and the bytes of all pages with it are a size_t.
  pub do_slabs_newslab-limit :
      (id : ℕ) (s : SlabAllocator)
      → let len = (s.slabclass id).size * (s.slabclass id).perslab in
        len < 2 ^ 31
        → s.mem_malloced + len < 2 ^ 64
        → (do_slabs_newslab id s).0 ≡ true
        → (s.mem_limit ≡ 0) ⊎ ((slabs (s.slabclass id) ≡ 0) ⊎ (s.mem_malloced + len ≤ s.mem_limit))
  do_slabs_newslab-limit id s short small ok = elim (do_slabs_newslab-outcome id s) [
    | inl (_, refused, _) ↦ cc
    | inr (room, _, _) ↦ ground arith
  ]

  -- With preallocation, a request for exactly the bytes that are left, a multiple of 8, is granted and leaves as
  -- many bytes: the next request of that size is granted too, at the end of the block.
  pub memory_allocate-overrun :
      (size : ℕ) (s : SlabAllocator)
      → s.mem_base ≢ null
      → s.mem_avail ≡ size
      → size % 8 ≡ 0
      → let (first, s') = memory_allocate size s in
        (first ≡ s.mem_current)
        × (s'.mem_avail ≡ size)
        × ((memory_allocate size s').0 ≡ s.mem_current + s.mem_avail)
  unfolding memory_allocate
  memory_allocate-overrun size s base exact even = ground arith
