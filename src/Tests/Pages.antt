-- ===== src/Tests/Pages.antt =====
-- Pages, granted and refused.
use memcached4chaos.Base.{◌+◌, ◌*◌, ◌≤◌, ◌≡◌, refl, arith, ◌⊎◌, true}
use memcached4chaos.Slabs.{
  SlabClass, SlabAllocator, empty_class, do_slabs_newslab, memory_allocate, slabs, grow_slab_list,
  add_page,
}
use memcached4chaos.Slabs.Limit.{do_slabs_newslab-limit, memory_allocate-overrun}
use memcached4chaos.Tests.Machine.{machine}
use memcached4chaos.Tests.Chunks.{allocator}

-- three chunks of 96 bytes to a page, and no page yet
abbrev fresh_class : SlabClass
fresh_class = record empty_class { size = 96; perslab = 3 }

-- no malloc limit is passed by a page of 288 bytes
abbrev limited : SlabAllocator
limited = record (allocator fresh_class) { mem_limit = 1000 }

limited_lem : (do_slabs_newslab ⦃env = machine⦄ 3 limited).0 ≡ true
unfolding do_slabs_newslab grow_slab_list memory_allocate add_page
limited_lem = refl

do_slabs_newslab-limit_example :
    (limited.mem_limit ≡ 0) ⊎ ((slabs fresh_class ≡ 0) ⊎ (0 + 96 * 3 ≤ limited.mem_limit))
do_slabs_newslab-limit_example =
    do_slabs_newslab-limit ⦃env = machine⦄ 3 limited (omega arith) (omega arith) limited_lem

-- a block of 512 bytes
abbrev preallocated : SlabAllocator
preallocated = record (allocator fresh_class) {
  mem_base = 8192;
  mem_current = 8192;
  mem_avail = 512;
}

memory_allocate-overrun_example :
    let (first, s') = memory_allocate ⦃env = machine⦄ 512 preallocated in
    (first ≡ 8192)
    × (s'.mem_avail ≡ 512)
    × ((memory_allocate ⦃env = machine⦄ 512 s').0 ≡ 8192 + 512)
memory_allocate-overrun_example =
    memory_allocate-overrun ⦃env = machine⦄ 512 preallocated (λ e. absurd (omega arith)) refl refl
