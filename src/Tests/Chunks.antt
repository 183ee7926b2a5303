-- ===== src/Tests/Chunks.antt =====
-- Chunks of one size class, taken and given back.
use memcached4chaos.Base.{ℕ, ◌^◌, ◌<◌, ◌≤◌, ◌≡◌, refl, arith, [], ◌∷◌, none, some, ◌⊎◌, false}
use memcached4chaos.System.{null, zero_item, update}
use memcached4chaos.Float.{round_float, in_units, nearest, binade}
use memcached4chaos.Slabs.{
  largest_size, grown, Config, SlabClass, SlabAllocator, empty_class, new_allocator, slabs_clsid,
  size_classes,
}
use memcached4chaos.Slabs.Stack.{IsValid}
use memcached4chaos.Slabs.Classes.{FirstFit, slabs_clsid-FirstFit}
use memcached4chaos.Slabs.Table.{IsConfig, IsSized, Good, new_allocator-Table}
use memcached4chaos.Tests.Machine.{machine}

-- chunks of 96 bytes: one on the free list, two left of a page
abbrev pub used_class : SlabClass
used_class = record empty_class {
  size = 96;
  perslab = 10;
  slots = 2000 ∷ [];
  sl_total = 16;
  end_page_ptr = 3000;
  end_page_free = 2;
}

abbrev pub allocator : SlabClass → SlabAllocator
allocator p = record {
  slabclass = λ _. p;
  mem_limit = 0;
  mem_malloced = 0;
  power_largest = 5;
  mem_base = null;
  mem_current = null;
  mem_avail = 0;
  heap = λ _. zero_item;
  calls = 0;
}

pub used_class-IsValid : IsValid used_class
used_class-IsValid = record {
  size_pos = omega arith;
  perslab_pos = omega arith;
  perslab_small = omega arith;
  free_small = omega arith;
  page_end = refl;
}

slabs_clsid-FirstFit_example :
    let s = allocator used_class in
    let size : ℕ = 90 in
    (((size ≡ 0) ⊎ (96 < size)) × (slabs_clsid s size ≡ 0))
    ⊎ ((0 < size) × (size ≤ 96) × FirstFit s.slabclass size 1 5 (slabs_clsid s size))
slabs_clsid-FirstFit_example = slabs_clsid-FirstFit (allocator used_class) 90 (omega arith)

-- items of at most 200 bytes
abbrev small_config : Config
small_config = record {
  maxbytes = 1000;
  preallocate = false;
  factor_num = 5;
  factor_den = 4;
  chunk_size = 48;
  hashpower = 16;
  item_size_max = 200;
}

small_config-IsConfig : IsConfig small_config
small_config-IsConfig = record {
  num = refl;
  den = refl;
  room = omega arith;
  small = omega arith;
  chunk = omega arith;
}

abbrev made : SlabAllocator
made = elim (new_allocator ⦃env = machine⦄ small_config none (allocator used_class)) [
  | none ↦ allocator used_class
  | some s ↦ s
]

made_lem : new_allocator ⦃env = machine⦄ small_config none (allocator used_class) ≡ some made
unfolding new_allocator size_classes largest_size grown round_float in_units nearest binade
made_lem = refl

new_allocator-Table_example :
    (1 ≤ made.power_largest)
    × (made.power_largest ≤ 200)
    × ((j : ℕ)
        → 1 ≤ j
        → j < made.power_largest
        → Good small_config small_config-IsConfig (made.slabclass j))
    × IsSized 200 (made.slabclass made.power_largest)
    × ((made.slabclass made.power_largest).size ≡ 200)
new_allocator-Table_example =
    new_allocator-Table small_config small_config-IsConfig ⦃env = machine⦄ none
      (allocator used_class) made made_lem

-- From here on a float has too few bits for the sizes: an exact product would give 66890696.
abbrev large_config : Config
large_config = record small_config { item_size_max = 2 ^ 27 }

rounded_size : ((size_classes large_config 199 1 96 (λ _. empty_class)).1 61).size ≡ 66890688
unfolding size_classes largest_size grown round_float in_units nearest binade update
rounded_size = refl
