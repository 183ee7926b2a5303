-- ===== src/Slabs.antt =====
-- cache/slabs.hpp and cache/slabs.cpp: memory in pages, each cut into the chunks of one size class.
pub mod Classes
pub mod Table
pub mod Stack
pub mod Page
pub mod Alloc
pub mod Limit
use memcached4chaos.Base.{
  ℕ, zero, suc, ◌+◌, ◌-◌, ◌*◌, ◌/◌, ◌%◌, ◌^◌, Bool, true, false, not, ◌&&◌, ◌||◌, List, [], ◌∷◌,
  Option, none, some, length, ltb, leb, ◌==◌, if◌then◌else◌,
}
use memcached4chaos.Float.{round_float}
use memcached4chaos.System.{
  sign_extend, Ptr, null, Env, Item, zero_item, Heap, sizeof_hash_item, update,
}

-- struct config; the float `factor` is factor_num / factor_den
pub record Config : Type 0 where
  pub maxbytes : ℕ
  pub preallocate : Bool
  pub factor_num : ℕ
  pub factor_den : ℕ
  pub chunk_size : ℕ
  pub hashpower : ℕ
  pub item_size_max : ℕ

-- slabclass_t. `slots` holds the first sl_curr entries of the array, the last first; `slab_list`
-- likewise the first `slabs` entries. `killing` is never read.
pub record SlabClass : Type 0 where
  pub size : ℕ
  pub perslab : ℕ
  pub slots : List Ptr
  pub sl_total : ℕ
  pub end_page_ptr : Ptr
  pub end_page_free : ℕ
  pub slab_list : List Ptr
  pub list_size : ℕ
  pub requested : ℕ

abbrev pub sl_curr : SlabClass → ℕ
sl_curr p = length p.slots

abbrev pub slabs : SlabClass → ℕ
slabs p = length p.slab_list

-- class SlabAllocator, with the memory that it hands out and the number of allocations asked of
-- the C library so far
pub record SlabAllocator : Type 0 where
  pub slabclass : ℕ → SlabClass
  pub mem_limit : ℕ
  pub mem_malloced : ℕ
  pub power_largest : ℕ
  pub mem_base : Ptr
  pub mem_current : Ptr
  pub mem_avail : ℕ
  pub heap : Heap
  pub calls : ℕ

abbrev pub power_smallest : ℕ
power_smallest = 1

abbrev pub power_largest_max : ℕ
power_largest_max = 200

abbrev pub chunk_align_bytes : ℕ
chunk_align_bytes = 8

-- this->slabclass[id] = p
abbrev pub set_class : ℕ → SlabClass → SlabAllocator → SlabAllocator
set_class id p s = record s { slabclass = update s.slabclass id p }

-- while (size > this->slabclass[res].size) res++;
clsid_from : (ℕ → SlabClass) → ℕ → ℕ → ℕ → ℕ
clsid_from cs size zero res = res
clsid_from cs size (suc rounds) res =
    let rest = clsid_from cs size rounds (res + 1) in if ltb (cs res).size size then rest else res

unfoldable pub slabs_clsid : SlabAllocator → ℕ → ℕ
unfolding clsid_from
slabs_clsid s size =
    if size == 0 || ltb (s.slabclass s.power_largest).size size
    then 0
    else clsid_from s.slabclass size s.power_largest power_smallest

-- int len = p->size * p->perslab, as the size_t that it is used as
abbrev pub page_bytes : SlabClass → ℕ
page_bytes p = sign_extend (p.size * p.perslab % 2 ^ 32)

-- size rounded up to the alignment, on unsigned int
abbrev pub align : ℕ → ℕ
align size =
    if size % chunk_align_bytes == 0
    then size
    else (size + (chunk_align_bytes - size % chunk_align_bytes)) % 2 ^ 32

-- The top of the free list if there is one, else the next chunk of the last page.
-- `none`: the assertion fails.
unfoldable pub take_chunk : List Ptr → ℕ → ℕ → SlabAllocator → Option (Ptr × SlabAllocator)
take_chunk (ptr ∷ rest) size id s =
    let p = s.slabclass id in
    some
      (ptr, set_class id (record p { slots = rest; requested = (p.requested + size) % 2 ^ 64 }) s)
take_chunk [] size id s =
    let p = s.slabclass id in
    let free = (p.end_page_free + 2 ^ 32 - 1) % 2 ^ 32 in
    if p.end_page_ptr == null
    then none
    else some (
      p.end_page_ptr,
      set_class id
          (record p {
            end_page_free = free;
            end_page_ptr = if free == 0 then null else p.end_page_ptr + p.size;
            requested = (p.requested + size) % 2 ^ 64;
          })
          s,
    )

-- the page is zeroed and becomes the page at whose end chunks are free
unfoldable pub add_page : ℕ → Ptr → ℕ → SlabAllocator → SlabAllocator
add_page id ptr len s =
    let p = s.slabclass id in
    set_class id
      (record p { end_page_ptr = ptr; end_page_free = p.perslab; slab_list = ptr ∷ p.slab_list })
      (record s {
        mem_malloced = (s.mem_malloced + len) % 2 ^ 64;
        heap = λ a. if leb ptr a && ltb a (ptr + len) then zero_item else s.heap a;
      })

module _ ⦃env : Env⦄ where
  -- true if there is room for one more page in the list of pages
  unfoldable pub grow_slab_list : ℕ → SlabAllocator → Bool × SlabAllocator
  grow_slab_list id s =
      let p = s.slabclass id in
      if slabs p == p.list_size
      then (let new_size = if p.list_size == 0 then 16 else p.list_size * 2 % 2 ^ 32 in
          let new_list = env.malloc s.calls (new_size * 8) in
          let s = record s { calls = s.calls + 1 } in
          if new_list == null
          then (false, s)
          else (true, set_class id (record p { list_size = new_size }) s))
      else (true, s)

  unfoldable pub memory_allocate : ℕ → SlabAllocator → Ptr × SlabAllocator
  memory_allocate size s =
      if s.mem_base == null
      then (env.malloc s.calls size, record s { calls = s.calls + 1 })
      else if ltb s.mem_avail size
      then (null, s)
      else (let size =
            if size % chunk_align_bytes == 0
            then size
            else (size + (chunk_align_bytes - size % chunk_align_bytes)) % 2 ^ 64 in
          (
            s.mem_current,
            record s {
              mem_current = s.mem_current + size;
              mem_avail = s.mem_avail - (if ltb size s.mem_avail then size else 0);
            },
          ))

  unfoldable pub do_slabs_newslab : ℕ → SlabAllocator → Bool × SlabAllocator
  do_slabs_newslab id s =
      let p = s.slabclass id in
      let len = page_bytes p in
      if not (s.mem_limit == 0)
        && ltb s.mem_limit ((s.mem_malloced + len) % 2 ^ 64)
        && ltb 0 (slabs p)
      then (false, s)
      else (let (grown, s) = grow_slab_list id s in
          if grown
          then (let (ptr, s) = memory_allocate len s in
              if ptr == null then (false, s) else (true, add_page id ptr len s))
          else (false, s))

  unfoldable pub do_slabs_alloc : ℕ → ℕ → SlabAllocator → Option (Ptr × SlabAllocator)
  do_slabs_alloc size id s =
      if ltb id power_smallest || ltb s.power_largest id
      then some (null, s)
      else (let p = s.slabclass id in
          let (ready, s) =
            if p.end_page_ptr == null && sl_curr p == 0 then do_slabs_newslab id s else (true, s) in
          if ready then take_chunk (s.slabclass id).slots size id s else some (null, s))

  -- more room for the free list; `none` when realloc fails
  grow_slots : SlabClass → ℕ → Option SlabClass
  grow_slots p calls =
      if sl_curr p == p.sl_total
      then (let new_size = if p.sl_total == 0 then 16 else p.sl_total * 2 % 2 ^ 32 in
          if env.malloc calls (sign_extend new_size * 8 % 2 ^ 64) == null
          then none
          else some (record p { sl_total = new_size }))
      else some p

  unfoldable pub do_slabs_free : Ptr → ℕ → ℕ → SlabAllocator → SlabAllocator
  unfolding grow_slots
  do_slabs_free ptr size id s =
      if ltb id power_smallest || ltb s.power_largest id
      then s
      else (let p = s.slabclass id in
          let asked = record s {
            calls = if sl_curr p == p.sl_total then s.calls + 1 else s.calls;
          } in
          elim (grow_slots p s.calls) [
            | none ↦ asked
            | some p ↦
                set_class id
                  (record p {
                    slots = ptr ∷ p.slots;
                    requested = (p.requested + 2 ^ 64 - size) % 2 ^ 64;
                  })
                  asked
          ])

-- init_settings.item_size_max / init_settings.factor, and size *= init_settings.factor
unfoldable pub largest_size : Config → ℕ
largest_size c = round_float (round_float c.item_size_max 1 * c.factor_den) (2 ^ 23 * c.factor_num)

unfoldable pub grown : Config → ℕ → ℕ
grown c size =
    round_float (round_float size 1 * c.factor_num) (2 ^ 23 * c.factor_den) / 2 ^ 23 % 2 ^ 32

-- The constructor's loop: `rounds` is power_largest_max - i.
unfoldable pub size_classes : Config → ℕ → ℕ → ℕ → (ℕ → SlabClass) → ℕ × (ℕ → SlabClass)
size_classes c zero i size cs = (i, cs)
size_classes c (suc rounds) i size cs =
    let aligned = align size in
    let p = record (cs i) { size = aligned; perslab = c.item_size_max / aligned % 2 ^ 32 } in
    let rest = size_classes c rounds (i + 1) (grown c aligned) (update cs i p) in
    if leb (round_float size 1) (largest_size c) then rest else (i, cs)

abbrev pub empty_class : SlabClass
empty_class = record {
  size = 0;
  perslab = 0;
  slots = [];
  sl_total = 0;
  end_page_ptr = null;
  end_page_free = 0;
  slab_list = [];
  list_size = 0;
  requested = 0;
}

-- SlabAllocator::SlabAllocator. The constructor sets mem_base, mem_current and mem_avail only when
-- it preallocates, and mem_malloced only from T_MEMD_INITIAL_MALLOC, here `faked`: `raw` is what
-- stood in the object's memory before. `none`: abort().
unfoldable pub new_allocator :
    ⦃env : Env⦄ → Config → Option ℕ → SlabAllocator → Option SlabAllocator
new_allocator ⦃env⦄ c faked raw =
    let (largest, cs) =
      size_classes c (power_largest_max - power_smallest) power_smallest
        ((sizeof_hash_item + c.chunk_size) % 2 ^ 32) (λ _. empty_class) in
    let last = record (cs largest) { size = c.item_size_max % 2 ^ 32; perslab = 1 } in
    let s = record raw {
      mem_limit = c.maxbytes;
      slabclass = update cs largest last;
      power_largest = largest;
      mem_malloced = elim faked [ none ↦ raw.mem_malloced | some n ↦ n ];
    } in
    if c.preallocate
    then (let base = env.malloc raw.calls c.maxbytes in
        if base == null
        then none
        else some (record s {
          mem_base = base;
          mem_current = base;
          mem_avail = c.maxbytes;
          calls = raw.calls + 1;
        }))
    else some s
