-- ===== src/Slabs/Page.antt =====
-- New pages: what do_slabs_newslab grants and refuses.
use memcached4chaos.Base.{
  ℕ, zero, suc, ◌+◌, ◌-◌, ◌*◌, ◌%◌, ◌^◌, ◌<◌, ◌≡◌, ◌≢◌, refl, arith, ◌==◌, List, [], ◌∷◌, ◌++◌,
  if◌then◌else◌, true, false, Bool-cases, inl, inr, ◌⊎◌, ◌∙◌, ap, ltb, leb, ◌&&◌, Bool, not,
}
use memcached4chaos.System.{Ptr, null, Env, zero_item, update, update_self, update_ne}
use memcached4chaos.Slabs.{
  SlabClass, SlabAllocator, page_bytes, do_slabs_newslab, memory_allocate, grow_slab_list, add_page,
  slabs,
}
use memcached4chaos.Slabs.Stack.{IsValid, free_chunks, remaining}

-- The page limit refuses a page: there is a limit, the page would pass it, and the class has a
-- page already.
abbrev pub over_limit : ℕ → SlabAllocator → Bool
over_limit id s =
    not (s.mem_limit == 0)
    && ltb s.mem_limit ((s.mem_malloced + page_bytes (s.slabclass id)) % 2 ^ 64)
    && ltb 0 (slabs (s.slabclass id))

-- A refused page: no class, no memory and no count of bytes changed, but for the room in the list
-- of pages.
pub record Refused (id : ℕ) (s s' : SlabAllocator) : Type 0 where
  pub stack : free_chunks (s'.slabclass id) ≡ free_chunks (s.slabclass id)
  pub others : (j : ℕ) → j ≢ id → s'.slabclass j ≡ s.slabclass j
  pub heap : s'.heap ≡ s.heap
  pub malloced : s'.mem_malloced ≡ s.mem_malloced

-- A granted page at `ptr`: it is zeroed, it becomes the page at whose end chunks are free, and its
-- bytes are counted.
pub record Granted (id : ℕ) (s : SlabAllocator) (ptr : Ptr) (s' : SlabAllocator) : Type 0 where
  pub ne_null : ptr ≢ null
  pub slots : (s'.slabclass id).slots ≡ (s.slabclass id).slots
  pub page : (s'.slabclass id).end_page_ptr ≡ ptr
  pub free : (s'.slabclass id).end_page_free ≡ (s.slabclass id).perslab
  pub sizes :
      ((s'.slabclass id).size ≡ (s.slabclass id).size)
      × ((s'.slabclass id).perslab ≡ (s.slabclass id).perslab)
  pub pages : (s'.slabclass id).slab_list ≡ ptr ∷ (s.slabclass id).slab_list
  pub others : (j : ℕ) → j ≢ id → s'.slabclass j ≡ s.slabclass j
  pub zeroed :
      (a : Ptr)
      → s'.heap a
        ≡ (if leb ptr a && ltb a (ptr + page_bytes (s.slabclass id)) then zero_item else s.heap a)
  pub malloced : s'.mem_malloced ≡ (s.mem_malloced + page_bytes (s.slabclass id)) % 2 ^ 64

-- What making room for a page leaves alone.
record Kept (id : ℕ) (s s' : SlabAllocator) : Type 0 where
  class_kept : s'.slabclass id ≡ record (s.slabclass id) { list_size = (s'.slabclass id).list_size }
  others : (j : ℕ) → j ≢ id → s'.slabclass j ≡ s.slabclass j
  heap : s'.heap ≡ s.heap
  malloced : s'.mem_malloced ≡ s.mem_malloced

Kept-Refused : {id : ℕ} {s s' : SlabAllocator} → Kept id s s' → Refused id s s'
Kept-Refused k = record {
  stack = ap free_chunks k.class_kept;
  others = k.others;
  heap = k.heap;
  malloced = k.malloced;
}

Kept-refl : (id : ℕ) (s : SlabAllocator) → Kept id s s
Kept-refl id s = record { class_kept = refl; others = λ j ne. refl; heap = refl; malloced = refl }

Kept-Granted :
    (id : ℕ) (s s' : SlabAllocator) (ptr : Ptr)
    → Kept id s s'
    → ptr ≢ null
    → Granted id s ptr (add_page id ptr (page_bytes (s.slabclass id)) s')
unfolding add_page
Kept-Granted id s s' ptr k ne =
    let here = update_self s'.slabclass id in
    let same = k.class_kept in
    record {
      ne_null = ne;
      slots = rw here (ap SlabClass.slots same);
      page = rw here refl;
      free = rw here (ap SlabClass.perslab same);
      sizes = (rw here (ap SlabClass.size same), rw here (ap SlabClass.perslab same));
      pages = rw here (ap (λ p. ptr ∷ SlabClass.slab_list p) same);
      others = λ j nj. update_ne s'.slabclass id j _ nj ∙ k.others j nj;
      zeroed = λ a. rw k.heap;
      malloced = rw k.malloced;
    }

no_slots : (slots rest : List Ptr) → slots ++ rest ≡ [] → slots ≡ []
no_slots [] rest e = refl
no_slots (x ∷ slots) rest e = cc

pub remaining-pos :
    (n ptr size : ℕ) → 0 < n → remaining ptr n size ≡ ptr ∷ remaining (ptr + size) (n - 1) size
remaining-pos zero ptr size h = absurd (omega arith)
remaining-pos (suc n) ptr size h = let less : suc n - 1 ≡ n = omega arith in rw less

-- A page granted to a class with an empty stack makes its chunks the stack.
pub Granted-stack :
    (id : ℕ) (s s' : SlabAllocator) (ptr : Ptr)
    → Granted id s ptr s'
    → IsValid (s.slabclass id)
    → free_chunks (s.slabclass id) ≡ []
    → IsValid (s'.slabclass id)
      × (free_chunks (s'.slabclass id)
          ≡ remaining ptr (s.slabclass id).perslab (s.slabclass id).size)
Granted-stack id s s' ptr g v e =
    let (size, perslab) = g.sizes in
    let ne = g.ne_null in
    (
      record {
        size_pos = omega (arith, v.size_pos);
        perslab_pos = omega (arith, v.perslab_pos);
        perslab_small = omega (arith, v.perslab_small);
        free_small = omega (arith, g.free, v.perslab_small);
        page_end = ground (arith, g.page, g.free, v.perslab_pos);
      },
      rw (g.slots, no_slots (s.slabclass id).slots _ e, g.page, g.free, size),
    )

module _ ⦃env : Env⦄ where
  -- The list of pages has room for one more, or realloc finds some.
  abbrev pub list_room : ℕ → SlabAllocator → Bool
  list_room id s =
      let p = s.slabclass id in
      if slabs p == p.list_size
      then not (
          env.malloc s.calls ((if p.list_size == 0 then 16 else p.list_size * 2 % 2 ^ 32) * 8)
          == null)
      else true

  -- Where the page would stand: in memory from malloc, after the list has grown, or in the block
  -- that the constructor allocated, if it has as many bytes left.
  abbrev pub page_at : ℕ → SlabAllocator → Ptr
  page_at id s =
      let p = s.slabclass id in
      let calls = if slabs p == p.list_size then s.calls + 1 else s.calls in
      if s.mem_base == null
      then env.malloc calls (page_bytes p)
      else if leb (page_bytes p) s.mem_avail
      then s.mem_current
      else null

  -- All that a page needs.
  abbrev pub page_room : ℕ → SlabAllocator → Bool
  page_room id s = not (over_limit id s) && list_room id s && not (page_at id s == null)

  grow_slab_list-room : (id : ℕ) (s : SlabAllocator) → (grow_slab_list id s).0 ≡ list_room id s
  unfolding grow_slab_list
  grow_slab_list-room id s = ground arith

  -- What memory_allocate reads after it.
  grow_slab_list-calls :
      (id : ℕ) (s : SlabAllocator)
      → let p = s.slabclass id in
        let s' = (grow_slab_list id s).1 in
        (s'.calls ≡ (if slabs p == p.list_size then s.calls + 1 else s.calls))
        × (s'.mem_base ≡ s.mem_base)
        × (s'.mem_current ≡ s.mem_current)
        × (s'.mem_avail ≡ s.mem_avail)
  unfolding grow_slab_list
  grow_slab_list-calls id s = ground arith

  memory_allocate-at :
      (size : ℕ) (s : SlabAllocator)
      → (memory_allocate size s).0 ≡ (
          if s.mem_base == null
          then env.malloc s.calls size
          else if leb size s.mem_avail
          then s.mem_current
          else null)
  unfolding memory_allocate
  memory_allocate-at size s = ground arith

  got-page_at :
      (id : ℕ) (s : SlabAllocator)
      → (memory_allocate (page_bytes (s.slabclass id)) (grow_slab_list id s).1).0 ≡ page_at id s
  got-page_at id s =
      let (calls, base, current, avail) = grow_slab_list-calls id s in
      memory_allocate-at (page_bytes (s.slabclass id)) (grow_slab_list id s).1
      ∙ rw (calls, base, current, avail) refl

  grow_slab_list-Kept : (id : ℕ) (s : SlabAllocator) → Kept id s (grow_slab_list id s).1
  unfolding grow_slab_list update
  grow_slab_list-Kept id s = record {
    class_kept = ground arith;
    others = λ j ne. ground arith;
    heap = ground arith;
    malloced = ground arith;
  }

  memory_allocate-same :
      (size : ℕ) (s : SlabAllocator)
      → let s' = (memory_allocate size s).1 in
        (s'.slabclass ≡ s.slabclass) × (s'.heap ≡ s.heap) × (s'.mem_malloced ≡ s.mem_malloced)
  unfolding memory_allocate
  memory_allocate-same size s = ground arith

  memory_allocate-Kept :
      (id size : ℕ) (s s' : SlabAllocator) → Kept id s s' → Kept id s (memory_allocate size s').1
  memory_allocate-Kept id size s s' k =
      let (classes, heap, malloced) = memory_allocate-same size s' in
      record {
        class_kept = rw classes k.class_kept;
        others = λ j ne. rw classes (k.others j ne);
        heap = heap ∙ k.heap;
        malloced = malloced ∙ k.malloced;
      }

  pub do_slabs_newslab-outcome :
      (id : ℕ) (s : SlabAllocator)
      → let (granted, s') = do_slabs_newslab id s in
        ((page_room id s ≡ false) × (granted ≡ false) × Refused id s s')
        ⊎ ((page_room id s ≡ true) × (granted ≡ true) × Granted id s (page_at id s) s')
  unfolding do_slabs_newslab
  do_slabs_newslab-outcome id s =
      let len = page_bytes (s.slabclass id) in
      let grown = grow_slab_list id s in
      let room = grow_slab_list-Kept id s in
      let made = grow_slab_list-room id s in
      let got = memory_allocate len grown.1 in
      let at = got-page_at id s in
      let kept = memory_allocate-Kept id len s grown.1 room in
      elim (Bool-cases (over_limit id s)) [
        | inl over ↦ rw over (inl (refl, refl, Kept-Refused (Kept-refl id s)))
        | inr within ↦ rw within (elim (Bool-cases (list_room id s)) [
          | inr no_room ↦ rw (no_room, made ∙ no_room) (inl (refl, refl, Kept-Refused room))
          | inl made_room ↦
              rw (made_room, made ∙ made_room)
                (elim (Bool-cases (page_at id s == null)) [
                  | inl none_left ↦ rw (at, none_left) (inl (refl, refl, Kept-Refused kept))
                  | inr some_left ↦
                      rw (at, some_left)
                        (inr
                          (refl, refl, Kept-Granted id s got.1 (page_at id s) kept (ground arith)))
                ])
        ])
      ]
