-- ===== src/Slabs/Stack.antt =====
-- A size class refines a stack of free chunks: do_slabs_alloc pops, do_slabs_free pushes, and a
-- new page puts its chunks on an empty stack.
use memcached4chaos.Base.{
  ℕ, zero, suc, ◌+◌, ◌-◌, ◌*◌, ◌%◌, ◌^◌, ◌≤◌, ◌<◌, ◌≡◌, ◌≢◌, refl, arith, ◌==◌, List, [], ◌∷◌, ◌++◌,
  some, if◌then◌else◌, true, false, Bool-cases, inl, inr, length, ◌∙◌, ltb, ◌||◌, ◌&&◌,
}
use memcached4chaos.System.{sign_extend, Ptr, null, Env, update, update_self, update_ne}
use memcached4chaos.Slabs.{
  SlabClass, SlabAllocator, set_class, take_chunk, do_slabs_alloc, do_slabs_free, sl_curr,
}

-- The chunks from `ptr` on that are left of a page.
abbrev pub remaining : Ptr → ℕ → ℕ → List Ptr
remaining ptr zero size = []
remaining ptr (suc n) size = ptr ∷ remaining (ptr + size) n size

-- The stack: the free list, then the rest of the last page.
abbrev pub free_chunks : SlabClass → List Ptr
free_chunks p = p.slots ++ remaining p.end_page_ptr p.end_page_free p.size

-- The page pointer is null exactly when no chunk of the page is left, and no count wraps.
pub record IsValid (p : SlabClass) : Type 0 where
  pub size_pos : 0 < p.size
  pub perslab_pos : 0 < p.perslab
  pub perslab_small : p.perslab < 2 ^ 32
  pub free_small : p.end_page_free < 2 ^ 32
  pub page_end : (p.end_page_ptr == null) ≡ (p.end_page_free == 0)

-- What taking a chunk leaves of a class.
pub taken : ℕ → List Ptr → SlabClass → SlabClass
taken size (q ∷ rest) p = record p { slots = rest; requested = (p.requested + size) % 2 ^ 64 }
taken size [] p = record p {
  end_page_free = p.end_page_free - 1;
  end_page_ptr = if p.end_page_free == 1 then null else p.end_page_ptr + p.size;
  requested = (p.requested + size) % 2 ^ 64;
}

remaining-cons :
    (ptr n size q : ℕ) (rest : List Ptr)
    → remaining ptr n size ≡ q ∷ rest
    → (ptr ≡ q) × (0 < n) × (remaining (ptr + size) (n - 1) size ≡ rest)
remaining-cons ptr zero size q rest e = cc
remaining-cons ptr (suc n) size q rest e =
    let less : suc n - 1 ≡ n = omega arith in (cc, omega arith, rw less (cc))

remaining-null : (n : ℕ) (ptr ptr' size : ℕ) → n ≡ 0 → remaining ptr n size ≡ remaining ptr' n size
remaining-null zero ptr ptr' size e = refl
remaining-null (suc n) ptr ptr' size e = absurd (omega arith)

pub take_chunk-taken :
    (slots : List Ptr) (size id : ℕ) (s : SlabAllocator) (q : Ptr) (rest : List Ptr)
    → let p = s.slabclass id in
      IsValid p
      → slots ++ remaining p.end_page_ptr p.end_page_free p.size ≡ q ∷ rest
      → take_chunk slots size id s ≡ some (q, set_class id (taken size slots p) s)
unfolding take_chunk taken
take_chunk-taken (x ∷ slots) size id s q rest v e = let same : x ≡ q = cc in rw same
take_chunk-taken [] size id s q rest v e =
    let p = s.slabclass id in
    let (at, left, _) = remaining-cons p.end_page_ptr p.end_page_free p.size q rest e in
    let count : (p.end_page_free + 2 ^ 32 - 1) % 2 ^ 32 ≡ p.end_page_free - 1 =
      omega (arith, v.free_small) in
    let open_page : (p.end_page_ptr == null) ≡ false = ground (arith, v.page_end) in
    let last : (p.end_page_free - 1 == 0) ≡ (p.end_page_free == 1) = ground arith in
    rw (open_page, count, last, at)

pub taken-pops :
    (size : ℕ) (slots : List Ptr) (p : SlabClass) (q : Ptr) (rest : List Ptr)
    → IsValid p
    → p.slots ≡ slots
    → slots ++ remaining p.end_page_ptr p.end_page_free p.size ≡ q ∷ rest
    → IsValid (taken size slots p) × (free_chunks (taken size slots p) ≡ rest)
unfolding taken
taken-pops size (x ∷ slots) p q rest v here e = (ground arith, cc)
taken-pops size [] p q rest v here e =
    let (at, left, tail) = remaining-cons p.end_page_ptr p.end_page_free p.size q rest e in
    (
      ground arith,
      rw here (elim (Bool-cases (p.end_page_free == 1)) [
        | inl one ↦ rw one (
            remaining-null (p.end_page_free - 1) null (p.end_page_ptr + p.size) p.size
              (ground arith)
            ∙ tail)
        | inr more ↦ rw more tail
      ]),
    )

busy :
    (slots : List Ptr) (p : SlabClass) (q : Ptr) (rest : List Ptr)
    → IsValid p
    → slots ++ remaining p.end_page_ptr p.end_page_free p.size ≡ q ∷ rest
    → (p.end_page_ptr == null && length slots == 0) ≡ false
busy (x ∷ slots) p q rest v e = ground arith
busy [] p q rest v e =
    let (_, left, _) = remaining-cons p.end_page_ptr p.end_page_free p.size q rest e in
    ground (arith, v.page_end)

pub idle :
    (slots : List Ptr) (p : SlabClass)
    → IsValid p
    → slots ++ remaining p.end_page_ptr p.end_page_free p.size ≡ []
    → (p.end_page_ptr == null && length slots == 0) ≡ true
idle (x ∷ slots) p v e = cc
idle [] p v e = ground (arith, v.page_end, empty p.end_page_ptr p.end_page_free p.size e)
  where
    empty : (ptr n size : ℕ) → remaining ptr n size ≡ [] → n ≡ 0
    empty ptr zero size e = refl
    empty ptr (suc n) size e = cc

-- A class whose number the allocator knows.
abbrev pub Known : ℕ → SlabAllocator → Type 0
Known id s = (1 ≤ id) × (id ≤ s.power_largest)

pub known : (id : ℕ) (s : SlabAllocator) → Known id s → (ltb id 1 || ltb s.power_largest id) ≡ false
known id s k = ground arith

module _ ⦃env : Env⦄ where
  pub do_slabs_alloc-pop :
      (size id : ℕ) (s : SlabAllocator) (q : Ptr) (rest : List Ptr)
      → Known id s
      → IsValid (s.slabclass id)
      → free_chunks (s.slabclass id) ≡ q ∷ rest
      → (s' : SlabAllocator) × (do_slabs_alloc size id s ≡ some (q, s'))
        × IsValid (s'.slabclass id)
        × (free_chunks (s'.slabclass id) ≡ rest)
        × ((j : ℕ) → j ≢ id → s'.slabclass j ≡ s.slabclass j)
        × (s'.heap ≡ s.heap)
        × (s'.mem_malloced ≡ s.mem_malloced)
  unfolding do_slabs_alloc
  do_slabs_alloc-pop size id s q rest k v e =
      let p = s.slabclass id in
      let (valid, popped) = taken-pops size p.slots p q rest v refl e in
      let new = taken size p.slots p in
      let here = update_self s.slabclass id new in
      (
        set_class id new s,
        rw (known id s k, busy p.slots p q rest v e)
            (take_chunk-taken p.slots size id s q rest v e),
        rw here valid,
        rw here popped,
        λ j ne. update_ne s.slabclass id j new ne,
        refl,
        refl,
      )

  pub do_slabs_free-push :
      (ptr size id : ℕ) (s : SlabAllocator)
      → Known id s
      → IsValid (s.slabclass id)
      → let s' = do_slabs_free ptr size id s in
        let p = s.slabclass id in
        let full = sl_curr p == p.sl_total in
        let new_size = if p.sl_total == 0 then 16 else p.sl_total * 2 % 2 ^ 32 in
        IsValid (s'.slabclass id)
        × (free_chunks (s'.slabclass id) ≡ (
            if full && env.malloc s.calls (sign_extend new_size * 8 % 2 ^ 64) == null
            then free_chunks p
            else ptr ∷ free_chunks p))
        × ((j : ℕ) → j ≢ id → s'.slabclass j ≡ s.slabclass j)
        × (s'.heap ≡ s.heap)
        × (s'.mem_malloced ≡ s.mem_malloced)
        × (s'.power_largest ≡ s.power_largest)
  unfolding do_slabs_free update
  do_slabs_free-push ptr size id s k v =
      rw (known id s k)
        (ground arith, ground arith, λ j ne. ground arith, ground arith, ground arith, ground arith)

  -- Where the free list has room, a chunk that was freed is the next one handed out, and the stack
  -- is as it was.
  pub free-alloc :
      (ptr size size' id : ℕ) (s : SlabAllocator)
      → Known id s
      → IsValid (s.slabclass id)
      → (sl_curr (s.slabclass id) == (s.slabclass id).sl_total) ≡ false
      → (s' : SlabAllocator) × (do_slabs_alloc size' id (do_slabs_free ptr size id s)
          ≡ some (ptr, s'))
        × (free_chunks (s'.slabclass id) ≡ free_chunks (s.slabclass id))
  free-alloc ptr size size' id s k v room =
      let (valid, pushed, _, _, _, top) = do_slabs_free-push ptr size id s k v in
      let freed = do_slabs_free ptr size id s in
      let (s', run, _, popped, _, _, _) =
        do_slabs_alloc-pop size' id freed ptr (free_chunks (s.slabclass id)) (rw top k) valid
          (pushed ∙ rw room refl) in
      (s', run, popped)
