-- ===== src/Lru/Release.antt =====
-- item_free and do_item_release: an item that nobody holds and that is not in the cache goes back to
-- the allocator.
use memcached4chaos.Base.{
  ℕ, ◌+◌, ◌-◌, ◌≡◌, ◌≢◌, ap, ◌∙◌, refl, arith, true, false, not, ◌&&◌, Bool-cases, inl, inr, List,
  has, ◌==◌, if◌then◌else◌, some,
}
use mathlib.Core.Path.{subst}
use memcached4chaos.System.{
  Ptr, null, Env, Item, Heap, update, update_self, update_ne, sizeof_hash_item,
}
use memcached4chaos.Slabs.{SlabAllocator, do_slabs_free}
use memcached4chaos.Assoc.Find.{Chains, Stored}
use memcached4chaos.Lru.Monad.{LruLists, ◌>>=◌}
use memcached4chaos.Lru.Items.{item_free, do_item_release}
use memcached4chaos.Lru.Queue.Runs.{clsid, with_heap, load-ne, change-ne, assert-true}
use memcached4chaos.Lru.Queue.Linked.{Linked-head, ne-first_of}
use memcached4chaos.Lru.Queue.Removal.{ne-last_of}
use memcached4chaos.Lru.State.{IsCache, IsCache-frame, Agrees-refl}

abbrev give_up : Item → Item
give_up i = record i { slabs_clsid = 0; slabbed = true }

-- what do_item_release leaves of an item
abbrev less_one : Item → Item
less_one i = record i { refcount = if i.refcount == 0 then 0 else i.refcount - 1 }

-- What item_free reads of an item.
abbrev pub SameCount : Item → Item → Type 0
SameCount i j = (j.nkey ≡ i.nkey) × (j.nbytes ≡ i.nbytes) × (j.slabs_clsid ≡ i.slabs_clsid)

module _ ⦃env : Env⦄ where
  do_slabs_free-heap :
      (p : Ptr) (size id : ℕ) (a : SlabAllocator) → (do_slabs_free p size id a).heap ≡ a.heap
  unfolding do_slabs_free
  do_slabs_free-heap p size id a = ground arith

  -- The allocator's part of it does not read the items.
  do_slabs_free-slabclass :
      (p : Ptr) (size id : ℕ) (a : SlabAllocator) (h : Heap)
      → (do_slabs_free p size id (record a { heap = h })).slabclass
        ≡ (do_slabs_free p size id a).slabclass
  unfolding do_slabs_free
  do_slabs_free-slabclass p size id a h = ground arith

  abbrev pub freed : Ptr → LruLists → LruLists
  freed it s =
      let i = s.slabs.heap it in
      let t = with_heap (update s.slabs.heap it (give_up i)) s in
      record s {
        slabs = do_slabs_free it (sizeof_hash_item + i.nkey + i.nbytes) i.slabs_clsid t.slabs;
      }

  -- An item that was given back: it says so, and the allocator has its chunk.
  abbrev pub IsFreed : Ptr → LruLists → LruLists → Type 0
  IsFreed it s s' =
      let i = s.slabs.heap it in
      ((s'.slabs.heap it).slabbed ≡ true)
      × ((s'.slabs.heap it).slabs_clsid ≡ 0)
      × (s'.slabs.slabclass
          ≡ (do_slabs_free it (sizeof_hash_item + i.nkey + i.nbytes) i.slabs_clsid
              s.slabs).slabclass)

  pub freed-IsFreed :
      (it : Ptr) (s s' : LruLists)
      → SameCount (s.slabs.heap it) (s'.slabs.heap it)
      → s'.slabs ≡ record s.slabs { heap = s'.slabs.heap }
      → IsFreed it s (freed it s')
  freed-IsFreed it s s' (nkey, nbytes, class) same =
      let i = s'.slabs.heap it in
      let h = update s'.slabs.heap it (give_up i) in
      let size = sizeof_hash_item + i.nkey + i.nbytes in
      let here =
        ap (λ (g : Heap). g it) (do_slabs_free-heap it size i.slabs_clsid (with_heap h s').slabs)
        ∙ update_self s'.slabs.heap it (give_up i) in
      (
        ap (λ (j : Item). j.slabbed) here,
        ap (λ (j : Item). j.slabs_clsid) here,
        do_slabs_free-slabclass it size i.slabs_clsid s'.slabs h
            ∙ rw (nkey, nbytes, class, same)
                (do_slabs_free-slabclass it
                  (sizeof_hash_item + (s.slabs.heap it).nkey + (s.slabs.heap it).nbytes)
                  (s.slabs.heap it).slabs_clsid s.slabs s'.slabs.heap),
      )

  pub freed-other :
      (it : Ptr) (s : LruLists) (x : Ptr) → x ≢ it → (freed it s).slabs.heap x ≡ s.slabs.heap x
  freed-other it s x ne =
      let i = s.slabs.heap it in
      let h = update s.slabs.heap it (give_up i) in
      ap (λ (g : Ptr → Item). g x)
        (do_slabs_free-heap it (sizeof_hash_item + i.nkey + i.nbytes) i.slabs_clsid
          (with_heap h s).slabs)
      ∙ update_ne s.slabs.heap it x (give_up i) ne

module _ (s : LruLists) (chains : Chains) (queue : ℕ → List Ptr) (k : IsCache s chains queue)
    (it : Ptr) (live : it ≢ null) (outside : Stored s.assoc chains it → ⊥) where
  pub not_queued : (c : ℕ) → has it (queue c) ≡ false
  not_queued c = elim (Bool-cases (has it (queue c))) [
    | inl i ↦ absurd (outside (k.queued c it i).0)
    | inr e ↦ e
  ]

  pub not_head : (c : ℕ) → it ≢ s.heads c
  not_head c e =
      ne-first_of it (queue c) (not_queued c) live
        (e ∙ Linked-head s.slabs.heap null (s.heads c) (queue c) (k.queues c).linked)

  not_tail : (c : ℕ) → it ≢ s.tails c
  not_tail c e = ne-last_of it (queue c) (not_queued c) live (e ∙ (k.queues c).last)

module _ (fuel : ℕ) ⦃env : Env⦄ (s : LruLists) (chains : Chains) (queue : ℕ → List Ptr)
    (k : IsCache s chains queue) (it : Ptr) (live : it ≢ null) where
  -- An item outside the cache that nobody holds can be freed.
  pub item_free-freed :
      (Stored s.assoc chains it → ⊥)
      → (s.slabs.heap it).linked ≡ false
      → (s.slabs.heap it).refcount ≡ 0
      → item_free fuel it s ≡ some (tt, freed it s)
  unfolding item_free
  item_free-freed outside unlinked unheld =
      let opened = load-ne it s live in
      let id = clsid it s in
      let a2 =
        assert-true (not (it == s.heads id)) s
          (ground (arith, not_head s chains queue k it live outside id)) in
      let a3 =
        assert-true (not (it == s.tails id)) s
          (ground (arith, not_tail s chains queue k it live outside id)) in
      let set = change-ne it give_up s live in
      let a1 = assert-true (not (s.slabs.heap it).linked) s (ground arith) in
      let a4 = assert-true ((s.slabs.heap it).refcount == 0) s (ground arith) in
      rw (item_free, ◌>>=◌, opened, a1, a2, a3, a4, set) refl

  pub freed-IsCache : (Stored s.assoc chains it → ⊥) → IsCache (freed it s) chains queue
  freed-IsCache outside =
      IsCache-frame s (freed it s).slabs s.ticks chains queue
        (λ x i.
          Agrees-refl (s.slabs.heap x) ((freed it s).slabs.heap x)
            (freed-other it s x (λ e. outside (subst (λ y. Stored s.assoc chains y) e i))))
        k

  abbrev dropped : LruLists
  dropped = with_heap (update s.slabs.heap it (less_one (s.slabs.heap it))) s

  dropped-IsCache : IsCache dropped chains queue
  unfolding update
  dropped-IsCache = IsCache-frame s dropped.slabs s.ticks chains queue (λ x i. ground arith) k

  dropped_it : dropped.slabs.heap it ≡ less_one (s.slabs.heap it)
  dropped_it = update_self s.slabs.heap it (less_one (s.slabs.heap it))

  dropped_other : (x : Ptr) → x ≢ it → dropped.slabs.heap x ≡ s.slabs.heap x
  dropped_other x ne = update_ne s.slabs.heap it x (less_one (s.slabs.heap it)) ne

  release-keep :
      ((less_one (s.slabs.heap it)).refcount == 0 && not (s.slabs.heap it).linked) ≡ false
      → do_item_release fuel it s ≡ some (tt, dropped)
  unfolding do_item_release
  release-keep used =
      let opened = load-ne it s live in
      let set =
        change-ne it (λ (i : Item). record i { refcount = (less_one (s.slabs.heap it)).refcount }) s
          live in
      rw (do_item_release, ◌>>=◌, opened, set, used) refl

  release-free :
      ((less_one (s.slabs.heap it)).refcount == 0 && not (s.slabs.heap it).linked) ≡ true
      → item_free fuel it dropped ≡ some (tt, freed it dropped)
      → do_item_release fuel it s ≡ some (tt, freed it dropped)
  unfolding do_item_release
  release-free unused free =
      let opened = load-ne it s live in
      let set =
        change-ne it (λ (i : Item). record i { refcount = (less_one (s.slabs.heap it)).refcount }) s
          live in
      rw (do_item_release, ◌>>=◌, opened, set, unused) free

  unlinked_outside : (s.slabs.heap it).linked ≡ false → Stored s.assoc chains it → ⊥
  unlinked_outside e i = let f = (k.stored it i).0 in cc

-- Giving back a reference always succeeds and leaves the table and the queues as they are, whether
-- the item is freed or not.
pub do_item_release-IsCache :
    (fuel : ℕ) ⦃env : Env⦄ (s : LruLists) (chains : Chains) (queue : ℕ → List Ptr) (it : Ptr)
    → IsCache s chains queue
    → it ≢ null
    → (s' : LruLists) × (do_item_release fuel it s ≡ some (tt, s'))
      × IsCache s' chains queue
      × ((x : Ptr) → x ≢ it → s'.slabs.heap x ≡ s.slabs.heap x)
      × (s'.assoc ≡ s.assoc)
      × (s'.ticks ≡ s.ticks)
do_item_release-IsCache fuel s chains queue it k live =
    let d = dropped fuel s chains queue k it live in
    let kept = dropped-IsCache fuel s chains queue k it live in
    let others = dropped_other fuel s chains queue k it live in
    elim (Bool-cases ((less_one (s.slabs.heap it)).refcount == 0 && not (s.slabs.heap it).linked)) [
      | inl unused ↦
          let at = dropped_it fuel s chains queue k it live in
          let outside = unlinked_outside fuel s chains queue k it live (ground arith) in
          let free =
            item_free-freed fuel d chains queue kept it live outside
              (ap (λ (j : Item). j.linked) at ∙ ground arith)
              (ap (λ (j : Item). j.refcount) at ∙ ground arith) in
          (
            freed it d,
            release-free fuel s chains queue k it live unused free,
            freed-IsCache fuel d chains queue kept it live outside,
            λ x ne. freed-other it d x ne ∙ others x ne,
            refl,
            refl,
          )
      | inr used ↦ (d, release-keep fuel s chains queue k it live used, kept, others, refl, refl)
    ]
