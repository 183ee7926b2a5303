-- ===== src/Lru/Fetch.antt =====
-- do_item_get: the item that is found gets a reference more, and may go up its queue.
use memcached4chaos.Base.{ℕ, ◌+◌, ◌%◌, ◌^◌, ◌≡◌, ◌≢◌, ap, ◌∙◌, refl, arith, false, List, some, ◌==◌}
use memcached4chaos.System.{Ptr, null, Env, Item, update, update_self}
use memcached4chaos.Assoc.{assoc_find}
use memcached4chaos.Assoc.Find.{Chains, Stored}
use memcached4chaos.Lru.Monad.{LruLists, ◌>>=◌}
use memcached4chaos.Lru.Items.{do_item_update, do_item_get, find_item}
use memcached4chaos.Lru.Queue.Runs.{with_heap, change-ne}
use memcached4chaos.Lru.State.{IsCache, IsCache-frame, Agrees}
use memcached4chaos.Lru.Update.{Bumped}
use memcached4chaos.Lru.Get.{live, do_item_update-IsCache}

-- An item that differs at most in its time, its count and where it stands in its queue.
abbrev pub Touched : Item → Item → Type 0
Touched i j = j ≡ record i { next = j.next; prev = j.prev; time = j.time; refcount = j.refcount }

abbrev one_more : Item → Item
one_more i = record i { refcount = (i.refcount + 1) % 2 ^ 16 }

abbrev held : Ptr → LruLists → LruLists
held it s = with_heap (update s.slabs.heap it (one_more (s.slabs.heap it))) s

held-Touched :
    (it : Ptr) (s : LruLists) (x : Ptr) → Touched (s.slabs.heap x) ((held it s).slabs.heap x)
unfolding update
held-Touched it s x = ground arith

held-Agrees :
    (it : Ptr) (s : LruLists) (x : Ptr) → Agrees (s.slabs.heap x) ((held it s).slabs.heap x)
unfolding update
held-Agrees it s x = ground arith

Touched-trans : (i j k : Item) → Touched i j → Bumped j k → Touched i k
Touched-trans i j k e f = ground arith

module _ (fuel : ℕ) ⦃env : Env⦄ where
  get-run :
      (hv : ℕ) (key : List ℕ) (s s' : LruLists) (it : Ptr)
      → assoc_find fuel s.assoc s.slabs.heap hv key ≡ some it
      → it ≢ null
      → do_item_update fuel it (held it s) ≡ some (tt, s')
      → do_item_get fuel hv key s ≡ some (it, s')
  unfolding do_item_get find_item
  get-run hv key s s' it found some_it bump =
      let here : (it == null) ≡ false = ground arith in
      let set = change-ne it one_more s some_it in
      rw (do_item_get, find_item, ◌>>=◌, found, here, set, bump) refl

  -- A search that finds nothing changes nothing.
  pub do_item_get-null :
      (hv : ℕ) (key : List ℕ) (s : LruLists)
      → assoc_find fuel s.assoc s.slabs.heap hv key ≡ some null
      → do_item_get fuel hv key s ≡ some (null, s)
  unfolding do_item_get find_item
  do_item_get-null hv key s missing = rw (do_item_get, find_item, ◌>>=◌, missing) refl

  -- The item that is found has one reference more, and the cache is kept, with a queue reordered at
  -- most.
  pub do_item_get-IsCache :
      (hv : ℕ) (key : List ℕ) (s : LruLists) (chains : Chains) (queue : ℕ → List Ptr) (it : Ptr)
      → IsCache s chains queue
      → Stored s.assoc chains it
      → assoc_find fuel s.assoc s.slabs.heap hv key ≡ some it
      → (s' : LruLists) × (queue' : ℕ → List Ptr) × (do_item_get fuel hv key s ≡ some (it, s'))
        × IsCache s' chains queue'
        × ((x : Ptr) → Touched (s.slabs.heap x) (s'.slabs.heap x))
        × ((s'.slabs.heap it).refcount ≡ ((s.slabs.heap it).refcount + 1) % 2 ^ 16)
        × (s'.assoc ≡ s.assoc)
        × (s'.item_size_max ≡ s.item_size_max)
  do_item_get-IsCache hv key s chains queue it k i found =
      let t = held it s in
      let kept = held-IsCache it s chains queue k in
      let (s', queue', bump, cache, items, table, limit) =
        do_item_update-IsCache fuel t chains queue kept it i in
      let some_it = live fuel s chains queue k it i in
      (
        s',
        queue',
        get-run hv key s s' it found some_it bump,
        cache,
        λ x.
            Touched-trans (s.slabs.heap x) (t.slabs.heap x) (s'.slabs.heap x) (held-Touched it s x)
              (items x),
        ap (λ (j : Item). j.refcount) (items it)
            ∙ ap (λ (j : Item). j.refcount)
                (update_self s.slabs.heap it (one_more (s.slabs.heap it))),
        table,
        limit,
      )
    where
      held-IsCache :
          (it : Ptr) (s : LruLists) (chains : Chains) (queue : ℕ → List Ptr)
          → IsCache s chains queue
          → IsCache (held it s) chains queue
      held-IsCache it s chains queue k =
          IsCache-frame s (held it s).slabs s.ticks chains queue (λ x j. held-Agrees it s x) k
