-- ===== src/Lru/Unlink.antt =====
-- do_item_unlink: an item leaves the table and its queue, and is freed if nobody holds it.
use memcached4chaos.Base.{
  ℕ, ◌<◌, ◌≤◌, length-le, ◌≡◌, ◌≢◌, ap, ◌∙◌, sym, refl, arith, true, false, not, ◌&&◌, Bool-cases,
  inl, inr, List, ◌∷◌, ◌++◌, has, has-split, length, some, ◌==◌, if◌then◌else◌,
}
use mathlib.Core.Path.{subst}
use memcached4chaos.System.{Ptr, null, Env, Heap, Item, update, update_self, update_ne}
use memcached4chaos.Assoc.{AssociativeArray, home, matches, assoc_delete}
use memcached4chaos.Assoc.Chain.{search_chain, search_chain-found, search_chain-null}
use memcached4chaos.Assoc.Find.{Chains, Holds, Stored}
use memcached4chaos.Assoc.Delete.{assoc_delete-Holds}
use memcached4chaos.Assoc.Items.{Rechained, assoc_delete-Rechained}
use memcached4chaos.Lru.Monad.{LruLists, ◌>>=◌, prefix, on_assoc, pure}
use memcached4chaos.Lru.Items.{do_item_unlink, item_free}
use memcached4chaos.Lru.Queue.{item_unlink_q}
use memcached4chaos.Lru.Queue.Runs.{clsid, with_heap, load-ne, change-ne}
use memcached4chaos.Lru.Queue.Linked.{Linked-ne_null}
use memcached4chaos.Lru.Queue.Lists.{IsQueue, Others, frame-IsQueue}
use memcached4chaos.Lru.Queue.Removal.{item_unlink_q-IsQueue}
use memcached4chaos.Lru.State.{IsCache, Holds-frame, Fits-self, SameKey}
use memcached4chaos.Lru.Joined.{Relinked}
use memcached4chaos.Lru.Parted.{parted-Stored, other-Stored, parted-IsCache}
use memcached4chaos.Lru.Link.{with_assoc, Relinked-trans}
use memcached4chaos.Lru.Release.{
  SameCount, IsFreed, freed-IsFreed, freed, freed-other, item_free-freed, freed-IsCache,
}

abbrev unlinked : Ptr → LruLists → LruLists
unlinked it s = with_heap (update s.slabs.heap it (record (s.slabs.heap it) { linked = false })) s

module _ (fuel : ℕ) ⦃env : Env⦄ where
  unlink-run :
      (it : Ptr) (s s3 : LruLists) (a : AssociativeArray) (h : Heap)
      → it ≢ null
      → (s.slabs.heap it).linked ≡ true
      → assoc_delete fuel
          (s.slabs.heap it).hv
          (prefix (s.slabs.heap it).nkey (s.slabs.heap it).body)
          s.assoc
          (unlinked it s).slabs.heap
        ≡ some (a, h)
      → item_unlink_q it (with_assoc a h (unlinked it s)) ≡ some (tt, s3)
      → do_item_unlink fuel it s
        ≡ (if (s.slabs.heap it).refcount == 0 then item_free fuel it else pure tt) s3
  unfolding do_item_unlink
  unlink-run it s s3 a h live linked delete unlink =
      let opened = load-ne it s live in
      let set = change-ne it (λ (i : Item). record i { linked = false }) s live in
      rw (do_item_unlink, ◌>>=◌, opened, linked, set, on_assoc, delete, unlink) refl

module _ (s : LruLists) (chains : Chains) (queue : ℕ → List Ptr) (k : IsCache s chains queue)
    (it : Ptr) (i : Stored s.assoc chains it) where
  h1 : Heap
  h1 = (unlinked it s).slabs.heap

  key_1 : (x : Ptr) → SameKey (s.slabs.heap x) (h1 x)
  unfolding h1 update
  key_1 x = ground arith

  pub Holds_1 : Holds s.assoc (unlinked it s).slabs.heap chains
  unfolding update
  Holds_1 =
      Holds-frame s.assoc s.slabs.heap (unlinked it s).slabs.heap chains (λ x j. ground arith)
        k.table

  pub live : it ≢ null
  live =
      let (_, _, _, j) = k.stored it i in
      let id = clsid it s in
      Linked-ne_null s.slabs.heap null (s.heads id) (queue id) it (k.queues id).linked j

  in_home : has it (chains (home s.assoc (s.slabs.heap it).hv)) ≡ true
  in_home = let (v, j) = i in rw (k.table.placed v it j) j

  -- The search under its own key finds the item, since no other fits that key.
  pub finds_it :
      let key = prefix (s.slabs.heap it).nkey (s.slabs.heap it).body in
      let hv = (s.slabs.heap it).hv in
      search_chain (unlinked it s).slabs.heap hv key (chains (home s.assoc hv)) ≡ it
  unfolding h1
  finds_it =
      let key = prefix (s.slabs.heap it).nkey (s.slabs.heap it).body in
      let hv = (s.slabs.heap it).hv in
      let xs = chains (home s.assoc hv) in
      let x = search_chain h1 hv key xs in
      elim (Bool-cases (x == null)) [
        | inl missing ↦
            let away : matches hv key (h1 it) ≡ false =
              search_chain-null h1 hv key _ xs (Holds_1.chain hv) (ground arith) it in_home in
            let (e, _, g) = key_1 it in
            let here : matches hv key (h1 it) ≡ true = rw (e, g) (Fits-self (s.slabs.heap it)) in cc
        | inr found ↦
            let (j, fits) = search_chain-found h1 hv key _ xs (Holds_1.chain hv) (ground arith) in
            let (e, _, g) = key_1 x in k.keys it x i (hv, j) (rw (e, g) at fits)
      ]

-- The cache with an item less.
pub record Parts (s : LruLists) (chains : Chains) (it : Ptr) (s' : LruLists) (chains' : Chains)
    (queue' : ℕ → List Ptr) : Type 0 where
  pub cache : IsCache s' chains' queue'
  pub keeps : (x : Ptr) → Stored s.assoc chains x → x ≢ it → Stored s'.assoc chains' x
  pub adds_none : (x : Ptr) → Stored s'.assoc chains' x → Stored s.assoc chains x × (x ≢ it)
  pub items : (x : Ptr) → x ≢ it → Relinked (s.slabs.heap x) (s'.slabs.heap x)
  pub shorter : (v : ℕ) → length (chains' (home s'.assoc v)) ≤ length (chains (home s.assoc v))
  pub limit : s'.item_size_max ≡ s.item_size_max

same_ends :
    (it : Ptr) (s : LruLists) (y : Ptr) (j : Item)
    → Rechained ((unlinked it s).slabs.heap y) j
    → (j.prev ≡ (s.slabs.heap y).prev) × (j.next ≡ (s.slabs.heap y).next)
unfolding update
same_ends it s y j e = (ground arith, ground arith)

-- An item of the cache leaves it, up to the question whether it is freed.
module _ (fuel : ℕ) ⦃env : Env⦄ (s : LruLists) (chains : Chains) (queue : ℕ → List Ptr)
    (k : IsCache s chains queue) (it : Ptr) (i : Stored s.assoc chains it) where
  parted :
      length (chains (home s.assoc (s.slabs.heap it).hv)) < fuel
      → (s3 : LruLists) × (chains' : Chains) × (queue' : ℕ → List Ptr) × (do_item_unlink fuel it s
          ≡ (if (s.slabs.heap it).refcount == 0 then item_free fuel it else pure tt) s3)
        × Parts s chains it s3 chains' queue'
        × ((s3.slabs.heap it).linked ≡ false)
        × ((s3.slabs.heap it).refcount ≡ (s.slabs.heap it).refcount)
        × SameCount (s.slabs.heap it) (s3.slabs.heap it)
        × (s3.slabs ≡ record s.slabs { heap = s3.slabs.heap })
  parted enough =
      let hv = (s.slabs.heap it).hv in
      let key = prefix (s.slabs.heap it).nkey (s.slabs.heap it).body in
      let s1 = unlinked it s in
      let (linked, whole, small, queued) = k.stored it i in
      let some_it = live s chains queue k it i in
      let finds = finds_it s chains queue k it i in
      let (a, h, chains', delete, t, homes, left) =
        assoc_delete-Holds fuel hv key s.assoc s1.slabs.heap chains (Holds_1 s chains queue k it i)
          (λ e. some_it (sym finds ∙ e)) enough in
      let rechained = assoc_delete-Rechained fuel hv key s.assoc a s1.slabs.heap h delete in
      let s2 = with_assoc a h s1 in
      let id = clsid it s in
      let out = record (s.slabs.heap it) { linked = false } in
      let it_1 = update_self s.slabs.heap it out in
      let class : clsid it s2 ≡ id =
        ap (λ (j : Item). j.slabs_clsid) (rechained it) ∙ ap (λ (j : Item). j.slabs_clsid) it_1 in
      let queues = λ (c : ℕ).
        frame-IsQueue s s2 c (queue c) (refl, refl, refl)
          (λ y j. same_ends it s y (h y) (rechained y)) (k.queues c) in
      let (xs, ys, split) = has-split it (queue id) queued in
      let (s3, unlink, rest, o) =
        item_unlink_q-IsQueue it s2 xs ys (rw (class, ← split) (queues id)) (rw class small) in
      let rest' = subst (λ (c : ℕ). IsQueue s3 c (xs ++ ys)) class rest in
      let o' = subst (λ (c : ℕ). Others c (xs ++ it ∷ ys) s2 s3) class o in
      let left' = λ (v : ℕ) (y : Ptr).
        left v y ∙ ap (λ (p : Ptr). has y (chains (home s.assoc v)) && not (y == p)) finds in
      let items = λ (x : Ptr) (ne : x ≢ it).
        Relinked-trans (s.slabs.heap x) (s1.slabs.heap x) (h x) (s3.slabs.heap x)
          (update_ne s.slabs.heap it x out ne) (rechained x) (o.items x) in
      (
        s3,
        chains',
        update queue id (xs ++ ys),
        unlink-run fuel it s s3 a h some_it linked delete unlink,
        record {
          cache =
              parted-IsCache s s2 s3 chains chains' queue it id xs ys k split t queues rest' o'
                homes left' items;
          keeps =
              other-Stored s s2 s3 chains chains' queue it id xs ys k split t queues rest' o' homes
                left' items;
          adds_none =
              parted-Stored s s2 s3 chains chains' queue it id xs ys k split t queues rest' o' homes
                left' items;
          items = items;
          shorter = λ v. rw (ap (λ (r : LruLists). r.assoc) o.rest) (
              length-le (chains' (home a v)) (chains (home s.assoc v)) (t.distinct v) (λ y j.
                let f : has y (chains' (home s.assoc v)) ≡ true = rw (homes v) at j in
                ground (arith, left' v y)));
          limit = ap (λ (r : LruLists). r.item_size_max) o.rest;
        },
        ap (λ (j : Item). j.linked) (o.items it)
            ∙ ap (λ (j : Item). j.linked) (rechained it)
            ∙ ap (λ (j : Item). j.linked) it_1,
        ap (λ (j : Item). j.refcount) (o.items it)
            ∙ ap (λ (j : Item). j.refcount) (rechained it)
            ∙ ap (λ (j : Item). j.refcount) it_1,
        (
          ap (λ (j : Item). j.nkey) (o.items it)
              ∙ ap (λ (j : Item). j.nkey) (rechained it)
              ∙ ap (λ (j : Item). j.nkey) it_1,
          ap (λ (j : Item). j.nbytes) (o.items it)
              ∙ ap (λ (j : Item). j.nbytes) (rechained it)
              ∙ ap (λ (j : Item). j.nbytes) it_1,
          ap (λ (j : Item). j.slabs_clsid) (o.items it)
              ∙ ap (λ (j : Item). j.slabs_clsid) (rechained it)
              ∙ ap (λ (j : Item). j.slabs_clsid) it_1,
        ),
        ap (λ (r : LruLists). r.slabs) o.rest,
      )

-- Unlinking an item of the cache succeeds: it is in the table and the queues no more, and all others
-- are. Where somebody holds it, its count is as it was; where nobody does, its chunk is given back to
-- the allocator.
pub do_item_unlink-Parts :
    (fuel : ℕ) ⦃env : Env⦄ (s : LruLists) (chains : Chains) (queue : ℕ → List Ptr) (it : Ptr)
    → IsCache s chains queue
    → Stored s.assoc chains it
    → length (chains (home s.assoc (s.slabs.heap it).hv)) < fuel
    → (s' : LruLists) × (chains' : Chains) × (queue' : ℕ → List Ptr) × (do_item_unlink fuel it s
        ≡ some (tt, s'))
      × Parts s chains it s' chains' queue'
      × ((s.slabs.heap it).refcount ≢ 0
          → ((s'.slabs.heap it).linked ≡ false)
            × ((s'.slabs.heap it).refcount ≡ (s.slabs.heap it).refcount))
      × ((s.slabs.heap it).refcount ≡ 0 → IsFreed it s s')
do_item_unlink-Parts fuel s chains queue it k i enough =
    let (s3, chains', queue', run, p, unlinked_it, count, counts, slabs) =
      parted fuel s chains queue k it i enough in
    let some_it = live s chains queue k it i in
    let outside = λ (j : Stored s3.assoc chains' it). (p.adds_none it j).1 refl in
    elim (Bool-cases ((s.slabs.heap it).refcount == 0)) [
      | inr held ↦ (
        s3,
        chains',
        queue',
        run ∙ rw held refl,
        p,
        λ ne. (unlinked_it, count),
        λ e. absurd (ground arith),
      )
      | inl unheld ↦
          let free =
            item_free-freed fuel s3 chains' queue' p.cache it some_it outside unlinked_it
              (ground (arith, count)) in
          (
            freed it s3,
            chains',
            queue',
            run ∙ rw unheld free,
            record {
              cache = freed-IsCache fuel s3 chains' queue' p.cache it some_it outside;
              keeps = p.keeps;
              adds_none = p.adds_none;
              items = λ x ne.
                  Relinked-same (s.slabs.heap x) (s3.slabs.heap x) ((freed it s3).slabs.heap x)
                    (p.items x ne) (freed-other it s3 x ne);
              shorter = p.shorter;
              limit = p.limit;
            },
            λ ne. absurd (ne (ground arith)),
            λ e. freed-IsFreed it s s3 counts slabs,
          )
    ]
  where
    Relinked-same : (i j l : Item) → Relinked i j → l ≡ j → Relinked i l
    Relinked-same i j l e f = subst (λ (m : Item). Relinked i m) (sym f) e
