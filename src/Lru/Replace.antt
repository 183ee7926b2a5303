-- ===== src/Lru/Replace.antt =====
-- do_store_item under a key that an item has: the new item takes its place.
use memcached4chaos.Base.{
  ℕ, ◌+◌, ◌%◌, ◌^◌, ◌<◌, ◌≡◌, ◌≢◌, ap, ◌∙◌, sym, arith, false, inl, inr, List, ◌∷◌, length, some,
}
use mathlib.Core.Path.{subst}
use memcached4chaos.System.{Ptr, null, Env, Item, update}
use memcached4chaos.Slabs.{power_largest_max}
use memcached4chaos.Assoc.{home}
use memcached4chaos.Assoc.Find.{Chains, Stored, assoc_find_complete}
use memcached4chaos.Lru.Monad.{LruLists, prefix}
use memcached4chaos.Lru.Items.{do_store_item}
use memcached4chaos.Lru.Queue.Runs.{clsid}
use memcached4chaos.Lru.State.{IsCache, Fits, Fits-same, Fits-join, SameKey}
use memcached4chaos.Lru.Joined.{MayJoin, Relinked, LinkedUp}
use memcached4chaos.Lru.Link.{Joins, do_item_link-Joins}
use memcached4chaos.Lru.Unlink.{Parts, do_item_unlink-Parts}
use memcached4chaos.Lru.Release.{do_item_release-IsCache}
use memcached4chaos.Lru.Fetch.{Touched, do_item_get-IsCache}
use memcached4chaos.Lru.Store.{Stays, MayStore, Stores, store-over, do_store_item-new}

Stays-relinked : (i j k : Item) → Touched i j → Relinked j k → Stays i k
Stays-relinked i j k e f = ground arith

Stays-key : (i j : Item) → Stays i j → SameKey i j
Stays-key i j e =
    (ap (λ (k : Item). k.hv) e, ap (λ (k : Item). k.nkey) e, ap (λ (k : Item). k.body) e)

Stays-through : (i j k l : Item) → Stays i j → Relinked j k → l ≡ k → Stays i l
Stays-through i j k l e f g = ground arith

Stays-up : (i j k l : Item) → Stays i j → LinkedUp j k → l ≡ k → Stays i l
Stays-up i j k l e f g = ground arith

-- After the old item has been found and taken out: the new one may join.
module _ (s s1 s2 : LruLists) (chains chains2 : Chains) (queue queue2 : ℕ → List Ptr) (it old : Ptr)
    (k : IsCache s chains queue) (m : MayStore s chains it) (had : Stored s.assoc chains old)
    (same_key : Fits (s.slabs.heap it) (s.slabs.heap old))
    (touched : (x : Ptr) → Touched (s.slabs.heap x) (s1.slabs.heap x)) (table : s1.assoc ≡ s.assoc)
    (p : Parts s1 chains old s2 chains2 queue2) where
  it-ne-old : it ≢ old
  it-ne-old e = m.outside (subst (λ y. Stored s.assoc chains y) (sym e) had)

  stays : (x : Ptr) → x ≢ old → Stays (s.slabs.heap x) (s2.slabs.heap x)
  stays x ne =
      Stays-relinked (s.slabs.heap x) (s1.slabs.heap x) (s2.slabs.heap x) (touched x) (p.items x ne)

  before : (x : Ptr) → Stored s2.assoc chains2 x → Stored s.assoc chains x × (x ≢ old)
  before x i = let (j, ne) = p.adds_none x i in (rw table at j, ne)

  -- Only the old item has the key.
  only_old : (x : Ptr) → Stored s.assoc chains x → Fits (s.slabs.heap it) (s.slabs.heap x) → x ≡ old
  only_old x i f =
      let size = m.sizes old had (Fits-hv (s.slabs.heap it) (s.slabs.heap old) same_key) in
      k.keys old x had i
        (Fits-join (s.slabs.heap it) (s.slabs.heap old) (s.slabs.heap x) size same_key f)
    where
      Fits-hv : (i j : Item) → Fits i j → j.hv ≡ i.hv
      Fits-hv i j f = ground arith

  may_join : MayJoin s2 chains2 it
  may_join =
      let keep = stays it it-ne-old in
      record {
        outside = λ i. m.outside (before it i).0;
        whole = ap (λ (j : Item). j.slabbed) keep ∙ m.whole;
        small =
            subst (λ c. c < power_largest_max) (sym (ap (λ (j : Item). j.slabs_clsid) keep))
              m.small;
        absent = λ x i f.
            let (j, ne) = before x i in
            ne (
              only_old x j (
                Fits-same (s.slabs.heap it) (s2.slabs.heap it) (s.slabs.heap x) (s2.slabs.heap x)
                  (Stays-key (s.slabs.heap it) (s2.slabs.heap it) keep)
                  (Stays-key (s.slabs.heap x) (s2.slabs.heap x) (stays x ne)) f));
        sizes = λ x i e.
            let (j, ne) = before x i in
            let (e_x, n_x, _) = Stays-key (s.slabs.heap x) (s2.slabs.heap x) (stays x ne) in
            let (e_it, n_it, _) = Stays-key (s.slabs.heap it) (s2.slabs.heap it) keep in
            n_x ∙ m.sizes x j (sym e_x ∙ e ∙ e_it) ∙ sym n_it;
      }

  unlinked_it : (s2.slabs.heap it).linked ≡ false
  unlinked_it =
      ap (λ (j : Item). j.linked) (p.items it it-ne-old)
      ∙ ap (λ (j : Item). j.linked) (touched it)
      ∙ m.unlinked

  small_it : s1.item_size_max ≡ s.item_size_max → (s2.slabs.heap it).nbytes < s2.item_size_max
  small_it limit = rw (ap (λ (j : Item). j.nbytes) (stays it it-ne-old), p.limit, limit) m.fits

  enough_it :
      (fuel : ℕ)
      → length (chains (home s.assoc (s.slabs.heap it).hv)) < fuel
      → length (chains2 (home s2.assoc (s2.slabs.heap it).hv)) < fuel
  enough_it fuel enough =
      let hv : (s2.slabs.heap it).hv ≡ (s.slabs.heap it).hv =
        ap (λ (j : Item). j.hv) (stays it it-ne-old) in
      let less = rw table at (p.shorter (s.slabs.heap it).hv) in rw hv (omega (arith, less, enough))

  -- Then the new item is linked and the old one released.
  module _ (s3 s4 : LruLists) (chains3 : Chains) (queue4 : ℕ → List Ptr)
      (j : Joins s2 chains2 queue2 it s3 chains3) (cache : IsCache s4 chains3 queue4)
      (others : (x : Ptr) → x ≢ old → s4.slabs.heap x ≡ s3.slabs.heap x)
      (table4 : s4.assoc ≡ s3.assoc) where
    after-stays : (x : Ptr) → Stored s4.assoc chains3 x → Stays (s.slabs.heap x) (s4.slabs.heap x)
    after-stays x i = elim (j.adds_none x (rw table4 at i)) [
      | inl e ↦ rw e (
          Stays-up (s.slabs.heap it) (s2.slabs.heap it) (s3.slabs.heap it) (s4.slabs.heap it)
            (stays it it-ne-old) j.item (others it it-ne-old))
      | inr in_2 ↦
          let (stored, ne) = before x in_2 in
          let x_it = λ (e : x ≡ it). m.outside (subst (λ y. Stored s.assoc chains y) e stored) in
          Stays-through (s.slabs.heap x) (s2.slabs.heap x) (s3.slabs.heap x) (s4.slabs.heap x)
            (stays x ne) (j.items x x_it) (others x ne)
    ]

    over-Stores : Stores s chains it s4 chains3 queue4
    over-Stores = record {
      cache = cache;
      holds = rw table4 j.holds;
      keeps = λ x i other.
          let ne = λ (e : x ≡ old).
            other (subst (λ y. Fits (s.slabs.heap it) (s.slabs.heap y)) (sym e) same_key) in
          rw table4 (j.keeps x (p.keeps x (rw table i) ne));
      adds_none = λ x i. elim (j.adds_none x (rw table4 at i)) [
        | inl e ↦ inl e
        | inr in_2 ↦ let (stored, ne) = before x in_2 in inr (stored, λ f. ne (only_old x stored f))
      ];
      longer = λ v.
          let less = rw table at (p.shorter v) in
          let more = j.longer v in rw table4 (omega (arith, less, more));
      items = after-stays;
    }

-- Storing an item that is new, where keys with its hash value have its length and no count is about
-- to overflow, succeeds: the cache has it under its key, in place of an item that had the key, and
-- every other item as it was.
pub do_store_item-Stores :
    (fuel : ℕ) ⦃env : Env⦄ (s : LruLists) (chains : Chains) (queue : ℕ → List Ptr) (it : Ptr)
    → IsCache s chains queue
    → MayStore s chains it
    → it ≢ null
    → length (chains (home s.assoc (s.slabs.heap it).hv)) < fuel
    → ((x : Ptr) → Stored s.assoc chains x → ((s.slabs.heap x).refcount + 1) % 2 ^ 16 ≢ 0)
    → (s' : LruLists) × (chains' : Chains) × (queue' : ℕ → List Ptr) × (do_store_item fuel it s
        ≡ some (tt, s'))
      × Stores s chains it s' chains' queue'
do_store_item-Stores fuel s chains queue it k m live enough counts =
    let hv = (s.slabs.heap it).hv in
    let key = prefix (s.slabs.heap it).nkey (s.slabs.heap it).body in
    let (old, found, what) =
      assoc_find_complete fuel s.assoc s.slabs.heap chains hv key k.table enough in
    elim what [
      | inl (missing, absent) ↦
          do_store_item-new fuel s chains queue it k m live enough (rw missing at found) absent
      | inr (some_old, had, same_hv, same) ↦
          let fits : Fits (s.slabs.heap it) (s.slabs.heap old) = ground arith in
          let (s1, queue1, get, k1, touched, count, table, limit) =
            do_item_get-IsCache fuel hv key s chains queue old k had found in
          let hv_old : (s1.slabs.heap old).hv ≡ hv =
            ap (λ (j : Item). j.hv) (touched old) ∙ same_hv in
          let (s2, chains2, queue2, unlink, p, _, _) =
            do_item_unlink-Parts fuel s1 chains queue1 old k1 (rw table had)
              (rw (table, hv_old) enough) in
          let whole = (k1.stored old (rw table had)).1 in
          let join =
            may_join s s1 s2 chains chains2 queue queue2 it old k m had fits touched table p in
          let (s3, chains3, link, j) =
            do_item_link-Joins fuel it s2 chains2 queue2 p.cache join live
              (unlinked_it s s1 s2 chains chains2 queue queue2 it old k m had fits touched table p)
              (small_it s s1 s2 chains chains2 queue queue2 it old k m had fits touched table p
                limit)
              (enough_it s s1 s2 chains chains2 queue queue2 it old k m had fits touched table p
                fuel enough) in
          let queue4 = update queue2 (clsid it s2) (it ∷ queue2 (clsid it s2)) in
          let (s4, release, cache, others, table4, _) =
            do_item_release-IsCache fuel s3 chains3 queue4 old j.cache some_old in
          (
            s4,
            chains3,
            queue4,
            store-over fuel it old s s1 s2 s3 s4 live some_old get whole unlink link release,
            over-Stores s s1 s2 chains chains2 queue queue2 it old k m had fits touched table p s3
                s4 chains3 queue4 j cache others table4,
          )
    ]
