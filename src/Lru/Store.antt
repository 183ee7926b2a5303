-- ===== src/Lru/Store.antt =====
-- do_store_item: an item comes into the cache under its key, in place of the one that had it.
use memcached4chaos.Base.{
  ℕ, ◌+◌, ◌<◌, ◌≤◌, ◌≡◌, ◌≢◌, ◌⊎◌, refl, arith, false, inl, inr, List, length, some, ◌==◌,
}
use mathlib.Core.Path.{subst}
use memcached4chaos.System.{Ptr, null, Env, Item}
use memcached4chaos.Slabs.{power_largest_max}
use memcached4chaos.Assoc.{home, assoc_find, matches}
use memcached4chaos.Assoc.Find.{Chains, Stored, Absent}
use memcached4chaos.Lru.Monad.{LruLists, ◌>>=◌, prefix}
use memcached4chaos.Lru.Items.{
  do_item_get, do_item_link, do_item_unlink, do_item_replace, do_item_release, do_store_item,
}
use memcached4chaos.Lru.Queue.Runs.{clsid, load-ne}
use memcached4chaos.Lru.State.{IsCache, Fits}
use memcached4chaos.Lru.Joined.{MayJoin, Relinked, LinkedUp}
use memcached4chaos.Lru.Link.{do_item_link-Joins}
use memcached4chaos.Lru.Fetch.{do_item_get-null}

-- An item that is the same but for its pointers, its count, its time and whether it is linked.
abbrev pub Stays : Item → Item → Type 0
Stays i j = j ≡ record i {
  next = j.next;
  prev = j.prev;
  h_next = j.h_next;
  time = j.time;
  refcount = j.refcount;
  linked = j.linked;
}

Relinked-Stays : (i j : Item) → Relinked i j → Stays i j
Relinked-Stays i j e = ground arith

LinkedUp-Stays : (i j : Item) → LinkedUp i j → Stays i j
LinkedUp-Stays i j e = ground arith

-- What a new item must be: outside the cache, in a class, not larger than the settings allow, and
-- with a key of the length that all keys with its hash value have.
pub record MayStore (s : LruLists) (chains : Chains) (it : Ptr) : Type 0 where
  pub outside : Stored s.assoc chains it → ⊥
  pub unlinked : (s.slabs.heap it).linked ≡ false
  pub whole : (s.slabs.heap it).slabbed ≡ false
  pub small : clsid it s < power_largest_max
  pub fits : (s.slabs.heap it).nbytes < s.item_size_max
  pub sizes :
      (x : Ptr)
      → Stored s.assoc chains x
      → (s.slabs.heap x).hv ≡ (s.slabs.heap it).hv
      → (s.slabs.heap x).nkey ≡ (s.slabs.heap it).nkey

-- The cache after it: the item is in it, and so is all else that was, but for an item with the same
-- key, and nothing else is.
pub record Stores (s : LruLists) (chains : Chains) (it : Ptr) (s' : LruLists) (chains' : Chains)
    (queue' : ℕ → List Ptr) : Type 0 where
  pub cache : IsCache s' chains' queue'
  pub holds : Stored s'.assoc chains' it
  pub keeps :
      (x : Ptr)
      → Stored s.assoc chains x
      → (Fits (s.slabs.heap it) (s.slabs.heap x) → ⊥)
      → Stored s'.assoc chains' x
  pub adds_none :
      (x : Ptr)
      → Stored s'.assoc chains' x
      → (x ≡ it) ⊎ (Stored s.assoc chains x × (Fits (s.slabs.heap it) (s.slabs.heap x) → ⊥))
  pub longer : (v : ℕ) → length (chains' (home s'.assoc v)) ≤ length (chains (home s.assoc v)) + 1
  pub items : (x : Ptr) → Stored s'.assoc chains' x → Stays (s.slabs.heap x) (s'.slabs.heap x)

module _ (fuel : ℕ) ⦃env : Env⦄ where
  store-new :
      (it : Ptr) (s s' : LruLists)
      → it ≢ null
      → do_item_get fuel
          (s.slabs.heap it).hv
          (prefix (s.slabs.heap it).nkey (s.slabs.heap it).body)
          s
        ≡ some (null, s)
      → do_item_link fuel it s ≡ some (tt, s')
      → do_store_item fuel it s ≡ some (tt, s')
  unfolding do_store_item
  store-new it s s' live get link =
      let opened = load-ne it s live in rw (do_store_item, ◌>>=◌, opened, get, link) refl

  pub store-over :
      (it old : Ptr) (s s1 s2 s3 s4 : LruLists)
      → it ≢ null
      → old ≢ null
      → do_item_get fuel
          (s.slabs.heap it).hv
          (prefix (s.slabs.heap it).nkey (s.slabs.heap it).body)
          s
        ≡ some (old, s1)
      → (s1.slabs.heap old).slabbed ≡ false
      → do_item_unlink fuel old s1 ≡ some (tt, s2)
      → do_item_link fuel it s2 ≡ some (tt, s3)
      → do_item_release fuel old s3 ≡ some (tt, s4)
      → do_store_item fuel it s ≡ some (tt, s4)
  unfolding do_store_item do_item_replace
  store-over it old s s1 s2 s3 s4 live some_old get whole unlink link release =
      let opened = load-ne it s live in
      let found : (old == null) ≡ false = ground arith in
      let again = load-ne old s1 some_old in
      rw
        (
          do_store_item, do_item_replace, ◌>>=◌, opened, get, found, again, whole, unlink, link,
          release,
        )
        refl

  -- No item has the key: the new one is linked.
  module _ (s : LruLists) (chains : Chains) (queue : ℕ → List Ptr) (it : Ptr)
      (k : IsCache s chains queue) (m : MayStore s chains it) (live : it ≢ null)
      (enough : length (chains (home s.assoc (s.slabs.heap it).hv)) < fuel) where
    pub do_store_item-new :
        let key = prefix (s.slabs.heap it).nkey (s.slabs.heap it).body in
        assoc_find fuel s.assoc s.slabs.heap (s.slabs.heap it).hv key ≡ some null
        → Absent s.assoc s.slabs.heap chains (s.slabs.heap it).hv key
        → (s' : LruLists) × (chains' : Chains) × (queue' : ℕ → List Ptr) × (do_store_item fuel it s
            ≡ some (tt, s'))
          × Stores s chains it s' chains' queue'
    do_store_item-new missing absent =
        let key = prefix (s.slabs.heap it).nkey (s.slabs.heap it).body in
        let none_fits =
          λ (x : Ptr) (i : Stored s.assoc chains x) (f : Fits (s.slabs.heap it) (s.slabs.heap x)).
            absurd (false_fits x f (absent x i)) in
        let join : MayJoin s chains it = record {
          outside = m.outside;
          whole = m.whole;
          small = m.small;
          absent = none_fits;
          sizes = m.sizes;
        } in
        let (s', chains', link, j) =
          do_item_link-Joins fuel it s chains queue k join live m.unlinked m.fits enough in
        (
          s',
          chains',
          _,
          store-new it s s' live (do_item_get-null fuel (s.slabs.heap it).hv key s missing) link,
          record {
            cache = j.cache;
            holds = j.holds;
            keeps = λ x i f. j.keeps x i;
            longer = j.longer;
            adds_none = λ x i. elim (j.adds_none x i) [
              | inl e ↦ inl e
              | inr old ↦ inr (old, none_fits x old)
            ];
            items = λ x i. elim (j.adds_none x i) [
              | inl e ↦ rw e (LinkedUp-Stays (s.slabs.heap it) (s'.slabs.heap it) j.item)
              | inr old ↦
                  Relinked-Stays (s.slabs.heap x) (s'.slabs.heap x)
                    (j.items x (λ e. m.outside (subst (λ y. Stored s.assoc chains y) e old)))
            ];
          },
        )
      where
        false_fits :
            (x : Ptr)
            → Fits (s.slabs.heap it) (s.slabs.heap x)
            → matches
                (s.slabs.heap it).hv
                (prefix (s.slabs.heap it).nkey (s.slabs.heap it).body)
                (s.slabs.heap x)
              ≡ false
            → ⊥
        false_fits x e f = cc
