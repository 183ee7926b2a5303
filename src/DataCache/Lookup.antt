-- ===== src/DataCache/Lookup.antt =====
-- getItem under the key of an item of the cache.
use memcached4chaos.Base.{
  ℕ, zero, suc, ◌+◌, ◌%◌, ◌^◌, ◌<◌, ◌≡◌, ap, ◌∙◌, sym, refl, arith, true, false, inl, inr, List,
  length, some, ◌==◌,
}
use memcached4chaos.System.{Ptr, null, Env, Item, copy_in, sizeof_hash_item}
use memcached4chaos.Hash.Mem.{Bytes, AreBytes, skip}
use memcached4chaos.Hash.Little.{hash}
use memcached4chaos.Hash.Little.Agree.{hash_congr}
use memcached4chaos.Assoc.{home, assoc_find, matches}
use memcached4chaos.Assoc.Find.{Chains, Stored, assoc_find_complete}
use memcached4chaos.Lru.Monad.{LruLists, ◌>>=◌, prefix}
use memcached4chaos.Lru.Items.{CString}
use memcached4chaos.Lru.Calls
use memcached4chaos.Lru.Queue.Runs.{load-ne}
use memcached4chaos.Lru.State.{IsCache, Fits, Fits-self}
use memcached4chaos.Lru.Get.{live}
use memcached4chaos.Lru.Fetch.{Touched, do_item_get-IsCache}
use memcached4chaos.DataCache.{get_item}

prefix_congr : (n : ℕ) (k k' : Bytes) → ((i : ℕ) → i < n → k i ≡ k' i) → prefix n k ≡ prefix n k'
prefix_congr zero k k' same = refl
prefix_congr (suc n) k k' same =
    rw
      (
        same 0 (omega arith),
        prefix_congr n (skip 1 k) (skip 1 k') (λ i h. same (1 + i) (omega arith)),
      )
      refl

-- A string of the caller is the key of an item, which has its hash value.
pub record IsKeyOf (key : CString) (it : Ptr) (i : Item) : Type 0 where
  pub hashed : i.hv ≡ hash (it + sizeof_hash_item) i.body i.nkey 0
  pub body_bytes : AreBytes i.body
  pub key_bytes : AreBytes key.bytes
  pub size : key.len ≡ i.nkey
  pub same : (j : ℕ) → j < i.nkey → key.bytes j ≡ i.body j

pub key_hash-hv :
    (key : CString) (it : Ptr) (i : Item) → IsKeyOf key it i → Calls.key_hash key ≡ i.hv
unfolding Calls.key_hash
key_hash-hv key it i o =
    rw o.size (
      hash_congr key.address (it + sizeof_hash_item) key.bytes i.body i.nkey 0 o.key_bytes
        o.body_bytes o.same)
    ∙ sym o.hashed

key-prefix :
    (key : CString) (it : Ptr) (i : Item)
    → IsKeyOf key it i
    → prefix key.len key.bytes ≡ prefix i.nkey i.body
key-prefix key it i o = rw o.size (prefix_congr i.nkey key.bytes i.body o.same)

module _ (fuel : ℕ) ⦃env : Env⦄ (s : LruLists) (chains : Chains) (queue : ℕ → List Ptr)
    (k : IsCache s chains queue) (it : Ptr) (i : Stored s.assoc chains it)
    (enough : length (chains (home s.assoc (s.slabs.heap it).hv)) < fuel) where
  -- The search under the key of an item finds it.
  finds :
      assoc_find fuel s.assoc s.slabs.heap
        (s.slabs.heap it).hv
        (prefix (s.slabs.heap it).nkey (s.slabs.heap it).body)
      ≡ some it
  finds =
      let hv = (s.slabs.heap it).hv in
      let key = prefix (s.slabs.heap it).nkey (s.slabs.heap it).body in
      let (x, found, what) =
        assoc_find_complete fuel s.assoc s.slabs.heap chains hv key k.table enough in
      elim what [
        | inl (missing, absent) ↦
            let other : matches hv key (s.slabs.heap it) ≡ false = absent it i in
            let self : matches hv key (s.slabs.heap it) ≡ true = Fits-self (s.slabs.heap it) in cc
        | inr (some_x, stored, same_hv, same) ↦
            let fits : Fits (s.slabs.heap it) (s.slabs.heap x) = ground arith in
            found ∙ ap some (k.keys it x i stored fits)
      ]

  get_item-run :
      (key : CString) (bufflen : ℕ) (outbuffer : Bytes) (s' : LruLists)
      → Calls.item_get fuel key s ≡ some (it, s')
      → Touched (s.slabs.heap it) (s'.slabs.heap it)
      → let j = s.slabs.heap it in
        get_item fuel key bufflen outbuffer s
        ≡ some ((0, j.nbytes, copy_in 0 j.nbytes (skip j.nkey j.body) outbuffer), s')
  unfolding get_item
  get_item-run key bufflen outbuffer s' got touched =
      let some_it = live fuel s chains queue k it i in
      let here : (it == null) ≡ false = ground arith in
      let opened = load-ne it s' some_it in
      let nbytes = ap (λ (j : Item). j.nbytes) touched in
      let nkey = ap (λ (j : Item). j.nkey) touched in
      let body = ap (λ (j : Item). j.body) touched in
      rw (get_item, ◌>>=◌, got, here, opened, nbytes, nkey, body) refl

  -- getItem under the key of an item of the cache returns 0 and the item's data, wherever the key
  -- stands; the item has one reference more, and the cache is kept, with a queue reordered at most.
  pub get_item-stored :
      (key : CString) (bufflen : ℕ) (outbuffer : Bytes)
      → IsKeyOf key it (s.slabs.heap it)
      → (s' : LruLists) × (queue' : ℕ → List Ptr) × (let j = s.slabs.heap it in
          get_item fuel key bufflen outbuffer s
          ≡ some ((0, j.nbytes, copy_in 0 j.nbytes (skip j.nkey j.body) outbuffer), s'))
        × IsCache s' chains queue'
        × ((x : Ptr) → Touched (s.slabs.heap x) (s'.slabs.heap x))
        × ((s'.slabs.heap it).refcount ≡ ((s.slabs.heap it).refcount + 1) % 2 ^ 16)
        × (s'.assoc ≡ s.assoc)
  unfolding Calls.item_get
  get_item-stored key bufflen outbuffer o =
      let hv = (s.slabs.heap it).hv in
      let bytes = prefix (s.slabs.heap it).nkey (s.slabs.heap it).body in
      let (s', queue', got, cache, touched, count, table, _) =
        do_item_get-IsCache fuel hv bytes s chains queue it k i finds in
      let asked : Calls.item_get fuel key s ≡ some (it, s') =
        rw (key_hash-hv key it (s.slabs.heap it) o, key-prefix key it (s.slabs.heap it) o) got in
      (
        s',
        queue',
        get_item-run key bufflen outbuffer s' asked (touched it),
        cache,
        touched,
        count,
        table,
      )
