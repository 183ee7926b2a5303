-- ===== src/DataCache/RoundTrip.antt =====
-- storeItem, then getItem under the same key.
use memcached4chaos.Base.{
  ℕ, ◌+◌, ◌%◌, ◌^◌, ◌<◌, ◌≡◌, ◌≢◌, ap, ◌∙◌, sym, refl, arith, List, length, some,
}
use mathlib.Core.Path.{subst}
use memcached4chaos.System.{Ptr, Env, Item, copy_in}
use memcached4chaos.Hash.Mem.{Bytes, AreBytes, skip}
use memcached4chaos.Assoc.{home}
use memcached4chaos.Assoc.Find.{Chains, Stored}
use memcached4chaos.Lru.Monad.{LruLists}
use memcached4chaos.Lru.Items.{CString}
use memcached4chaos.Lru.Calls
use memcached4chaos.Lru.State.{IsCache}
use memcached4chaos.Lru.Store.{Stays, MayStore, Stores}
use memcached4chaos.Lru.Replace.{do_store_item-Stores}
use memcached4chaos.Lru.Alloc.{class_of, filled, HasChunk, do_item_alloc-filled}
use memcached4chaos.DataCache.{get_item, store_item}
use memcached4chaos.DataCache.Lookup.{IsKeyOf, key_hash-hv, get_item-stored}
use memcached4chaos.DataCache.Written.{
  write_value, rehash, new_item, changed, SameString, new_item-IsKeyOf, IsKeyOf-stays,
  new_item-value, store_item-run, changed-it, changed-other, changed-IsCache,
}

-- A request to store: its strings are bytes, and their lengths are in range.
pub record MayRequest (s : LruLists) (key : CString) (n : ℕ) (inbuffer : Bytes) (it : Ptr)
    : Type 0 where
  pub short : key.len < 2 ^ 16
  pub size_small : n < s.item_size_max
  pub size_int : n < 2 ^ 31
  pub key_bytes : AreBytes key.bytes
  pub value_bytes : AreBytes inbuffer
  pub chunk_bytes : AreBytes (s.slabs.heap it).body

-- The cache has room for the request: keys with its hash value have its length, no count overflows,
-- and the searches have fuel for its chain.
pub record HasRoom (fuel : ℕ) (s : LruLists) (chains : Chains) (key : CString) : Type 0 where
  pub sizes :
      (x : Ptr)
      → Stored s.assoc chains x
      → (s.slabs.heap x).hv ≡ Calls.key_hash key
      → (s.slabs.heap x).nkey ≡ key.len
  pub counts : (x : Ptr) → Stored s.assoc chains x → ((s.slabs.heap x).refcount + 1) % 2 ^ 16 ≢ 0
  pub enough : length (chains (home s.assoc (Calls.key_hash key))) + 1 < fuel

module _ (fuel : ℕ) ⦃env : Env⦄ (key : CString) (inbuffer : Bytes) (n : ℕ) (s s1 : LruLists)
    (chains : Chains) (queue : ℕ → List Ptr) (it : Ptr) (rest : List Ptr)
    (c : HasChunk s chains (class_of s key n) it rest) (q : MayRequest s key n inbuffer it)
    (room : HasRoom fuel s chains key) (k : IsCache s1 chains queue)
    (at : s1.slabs.heap it ≡ filled (class_of s key n) key n (s.slabs.heap it))
    (others : (x : Ptr) → x ≢ it → s1.slabs.heap x ≡ s.slabs.heap x) (table : s1.assoc ≡ s.assoc)
    (limit : s1.item_size_max ≡ s.item_size_max) where
  new : Item
  new = new_item (class_of s key n) it key n inbuffer (s.slabs.heap it)

  ready : LruLists
  ready = changed it (rehash it) (changed it (write_value n inbuffer) s1)

  it_ready : ready.slabs.heap it ≡ new
  unfolding ready new
  it_ready =
      changed-it it (rehash it) (changed it (write_value n inbuffer) s1)
      ∙ ap (rehash it) (changed-it it (write_value n inbuffer) s1 ∙ ap (write_value n inbuffer) at)

  other_ready : (x : Ptr) → x ≢ it → ready.slabs.heap x ≡ s.slabs.heap x
  unfolding ready
  other_ready x ne =
      changed-other it (rehash it) (changed it (write_value n inbuffer) s1) x ne
      ∙ changed-other it (write_value n inbuffer) s1 x ne
      ∙ others x ne

  outside : Stored s1.assoc chains it → ⊥
  outside i = c.outside (rw table at i)

  ready-IsCache : IsCache ready chains queue
  unfolding ready
  ready-IsCache =
      changed-IsCache it (rehash it) (changed it (write_value n inbuffer) s1) chains queue outside
        (changed-IsCache it (write_value n inbuffer) s1 chains queue outside k)

  is_key : (key' : CString) → SameString key key' → IsKeyOf key' it new
  unfolding new
  is_key key' same =
      new_item-IsKeyOf (class_of s key n) it key key' n inbuffer (s.slabs.heap it) q.short
        q.key_bytes q.value_bytes q.chunk_bytes same

  hv_ready : (ready.slabs.heap it).hv ≡ Calls.key_hash key
  hv_ready =
      ap (λ (j : Item). j.hv) it_ready
      ∙ sym (key_hash-hv key it new (is_key key (refl, q.key_bytes, λ j h. refl)))

  ready-Stored : (x : Ptr) → Stored ready.assoc chains x → Stored s.assoc chains x × (x ≢ it)
  unfolding ready
  ready-Stored x i =
      let j : Stored s.assoc chains x = rw table at i in
      (j, λ e. c.outside (subst (λ y. Stored s.assoc chains y) e j))

  may_store : MayStore ready chains it
  unfolding ready new
  may_store = record {
    outside = outside;
    unlinked = ap (λ (j : Item). j.linked) it_ready;
    whole = ap (λ (j : Item). j.slabbed) it_ready;
    small =
        rw (ap (λ (j : Item). j.slabs_clsid) it_ready)
          (omega (arith, c.class_known, c.class_small));
    fits = rw (ap (λ (j : Item). j.nbytes) it_ready, limit) q.size_small;
    sizes = λ x i e.
        let (j, ne) = ready-Stored x i in
        let same = other_ready x ne in
        ap (λ (y : Item). y.nkey) same
        ∙ room.sizes x j (sym (ap (λ (y : Item). y.hv) same) ∙ e ∙ hv_ready)
        ∙ sym (ap (λ (y : Item). y.nkey) it_ready ∙ omega (arith, q.short));
  }

  counts_ready :
      (x : Ptr) → Stored ready.assoc chains x → ((ready.slabs.heap x).refcount + 1) % 2 ^ 16 ≢ 0
  counts_ready x i =
      let (j, ne) = ready-Stored x i in
      rw (ap (λ (y : Item). y.refcount) (other_ready x ne)) (room.counts x j)

  table_ready : ready.assoc ≡ s.assoc
  unfolding ready
  table_ready = table

  enough_ready : length (chains (home ready.assoc (ready.slabs.heap it).hv)) < fuel
  enough_ready = rw (table_ready, hv_ready) (omega (arith, room.enough))

  -- The cache after the item has been stored, and a search for it.
  module _ (s2 : LruLists) (chains2 : Chains) (queue2 : ℕ → List Ptr)
      (st : Stores ready chains it s2 chains2 queue2) where
    new_2 : Stays new (s2.slabs.heap it)
    new_2 = rw it_ready at (st.items it st.holds)

    enough_2 : length (chains2 (home s2.assoc (s2.slabs.heap it).hv)) < fuel
    enough_2 =
        let hv = ap (λ (j : Item). j.hv) (st.items it st.holds) ∙ hv_ready in
        let longer = rw table_ready at (st.longer (Calls.key_hash key)) in
        rw hv (omega (arith, longer, room.enough))

    got :
        (key' : CString) (bufflen : ℕ) (outbuffer : Bytes)
        → SameString key key'
        → (s3 : LruLists) × (buffer : Bytes) × (get_item fuel key' bufflen outbuffer s2
            ≡ some ((0, n, buffer), s3))
          × ((j : ℕ) → j < n → buffer j ≡ inbuffer j)
    unfolding new
    got key' bufflen outbuffer same =
        let o = IsKeyOf-stays key' it new (s2.slabs.heap it) new_2 (is_key key' same) in
        let (s3, _, get, _, _, _, _) =
          get_item-stored fuel s2 chains2 queue2 st.cache it st.holds enough_2 key' bufflen
            outbuffer o in
        let nbytes = ap (λ (j : Item). j.nbytes) new_2 in
        let nkey = ap (λ (j : Item). j.nkey) new_2 in
        let body = ap (λ (j : Item). j.body) new_2 in
        (
          s3,
          copy_in 0 n (skip new.nkey new.body) outbuffer,
          rw (nbytes, nkey, body) at get,
          new_item-value (class_of s key n) it key n inbuffer (s.slabs.heap it) outbuffer
              q.size_int,
        )

-- A value that is stored is the value that is got: where the class of the item has a free chunk, the
-- key is shorter than 2 ^ 16 bytes, no count is about to overflow and keys with its hash value have
-- its length, storeItem returns 0, and getItem of the same key, in whatever buffer it stands, then returns 0, the
-- length of the value and its bytes.
pub get_item-store_item :
    (fuel : ℕ) ⦃env : Env⦄ (key key' : CString) (inbuffer outbuffer : Bytes) (n bufflen : ℕ)
    (s : LruLists) (chains : Chains) (queue : ℕ → List Ptr) (it : Ptr) (rest : List Ptr)
    → IsCache s chains queue
    → HasChunk s chains (class_of s key n) it rest
    → MayRequest s key n inbuffer it
    → HasRoom fuel s chains key
    → SameString key key'
    → (s' : LruLists) × (s'' : LruLists) × (buffer : Bytes) × (store_item fuel key inbuffer n s
        ≡ some (0, s'))
      × (get_item fuel key' bufflen outbuffer s' ≡ some ((0, n, buffer), s''))
      × ((j : ℕ) → j < n → buffer j ≡ inbuffer j)
unfolding ready
get_item-store_item fuel key key' inbuffer outbuffer n bufflen s chains queue it rest k c q room
      same =
    let (s1, alloc, k1, at, others, table, limit) =
      do_item_alloc-filled fuel key n s chains queue it rest k c in
    let cache =
      ready-IsCache fuel key inbuffer n s s1 chains queue it rest c q room k1 at others table
        limit in
    let may =
      may_store fuel key inbuffer n s s1 chains queue it rest c q room k1 at others table limit in
    let enough =
      enough_ready fuel key inbuffer n s s1 chains queue it rest c q room k1 at others table
        limit in
    let counts =
      counts_ready fuel key inbuffer n s s1 chains queue it rest c q room k1 at others table
        limit in
    let t = changed it (rehash it) (changed it (write_value n inbuffer) s1) in
    let (s2, chains2, queue2, store, st) =
      do_store_item-Stores fuel t chains queue it cache may c.some_chunk enough counts in
    let (s3, buffer, get, value) =
      got fuel key inbuffer n s s1 chains queue it rest c q room k1 at others table limit s2 chains2
        queue2 st key' bufflen outbuffer same in
    (
      s2,
      s3,
      buffer,
      store_item-run fuel key inbuffer n s s1 s2 it alloc c.some_chunk store,
      get,
      value,
    )
