-- ===== src/Lru/Items.antt =====
-- The methods of class LRU_Lists on items that run under cache_lock.
use memcached4chaos.Base.{
  ℕ, zero, suc, ◌+◌, ◌-◌, ◌*◌, ◌%◌, ◌^◌, true, false, not, ◌&&◌, ltb, ◌==◌, if◌then◌else◌, List,
  none, some,
}
use memcached4chaos.System.{sign_extend, Ptr, null, Env, sizeof_hash_item, copy_in}
use memcached4chaos.Hash.Mem.{Bytes}
use memcached4chaos.Slabs.{slabs_clsid, do_slabs_alloc, do_slabs_free}
use memcached4chaos.Assoc.{assoc_find, assoc_insert, assoc_delete}
use memcached4chaos.Lru.Monad.{
  Cmd, pure, ◌>>=◌, ◌>>◌, assert, get, modify, load, change, get_current_time, on_assoc, on_slabs,
  prefix,
}
use memcached4chaos.Lru.Queue.{item_link_q, item_unlink_q}

-- A C string of the caller: where it stands, its bytes and what follows them, and its strlen.
pub record CString : Type 0 where
  pub address : ℕ
  pub bytes : Bytes
  pub len : ℕ

abbrev pub search_items : ℕ
search_items = 50

abbrev pub tail_repair_time : ℕ
tail_repair_time = 3 * 3600

abbrev pub item_update_interval : ℕ
item_update_interval = 60

module _ (fuel : ℕ) ⦃env : Env⦄ where
  unfoldable pub item_free : Ptr → Cmd (Unit {0})
  item_free it = do
    i ← load it
    s ← get
    assert (not i.linked)
    assert (not (it == s.heads i.slabs_clsid))
    assert (not (it == s.tails i.slabs_clsid))
    assert (i.refcount == 0)
    change it (λ i. record i { slabs_clsid = 0; slabbed = true })
    modify (λ s. record s {
      slabs = do_slabs_free it (sizeof_hash_item + i.nkey + i.nbytes) i.slabs_clsid s.slabs;
    })

  unfoldable pub do_item_unlink : Ptr → Cmd (Unit {0})
  do_item_unlink it = do
    i ← load it
    if i.linked
        then (do
          change it (λ i. record i { linked = false })
          on_assoc (assoc_delete fuel i.hv (prefix i.nkey i.body))
          item_unlink_q it
          if i.refcount == 0 then item_free it else pure tt)
        else pure tt

  -- From the tail on, at most `tries` items: the first that nobody holds is unlinked.
  unfoldable pub evict_unused : ℕ → Ptr → Cmd (Unit {0})
  evict_unused zero it = pure tt
  evict_unused (suc tries) it =
      if it == null
      then pure tt
      else do i ← load it; if i.refcount == 0 then do_item_unlink it else evict_unused tries i.prev

  -- The same for an item that is held, but has been for more than three hours.
  unfoldable pub evict_stale : ℕ → ℕ → Ptr → Cmd (Unit {0})
  evict_stale now zero it = pure tt
  evict_stale now (suc tries) it = if it == null then pure tt else do
    i ← load it
    if not (i.refcount == 0) && ltb ((i.time + tail_repair_time) % 2 ^ 32) now
        then (do change it (λ i. record i { refcount = 0 }); do_item_unlink it)
        else evict_stale now tries i.prev

  -- The chunk for a new item: off the allocator, or after an eviction.
  unfoldable pub obtain_chunk : ℕ → ℕ → Cmd Ptr
  obtain_chunk ntotal id = do
    it ← on_slabs (do_slabs_alloc ntotal id)
    s ← get
    if not (it == null) then pure it else if s.tails id == null then pure null else (do
      evict_unused search_items (s.tails id)
      it ← on_slabs (do_slabs_alloc ntotal id)
      if not (it == null) then pure it else (do
        now ← get_current_time
        s ← get
        evict_stale now search_items (s.tails id)
        on_slabs (do_slabs_alloc ntotal id)))

  unfoldable pub do_item_alloc : CString → ℕ → Cmd Ptr
  do_item_alloc key nbytes = do
    s ← get
    let ntotal = (sizeof_hash_item + key.len + sign_extend nbytes) % 2 ^ 64
    let id = slabs_clsid s.slabs ntotal
    if id == 0 then pure null else (do
      it ← obtain_chunk ntotal id
      if it == null then pure null else (do
        i ← load it
        s ← get
        assert (i.slabs_clsid == 0)
        assert (not (it == s.heads id))
        change it (λ i. record i {
          slabs_clsid = id;
          next = null;
          prev = null;
          h_next = null;
          refcount = 1;
          linked = false;
          slabbed = false;
          nkey = key.len % 2 ^ 16;
          nbytes = nbytes;
          body = copy_in 0 key.len key.bytes i.body;
        })
        pure it))

  unfoldable pub do_item_update : Ptr → Cmd (Unit {0})
  do_item_update it = do
    now ← get_current_time
    i ← load it
    if ltb i.time ((now + 2 ^ 32 - item_update_interval) % 2 ^ 32)
        then (do
          assert (not i.slabbed)
          if i.linked
              then (do item_unlink_q it; change it (λ i. record i { time = now }); item_link_q it)
              else pure tt)
        else pure tt

  unfoldable pub find_item : ℕ → List ℕ → Cmd Ptr
  find_item hv key s = elim (assoc_find fuel s.assoc s.slabs.heap hv key) [
    | none ↦ none
    | some it ↦ some (it, s)
  ]

  unfoldable pub do_item_get : ℕ → List ℕ → Cmd Ptr
  do_item_get hv key = do
    it ← find_item hv key
    if it == null then pure null else (do
      change it (λ i. record i { refcount = (i.refcount + 1) % 2 ^ 16 })
      do_item_update it
      pure it)

  unfoldable pub do_item_link : Ptr → Cmd (Unit {0})
  do_item_link it = do
    i ← load it
    s ← get
    assert (not i.linked && not i.slabbed)
    assert (ltb i.nbytes s.item_size_max)
    now ← get_current_time
    change it (λ i. record i { linked = true; time = now })
    let (allocated, started) = env.expansion s.ticks
    on_assoc (assoc_insert fuel allocated started (prefix i.nkey i.body) it)
    item_link_q it

  unfoldable pub do_item_release : Ptr → Cmd (Unit {0})
  do_item_release it = do
    i ← load it
    let count = if i.refcount == 0 then 0 else i.refcount - 1
    change it (λ i. record i { refcount = count })
    if count == 0 && not i.linked then item_free it else pure tt

  unfoldable pub do_item_replace : Ptr → Ptr → Cmd (Unit {0})
  do_item_replace it new_it = do
    i ← load it
    assert (not i.slabbed)
    do_item_unlink it
    do_item_link new_it

  unfoldable pub do_store_item : Ptr → Cmd (Unit {0})
  do_store_item it = do
    i ← load it
    old_it ← do_item_get i.hv (prefix i.nkey i.body)
    if old_it == null
        then do_item_link it
        else (do do_item_replace old_it it; do_item_release old_it)
