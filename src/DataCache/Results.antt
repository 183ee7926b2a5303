-- ===== src/DataCache/Results.antt =====
-- What the clients of class DataCache are told.
use memcached4chaos.Base.{ℕ, ◌+◌, ◌-◌, ◌%◌, ◌^◌, ◌≡◌, ◌≢◌, refl, arith, ◌==◌, ltb, some, false}
use memcached4chaos.System.{
  sign_extend, copy_in, Ptr, null, Env, update, update_self, sizeof_hash_item,
}
use memcached4chaos.Hash.Mem.{Bytes, skip}
use memcached4chaos.Slabs.{slabs_clsid}
use memcached4chaos.Assoc.{assoc_find}
use memcached4chaos.Lru.Monad.{LruLists, ◌>>=◌, prefix, load, change, get_current_time}
use memcached4chaos.Lru.Items.{
  CString, item_update_interval, do_item_alloc, do_item_get, find_item, do_item_update,
}
use memcached4chaos.Lru.Calls
use memcached4chaos.DataCache.{get_item, store_item, delete_item, minus_one}

-- What the hash table finds under a key.
abbrev pub Finds : ℕ → LruLists → CString → Ptr → Type 0
Finds fuel s key it =
    assoc_find fuel s.assoc s.slabs.heap (Calls.key_hash key) (prefix key.len key.bytes) ≡ some it

module _ (fuel : ℕ) ⦃env : Env⦄ where
  item_get-absent :
      (key : CString) (s : LruLists)
      → Finds fuel s key null
      → Calls.item_get fuel key s ≡ some (null, s)
  unfolding Calls.item_get do_item_get find_item
  item_get-absent key s missing = rw (Calls.item_get, do_item_get, find_item, ◌>>=◌, missing) refl

  -- A value that no size class holds is not stored, nothing changes, and the result is 0.
  pub store_item-no_class :
      (key : CString) (inbuffer : Bytes) (bufflen : ℕ) (s : LruLists)
      → slabs_clsid s.slabs ((sizeof_hash_item + key.len + sign_extend bufflen) % 2 ^ 64) ≡ 0
      → store_item fuel key inbuffer bufflen s ≡ some (0, s)
  unfolding store_item Calls.item_alloc do_item_alloc
  store_item-no_class key inbuffer bufflen s big =
      rw (store_item, Calls.item_alloc, do_item_alloc, ◌>>=◌, big) refl

  -- Deleting a key that is not there changes nothing, and the result is 0.
  pub delete_item-absent :
      (key : CString) (s : LruLists) → Finds fuel s key null → delete_item fuel key s ≡ some (0, s)
  unfolding delete_item
  delete_item-absent key s missing = rw (delete_item, ◌>>=◌, item_get-absent key s missing) refl

  -- Getting a key that is not there changes nothing, and the result is -1.
  pub get_item-absent :
      (key : CString) (bufflen : ℕ) (outbuffer : Bytes) (s : LruLists)
      → Finds fuel s key null
      → get_item fuel key bufflen outbuffer s ≡ some ((minus_one, bufflen, outbuffer), s)
  unfolding get_item
  get_item-absent key bufflen outbuffer s missing =
      rw (get_item, ◌>>=◌, item_get-absent key s missing) refl

  -- Getting a key whose item was moved up its queue in the last minute: the result is 0 and the
  -- item's data, the item gets one reference more, and nothing drops it.
  pub get_item-found :
      (key : CString) (bufflen : ℕ) (outbuffer : Bytes) (s : LruLists) (it : Ptr)
      → Finds fuel s key it
      → it ≢ null
      → let i = s.slabs.heap it in
        let now = env.time s.ticks % 2 ^ 32 in
        ltb i.time ((now + 2 ^ 32 - item_update_interval) % 2 ^ 32) ≡ false
        → get_item fuel key bufflen outbuffer s
          ≡ some (
            (0, i.nbytes, copy_in 0 i.nbytes (skip i.nkey i.body) outbuffer),
            record s {
              ticks = s.ticks + 1;
              slabs = record s.slabs {
                heap = update s.slabs.heap it (record i { refcount = (i.refcount + 1) % 2 ^ 16 });
              };
            },
          )
  unfolding get_item Calls.item_get do_item_get find_item do_item_update load change
      get_current_time
  get_item-found key bufflen outbuffer s it found ne recent =
      let here : (it == null) ≡ false = ground arith in
      let i = s.slabs.heap it in
      let same = update_self s.slabs.heap it (record i { refcount = (i.refcount + 1) % 2 ^ 16 }) in
      rw
        (
          get_item, Calls.item_get, do_item_get, find_item, do_item_update, load, change,
          get_current_time, ◌>>=◌, found, here, same, here, recent, here, same,
        )
        refl
