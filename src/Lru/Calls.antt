-- ===== src/Lru/Calls.antt =====
-- The public methods of class LRU_Lists. Each takes cache_lock, does one thing and drops it, so each
-- is one run here; hash() is called before the lock is taken.
use memcached4chaos.Base.{ℕ, ◌+◌, Option, none, some}
use memcached4chaos.System.{Ptr, null, Env, sizeof_hash_item}
use memcached4chaos.Hash.Little.{hash}
use memcached4chaos.Slabs.{Config, new_allocator}
use memcached4chaos.Assoc.{new_table}
use memcached4chaos.Lru.Monad.{LruLists, Cmd, ◌>>=◌, ◌>>◌, load, change, prefix}
use memcached4chaos.Lru.Items.{
  CString, do_item_alloc, do_item_get, do_item_release, do_item_unlink, do_store_item,
}

-- hash(key, nkey), with initval = 0
unfoldable pub key_hash : CString → ℕ
key_hash key = hash key.address key.bytes key.len 0

module _ ⦃env : Env⦄ where
  -- LRU_Lists::LRU_Lists; `raw` is what stood in the memory of the three objects before, and
  -- `faked` the value of T_MEMD_INITIAL_MALLOC. `none`: abort().
  unfoldable pub new_lists : Config → Option ℕ → LruLists → Option LruLists
  new_lists c faked raw = elim (new_table (env.expansion raw.ticks).0 c.hashpower raw.assoc) [
    | none ↦ none
    | some assoc ↦ elim (new_allocator c faked raw.slabs) [
      | none ↦ none
      | some slabs ↦ some (record {
        item_size_max = c.item_size_max;
        assoc = assoc;
        slabs = slabs;
        heads = λ _. null;
        tails = λ _. null;
        sizes = λ _. 0;
        ticks = raw.ticks + 1;
      })
    ]
  ]

module _ (fuel : ℕ) ⦃env : Env⦄ where
  unfoldable pub item_alloc : CString → ℕ → Cmd Ptr
  item_alloc key nbytes = do_item_alloc fuel key nbytes

  unfoldable pub item_get : CString → Cmd Ptr
  item_get key = do_item_get fuel (key_hash key) (prefix key.len key.bytes)

  unfoldable pub item_release : Ptr → Cmd (Unit {0})
  item_release it = do_item_release fuel it

  unfoldable pub item_unlink : Ptr → Cmd (Unit {0})
  item_unlink it = do_item_unlink fuel it

  unfoldable pub store_item : Ptr → Cmd (Unit {0})
  store_item it = do
    i ← load it
    change it (λ i. record i { hv = hash (it + sizeof_hash_item) i.body i.nkey 0 })
    do_store_item fuel it
