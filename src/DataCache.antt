-- ===== src/DataCache.antt =====
-- cache/datacache.hpp: class DataCache, what the cache offers its clients. An int result is written
-- by its 32 bits, so -1 is 2 ^ 32 - 1.
pub mod Results
pub mod Lookup
pub mod Written
pub mod RoundTrip
use memcached4chaos.Base.{ℕ, ◌*◌, ◌-◌, ◌^◌, false, ◌==◌, if◌then◌else◌, ◌+◌, Option}
use memcached4chaos.System.{sign_extend, copy_in, Ptr, null, Env}
use memcached4chaos.Hash.Mem.{Bytes, skip}
use memcached4chaos.Slabs.{Config}
use memcached4chaos.Lru.Monad.{LruLists, Cmd, pure, ◌>>=◌, ◌>>◌, load, change}
use memcached4chaos.Lru.Items.{CString}
use memcached4chaos.Lru.Calls

abbrev pub minus_one : ℕ
minus_one = 2 ^ 32 - 1

-- the settings of the constructor; the factor 1.25 is exact
abbrev pub cache_config : ℕ → Config
cache_config cache_size = record {
  maxbytes = cache_size * 1024 * 1024;
  preallocate = false;
  factor_num = 5;
  factor_den = 4;
  chunk_size = 48;
  hashpower = 16;
  item_size_max = 1024 * 1024;
}

unfoldable pub new_cache : ⦃env : Env⦄ → ℕ → Option ℕ → LruLists → Option LruLists
new_cache cache_size faked raw = Calls.new_lists (cache_config cache_size) faked raw

module _ (fuel : ℕ) ⦃env : Env⦄ where
  -- getItem: the result, and what bufflen and *outbuffer are afterwards
  unfoldable pub get_item : CString → ℕ → Bytes → Cmd (ℕ × ℕ × Bytes)
  get_item key bufflen outbuffer = do
    it ← Calls.item_get fuel key
    if it == null
        then pure (minus_one, bufflen, outbuffer)
        else (do i ← load it; pure (0, i.nbytes, copy_in 0 i.nbytes (skip i.nkey i.body) outbuffer))

  -- storeItem: ret = (it != NULL) is 0 where there is no item, and 0 is assigned where there is
  unfoldable pub store_item : CString → Bytes → ℕ → Cmd ℕ
  store_item key inbuffer bufflen = do
    it ← Calls.item_alloc fuel key bufflen
    let ret = if it == null then 0 else 1
    if ret == 0 then pure ret else (do
      change it (λ i. record i { body = copy_in i.nkey (sign_extend bufflen) inbuffer i.body })
      Calls.store_item fuel it
      pure 0)

  unfoldable pub delete_item : CString → Cmd ℕ
  delete_item key = do
    it ← Calls.item_get fuel key
    let ret = if it == null then 0 else 1
    if ret == 0
        then pure ret
        else (do Calls.item_unlink fuel it; Calls.item_release fuel it; pure 0)
