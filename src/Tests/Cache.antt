-- ===== src/Tests/Cache.antt =====
-- The results of the cache's methods on an empty cache, and on one with an item.
use memcached4chaos.Base.{
  ◌+◌, ◌%◌, ◌^◌, ◌≡◌, refl, arith, some, ◌==◌, if◌then◌else◌, false, true, [], ◌∷◌,
}
use memcached4chaos.System.{copy_in, null, zero_item, update}
use memcached4chaos.Hash.Mem.{Bytes, skip}
use memcached4chaos.Slabs.{empty_class, slabs_clsid, SlabClass}
use memcached4chaos.Assoc.{same_bytes, assoc_find, find_from, home, read}
use memcached4chaos.Lru.Monad.{LruLists}
use memcached4chaos.Lru.Items.{CString}
use memcached4chaos.Lru.Calls.{key_hash}
use memcached4chaos.DataCache.{get_item, store_item, delete_item}
use memcached4chaos.DataCache.Results.{store_item-no_class, delete_item-absent, get_item-found}
use memcached4chaos.Tests.Machine.{machine}
use memcached4chaos.Tests.Chunks.{allocator}

abbrev chunks : SlabClass
chunks = record empty_class { size = 96; perslab = 10 }

abbrev pub empty_lists : LruLists
empty_lists = record {
  item_size_max = 96;
  assoc = record {
    hashpower = 2;
    hash_items = 0;
    primary_hashtable = λ _. null;
    old_hashtable = λ _. null;
    expanding = false;
    expand_bucket = 0;
  };
  slabs = allocator chunks;
  heads = λ _. null;
  tails = λ _. null;
  sizes = λ _. 0;
  ticks = 0;
}

-- the key "a"
abbrev key : CString
key = record { address = 4096; bytes = λ i. if i == 0 then 97 else 0; len = 1 }

abbrev data_bytes : Bytes
data_bytes i = i % 256

class_lem : slabs_clsid (allocator chunks) ((48 + 1 + 60) % 2 ^ 64) ≡ 0
unfolding slabs_clsid
class_lem = refl

store_item-no_class_example :
    store_item 5 ⦃env = machine⦄ key data_bytes 60 empty_lists ≡ some (0, empty_lists)
store_item-no_class_example =
    store_item-no_class 5 ⦃env = machine⦄ key data_bytes 60 empty_lists class_lem

missing : assoc_find 5 empty_lists.assoc empty_lists.slabs.heap (key_hash key) (97 ∷ []) ≡ some null
unfolding assoc_find find_from read home
missing = refl

delete_item-absent_example : delete_item 5 ⦃env = machine⦄ key empty_lists ≡ some (0, empty_lists)
delete_item-absent_example = delete_item-absent 5 ⦃env = machine⦄ key empty_lists missing

-- every bucket leads to the item at 1000, whose key is "a" and whose data are 3 bytes
abbrev one_item : LruLists
one_item = record empty_lists {
  assoc = record empty_lists.assoc { primary_hashtable = λ _. 1000 };
  slabs = record (allocator chunks) {
    heap = λ _. record zero_item {
      time = 1000;
      hv = key_hash key;
      nbytes = 3;
      nkey = 1;
      linked = true;
      slabs_clsid = 1;
      body = λ i. 97 + i;
    };
  };
}

found : assoc_find 5 one_item.assoc one_item.slabs.heap (key_hash key) (97 ∷ []) ≡ some 1000
unfolding assoc_find find_from read home same_bytes
found = ground arith

get_item-found_example :
    get_item 5 ⦃env = machine⦄ key 0 (λ _. 0) one_item
    ≡ some (
      (0, 3, copy_in 0 3 (skip 1 (λ i. 97 + i)) (λ _. 0)),
      record one_item {
        ticks = 1;
        slabs = record one_item.slabs {
          heap =
              update one_item.slabs.heap 1000 (record (one_item.slabs.heap 1000) { refcount = 1 });
        };
      },
    )
get_item-found_example =
    get_item-found 5 ⦃env = machine⦄ key 0 (λ _. 0) one_item 1000 found (λ e. absurd (omega arith))
      refl
