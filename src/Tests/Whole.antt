-- ===== src/Tests/Whole.antt =====
-- A cache with the item at 1000, whose key is "b", in class 1, with free chunks from 2000 on.
use memcached4chaos.Base.{
  ℕ, ◌+◌, ◌%◌, ◌^◌, ◌<◌, ◌≡◌, ◌≢◌, refl, arith, ◌==◌, if◌then◌else◌, List, [], ◌∷◌, length, has,
  some, true, false, Bool-cases, inl, inr, sym, ◌∙◌,
}
use mathlib.Core.Path.{subst}
use memcached4chaos.System.{Ptr, null}
use memcached4chaos.Hash.Mem.{Bytes}
use memcached4chaos.Slabs.{slabs_clsid}
use memcached4chaos.Assoc.{home}
use memcached4chaos.Assoc.Find.{Chains, Stored}
use memcached4chaos.Lru.Monad.{LruLists}
use memcached4chaos.Lru.Items.{CString, do_store_item, do_item_unlink, do_item_release}
use memcached4chaos.Lru.Calls
use memcached4chaos.Lru.Queue.Lists.{IsQueue}
use memcached4chaos.Lru.State.{IsCache}
use memcached4chaos.Lru.Store.{MayStore, Stores}
use memcached4chaos.Lru.Replace.{do_store_item-Stores}
use memcached4chaos.Lru.Unlink.{Parts, do_item_unlink-Parts}
use memcached4chaos.Lru.Release.{IsFreed, do_item_release-IsCache}
use memcached4chaos.Lru.Alloc.{class_of, HasChunk}
use memcached4chaos.DataCache.{get_item, store_item}
use memcached4chaos.DataCache.RoundTrip.{MayRequest, HasRoom, get_item-store_item}
use memcached4chaos.Tests.Machine.{machine}
use memcached4chaos.Tests.Chunks.{allocator, used_class, used_class-IsValid}
use memcached4chaos.Tests.Table.{
  b_hash, bucket, table, items, chains, bucket-has, steady, table-Holds,
}
use memcached4chaos.Tests.Cache.{empty_lists}

abbrev pub queue : ℕ → List Ptr
queue c = if c == 1 then 1000 ∷ [] else []

abbrev pub whole : LruLists
whole = record empty_lists {
  assoc = table;
  slabs = record (allocator used_class) { heap = items };
  heads = λ c. if c == 1 then 1000 else null;
  tails = λ c. if c == 1 then 1000 else null;
  sizes = λ c. if c == 1 then 1 else 0;
}

queue-IsQueue : (c : ℕ) → IsQueue whole c (queue c)
queue-IsQueue c = elim (Bool-cases (c == 1)) [
  | inl e ↦ record {
    linked = rw e (refl, λ f. absurd (omega arith), refl, refl);
    last = rw e refl;
    distinct = rw e (refl, tt);
    counted = rw e refl;
  }
  | inr e ↦ record { linked = rw e refl; last = rw e refl; distinct = rw e tt; counted = rw e refl }
]

pub only_item : (x : Ptr) → Stored table chains x → x ≡ 1000
only_item x (v, i) = (bucket-has (v % 4) x (subst (λ p. has x (chains p) ≡ true) (steady v) i)).1

pub holds_item : Stored table chains 1000
holds_item = (b_hash, rw (steady b_hash) refl)

pub whole-IsCache : IsCache whole chains queue
whole-IsCache = record {
  table = table-Holds;
  queues = queue-IsQueue;
  queued = λ c x i.
      let (e, f) = bucket-has c x i in
      (subst (λ y. Stored table chains y) (sym f) holds_item, rw (f, e) refl);
  stored = λ x i. rw (only_item x i) (refl, refl, omega arith, refl);
  keys = λ x y i j fits. only_item y j ∙ sym (only_item x i);
}

-- the item at 5000 has the key of the one at 1000
may_store : MayStore whole chains 5000
may_store = record {
  outside = λ i. absurd (omega (arith, only_item 5000 i));
  unlinked = refl;
  whole = refl;
  small = omega arith;
  fits = omega arith;
  sizes = λ x i e. rw (only_item x i) refl;
}

bucket-short : (b : ℕ) → length (bucket b) + 1 < 5
bucket-short b = elim (Bool-cases (b == 1)) [
  | inl e ↦ rw e (omega arith)
  | inr e ↦ rw e (omega arith)
]

pub short : (v : ℕ) → length (chains (home table v)) + 1 < 5
short v = rw (steady v) (bucket-short (v % 4))

pub counts : (x : Ptr) → Stored table chains x → ((items x).refcount + 1) % 2 ^ 16 ≢ 0
counts x i = rw (only_item x i) (λ e. absurd (omega arith))

do_store_item-Stores_example :
    (s' : LruLists) × (chains' : Chains) × (queue' : ℕ → List Ptr) × (do_store_item 5
        ⦃env = machine⦄ 5000 whole
      ≡ some (tt, s'))
    × Stores whole chains 5000 s' chains' queue'
do_store_item-Stores_example =
    do_store_item-Stores 5 ⦃env = machine⦄ whole chains queue 5000 whole-IsCache may_store
      (λ e. absurd (omega arith)) (omega (arith, short b_hash)) counts

do_item_unlink-Parts_example :
    (s' : LruLists) × (chains' : Chains) × (queue' : ℕ → List Ptr) × (do_item_unlink 5
        ⦃env = machine⦄ 1000 whole
      ≡ some (tt, s'))
    × Parts whole chains 1000 s' chains' queue'
    × ((items 1000).refcount ≢ 0
        → ((s'.slabs.heap 1000).linked ≡ false)
          × ((s'.slabs.heap 1000).refcount ≡ (items 1000).refcount))
    × ((items 1000).refcount ≡ 0 → IsFreed ⦃env = machine⦄ 1000 whole s')
do_item_unlink-Parts_example =
    do_item_unlink-Parts 5 ⦃env = machine⦄ whole chains queue 1000 whole-IsCache holds_item
      (omega (arith, short b_hash))

do_item_release-IsCache_example :
    (s' : LruLists) × (do_item_release 5 ⦃env = machine⦄ 5000 whole ≡ some (tt, s'))
    × IsCache s' chains queue
    × ((x : Ptr) → x ≢ 5000 → s'.slabs.heap x ≡ items x)
    × (s'.assoc ≡ table)
    × (s'.ticks ≡ 0)
do_item_release-IsCache_example =
    do_item_release-IsCache 5 ⦃env = machine⦄ whole chains queue 5000 whole-IsCache
      (λ e. absurd (omega arith))

-- the key "b", and the value 0, 1, 2, …
abbrev pub key : CString
key = record { address = 4096; bytes = λ i. if i == 0 then 98 else 0; len = 1 }

abbrev same_key : CString
same_key = record { address = 4099; bytes = λ i. if i == 0 then 98 else 1; len = 1 }

abbrev value : Bytes
value i = i % 256

class_one : class_of whole key 7 ≡ 1
unfolding slabs_clsid
class_one = refl

pub free_chunk : HasChunk whole chains (class_of whole key 7) 2000 (3000 ∷ 3096 ∷ [])
free_chunk = rw class_one (record {
  class_known = (omega arith, omega arith);
  class_valid = used_class-IsValid;
  class_small = omega arith;
  free = refl;
  some_chunk = λ e. absurd (omega arith);
  outside = λ i. absurd (omega (arith, only_item 2000 i));
  unused = refl;
})

may_request : MayRequest whole key 7 value 2000
may_request = record {
  short = omega arith;
  size_small = omega arith;
  size_int = omega arith;
  key_bytes = λ i. ground arith;
  value_bytes = λ i. omega arith;
  chunk_bytes = λ i. omega arith;
}

room : HasRoom 5 whole chains key
room = record {
  sizes = λ x i e. rw (only_item x i) refl;
  counts = counts;
  enough = short (Calls.key_hash key);
}

get_item-store_item_example :
    (s' : LruLists) × (s'' : LruLists) × (buffer : Bytes) × (store_item 5 ⦃env = machine⦄ key value
        7 whole
      ≡ some (0, s'))
    × (get_item 5 ⦃env = machine⦄ same_key 0 (λ _. 0) s' ≡ some ((0, 7, buffer), s''))
    × ((j : ℕ) → j < 7 → buffer j ≡ value j)
get_item-store_item_example =
    get_item-store_item 5 ⦃env = machine⦄ key same_key value (λ _. 0) 7 0 whole chains queue 2000
      (3000 ∷ 3096 ∷ []) whole-IsCache free_chunk may_request room
      (refl, λ i. ground arith, λ i h. ground arith)
