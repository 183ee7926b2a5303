-- ===== src/Tests/Queues.antt =====
-- A queue of two items, the newer at address 1000 and the older at 2000; the item at 3000 is in none.
use memcached4chaos.Base.{
  ◌≡◌, refl, arith, some, has, ◌≢◌, ℕ, List, true, false, ◌==◌, if◌then◌else◌, [], ◌∷◌,
}
use memcached4chaos.System.{Heap, Ptr, null, zero_item}
use memcached4chaos.Lru.Monad.{LruLists}
use memcached4chaos.Lru.Queue.{item_link_q, item_unlink_q}
use memcached4chaos.Lru.Queue.Lists.{IsQueue, Others, item_link_q-IsQueue}
use memcached4chaos.Lru.Queue.Removal.{item_unlink_q-IsQueue}
use memcached4chaos.Lru.Items.{do_item_update}
use memcached4chaos.Lru.Update.{Bumped, do_item_update-IsQueue}
use memcached4chaos.Tests.Machine.{machine}
use memcached4chaos.Tests.Cache.{empty_lists}

abbrev items : Heap
items p =
    if p == 1000
    then record zero_item { linked = true; slabs_clsid = 1; next = 2000 }
    else if p == 2000
    then record zero_item { linked = true; slabs_clsid = 1; prev = 1000 }
    else record zero_item { slabs_clsid = 1 }

abbrev two_items : LruLists
two_items = record empty_lists {
  slabs = record empty_lists.slabs { heap = items };
  heads = λ c. if c == 1 then 1000 else null;
  tails = λ c. if c == 1 then 2000 else null;
  sizes = λ c. if c == 1 then 2 else 0;
}

two_items-IsQueue : IsQueue two_items 1 (1000 ∷ 2000 ∷ [])
two_items-IsQueue = record {
  linked = (refl, λ e. absurd (omega arith), refl, (refl, λ e. absurd (omega arith), refl, refl));
  last = refl;
  distinct = (refl, (refl, tt));
  counted = refl;
}

item_link_q-IsQueue_example :
    (s' : LruLists) × (item_link_q 3000 two_items ≡ some (tt, s'))
    × IsQueue s' 1 (3000 ∷ 1000 ∷ 2000 ∷ [])
    × Others 1 (3000 ∷ 1000 ∷ 2000 ∷ []) two_items s'
item_link_q-IsQueue_example =
    item_link_q-IsQueue 3000 two_items (1000 ∷ 2000 ∷ []) two_items-IsQueue
      (λ e. absurd (omega arith)) refl (omega arith) refl

item_unlink_q-IsQueue_example :
    (s' : LruLists) × (item_unlink_q 2000 two_items ≡ some (tt, s'))
    × IsQueue s' 1 (1000 ∷ [])
    × Others 1 (1000 ∷ 2000 ∷ []) two_items s'
item_unlink_q-IsQueue_example =
    item_unlink_q-IsQueue 2000 two_items (1000 ∷ []) [] two_items-IsQueue (omega arith)

do_item_update-IsQueue_example :
    (s' : LruLists) × (do_item_update 5 ⦃env = machine⦄ 2000 two_items ≡ some (tt, s'))
    × IsQueue s' 1 (2000 ∷ 1000 ∷ [])
    × ((s'.slabs.heap 2000).time ≡ 1000)
    × ((j : ℕ) (zs : List Ptr)
        → j ≢ 1
        → ((y : Ptr) → has y zs ≡ true → has y (1000 ∷ 2000 ∷ []) ≡ false)
        → IsQueue two_items j zs
        → IsQueue s' j zs)
    × ((x : Ptr) → Bumped (two_items.slabs.heap x) (s'.slabs.heap x))
    × (s'.assoc ≡ two_items.assoc)
    × (s'.item_size_max ≡ two_items.item_size_max)
do_item_update-IsQueue_example =
    do_item_update-IsQueue 5 ⦃env = machine⦄ 2000 two_items (1000 ∷ []) [] 1000 refl
      two_items-IsQueue (omega arith) refl refl (omega arith)
