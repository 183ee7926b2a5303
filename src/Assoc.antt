-- ===== src/Assoc.antt =====
-- cache/assoc.hpp and cache/assoc.cpp: the hash table. A bucket is a chain of items through
-- h_next; while the table grows, the buckets not yet moved stand in the old one.
pub mod Chain
pub mod Find
pub mod Expand
pub mod Cells
pub mod Insert
pub mod Unlink
pub mod Erase
pub mod Delete
pub mod Growing
pub mod Move
pub mod Round
pub mod Maintenance
pub mod Fresh
pub mod Items
use memcached4chaos.Base.{
  ℕ, zero, suc, ◌+◌, ◌-◌, ◌*◌, ◌/◌, ◌%◌, ◌^◌, Bool, true, false, not, ◌&&◌, List, [], ◌∷◌, Option,
  none, some, ltb, leb, ◌==◌, if◌then◌else◌, bit_and,
}
use memcached4chaos.System.{Ptr, null, Item, Heap, update}
use memcached4chaos.Hash.Mem.{Bytes, skip}

-- class AssociativeArray
pub record AssociativeArray : Type 0 where
  pub hashpower : ℕ
  pub hash_items : ℕ
  pub primary_hashtable : ℕ → Ptr
  pub old_hashtable : ℕ → Ptr
  pub expanding : Bool
  pub expand_bucket : ℕ

-- AssociativeArray::AssociativeArray: `raw` is what stood in the object's memory before, and
-- `allocated` whether calloc succeeds. `none`: abort().
unfoldable pub new_table : Bool → ℕ → AssociativeArray → Option AssociativeArray
new_table allocated hashpower raw =
    if allocated
    then some (record raw { hashpower = hashpower; primary_hashtable = λ _. null })
    else none

-- (uint32_t) 1 << n, for n < 32
abbrev pub hashsize : ℕ → ℕ
hashsize n = 2 ^ n

abbrev pub hashmask : ℕ → ℕ
hashmask n = hashsize n - 1

-- memcmp(key, item_get_key(it), nkey) == 0, for a key of nkey bytes
unfoldable pub same_bytes : List ℕ → Bytes → Bool
same_bytes [] body = true
same_bytes (b ∷ key) body = b == body 0 && same_bytes key (skip 1 body)

-- What a `hash_item**` of assoc.cpp points to: a cell of either array, or the h_next of an item.
pub data Place : Type 0 where
  old : ℕ → Place
  primary : ℕ → Place
  after : Ptr → Place

-- bucket = hash & hashmask(this->hashpower - 1), where the test is passed
unfoldable pub which_hashtable : AssociativeArray → ℕ → Bool
which_hashtable a hash =
    a.expanding && leb a.expand_bucket (bit_and hash (hashmask (a.hashpower - 1)))

unfoldable pub get_bucket : AssociativeArray → ℕ → ℕ
get_bucket a hash = bit_and (hashmask a.hashpower) hash

-- the cell that a hash value belongs to
unfoldable pub home : AssociativeArray → ℕ → Place
unfolding which_hashtable get_bucket
home a hash =
    if which_hashtable a hash
    then old (bit_and hash (hashmask (a.hashpower - 1)))
    else primary (get_bucket a hash)

-- *place, and *place = p
unfoldable pub read : AssociativeArray → Heap → Place → Ptr
read a h (old b) = a.old_hashtable b
read a h (primary b) = a.primary_hashtable b
read a h (after x) = (h x).h_next

unfoldable pub write : Place → Ptr → AssociativeArray → Heap → AssociativeArray × Heap
write (old b) p a h = (record a { old_hashtable = update a.old_hashtable b p }, h)
write (primary b) p a h = (record a { primary_hashtable = update a.primary_hashtable b p }, h)
write (after x) p a h = (a, update h x (record (h x) { h_next = p }))

-- the test of both loops
abbrev pub matches : ℕ → List ℕ → Item → Bool
matches hash key it = hash == it.hv && same_bytes key it.body

-- Each loop over a chain runs on fuel; `none` means that it was not enough.
unfoldable pub find_from : ℕ → Heap → ℕ → List ℕ → Ptr → Option Ptr
find_from zero h hash key it = none
find_from (suc fuel) h hash key it =
    let rest = find_from fuel h hash key (h it).h_next in
    if it == null then some null else if matches hash key (h it) then some it else rest

unfoldable pub assoc_find : ℕ → AssociativeArray → Heap → ℕ → List ℕ → Option Ptr
assoc_find fuel a h hash key = find_from fuel h hash key (read a h (home a hash))

unfoldable pub before_from : ℕ → AssociativeArray → Heap → ℕ → List ℕ → Place → Option Place
before_from zero a h hash key pos = none
before_from (suc fuel) a h hash key pos =
    let it = read a h pos in
    let rest = before_from fuel a h hash key (after it) in
    if it == null then some pos else if matches hash key (h it) then some pos else rest

unfoldable pub hashitem_before : ℕ → AssociativeArray → Heap → ℕ → List ℕ → Option Place
hashitem_before fuel a h hash key = before_from fuel a h hash key (home a hash)

-- The new table is all null. `allocated` and `started` say whether calloc and the thread for the
-- expansion succeed; without either the table in use stays as it was.
unfoldable pub assoc_expand : (allocated started : Bool) → AssociativeArray → AssociativeArray
assoc_expand allocated started a =
    if allocated
    then (if started
        then record a {
          old_hashtable = a.primary_hashtable;
          primary_hashtable = λ _. null;
          hashpower = a.hashpower + 1;
          expanding = true;
          expand_bucket = 0;
        }
        else record a { old_hashtable = a.primary_hashtable; expanding = false; expand_bucket = 0 })
    else record a { old_hashtable = a.primary_hashtable }

abbrev pub link_front : Ptr → Place → AssociativeArray → Heap → AssociativeArray × Heap
link_front it cell a h =
    let h = update h it (record (h it) { h_next = read a h cell }) in write cell it a h

-- if (!this->expanding && this->hash_items > (hashsize(this->hashpower) * 3) / 2) assoc_expand();
unfoldable pub grow_if_full : (allocated started : Bool) → AssociativeArray → AssociativeArray
grow_if_full allocated started a =
    if not a.expanding && ltb (hashsize a.hashpower * 3 % 2 ^ 32 / 2) a.hash_items
    then assoc_expand allocated started a
    else a

-- `none`: the assertion fails, or the fuel of its search was not enough. `key` is the item's key.
unfoldable pub assoc_insert :
    ℕ
    → (allocated started : Bool) → List ℕ
    → Ptr
    → AssociativeArray
    → Heap
    → Option (AssociativeArray × Heap)
assoc_insert fuel allocated started key it a h =
    let (b, h') = link_front it (home a (h it).hv) a h in
    let b = record b { hash_items = (b.hash_items + 1) % 2 ^ 32 } in
    elim (assoc_find fuel a h (h it).hv key) [
      | none ↦ none
      | some found ↦ if found == null then some (grow_if_full allocated started b, h') else none
    ]

-- `none`: there is nothing to delete and the assertion fails, or the fuel was not enough.
unfoldable pub assoc_delete :
    ℕ → ℕ → List ℕ → AssociativeArray → Heap → Option (AssociativeArray × Heap)
assoc_delete fuel hash key a h = elim (hashitem_before fuel a h hash key) [
  | none ↦ none
  | some before ↦
      let it = read a h before in
      let next = (h it).h_next in
      let a' = record a { hash_items = (a.hash_items + 2 ^ 32 - 1) % 2 ^ 32 } in
      let h' = update h it (record (h it) { h_next = null }) in
      if it == null then none else some (write before next a' h')
]

-- One chain of the old table, item by item, to the front of its new bucket.
unfoldable pub move_chain : ℕ → Ptr → AssociativeArray → Heap → Option (AssociativeArray × Heap)
move_chain zero it a h = none
move_chain (suc fuel) it a h =
    let (a', h') = link_front it (primary (get_bucket a (h it).hv)) a h in
    let rest = move_chain fuel (h it).h_next a' h' in if it == null then some (a, h) else rest

-- One round of assoc_maintenance_thread, under the lock: one bucket, and the end of the expansion.
unfoldable pub maintenance_round : ℕ → AssociativeArray → Heap → Option (AssociativeArray × Heap)
maintenance_round fuel a h =
    if a.expanding
    then elim (move_chain fuel (a.old_hashtable a.expand_bucket) a h) [
      | none ↦ none
      | some (a, h) ↦
          let next = a.expand_bucket + 1 in
          some (
            record a {
              old_hashtable = update a.old_hashtable a.expand_bucket null;
              expand_bucket = next;
              expanding = not (next == hashsize (a.hashpower - 1));
            },
            h,
          )
    ]
    else some (a, h)

-- assoc_maintenance_thread, where nobody else takes the lock between its rounds; `none`: they were
-- not enough.
unfoldable pub assoc_maintenance_thread :
    (rounds fuel : ℕ) → AssociativeArray → Heap → Option (AssociativeArray × Heap)
assoc_maintenance_thread zero fuel a h = none
assoc_maintenance_thread (suc rounds) fuel a h = elim (maintenance_round fuel a h) [
  | none ↦ none
  | some (a', h') ↦
      let rest = assoc_maintenance_thread rounds fuel a' h' in
      if a'.expanding then rest else some (a', h')
]
