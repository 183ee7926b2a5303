-- ===== src/Lru/Monad.antt =====
-- The state of class LRU_Lists, with the hash table and the allocator that it owns, and the steps
-- that its methods are made of. The public methods hold cache_lock from their first to their last
-- step, so each is one run.
use memcached4chaos.Base.{
  ℕ, zero, suc, ◌+◌, ◌%◌, ◌^◌, Bool, List, [], ◌∷◌, Option, none, some, ◌==◌, if◌then◌else◌,
}
use memcached4chaos.System.{Ptr, null, Env, Item, update}
use memcached4chaos.Hash.Mem.{Bytes, skip}
use memcached4chaos.Slabs.{SlabAllocator}
use memcached4chaos.Assoc.{AssociativeArray}

-- class LRU_Lists. `ticks` counts the questions to the clock and to the system.
pub record LruLists : Type 0 where
  pub item_size_max : ℕ
  pub assoc : AssociativeArray
  pub slabs : SlabAllocator
  pub heads : ℕ → Ptr
  pub tails : ℕ → Ptr
  pub sizes : ℕ → ℕ
  pub ticks : ℕ

-- `none`: an assertion fails, a null pointer is read, or the fuel of a search in the hash table
-- was not enough.
abbrev pub Cmd : Type 0 → Type 0
Cmd A = LruLists → Option (A × LruLists)

abbrev pub pure : {A : Type 0} → A → Cmd A
pure a s = some (a, s)

infixl 5 ◌>>=◌ ◌>>◌
abbrev pub ◌>>=◌ : {A B : Type 0} → Cmd A → (A → Cmd B) → Cmd B
◌>>=◌ m f s = elim (m s) [ none ↦ none | some (a, s') ↦ f a s' ]

abbrev pub ◌>>◌ : {B : Type 0} → Cmd (Unit {0}) → Cmd B → Cmd B
m >> k = m >>= λ _. k

abbrev pub assert : Bool → Cmd (Unit {0})
assert b s = if b then some (tt, s) else none

abbrev pub get : Cmd LruLists
get s = some (s, s)

abbrev pub modify : (LruLists → LruLists) → Cmd (Unit {0})
modify f s = some (tt, f s)

-- *p
unfoldable pub load : Ptr → Cmd Item
load p s = if p == null then none else some (s.slabs.heap p, s)

-- *p changed
unfoldable pub change : Ptr → (Item → Item) → Cmd (Unit {0})
change p f s =
    if p == null
    then none
    else some (
      tt,
      record s { slabs = record s.slabs { heap = update s.slabs.heap p (f (s.slabs.heap p)) } },
    )

module _ ⦃env : Env⦄ where
  -- get_current_time(): a rel_time_t has 32 bits
  unfoldable pub get_current_time : Cmd ℕ
  get_current_time s = some (env.time s.ticks % 2 ^ 32, record s { ticks = s.ticks + 1 })

-- A run of the hash table's code: it shares the items.
abbrev pub on_assoc :
    (AssociativeArray → (Ptr → Item) → Option (AssociativeArray × (Ptr → Item))) → Cmd (Unit {0})
on_assoc f s = elim (f s.assoc s.slabs.heap) [
  | none ↦ none
  | some (a, h) ↦ some (tt, record s { assoc = a; slabs = record s.slabs { heap = h } })
]

-- A run of the allocator's code.
abbrev pub on_slabs : {A : Type 0} → (SlabAllocator → Option (A × SlabAllocator)) → Cmd A
on_slabs f s = elim (f s.slabs) [
  | none ↦ none
  | some (a, slabs) ↦ some (a, record s { slabs = slabs })
]

-- The first n bytes: the key of an item, as memcmp and memcpy are given it.
abbrev pub prefix : ℕ → Bytes → List ℕ
prefix zero k = []
prefix (suc n) k = k 0 ∷ prefix n (skip 1 k)
