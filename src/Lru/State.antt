-- ===== src/Lru/State.antt =====
-- The cache as a whole: what the hash table, the queues and the flags of the items say agrees.
use memcached4chaos.Base.{ℕ, zero, suc, ◌<◌, ◌≡◌, ap, ◌∙◌, sym, refl, true, false, List, has, arith}
use memcached4chaos.System.{Ptr, Heap, Item}
use memcached4chaos.Hash.Mem.{Bytes, skip}
use memcached4chaos.Slabs.{SlabAllocator, power_largest_max}
use memcached4chaos.Assoc.{
  AssociativeArray, Place, old, primary, after, read, home, matches, same_bytes,
}
use memcached4chaos.Assoc.Cells.{is_cell, home-is_cell}
use memcached4chaos.Assoc.Chain.{IsChain-frame}
use memcached4chaos.Assoc.Find.{Chains, Holds, Stored}
use memcached4chaos.Lru.Monad.{LruLists, prefix}
use memcached4chaos.Lru.Queue.Runs.{clsid}
use memcached4chaos.Lru.Queue.Lists.{IsQueue, frame-IsQueue}

-- The key of one item finds another.
abbrev pub Fits : Item → Item → Type 0
Fits i j = matches i.hv (prefix i.nkey i.body) j ≡ true

-- An item with the same key and hash value.
abbrev pub SameKey : Item → Item → Type 0
SameKey i j = (j.hv ≡ i.hv) × (j.nkey ≡ i.nkey) × (j.body ≡ i.body)

pub Fits-same : (i i' j j' : Item) → SameKey i i' → SameKey j j' → Fits i' j' → Fits i j
Fits-same i i' j j' (e, f, g) (e', f', g') fits = rw (e, f, g, e', g') at fits

-- Whether a key fits does not depend on which of two items of one size it is taken from.
same_bytes-swap : (n : ℕ) (k k' : Bytes) → same_bytes (prefix n k) k' ≡ same_bytes (prefix n k') k
unfolding same_bytes
same_bytes-swap zero k k' = refl
same_bytes-swap (suc n) k k' = ground (arith, same_bytes-swap n (skip 1 k) (skip 1 k'))

same_bytes_self : (n : ℕ) (k : Bytes) → same_bytes (prefix n k) k ≡ true
unfolding same_bytes
same_bytes_self zero k = refl
same_bytes_self (suc n) k = ground (arith, same_bytes_self n (skip 1 k))

pub Fits-self : (i : Item) → Fits i i
Fits-self i = ground (arith, same_bytes_self i.nkey i.body)

pub Fits-swap : (i j : Item) → j.nkey ≡ i.nkey → Fits i j → Fits j i
Fits-swap i j e fits =
    let swapped = same_bytes-swap i.nkey i.body j.body in
    let parts : (i.hv ≡ j.hv) × (same_bytes (prefix i.nkey i.body) j.body ≡ true) = ground arith in
    rw (e, parts.0, sym swapped, parts.1) (ground arith)

-- Two items that a key fits, one of the key's length: the key of this one fits the other.
same_bytes-join :
    (n : ℕ) (k k' k'' : Bytes)
    → same_bytes (prefix n k) k' ≡ true
    → same_bytes (prefix n k) k'' ≡ true
    → same_bytes (prefix n k') k'' ≡ true
unfolding same_bytes
same_bytes-join zero k k' k'' e f = refl
same_bytes-join (suc n) k k' k'' e f =
    ground (arith, same_bytes-join n (skip 1 k) (skip 1 k') (skip 1 k''))

pub Fits-join : (i j l : Item) → j.nkey ≡ i.nkey → Fits i j → Fits i l → Fits j l
Fits-join i j l e f g = rw e (ground (arith, same_bytes-join i.nkey i.body j.body l.body))

-- The table and the queues are sound, they hold the same items, each in the queue of its class, and
-- no item hides another under its key.
pub record IsCache (s : LruLists) (chains : Chains) (queue : ℕ → List Ptr) : Type 0 where
  pub table : Holds s.assoc s.slabs.heap chains
  pub queues : (c : ℕ) → IsQueue s c (queue c)
  pub queued :
      (c : ℕ) (x : Ptr) → has x (queue c) ≡ true → Stored s.assoc chains x × (clsid x s ≡ c)
  pub stored :
      (x : Ptr)
      → Stored s.assoc chains x
      → ((s.slabs.heap x).linked ≡ true)
        × ((s.slabs.heap x).slabbed ≡ false)
        × (clsid x s < power_largest_max)
        × (has x (queue (clsid x s)) ≡ true)
  pub keys :
      (x y : Ptr)
      → Stored s.assoc chains x
      → Stored s.assoc chains y
      → Fits (s.slabs.heap x) (s.slabs.heap y)
      → y ≡ x

-- The table does not read the other fields of an item.
read-cell :
    (c : Place) (a : AssociativeArray) (h h' : Heap) → is_cell c ≡ true → read a h' c ≡ read a h c
unfolding read
read-cell (old b) a h h' e = refl
read-cell (primary b) a h h' e = refl
read-cell (after x) a h h' e = cc

pub Holds-frame :
    (a : AssociativeArray) (h h' : Heap) (chains : Chains)
    → ((x : Ptr) → Stored a chains x → ((h' x).hv ≡ (h x).hv) × ((h' x).h_next ≡ (h x).h_next))
    → Holds a h chains
    → Holds a h' chains
Holds-frame a h h' chains same t = record {
  chain = λ v. rw (read-cell (home a v) a h h' (home-is_cell a v)) (
      IsChain-frame h h' (read a h (home a v)) (chains (home a v)) (λ x i. (same x (v, i)).1)
        (t.chain v));
  distinct = t.distinct;
  placed = λ v x i. ap (home a) (same x (v, i)).0 ∙ t.placed v x i;
}

-- An item that differs in its time and its count at most.
abbrev pub Agrees : Item → Item → Type 0
Agrees i j = j ≡ record i { refcount = j.refcount; time = j.time }

pub Agrees-refl : (i j : Item) → j ≡ i → Agrees i j
Agrees-refl i j e = e ∙ ap (λ (k : Item). record i { refcount = k.refcount; time = k.time }) (sym e)

Agrees-key : (i j : Item) → Agrees i j → SameKey i j
Agrees-key i j e =
    (ap (λ (k : Item). k.hv) e, ap (λ (k : Item). k.nkey) e, ap (λ (k : Item). k.body) e)

module _ (s : LruLists) (slabs' : SlabAllocator) (n : ℕ) (chains : Chains) (queue : ℕ → List Ptr)
    (same : (x : Ptr) → Stored s.assoc chains x → Agrees (s.slabs.heap x) (slabs'.heap x))
    (k : IsCache s chains queue) where
  abbrev changed : LruLists
  changed = record s { slabs = slabs'; ticks = n }

  kept : (x : Ptr) → Stored s.assoc chains x → clsid x changed ≡ clsid x s
  kept x i = ap (λ (j : Item). j.slabs_clsid) (same x i)

  -- What the allocator and the clock do, and changes of other items, of times and of counts, leave
  -- the cache as it is.
  pub IsCache-frame : IsCache changed chains queue
  IsCache-frame = record {
    table =
        Holds-frame s.assoc s.slabs.heap slabs'.heap chains
          (λ x i. (ap (λ (j : Item). j.hv) (same x i), ap (λ (j : Item). j.h_next) (same x i)))
          k.table;
    queues = λ c.
        frame-IsQueue s changed c (queue c) (refl, refl, refl)
          (λ y i.
            let e = same y (k.queued c y i).0 in
            (ap (λ (j : Item). j.prev) e, ap (λ (j : Item). j.next) e))
          (k.queues c);
    queued = λ c x i. let (at, e) = k.queued c x i in (at, kept x at ∙ e);
    stored = λ x i.
        let e = same x i in
        let (linked, whole, small, j) = k.stored x i in
        (
          ap (λ (j : Item). j.linked) e ∙ linked,
          ap (λ (j : Item). j.slabbed) e ∙ whole,
          rw (kept x i) small,
          rw (kept x i) j,
        );
    keys = λ x y i j fits. k.keys x y i j (
        Fits-same (s.slabs.heap x) (slabs'.heap x) (s.slabs.heap y) (slabs'.heap y)
          (Agrees-key (s.slabs.heap x) (slabs'.heap x) (same x i))
          (Agrees-key (s.slabs.heap y) (slabs'.heap y) (same y j)) fits);
  }
