-- ===== src/Assoc/Find.antt =====
-- The table as a whole: every cell that a hash value can belong to heads a chain, and an item
-- stands in the cell of its own hash value. Then a search in one chain is a search in the table.
use memcached4chaos.Base.{
  ℕ, ◌<◌, ◌≡◌, ◌≢◌, arith, true, false, List, some, ◌==◌, length, Bool-cases, inl, inr, ◌⊎◌, ap,
  ◌∙◌,
}
use memcached4chaos.System.{Ptr, null, Heap}
use memcached4chaos.Assoc.{AssociativeArray, Place, read, matches, home, same_bytes, assoc_find}
use memcached4chaos.Assoc.Chain.{
  has, AreDistinct, IsChain, search_chain, find_from-search, search_chain-found, search_chain-null,
}

abbrev pub Chains : Type 0
Chains = Place → List Ptr

-- The representation invariant, with the chains of all cells.
pub record Holds (a : AssociativeArray) (h : Heap) (chains : Chains) : Type 0 where
  pub chain : (v : ℕ) → IsChain h (read a h (home a v)) (chains (home a v))
  pub distinct : (v : ℕ) → AreDistinct (chains (home a v))
  pub placed : (v : ℕ) (x : Ptr) → has x (chains (home a v)) ≡ true → home a (h x).hv ≡ home a v

-- An item of the table.
abbrev pub Stored : AssociativeArray → Chains → Ptr → Type 0
Stored a chains x = (v : ℕ) × (has x (chains (home a v)) ≡ true)

-- No item of the table has this hash value and begins with these bytes.
abbrev pub Absent : AssociativeArray → Heap → Chains → ℕ → List ℕ → Type 0
Absent a h chains hash key = (x : Ptr) → Stored a chains x → matches hash key (h x) ≡ false

pub assoc_find-search :
    (fuel : ℕ) (a : AssociativeArray) (h : Heap) (chains : Chains) (hash : ℕ) (key : List ℕ)
    → Holds a h chains
    → length (chains (home a hash)) < fuel
    → assoc_find fuel a h hash key ≡ some (search_chain h hash key (chains (home a hash)))
unfolding assoc_find
assoc_find-search fuel a h chains hash key t enough =
    find_from-search fuel h hash key (read a h (home a hash)) (chains (home a hash)) (t.chain hash)
      enough

-- An item that fits a key stands in the cell of the key's hash value.
pub fits-home :
    (a : AssociativeArray) (h : Heap) (chains : Chains) (hash : ℕ) (key : List ℕ) (v : ℕ) (x : Ptr)
    → Holds a h chains
    → has x (chains (home a v)) ≡ true
    → matches hash key (h x) ≡ true
    → has x (chains (home a hash)) ≡ true
fits-home a h chains hash key v x t i fits =
    let same : hash ≡ (h x).hv = ground arith in rw (ap (home a) same ∙ t.placed v x i) i

-- assoc_find returns an item of the table with the hash value and the bytes of the key, or null,
-- and then no item of the whole table has them: an item with another cell has another hash value.
pub assoc_find_complete :
    (fuel : ℕ) (a : AssociativeArray) (h : Heap) (chains : Chains) (hash : ℕ) (key : List ℕ)
    → Holds a h chains
    → length (chains (home a hash)) < fuel
    → (x : Ptr) × (assoc_find fuel a h hash key ≡ some x)
      × (((x ≡ null) × Absent a h chains hash key)
          ⊎ ((x ≢ null)
              × Stored a chains x
              × ((h x).hv ≡ hash)
              × (same_bytes key (h x).body ≡ true)))
assoc_find_complete fuel a h chains hash key t enough =
    let xs = chains (home a hash) in
    let x = search_chain h hash key xs in
    (
      x,
      assoc_find-search fuel a h chains hash key t enough,
      elim (Bool-cases (x == null)) [
        | inl missing ↦ inl (
          ground arith,
          λ y (v, i). elim (Bool-cases (matches hash key (h y))) [
            | inr other ↦ other
            | inl fits ↦
                search_chain-null h hash key _ xs (t.chain hash) (ground arith) y
                  (fits-home a h chains hash key v y t i fits)
          ],
        )
        | inr found ↦
            let (i, fits) = search_chain-found h hash key _ xs (t.chain hash) (ground arith) in
            inr (ground arith, (hash, i), ground arith, ground arith)
      ],
    )
