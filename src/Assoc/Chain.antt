-- ===== src/Assoc/Chain.antt =====
-- Chains on the heap, the searches along them, and what the searches find.
use memcached4chaos.Base.{
  ℕ, zero, suc, ◌<◌, ◌≡◌, ◌≢◌, refl, arith, true, false, List, [], ◌∷◌, some, if◌then◌else◌, length,
  Bool-cases, inl, inr,
}
pub use memcached4chaos.Base.{has, AreDistinct}
use memcached4chaos.System.{Ptr, null, Heap}
use memcached4chaos.Assoc.{AssociativeArray, Place, after, read, matches, find_from, before_from}

-- From `p` on, h_next leads through the items `xs` to null.
abbrev pub IsChain : Heap → Ptr → List Ptr → Type 0
IsChain h p [] = p ≡ null
IsChain h p (x ∷ xs) = (p ≡ x) × (x ≢ null) × IsChain h (h x).h_next xs

-- The first item of a chain that fits, or null.
unfoldable pub search_chain : Heap → ℕ → List ℕ → List Ptr → Ptr
search_chain h hash key [] = null
search_chain h hash key (x ∷ xs) = if matches hash key (h x) then x else search_chain h hash key xs

-- The chain without it.
unfoldable pub drop_match : Heap → ℕ → List ℕ → List Ptr → List Ptr
drop_match h hash key [] = []
drop_match h hash key (x ∷ xs) = if matches hash key (h x) then xs else x ∷ drop_match h hash key xs

-- Where the pointer to it stands.
unfoldable pub before_of : Heap → ℕ → List ℕ → Place → List Ptr → Place
before_of h hash key pos [] = pos
before_of h hash key pos (x ∷ xs) =
    if matches hash key (h x) then pos else before_of h hash key (after x) xs

-- A chain survives any change of the heap that leaves h_next alone on it.
pub IsChain-frame :
    (h h' : Heap) (p : Ptr) (xs : List Ptr)
    → ((x : Ptr) → has x xs ≡ true → (h' x).h_next ≡ (h x).h_next)
    → IsChain h p xs
    → IsChain h' p xs
IsChain-frame h h' p [] same c = c
IsChain-frame h h' p (x ∷ xs) same (at, ne, rest) = (
  at,
  ne,
  rw (same x (ground arith))
      (IsChain-frame h h' (h x).h_next xs (λ y i. same y (ground arith)) rest),
)

pub find_from-search :
    (fuel : ℕ) (h : Heap) (hash : ℕ) (key : List ℕ) (p : Ptr) (xs : List Ptr)
    → IsChain h p xs
    → length xs < fuel
    → find_from fuel h hash key p ≡ some (search_chain h hash key xs)
unfolding find_from search_chain
find_from-search zero h hash key p xs c lt = absurd (omega arith)
find_from-search (suc fuel) h hash key p [] c lt = ground arith
find_from-search (suc fuel) h hash key p (x ∷ xs) (at, ne, rest) lt =
    rw at (ground (arith, find_from-search fuel h hash key (h x).h_next xs rest))

pub before_from-before :
    (fuel : ℕ) (a : AssociativeArray) (h : Heap) (hash : ℕ) (key : List ℕ) (pos : Place)
    (xs : List Ptr)
    → IsChain h (read a h pos) xs
    → length xs < fuel
    → before_from fuel a h hash key pos ≡ some (before_of h hash key pos xs)
unfolding before_from before_of read
before_from-before zero a h hash key pos xs c lt = absurd (omega arith)
before_from-before (suc fuel) a h hash key pos [] c lt = rw c refl
before_from-before (suc fuel) a h hash key pos (x ∷ xs) (at, ne, rest) lt =
    rw at (ground (arith, before_from-before fuel a h hash key (after x) xs rest))

-- What is found stands in the chain and fits; if nothing is found, nothing in the chain fits.
pub search_chain-found :
    (h : Heap) (hash : ℕ) (key : List ℕ) (p : Ptr) (xs : List Ptr)
    → IsChain h p xs
    → let x = search_chain h hash key xs in
      x ≢ null → (has x xs ≡ true) × (matches hash key (h x) ≡ true)
unfolding search_chain
search_chain-found h hash key p [] c found = absurd (found refl)
search_chain-found h hash key p (x ∷ xs) (at, ne, rest) found =
    elim (Bool-cases (matches hash key (h x))) [
      | inl fits ↦ ground arith
      | inr other ↦
          let (i, fits) = search_chain-found h hash key (h x).h_next xs rest (rw other at found) in
          ground arith
    ]

pub search_chain-null :
    (h : Heap) (hash : ℕ) (key : List ℕ) (p : Ptr) (xs : List Ptr)
    → IsChain h p xs
    → search_chain h hash key xs ≡ null
    → (x : Ptr) → has x xs ≡ true
    → matches hash key (h x) ≡ false
unfolding search_chain
search_chain-null h hash key p [] c e x i = cc
search_chain-null h hash key p (y ∷ xs) (at, ne, rest) e x i = ground (
  arith,
  λ (q : search_chain h hash key xs ≡ null) (j : has x xs ≡ true).
      search_chain-null h hash key (h y).h_next xs rest q x j,
)
