-- ===== src/Assoc/Erase.antt =====
-- What a cut leaves in the chain and in the items.
use memcached4chaos.Base.{
  ℕ, ◌≡◌, ◌≢◌, refl, arith, true, false, ◌&&◌, not, List, [], ◌∷◌, ◌⊎◌, ◌==◌, Bool-cases, inl, inr,
  ap,
}
use memcached4chaos.System.{Ptr, null, Heap, update}
use memcached4chaos.Assoc.{AssociativeArray, Place, old, primary, after, write, matches}
use memcached4chaos.Assoc.Cells.{is_cell}
use memcached4chaos.Assoc.Chain.{
  has, AreDistinct, IsChain, search_chain, search_chain-found, drop_match, before_of,
}
use memcached4chaos.Assoc.Unlink.{IsOff, cut, before_of-after, not_member}

pub IsOff-cell : (c : Place) (xs : List Ptr) → is_cell c ≡ true → IsOff c xs
IsOff-cell (old b) xs e = tt
IsOff-cell (primary b) xs e = tt
IsOff-cell (after x) xs e = cc

pub before_of-place :
    (h : Heap) (hash : ℕ) (key : List ℕ) (pos : Place) (xs : List Ptr)
    → (before_of h hash key pos xs ≡ pos)
      ⊎ ((z : Ptr) × (before_of h hash key pos xs ≡ after z) × (has z xs ≡ true))
unfolding before_of
before_of-place h hash key pos [] = inl refl
before_of-place h hash key pos (x ∷ xs) = elim (Bool-cases (matches hash key (h x))) [
  | inl e ↦ inl (rw e)
  | inr e ↦ inr (let (z, at, i) = before_of-after h hash key x xs in (z, rw e at, i))
]

-- The chain keeps exactly its other items.
pub has-drop_match :
    (h : Heap) (hash : ℕ) (key : List ℕ) (p : Ptr) (xs : List Ptr)
    → IsChain h p xs
    → AreDistinct xs
    → search_chain h hash key xs ≢ null
    → (y : Ptr)
    → has y (drop_match h hash key xs) ≡ (has y xs && not (y == search_chain h hash key xs))
unfolding search_chain drop_match
has-drop_match h hash key p [] c d found y = absurd (found refl)
has-drop_match h hash key p (x ∷ xs) (at, ne, rest) (fresh, d) found y =
    elim (Bool-cases (matches hash key (h x))) [
      | inl fits ↦ rw fits (elim (Bool-cases (y == x)) [
        | inl e ↦ let eq : y ≡ x = ground arith in ground (arith, ap (λ w. has w xs) eq)
        | inr e ↦ ground arith
      ])
      | inr other ↦
          let found' = rw other at found in
          let (i, _) = search_chain-found h hash key _ xs rest found' in
          let it = search_chain h hash key xs in
          let apart : it ≢ x = not_member x it xs fresh i in
          rw other (ground (arith, has-drop_match h hash key (h x).h_next xs rest d found' y))
    ]

pub drop_match-distinct :
    (h : Heap) (hash : ℕ) (key : List ℕ) (xs : List Ptr)
    → AreDistinct xs
    → AreDistinct (drop_match h hash key xs)
      × ((y : Ptr) → has y xs ≡ false → has y (drop_match h hash key xs) ≡ false)
unfolding drop_match
drop_match-distinct h hash key [] d = (tt, λ y e. refl)
drop_match-distinct h hash key (x ∷ xs) (fresh, d) =
    let (kept, out) = drop_match-distinct h hash key xs d in
    elim (Bool-cases (matches hash key (h x))) [
      | inl fits ↦ rw fits (d, λ y e. ground arith)
      | inr other ↦ rw other ((out x fresh, kept), λ y e. ground (arith, out y))
    ]

-- Of an item the cut changes nothing but h_next.
pub cut-hv :
    (b : Place) (it : Ptr) (a : AssociativeArray) (h : Heap) (y : Ptr)
    → ((cut b it a h).1 y).hv ≡ (h y).hv
unfolding cut write update
cut-hv (old b) it a h y = ground arith
cut-hv (primary b) it a h y = ground arith
cut-hv (after x) it a h y = ground arith
