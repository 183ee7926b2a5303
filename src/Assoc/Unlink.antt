-- ===== src/Assoc/Unlink.antt =====
-- Taking an item out of its chain, through the pointer that leads to it.
use memcached4chaos.Base.{
  ℕ, ◌≡◌, ◌≢◌, refl, arith, true, false, List, [], ◌∷◌, ◌==◌, Bool-cases, inl, inr, ap, ◌∙◌,
}
use memcached4chaos.System.{Ptr, null, Heap, Item, update, update_ne}
use memcached4chaos.Assoc.{AssociativeArray, Place, old, primary, after, read, write, matches}
use memcached4chaos.Assoc.Cells.{same_place}
use memcached4chaos.Assoc.Chain.{
  has, AreDistinct, IsChain, IsChain-frame, search_chain, search_chain-found, drop_match, before_of,
}

-- `pos` is no h_next of an item of `xs`.
abbrev pub IsOff : Place → List Ptr → Type 0
IsOff (old b) xs = Unit
IsOff (primary b) xs = Unit
IsOff (after x) xs = has x xs ≡ false

read-write_self :
    (pos : Place) (p : Ptr) (a : AssociativeArray) (h : Heap)
    → read (write pos p a h).0 (write pos p a h).1 pos ≡ p
unfolding read write update
read-write_self (old b) p a h = ground arith
read-write_self (primary b) p a h = ground arith
read-write_self (after x) p a h = ground arith

-- A write leaves h_next of the other items alone, and all of an item but h_next.
pub next-write :
    (pos : Place) (p : Ptr) (a : AssociativeArray) (h : Heap) (x : Ptr)
    → IsOff pos (x ∷ [])
    → ((write pos p a h).1 x) ≡ h x
unfolding write update
next-write (old b) p a h x off = refl
next-write (primary b) p a h x off = refl
next-write (after y) p a h x off = ground arith

pub read-write_off :
    (pos b : Place) (p : Ptr) (a : AssociativeArray) (h : Heap)
    → same_place pos b ≡ false
    → read (write b p a h).0 (write b p a h).1 pos ≡ read a h pos
unfolding read write update
read-write_off (old c) (old b) p a h e = ground arith
read-write_off (primary c) (primary b) p a h e = ground arith
read-write_off (after c) (after b) p a h e = ground arith
read-write_off (old c) (primary b) p a h e = refl
read-write_off (old c) (after b) p a h e = refl
read-write_off (primary c) (old b) p a h e = refl
read-write_off (primary c) (after b) p a h e = refl
read-write_off (after c) (old b) p a h e = refl
read-write_off (after c) (primary b) p a h e = refl

pub read-off :
    (pos : Place) (a : AssociativeArray) (h : Heap) (it : Ptr) (new : Item)
    → IsOff pos (it ∷ [])
    → read a (update h it new) pos ≡ read a h pos
unfolding read update
read-off (old b) a h it new off = refl
read-off (primary b) a h it new off = refl
read-off (after y) a h it new off = ground arith

IsOff-of :
    (pos : Place) (xs : List Ptr) (x : Ptr) → has x xs ≡ true → IsOff pos xs → IsOff pos (x ∷ [])
IsOff-of (old b) xs x i off = tt
IsOff-of (primary b) xs x i off = tt
IsOff-of (after y) xs x i off = elim (Bool-cases (y == x)) [
  | inl e ↦ let eq : y ≡ x = ground arith in ground (arith, ap (λ z. has z xs) eq)
  | inr e ↦ ground arith
]

off-ne :
    (pos : Place) (xs : List Ptr) (z : Ptr)
    → has z xs ≡ true
    → IsOff pos xs
    → same_place pos (after z) ≡ false
off-ne (old b) xs z i off = refl
off-ne (primary b) xs z i off = refl
off-ne (after y) xs z i off = elim (Bool-cases (y == z)) [
  | inl e ↦ let eq : y ≡ z = ground arith in ground (arith, ap (λ w. has w xs) eq)
  | inr e ↦ e
]

pub not_member : (x y : Ptr) (xs : List Ptr) → has x xs ≡ false → has y xs ≡ true → y ≢ x
not_member x y xs out i e = ground (arith, ap (λ w. has w xs) e)

-- The pointer stands behind an item of the chain, or where the chain begins.
pub before_of-after :
    (h : Heap) (hash : ℕ) (key : List ℕ) (x : Ptr) (xs : List Ptr)
    → (z : Ptr) × (before_of h hash key (after x) xs ≡ after z) × (has z (x ∷ xs) ≡ true)
unfolding before_of
before_of-after h hash key x [] = (x, refl, ground arith)
before_of-after h hash key x (y ∷ xs) = elim (Bool-cases (matches hash key (h y))) [
  | inl e ↦ (x, rw e, ground arith)
  | inr e ↦ let (z, at, i) = before_of-after h hash key y xs in (z, rw e at, ground arith)
]

-- *before = it->h_next, after it->h_next has been kept and set to null
unfoldable pub cut : Place → Ptr → AssociativeArray → Heap → AssociativeArray × Heap
cut b it a h = write b (h it).h_next a (update h it (record (h it) { h_next = null }))

-- The cut leaves the chain without the item.
pub cut-drop_match :
    (a : AssociativeArray) (h : Heap) (hash : ℕ) (key : List ℕ) (pos : Place) (xs : List Ptr)
    → IsChain h (read a h pos) xs
    → IsOff pos xs
    → AreDistinct xs
    → let it = search_chain h hash key xs in
      let b = before_of h hash key pos xs in
      it ≢ null
      → (read a h b ≡ it)
        × IsChain
            (cut b it a h).1
            (read (cut b it a h).0 (cut b it a h).1 pos)
            (drop_match h hash key xs)
unfolding cut search_chain before_of drop_match read
cut-drop_match a h hash key pos [] c off d found = absurd (found refl)
cut-drop_match a h hash key pos (x ∷ xs) (at, ne, rest) off (fresh, d) found =
    elim (Bool-cases (matches hash key (h x))) [
      | inl fits ↦ rw fits (at, first fits)
      | inr other ↦
          let (z, stands, i) = before_of-after h hash key x xs in
          let it = search_chain h hash key xs in
          let found' : it ≢ null = rw other at found in
          let (j, _) = search_chain-found h hash key _ xs rest found' in
          let (here, tail) = cut-drop_match a h hash key (after x) xs rest fresh d found' in
          let apart : same_place pos (before_of h hash key (after x) xs) ≡ false =
            rw stands (off-ne pos (x ∷ xs) z i off) in
          let kept =
            read-write_off pos (before_of h hash key (after x) xs) (h it).h_next a _ apart
            ∙ read-off pos a h it _ (IsOff-of pos (x ∷ xs) it (ground arith) off) in
          rw other (here, (kept ∙ at, ne, tail))
    ]
  where
    h₁ : Heap
    h₁ = update h x (record (h x) { h_next = null })

    same : (y : Ptr) → has y xs ≡ true → ((write pos (h x).h_next a h₁).1 y).h_next ≡ (h y).h_next
    same y i = ap Item.h_next (
        next-write pos (h x).h_next a h₁ y (IsOff-of pos (x ∷ xs) y (ground arith) off)
        ∙ update_ne h x y _ (not_member x y xs fresh i))

    first :
        matches hash key (h x) ≡ true
        → IsChain (cut pos x a h).1 (read (cut pos x a h).0 (cut pos x a h).1 pos) xs
    first fits =
        rw (read-write_self pos (h x).h_next a h₁)
          (IsChain-frame h (write pos (h x).h_next a h₁).1 (h x).h_next xs same rest)
