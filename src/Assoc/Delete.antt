-- ===== src/Assoc/Delete.antt =====
-- assoc_delete: the first item that fits leaves its chain, and nothing else does.
use memcached4chaos.Base.{
  ℕ, ◌+◌, ◌-◌, ◌%◌, ◌^◌, ◌<◌, ◌≡◌, ◌≢◌, refl, arith, true, false, ◌&&◌, not, List, [], ◌∷◌, some,
  ◌==◌, if◌then◌else◌, length, Bool-cases, inl, inr, sym, ap, ◌∙◌,
}
use memcached4chaos.System.{Ptr, null, Heap, Item, update, update_ne}
use memcached4chaos.Assoc.{
  AssociativeArray, Place, old, primary, after, read, write, home, assoc_delete, hashitem_before,
}
use memcached4chaos.Assoc.Cells.{
  same_place, same_place→eq, same_place_self, is_cell, home-is_cell, home-write,
}
use memcached4chaos.Assoc.Chain.{
  has, AreDistinct, IsChain, IsChain-frame, search_chain, search_chain-found, drop_match, before_of,
  before_from-before,
}
use memcached4chaos.Assoc.Find.{Chains, Holds}
use memcached4chaos.Assoc.Insert.{counted-Holds, counted-home}
use memcached4chaos.Assoc.Unlink.{IsOff, cut, cut-drop_match, next-write, read-write_off, read-off}
use memcached4chaos.Assoc.Erase.{
  IsOff-cell, before_of-place, has-drop_match, drop_match-distinct, cut-hv,
}

abbrev pub without : ℕ → List ℕ → Heap → Place → Chains → Chains
without hash key h cell chains d =
    if same_place d cell then drop_match h hash key (chains cell) else chains d

module _ (a : AssociativeArray) (h : Heap) (chains : Chains) (hash : ℕ) (key : List ℕ)
    (t : Holds a h chains) (found : search_chain h hash key (chains (home a hash)) ≢ null) where
  cell : Place
  cell = home a hash

  xs : List Ptr
  unfolding cell
  xs = chains cell

  it : Ptr
  unfolding xs
  it = search_chain h hash key xs

  b : Place
  unfolding xs
  b = before_of h hash key cell xs

  a' : AssociativeArray
  unfolding b it
  a' = (cut b it a h).0

  h' : Heap
  unfolding b it
  h' = (cut b it a h).1

  mutual_facts :
      (read a h b ≡ it)
      × IsChain h' (read a' h' cell) (drop_match h hash key xs)
      × (has it xs ≡ true)
      × (is_cell cell ≡ true)
  unfolding a' h'
  mutual_facts =
      let c = t.chain hash in
      let (at, rest) =
        cut-drop_match a h hash key cell xs c (IsOff-cell cell xs (home-is_cell a hash))
          (t.distinct hash) found in
      (at, rest, (search_chain-found h hash key _ xs c found).0, home-is_cell a hash)

  -- An item of another cell is not in this chain.
  apart :
      (v : ℕ) (y z : Ptr)
      → same_place (home a v) cell ≡ false
      → has y (chains (home a v)) ≡ true
      → has z xs ≡ true
      → y ≢ z
  unfolding xs
  apart v y z other i j e =
      let in_v = t.placed v y i in
      let in_cell = t.placed hash z j in
      let eq : home a v ≡ cell = sym in_v ∙ ap (λ w. home a (h w).hv) e ∙ in_cell in
      ground (arith, same_place_self cell, ap (λ c. same_place c cell) eq)

  -- The pointer that is written belongs to no other cell.
  off :
      (v : ℕ)
      → same_place (home a v) cell ≡ false
      → (same_place (home a v) b ≡ false)
        × ((y : Ptr) → has y (chains (home a v)) ≡ true → IsOff b (y ∷ []))
  unfolding b
  off v other = elim (before_of-place h hash key cell xs) [
    | inl e ↦ (rw e other, λ y i. rw e (IsOff-cell cell (y ∷ []) (home-is_cell a hash)))
    | inr (z, e, j) ↦ (
      rw e (not_after (home a v) z (home-is_cell a v)),
      λ y i. rw e (let ne = apart v y z other i j in ground arith),
    )
  ]
    where
      not_after : (c : Place) (z : Ptr) → is_cell c ≡ true → same_place c (after z) ≡ false
      not_after (old n) z e = refl
      not_after (primary n) z e = refl
      not_after (after n) z e = cc

  -- Another cell still heads its chain.
  other-IsChain :
      (v : ℕ)
      → same_place (home a v) cell ≡ false
      → IsChain h' (read a' h' (home a v)) (chains (home a v))
  unfolding a' h' cut
  other-IsChain v other =
      let (place_ne, off_all) = off v other in
      let (_, _, i, _) = mutual_facts in
      let new = record (h it) { h_next = null } in
      let next = (h it).h_next in
      let head =
        read-write_off (home a v) b next a (update h it new) place_ne
        ∙ read-off (home a v) a h it new (IsOff-cell (home a v) (it ∷ []) (home-is_cell a v)) in
      rw head (
        IsChain-frame h h' (read a h (home a v)) (chains (home a v))
          (λ y j. ap Item.h_next (
            next-write b next a (update h it new) y (off_all y j)
            ∙ update_ne h it y new (apart v y it other j i)))
          (t.chain v))

  cut-home : (v : ℕ) → home a' v ≡ home a v
  unfolding a' cut
  cut-home v = home-write b _ a _ v

  left : Chains
  left = without hash key h cell chains

  left-IsChain : (v : ℕ) → IsChain h' (read a' h' (home a v)) (left (home a v))
  unfolding left xs
  left-IsChain v = elim (Bool-cases (same_place (home a v) cell)) [
    | inl e ↦ rw (same_place→eq (home a v) cell e, same_place_self cell) (mutual_facts.1)
    | inr e ↦ rw e (other-IsChain v e)
  ]

  left_distinct : (v : ℕ) → AreDistinct (left (home a v))
  unfolding left cell
  left_distinct v = elim (Bool-cases (same_place (home a v) cell)) [
    | inl e ↦ rw e (drop_match-distinct h hash key (chains cell) (t.distinct hash)).0
    | inr e ↦ rw e (t.distinct v)
  ]

  -- Each cell keeps exactly its items but the one taken out.
  has-left :
      (v : ℕ) (y : Ptr) → has y (left (home a v)) ≡ (has y (chains (home a v)) && not (y == it))
  unfolding left it xs
  has-left v y = elim (Bool-cases (same_place (home a v) cell)) [
    | inl e ↦
        rw (same_place→eq (home a v) cell e, same_place_self cell)
          (has-drop_match h hash key _ (chains cell) (t.chain hash) (t.distinct hash) found y)
    | inr e ↦ rw e (elim (Bool-cases (has y (chains (home a v)))) [
      | inl i ↦ let ne = apart v y it e i mutual_facts.2 in ground arith
      | inr out ↦ ground arith
    ])
  ]

  left-Holds : Holds a' h' left
  unfolding h'
  left-Holds = record {
    chain = λ v. rw (cut-home v) (left-IsChain v);
    distinct = λ v. rw (cut-home v) (left_distinct v);
    placed = λ v y i.
        let j : has y (left (home a v)) ≡ true = rw (cut-home v) at i in
        rw (cut-home v, cut-home (h' y).hv, cut-hv b it a h y)
          (t.placed v y (ground (arith, has-left v y)));
  }

write_counted :
    (c : Place) (p : Ptr) (n : ℕ) (a : AssociativeArray) (h : Heap)
    → write c p (record a { hash_items = n }) h
      ≡ (record (write c p a h).0 { hash_items = n }, (write c p a h).1)
unfolding write
write_counted (old b) p n a h = refl
write_counted (primary b) p n a h = refl
write_counted (after x) p n a h = refl

-- A key that the table holds can be deleted: the assertion does not fail, the table keeps its
-- invariant, every chain keeps exactly its items but the one found, and no hash value of an item
-- changes.
pub assoc_delete-Holds :
    (fuel : ℕ) (hash : ℕ) (key : List ℕ) (a : AssociativeArray) (h : Heap) (chains : Chains)
    → Holds a h chains
    → search_chain h hash key (chains (home a hash)) ≢ null
    → length (chains (home a hash)) < fuel
    → (a' : AssociativeArray) × (h' : Heap) × (chains' : Chains) × (assoc_delete fuel hash key a h
        ≡ some (a', h'))
      × Holds a' h' chains'
      × ((v : ℕ) → home a' v ≡ home a v)
      × ((v : ℕ) (y : Ptr)
          → has y (chains' (home a v)) ≡ (
              has y (chains (home a v))
              && not (y == search_chain h hash key (chains (home a hash)))))
unfolding assoc_delete hashitem_before a' h' b it xs cell cut
assoc_delete-Holds fuel hash key a h chains t found enough =
    let n = (a.hash_items + 2 ^ 32 - 1) % 2 ^ 32 in
    let kept = left-Holds a h chains hash key t found in
    let pos =
      before_from-before fuel a h hash key (home a hash) (chains (home a hash)) (t.chain hash)
        enough in
    let first = search_chain h hash key (chains (home a hash)) in
    let at : read a h (before_of h hash key (home a hash) (chains (home a hash))) ≡ first =
      (mutual_facts a h chains hash key t found).0 in
    let there : (first == null) ≡ false = ground arith in
    (
      record (a' a h chains hash key t found) { hash_items = n },
      h' a h chains hash key t found,
      left a h chains hash key t found,
      rw (pos, assoc_delete, at, there, write_counted),
      counted-Holds n _ _ _ kept,
      λ v. counted-home n _ v ∙ cut-home a h chains hash key t found v,
      has-left a h chains hash key t found,
    )
