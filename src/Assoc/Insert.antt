-- ===== src/Assoc/Insert.antt =====
-- assoc_insert: the item comes to the front of the chain of its hash value.
use memcached4chaos.Base.{
  ℕ, ◌+◌, ◌*◌, ◌/◌, ◌%◌, ◌^◌, ◌<◌, ◌≡◌, ◌≢◌, refl, arith, Bool, true, false, List, ◌∷◌, some, ◌==◌,
  if◌then◌else◌, length, Bool-cases, inl, inr, sym, ap, ◌∙◌, ltb, not, ◌&&◌,
}
use mathlib.Core.Path.{subst}
use memcached4chaos.System.{Ptr, null, Heap, Item, update, update_self, update_ne}
use memcached4chaos.Assoc.{
  AssociativeArray, Place, read, write, home, link_front, which_hashtable, get_bucket, grow_if_full,
  hashsize, assoc_insert,
}
use memcached4chaos.Assoc.Cells.{
  same_place, same_place→eq, home-is_cell, home-write, heap-write, read-write,
}
use memcached4chaos.Assoc.Chain.{
  has, AreDistinct, IsChain, IsChain-frame, search_chain, search_chain-found,
}
use memcached4chaos.Assoc.Find.{Chains, Holds, Absent, assoc_find-search}
use memcached4chaos.Assoc.Expand.{assoc_expand-Holds}

-- The chains with `it` in front of the one at `cell`.
abbrev pub in_front : Ptr → Place → Chains → Chains
in_front it cell chains d = if same_place d cell then it ∷ chains cell else chains d

-- `it` is in no chain of the table.
abbrev pub Outside : AssociativeArray → Chains → Ptr → Type 0
Outside a chains it = (v : ℕ) → has it (chains (home a v)) ≡ false

module _ (a : AssociativeArray) (h : Heap) (chains : Chains) (it : Ptr) (t : Holds a h chains)
    (ne : it ≢ null) (out : Outside a chains it) where
  cell : Place
  cell = home a (h it).hv

  linked_heap : Heap
  unfolding cell
  linked_heap = update h it (record (h it) { h_next = read a h cell })

  -- Other items keep their h_next, and every item its hash value.
  linked_other : (x : Ptr) → x ≢ it → linked_heap x ≡ h x
  unfolding linked_heap
  linked_other x other = update_ne h it x _ other

  linked_hv : (x : Ptr) → (linked_heap x).hv ≡ (h x).hv
  unfolding linked_heap update
  linked_hv x = ground arith

  linked_next : (linked_heap it).h_next ≡ read a h cell
  unfolding linked_heap
  linked_next = ap Item.h_next (update_self h it _)

  not_it : (v : ℕ) (x : Ptr) → has x (chains (home a v)) ≡ true → x ≢ it
  not_it v x i e = ground (arith, out v, subst (λ y. has y (chains (home a v)) ≡ true) e i)

  kept-IsChain : (v : ℕ) → IsChain linked_heap (read a h (home a v)) (chains (home a v))
  kept-IsChain v =
      IsChain-frame h linked_heap (read a h (home a v)) (chains (home a v))
        (λ x i. ap Item.h_next (linked_other x (not_it v x i))) (t.chain v)

  in_cell : (v : ℕ) → same_place (home a v) cell ≡ true → home a v ≡ cell
  in_cell v e = same_place→eq (home a v) cell e

  IsChain-at :
      (v : ℕ)
      → IsChain linked_heap
          (if same_place (home a v) cell then it else read a h (home a v))
          (in_front it cell chains (home a v))
  IsChain-at v = elim (Bool-cases (same_place (home a v) cell)) [
    | inl e ↦ rw e (refl, ne, rw linked_next (kept_chain_cell))
    | inr e ↦ rw e (kept-IsChain v)
  ]
    where
      kept_chain_cell : IsChain linked_heap (read a h cell) (chains cell)
      kept_chain_cell = unfold cell in kept-IsChain (h it).hv

  distinct_at : (v : ℕ) → AreDistinct (in_front it cell chains (home a v))
  unfolding cell
  distinct_at v = elim (Bool-cases (same_place (home a v) cell)) [
    | inl e ↦ rw e (out (h it).hv, t.distinct (h it).hv)
    | inr e ↦ rw e (t.distinct v)
  ]

  placed_at :
      (v : ℕ) (x : Ptr)
      → has x (in_front it cell chains (home a v)) ≡ true
      → home a (h x).hv ≡ home a v
  unfolding cell
  placed_at v x i = elim (Bool-cases (same_place (home a v) cell)) [
    | inr e ↦ t.placed v x (rw e at i)
    | inl e ↦
        let here = in_cell v e in
        let both : has x (it ∷ chains cell) ≡ true = rw e at i in
        elim (Bool-cases (x == it)) [
          | inl same ↦ let eq : x ≡ it = ground arith in ap (λ y. home a (h y).hv) eq ∙ sym here
          | inr other ↦ t.placed v x (rw here (ground arith))
        ]
  ]

  -- The array after the write, on the heap before it is returned.
  front : AssociativeArray
  front = (write cell it a linked_heap).0

  front-home : (v : ℕ) → home front v ≡ home a v
  unfolding front
  front-home v = home-write cell it a linked_heap v

  front-read :
      (v : ℕ)
      → read front linked_heap (home a v)
        ≡ (if same_place (home a v) cell then it else read a h (home a v))
  unfolding front cell
  front-read v =
      read-write cell (home a v) it a linked_heap linked_heap h (home-is_cell a (h it).hv)
        (home-is_cell a v)

  front-Holds : Holds front linked_heap (in_front it cell chains)
  front-Holds = record {
    chain = λ v. rw (front-home v, front-read v) (IsChain-at v);
    distinct = λ v. rw (front-home v) (distinct_at v);
    placed = λ v x i.
        rw (front-home v, front-home (linked_heap x).hv, linked_hv x)
          (placed_at v x (rw (front-home v) at i));
  }

  -- Linking an outside item keeps the invariant: its chain has it in front, the others are as
  -- they were.
  pub link_front-Holds :
      let (a', h') = link_front it (home a (h it).hv) a h in
      Holds a' h' (in_front it (home a (h it).hv) chains)
  unfolding front linked_heap cell
  link_front-Holds =
      rw (heap-write (home a (h it).hv) it a _ (home-is_cell a (h it).hv)) front-Holds

-- The counter does not matter to the chains.
pub counted-Holds :
    (n : ℕ) (a : AssociativeArray) (h : Heap) (chains : Chains)
    → Holds a h chains
    → Holds (record a { hash_items = n }) h chains
unfolding home which_hashtable get_bucket read
counted-Holds n a h chains t = record { chain = t.chain; distinct = t.distinct; placed = t.placed }

pub counted-home :
    (n : ℕ) (a : AssociativeArray) (v : ℕ) → home (record a { hash_items = n }) v ≡ home a v
unfolding home which_hashtable get_bucket
counted-home n a v = refl

grow_if_full-Holds :
    (allocated started : Bool) (a : AssociativeArray) (h : Heap) (chains : Chains)
    → Holds a h chains
    → let a' = grow_if_full allocated started a in
      (chains' : Chains) × Holds a' h chains' × ((v : ℕ) → chains' (home a' v) ≡ chains (home a v))
unfolding grow_if_full
grow_if_full-Holds allocated started a h chains t =
    elim (Bool-cases
      (not a.expanding && ltb (hashsize a.hashpower * 3 % 2 ^ 32 / 2) a.hash_items)) [
        | inl full ↦
            let steady : a.expanding ≡ false = ground arith in
            rw full (assoc_expand-Holds allocated started a h chains steady t)
        | inr room ↦ rw room (chains, t, λ v. refl)
      ]

Absent-search :
    (a : AssociativeArray) (h : Heap) (chains : Chains) (hash : ℕ) (key : List ℕ)
    → Holds a h chains
    → Absent a h chains hash key
    → search_chain h hash key (chains (home a hash)) ≡ null
Absent-search a h chains hash key t absent =
    let xs = chains (home a hash) in
    let x = search_chain h hash key xs in
    elim (Bool-cases (x == null)) [
      | inl missing ↦ ground arith
      | inr found ↦
          let (i, fits) = search_chain-found h hash key _ xs (t.chain hash) (ground arith) in
          let other = absent x (hash, i) in ground arith
    ]

-- An item outside the table, with a key that the table does not hold, can be inserted: the assertion holds, the table keeps its
-- invariant, also where the insertion starts an expansion or fails to, and the item stands in
-- front of the chain of its hash value, while all other chains are the same.
pub assoc_insert-Holds :
    (fuel : ℕ) (allocated started : Bool) (key : List ℕ) (it : Ptr) (a : AssociativeArray)
    (h : Heap) (chains : Chains)
    → Holds a h chains
    → it ≢ null
    → Outside a chains it
    → Absent a h chains (h it).hv key
    → length (chains (home a (h it).hv)) < fuel
    → (a' : AssociativeArray) × (h' : Heap) × (chains' : Chains) × (assoc_insert fuel allocated
          started key it a h
        ≡ some (a', h'))
      × Holds a' h' chains'
      × ((v : ℕ) → chains' (home a' v) ≡ in_front it (home a (h it).hv) chains (home a v))
unfolding assoc_insert
assoc_insert-Holds fuel allocated started key it a h chains t ne out absent enough =
    let cell = home a (h it).hv in
    let linked = link_front-Holds a h chains it t ne out in
    let (b, h') = link_front it cell a h in
    let n = (b.hash_items + 1) % 2 ^ 32 in
    let counted = counted-Holds n b h' (in_front it cell chains) linked in
    let (chains', grown, same) = grow_if_full-Holds allocated started _ h' _ counted in
    let missing = Absent-search a h chains (h it).hv key t absent in
    let search = assoc_find-search fuel a h chains (h it).hv key t enough in
    (
      grow_if_full allocated started (record b { hash_items = n }),
      h',
      chains',
      rw (search, missing, assoc_insert) refl,
      grown,
      λ v. same v ∙ ap (in_front it cell chains) (counted-home n b v ∙ home-write cell it a _ v),
    )
