-- ===== src/Assoc/Items.antt =====
-- What an insertion and a deletion change, item by item.
use memcached4chaos.Base.{
  ℕ, ◌+◌, ◌-◌, ◌%◌, ◌^◌, ◌≡◌, ◌≢◌, ◌⊎◌, arith, refl, sym, ap, ◌∙◌, true, ◌&&◌, not, Bool,
  Bool-cases, inl, inr, Option, some, none, List, ◌∷◌, has, ◌==◌,
}
use mathlib.Core.Path.{subst}
use memcached4chaos.System.{Ptr, null, Heap, Item, update}
use memcached4chaos.Assoc.{
  AssociativeArray, Place, old, primary, after, read, write, home, assoc_insert, assoc_delete,
  hashitem_before,
}
use memcached4chaos.Assoc.Cells.{
  same_place, same_place→eq, same_place_self, home-is_cell, heap-write,
}
use memcached4chaos.Assoc.Find.{Chains, Stored}
use memcached4chaos.Assoc.Insert.{in_front}

-- An item that differs in its h_next at most.
abbrev pub Rechained : Item → Item → Type 0
Rechained i j = j ≡ record i { h_next = j.h_next }

write-Rechained :
    (c : Place) (p : Ptr) (a : AssociativeArray) (h : Heap) (x : Ptr)
    → Rechained (h x) ((write c p a h).1 x)
unfolding write update
write-Rechained (old b) p a h x = refl
write-Rechained (primary b) p a h x = refl
write-Rechained (after y) p a h x = ground arith

update-Rechained :
    (it p : Ptr) (h : Heap) (x : Ptr)
    → Rechained (h x) (update h it (record (h it) { h_next = p }) x)
unfolding update
update-Rechained it p h x = ground arith

Rechained-trans : (i j k : Item) → Rechained i j → Rechained j k → Rechained i k
Rechained-trans i j k e f = f ∙ ap (λ (j : Item). record j { h_next = k.h_next }) e

-- An insertion changes no item but for its h_next.
pub assoc_insert-Rechained :
    (fuel : ℕ) (allocated started : Bool) (key : List ℕ) (it : Ptr) (a a' : AssociativeArray)
    (h h' : Heap)
    → assoc_insert fuel allocated started key it a h ≡ some (a', h')
    → (x : Ptr) → Rechained (h x) (h' x)
unfolding assoc_insert
assoc_insert-Rechained fuel allocated started key it a a' h h' run x =
    let p = read a h (home a (h it).hv) in
    let h1 = update h it (record (h it) { h_next = p }) in
    let same : (write (home a (h it).hv) it a h1).1 ≡ h' = ground arith in
    subst (λ (k : Heap). Rechained (h x) (k x))
      (sym (heap-write (home a (h it).hv) it a h1 (home-is_cell a (h it).hv)) ∙ same)
      (update-Rechained it p h x)

-- Neither does a deletion.
pub assoc_delete-Rechained :
    (fuel hash : ℕ) (key : List ℕ) (a a' : AssociativeArray) (h h' : Heap)
    → assoc_delete fuel hash key a h ≡ some (a', h')
    → (x : Ptr) → Rechained (h x) (h' x)
unfolding assoc_delete
assoc_delete-Rechained fuel hash key a a' h h' run x =
    deleted (hashitem_before fuel a h hash key) refl
  where
    deleted :
        (found : Option Place) → hashitem_before fuel a h hash key ≡ found → Rechained (h x) (h' x)
    deleted none e = cc
    deleted (some c) e =
        let it = read a h c in
        let h1 = update h it (record (h it) { h_next = null }) in
        let b = record a { hash_items = (a.hash_items + 2 ^ 32 - 1) % 2 ^ 32 } in
        let same : (write c (h it).h_next b h1).1 ≡ h' = ground arith in
        subst (λ (k : Heap). Rechained (h x) (k x)) same
          (Rechained-trans (h x) (h1 x) ((write c (h it).h_next b h1).1 x)
            (update-Rechained it null h x) (write-Rechained c (h it).h_next b h1 x))

module _ (it : Ptr) (hv : ℕ) (a a' : AssociativeArray) (chains chains' : Chains)
    (same : (v : ℕ) → chains' (home a' v) ≡ in_front it (home a hv) chains (home a v)) where
  -- The table holds the item that was inserted, and what it held.
  pub inserted-Stored : Stored a' chains' it
  inserted-Stored = (hv, rw (same hv, same_place_self (home a hv)) (ground arith))

  pub kept-Stored : (x : Ptr) → Stored a chains x → Stored a' chains' x
  kept-Stored x (v, i) = (
    v,
    rw (same v) (elim (Bool-cases (same_place (home a v) (home a hv))) [
      | inl e ↦
          let j : has x (chains (home a hv)) ≡ true =
            rw (same_place→eq (home a v) (home a hv) e) at i in
          rw e (ground arith)
      | inr e ↦ rw e i
    ]),
  )

  pub Stored-inserted : (x : Ptr) → Stored a' chains' x → (x ≡ it) ⊎ Stored a chains x
  Stored-inserted x (v, i) = elim (Bool-cases (same_place (home a v) (home a hv))) [
    | inl e ↦
        let both : has x (it ∷ chains (home a hv)) ≡ true = rw (same v, e) at i in
        elim (Bool-cases (x == it)) [
          | inl here ↦ inl (ground arith)
          | inr other ↦ inr (hv, ground arith)
        ]
    | inr e ↦ inr (v, rw (same v, e) at i)
  ]

module _ (it : Ptr) (a a' : AssociativeArray) (chains chains' : Chains)
    (homes : (v : ℕ) → home a' v ≡ home a v)
    (left : (v : ℕ) (y : Ptr)
      → has y (chains' (home a v)) ≡ (has y (chains (home a v)) && not (y == it))) where
  -- The table holds what it held, but for the item that was taken out.
  pub Stored-left : (x : Ptr) → Stored a' chains' x → Stored a chains x × (x ≢ it)
  Stored-left x (v, i) =
      let j : has x (chains' (home a v)) ≡ true = rw (homes v) at i in
      ((v, ground (arith, left v x)), ground (arith, left v x))

  pub left-Stored : (x : Ptr) → Stored a chains x → x ≢ it → Stored a' chains' x
  left-Stored x (v, i) ne = (v, rw (homes v) (ground (arith, left v x)))
