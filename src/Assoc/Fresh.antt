-- ===== src/Assoc/Fresh.antt =====
-- The buckets of the new table that wait for theirs of the old one stay empty.
use memcached4chaos.Base.{
  ℕ, zero, suc, ◌⊎◌, Option, ◌+◌, ◌-◌, ◌%◌, ◌^◌, ◌≡◌, arith, refl, sym, ◌∙◌, true, Bool, Bool-cases,
  inl, inr, some, none, List, leb, ◌==◌,
}
use mathlib.Core.Path.{subst}
use memcached4chaos.Base.Bits.{pow-pos}
use memcached4chaos.System.{Ptr, null, Heap, update, update_ne}
use memcached4chaos.Assoc.{
  AssociativeArray, Place, after, read, write, home, grow_if_full, assoc_insert, assoc_delete,
  assoc_expand, hashitem_before, before_from, hashsize, matches,
}
use memcached4chaos.Assoc.Insert.{counted-home}
use memcached4chaos.Assoc.Growing.{half, IsGrowing, home-growing, mod_half}

write-IsGrowing :
    (v : ℕ) (p : Ptr) (a : AssociativeArray) (h : Heap)
    → IsGrowing a
    → IsGrowing (write (home a v) p a h).0
unfolding write
write-IsGrowing v p a h g = elim (Bool-cases (leb a.expand_bucket (v % half a))) [
  | inl e ↦
      rw (home-growing a v g.expanding, e)
        (record {
          expanding = g.expanding;
          power_pos = g.power_pos;
          left = g.left;
          fresh = g.fresh;
        })
  | inr e ↦
      rw (home-growing a v g.expanding, e)
        (record {
          expanding = g.expanding;
          power_pos = g.power_pos;
          left = g.left;
          fresh = λ b le.
              rw
                (update_ne a.primary_hashtable (v % hashsize a.hashpower) b p
                  (λ (same : b ≡ v % hashsize a.hashpower).
                    absurd (ground (arith, mod_half a v g))))
                (g.fresh b le);
        })
]

write_after-IsGrowing :
    (x p : Ptr) (a : AssociativeArray) (h : Heap)
    → IsGrowing a
    → IsGrowing (write (after x) p a h).0
unfolding write
write_after-IsGrowing x p a h g = g

counted-IsGrowing :
    (n : ℕ) (a : AssociativeArray) → IsGrowing a → IsGrowing (record a { hash_items = n })
counted-IsGrowing n a g = record {
  expanding = g.expanding;
  power_pos = g.power_pos;
  left = g.left;
  fresh = g.fresh;
}

grow_if_full-IsGrowing :
    (allocated started : Bool) (a : AssociativeArray)
    → IsGrowing a
    → IsGrowing (grow_if_full allocated started a)
unfolding grow_if_full
grow_if_full-IsGrowing allocated started a g =
    let same : grow_if_full allocated started a ≡ a = ground (arith, g.expanding) in rw same g

-- While the table grows, an insertion leaves the waiting buckets empty.
pub assoc_insert-IsGrowing :
    (fuel : ℕ) (allocated started : Bool) (key : List ℕ) (it : Ptr) (a a' : AssociativeArray)
    (h h' : Heap)
    → IsGrowing a
    → assoc_insert fuel allocated started key it a h ≡ some (a', h')
    → IsGrowing a'
unfolding assoc_insert
assoc_insert-IsGrowing fuel allocated started key it a a' h h' g run =
    let h1 = update h it (record (h it) { h_next = read a h (home a (h it).hv) }) in
    let b = (write (home a (h it).hv) it a h1).0 in
    let linked = write-IsGrowing (h it).hv it a h1 g in
    let n = (b.hash_items + 1) % 2 ^ 32 in
    let grown =
      grow_if_full-IsGrowing allocated started (record b { hash_items = n })
        (counted-IsGrowing n b linked) in
    let same : grow_if_full allocated started (record b { hash_items = n }) ≡ a' = ground arith in
    rw same at grown

-- The cells that a search for the place of an item passes.
before_from-place :
    (fuel : ℕ) (a : AssociativeArray) (h : Heap) (hash : ℕ) (key : List ℕ) (pos c : Place)
    → before_from fuel a h hash key pos ≡ some c
    → (c ≡ pos) ⊎ ((x : Ptr) × (c ≡ after x))
unfolding before_from
before_from-place zero a h hash key pos c run = cc
before_from-place (suc fuel) a h hash key pos c run = elim (Bool-cases (read a h pos == null)) [
  | inl e ↦ inl (ground arith)
  | inr e ↦ elim (Bool-cases (matches hash key (h (read a h pos)))) [
    | inl f ↦ inl (ground arith)
    | inr f ↦ elim (before_from-place fuel a h hash key (after (read a h pos)) c (ground arith)) [
      | inl at ↦ inr (read a h pos, at)
      | inr later ↦ inr later
    ]
  ]
]

-- While the table grows, a deletion leaves the waiting buckets empty.
assoc_delete-IsGrowing :
    (fuel hash : ℕ) (key : List ℕ) (a a' : AssociativeArray) (h h' : Heap)
    → IsGrowing a
    → assoc_delete fuel hash key a h ≡ some (a', h')
    → IsGrowing a'
unfolding assoc_delete hashitem_before
assoc_delete-IsGrowing fuel hash key a a' h h' g run =
    deleted (before_from fuel a h hash key (home a hash)) refl
  where
    deleted :
        (found : Option Place) → before_from fuel a h hash key (home a hash) ≡ found → IsGrowing a'
    deleted none e = cc
    deleted (some c) e =
        let it = read a h c in
        let h1 = update h it (record (h it) { h_next = null }) in
        let n = (a.hash_items + 2 ^ 32 - 1) % 2 ^ 32 in
        let b = record a { hash_items = n } in
        let gb = counted-IsGrowing n a g in
        let same : (write c (h it).h_next b h1).0 ≡ a' = ground arith in
        elim (before_from-place fuel a h hash key (home a hash) c e) [
          | inl at ↦
              let cell : home b hash ≡ c = counted-home n a hash ∙ sym at in
              subst IsGrowing same (
                subst (λ d. IsGrowing (write d (h it).h_next b h1).0) cell
                  (write-IsGrowing hash (h it).h_next b h1 gb))
          | inr (x, at) ↦ subst IsGrowing same (
              subst (λ d. IsGrowing (write d (h it).h_next b h1).0) (sym at)
                (write_after-IsGrowing x (h it).h_next b h1 gb))
        ]

-- The start of an expansion.
pub assoc_expand-IsGrowing : (a : AssociativeArray) → IsGrowing (assoc_expand true true a)
unfolding assoc_expand
assoc_expand-IsGrowing a = record {
  expanding = refl;
  power_pos = omega arith;
  left =
      let same : a.hashpower + 1 - 1 ≡ a.hashpower = omega arith in rw same (pow-pos a.hashpower);
  fresh = λ b le. refl;
}
