-- ===== src/Assoc/Move.antt =====
-- One bucket of the old table, item by item: each comes to the front of its new chain.
use memcached4chaos.Base.{
  ℕ, zero, suc, ◌<◌, ◌≡◌, ◌≢◌, ◌⊎◌, arith, refl, sym, ap, ◌∙◌, true, false, Bool-cases, inl, inr,
  List, [], ◌∷◌, some, ◌==◌, length,
}
use memcached4chaos.System.{Ptr, null, Heap, Item, update, update_ne}
use memcached4chaos.Assoc.{
  AssociativeArray, Place, old, primary, read, write, home, which_hashtable, get_bucket, move_chain,
}
use memcached4chaos.Assoc.Cells.{same_place, same_place→eq, same_place_self}
use memcached4chaos.Assoc.Chain.{has, AreDistinct, IsChain, IsChain-frame}
use memcached4chaos.Assoc.Find.{Chains, Holds}
use memcached4chaos.Assoc.Insert.{Outside, in_front, link_front-Holds}
use memcached4chaos.Assoc.Growing.{moved_on}

abbrev pub with_table : AssociativeArray → (ℕ → Ptr) → AssociativeArray
with_table a table = record a { primary_hashtable = table }

pub home-with_table :
    (a : AssociativeArray) (table : ℕ → Ptr) (v : ℕ)
    → home (moved_on (with_table a table)) v ≡ home (moved_on a) v
unfolding home which_hashtable get_bucket
home-with_table a table v = refl

-- What moving the items `xs` has done to the new table, the heap and the chains.
pub record Moved (a : AssociativeArray) (h : Heap) (chains : Chains) (xs : List Ptr)
    (table : ℕ → Ptr) (h' : Heap) (chains' : Chains) : Type 0 where
  pub items : (x : Ptr) → h' x ≡ record (h x) { h_next = (h' x).h_next }
  pub olds : (b : ℕ) → chains' (old b) ≡ chains (old b)
  pub kept :
      (x : Ptr) (v : ℕ)
      → has x (chains (home (moved_on a) v)) ≡ true
      → has x (chains' (home (moved_on a) v)) ≡ true
  pub brought : (x : Ptr) → has x xs ≡ true → has x (chains' (home (moved_on a) (h x).hv)) ≡ true
  pub origin :
      (x : Ptr) (v : ℕ)
      → has x (chains' (home (moved_on a) v)) ≡ true
      → (has x (chains (home (moved_on a) v)) ≡ true) ⊎ (has x xs ≡ true)
  pub untouched :
      (b : ℕ)
      → ((x : Ptr) → has x xs ≡ true → get_bucket a (h x).hv ≢ b)
      → table b ≡ a.primary_hashtable b

-- One item.
module _ (a : AssociativeArray) (h : Heap) (chains : Chains) (it : Ptr) where
  bucket : ℕ
  bucket = get_bucket a (h it).hv

  pub linked_table : ℕ → Ptr
  unfolding bucket
  linked_table = update a.primary_hashtable bucket it

  pub linked_heap : Heap
  unfolding bucket
  linked_heap = update h it (record (h it) { h_next = a.primary_hashtable bucket })

  pub linked_chains : Chains
  unfolding bucket
  linked_chains = in_front it (primary bucket) chains

  pub link-Holds :
      home (moved_on a) (h it).hv ≡ primary (get_bucket a (h it).hv)
      → Holds (moved_on a) h chains
      → it ≢ null
      → Outside (moved_on a) chains it
      → Holds (moved_on (with_table a linked_table)) linked_heap linked_chains
  unfolding read write linked_table linked_heap linked_chains
  link-Holds aim t ne out = rw aim at (link_front-Holds (moved_on a) h chains it t ne out)

  pub linked_item : (x : Ptr) → linked_heap x ≡ record (h x) { h_next = (linked_heap x).h_next }
  unfolding linked_heap update
  linked_item x = ground arith

  pub linked_other : (x : Ptr) → x ≢ it → linked_heap x ≡ h x
  unfolding linked_heap
  linked_other x ne = update_ne h it x _ ne

  pub has-linked : (x : Ptr) (c : Place) → has x (chains c) ≡ true → has x (linked_chains c) ≡ true
  unfolding linked_chains
  has-linked x c i = elim (Bool-cases (same_place c (primary bucket))) [
    | inr e ↦ rw e i
    | inl e ↦ rw e (
        let same = same_place→eq c (primary bucket) e in
        let j : has x (chains (primary bucket)) ≡ true = rw (← same) i in ground arith)
  ]

  pub linked-has :
      (x : Ptr) (c : Place) → has x (linked_chains c) ≡ true → (x ≡ it) ⊎ (has x (chains c) ≡ true)
  unfolding linked_chains
  linked-has x c i = elim (Bool-cases (same_place c (primary bucket))) [
    | inr e ↦ inr (rw e at i)
    | inl e ↦
        let same = same_place→eq c (primary bucket) e in
        let both : has x (it ∷ chains (primary bucket)) ≡ true = rw e at i in
        elim (Bool-cases (x == it)) [
          | inl eq ↦ inl (ground arith)
          | inr ne ↦ inr (rw same (ground arith))
        ]
  ]

  has-linked_self : has it (linked_chains (primary bucket)) ≡ true
  unfolding linked_chains
  has-linked_self = rw (same_place_self (primary bucket)) (ground arith)

-- Where items of the bucket go.
abbrev pub Aimed : AssociativeArray → Heap → List Ptr → Type 0
Aimed a h xs =
    (x : Ptr) → has x xs ≡ true → home (moved_on a) (h x).hv ≡ primary (get_bucket a (h x).hv)

abbrev pub AreOutside : AssociativeArray → Chains → List Ptr → Type 0
AreOutside a chains xs = (x : Ptr) → has x xs ≡ true → Outside (moved_on a) chains x

Moved-nil :
    (a : AssociativeArray) (h : Heap) (chains : Chains)
    → Moved a h chains [] a.primary_hashtable h chains
Moved-nil a h chains = record {
  items = λ x. refl;
  olds = λ b. refl;
  kept = λ x v i. i;
  brought = λ x i. cc;
  origin = λ x v i. inl i;
  untouched = λ b away. refl;
}

module _ (a : AssociativeArray) (h : Heap) (chains : Chains) (it : Ptr) (xs : List Ptr)
    (aim : Aimed a h (it ∷ xs)) (distinct : AreDistinct (it ∷ xs))
    (out : AreOutside a chains (it ∷ xs)) where
  abbrev linked_array : AssociativeArray
  linked_array = with_table a (linked_table a h chains it)

  linked_hv : (x : Ptr) → (linked_heap a h chains it x).hv ≡ (h x).hv
  linked_hv x = ap Item.hv (linked_item a h chains it x)

  rest-Aimed : Aimed linked_array (linked_heap a h chains it) xs
  unfolding get_bucket
  rest-Aimed x i =
      rw (linked_hv x, home-with_table a (linked_table a h chains it)) (aim x (ground arith))

  rest-ne : (x : Ptr) → has x xs ≡ true → x ≢ it
  rest-ne x i e = let j : has it xs ≡ true = rw (← e) i in cc (distinct.0)

  rest-AreOutside : AreOutside linked_array (linked_chains a h chains it) xs
  rest-AreOutside x i v =
      let c = home (moved_on a) v in
      rw (home-with_table a (linked_table a h chains it))
        (elim (Bool-cases (has x (linked_chains a h chains it c))) [
          | inr away ↦ away
          | inl here ↦ elim (linked-has a h chains it x c here) [
            | inl e ↦ absurd (rest-ne x i e)
            | inr j ↦ cc (out x (ground arith) v)
          ]
        ])

  rest-IsChain : IsChain h (h it).h_next xs → IsChain (linked_heap a h chains it) (h it).h_next xs
  rest-IsChain c =
      IsChain-frame h (linked_heap a h chains it) (h it).h_next xs
        (λ x i. ap Item.h_next (linked_other a h chains it x (rest-ne x i))) c

  same_home : (v : ℕ) → home (moved_on linked_array) v ≡ home (moved_on a) v
  same_home v = home-with_table a (linked_table a h chains it) v

  aim_self : home (moved_on a) (h it).hv ≡ primary (bucket a h chains it)
  unfolding bucket
  aim_self = aim it (ground arith)

  table_other :
      (b : ℕ) → get_bucket a (h it).hv ≢ b → linked_table a h chains it b ≡ a.primary_hashtable b
  unfolding linked_table bucket
  table_other b ne = update_ne a.primary_hashtable _ b it (λ e. ne (sym e))

  -- What the rest of the bucket adds to the first item.
  module _ (table : ℕ → Ptr) (h' : Heap) (chains' : Chains)
      (m : Moved linked_array
        (linked_heap a h chains it)
        (linked_chains a h chains it)
        xs
        table
        h'
        chains') where
    kept_on :
        (x : Ptr) (v : ℕ)
        → has x (linked_chains a h chains it (home (moved_on a) v)) ≡ true
        → has x (chains' (home (moved_on a) v)) ≡ true
    kept_on x v i = rw (same_home v) at (m.kept x v (rw (same_home v) i))

    brought_here :
        (x : Ptr) → has x (it ∷ xs) ≡ true → has x (chains' (home (moved_on a) (h x).hv)) ≡ true
    brought_here x i = elim (Bool-cases (x == it)) [
      | inl e ↦
          let same : x ≡ it = ground arith in
          rw same (kept_on it (h it).hv (rw aim_self (has-linked_self a h chains it)))
      | inr e ↦
          let later = m.brought x (ground arith) in rw (linked_hv x, same_home (h x).hv) at later
    ]

    from_where :
        (x : Ptr) (v : ℕ)
        → has x (chains' (home (moved_on a) v)) ≡ true
        → (has x (chains (home (moved_on a) v)) ≡ true) ⊎ (has x (it ∷ xs) ≡ true)
    from_where x v i = elim (m.origin x v (rw (same_home v) i)) [
      | inr j ↦ inr (ground arith)
      | inl j ↦ elim (linked-has a h chains it x (home (moved_on a) v) (rw (same_home v) at j)) [
        | inl e ↦ inr (ground arith)
        | inr k ↦ inl k
      ]
    ]

    Moved-cons : Moved a h chains (it ∷ xs) table h' chains'
    unfolding linked_chains get_bucket
    Moved-cons = record {
      items = λ x.
          m.items x
          ∙ ap (λ (i : Item). record i { h_next = (h' x).h_next }) (linked_item a h chains it x);
      olds = λ b. m.olds b;
      kept = λ x v i. kept_on x v (has-linked a h chains it x (home (moved_on a) v) i);
      brought = brought_here;
      origin = from_where;
      untouched = λ b away.
          m.untouched b (λ x i. rw (linked_hv x) (away x (ground arith)))
          ∙ table_other b (away it (ground arith));
    }

-- Moving a chain ends, and keeps the invariant of the table that has the bucket moved.
pub move_chain-Moved :
    (fuel : ℕ) (a : AssociativeArray) (h : Heap) (chains : Chains) (it : Ptr) (xs : List Ptr)
    → Aimed a h xs
    → AreDistinct xs
    → AreOutside a chains xs
    → IsChain h it xs
    → Holds (moved_on a) h chains
    → length xs < fuel
    → (table : ℕ → Ptr) × (h' : Heap) × (chains' : Chains) × (move_chain fuel it a h
        ≡ some (with_table a table, h'))
      × Holds (moved_on (with_table a table)) h' chains'
      × Moved a h chains xs table h' chains'
unfolding move_chain linked_table linked_heap bucket read write
move_chain-Moved zero a h chains it xs aim distinct out c t lt = absurd (omega arith)
move_chain-Moved (suc fuel) a h chains it [] aim distinct out c t lt =
    (a.primary_hashtable, h, chains, ground arith, t, Moved-nil a h chains)
move_chain-Moved (suc fuel) a h chains it (x ∷ xs) aim distinct out (at, ne, c) t lt =
    let here : (x == null) ≡ false = ground arith in
    let (table, h', chains', run, t', m) =
      move_chain-Moved fuel (with_table a (linked_table a h chains x)) (linked_heap a h chains x)
        (linked_chains a h chains x) (h x).h_next xs (rest-Aimed a h chains x xs aim distinct out)
        (distinct.1) (rest-AreOutside a h chains x xs aim distinct out)
        (rest-IsChain a h chains x xs aim distinct out c)
        (link-Holds a h chains x (aim x (ground arith)) t ne (out x (ground arith)))
        (omega arith) in
    (
      table,
      h',
      chains',
      rw (at, here) run,
      t',
      Moved-cons a h chains x xs aim distinct out table h' chains' m,
    )
