-- ===== src/Assoc/Growing.antt =====
-- A table that grows: which cell a hash value belongs to before and after a bucket has been moved.
use memcached4chaos.Base.{
  ℕ, zero, suc, ◌+◌, ◌-◌, ◌%◌, ◌^◌, ◌≤◌, ◌<◌, ◌≡◌, ◌≢◌, arith, refl, true, leb, ◌==◌, not,
  if◌then◌else◌, ap, sym, ◌∙◌, Bool-cases, inl, inr, [],
}
use memcached4chaos.Base.Bits.{bit_and-mask, mask-bit_and, pow-pos}
use native.Mathlib.Nat.{pow-suc, mod-mod_of_dvd, dvd-mul_right, mod-lt, mod-eq_of_lt}
use memcached4chaos.System.{Ptr, Heap, null, update}
use memcached4chaos.Assoc.{
  AssociativeArray, Place, old, primary, after, read, home, which_hashtable, get_bucket, hashsize,
}
use native.Mathlib.Decide.{ℕ_discrete}
use memcached4chaos.Assoc.Chain.{has}
use memcached4chaos.Assoc.Find.{Chains, Holds}
use memcached4chaos.Assoc.Insert.{Outside}

-- The size of the old table.
abbrev pub half : AssociativeArray → ℕ
half a = hashsize (a.hashpower - 1)

-- An expansion under way: buckets are left to move, and the buckets of the new table that they go
-- to are empty.
pub record IsGrowing (a : AssociativeArray) : Type 0 where
  pub expanding : a.expanding ≡ true
  pub power_pos : 0 < a.hashpower
  pub left : a.expand_bucket < half a
  pub fresh : (b : ℕ) → a.expand_bucket ≤ b % half a → a.primary_hashtable b ≡ null

-- The table with the bucket `expand_bucket` moved.
abbrev pub moved_on : AssociativeArray → AssociativeArray
moved_on a = record a {
  old_hashtable = update a.old_hashtable a.expand_bucket null;
  expand_bucket = a.expand_bucket + 1;
  expanding = not (a.expand_bucket + 1 == half a);
}

half_mod : (p v : ℕ) → 0 < p → v % 2 ^ p % 2 ^ (p - 1) ≡ v % 2 ^ (p - 1)
half_mod zero v h = absurd (omega arith)
half_mod (suc p) v h =
    let same : suc p - 1 ≡ p = omega arith in
    rw (same, pow-suc 2 p) (mod-mod_of_dvd (2 ^ p) v (dvd-mul_right (2 ^ p) 2))

pub mod_half :
    (a : AssociativeArray) (v : ℕ) → IsGrowing a → v % hashsize a.hashpower % half a ≡ v % half a
mod_half a v g = half_mod a.hashpower v g.power_pos

pub mod-lt-half : (a : AssociativeArray) (v : ℕ) → v % half a < half a
mod-lt-half a v = mod-lt v (pow-pos (a.hashpower - 1))

pub home-growing :
    (a : AssociativeArray) (v : ℕ)
    → a.expanding ≡ true
    → home a v ≡ (
        if leb a.expand_bucket (v % half a)
        then old (v % half a)
        else primary (v % hashsize a.hashpower))
unfolding home which_hashtable get_bucket
home-growing a v g = rw (g, bit_and-mask (a.hashpower - 1) v, mask-bit_and a.hashpower v) refl

pub home-moved_on :
    (a : AssociativeArray) (v : ℕ)
    → IsGrowing a
    → home (moved_on a) v ≡ (
        if leb (a.expand_bucket + 1) (v % half a)
        then old (v % half a)
        else primary (v % hashsize a.hashpower))
unfolding home which_hashtable get_bucket
home-moved_on a v g =
    rw (bit_and-mask (a.hashpower - 1) v, mask-bit_and a.hashpower v)
      (ground (arith, mod-lt-half a v, g.left))

-- The bucket of the old table that a cell stands for.
old_bucket : AssociativeArray → Place → ℕ
old_bucket a (old b) = b
old_bucket a (primary b) = b % half a
old_bucket a (after x) = 0

old_bucket-home :
    (a : AssociativeArray) (v : ℕ) → IsGrowing a → old_bucket a (home a v) ≡ v % half a
unfolding old_bucket
old_bucket-home a v g = elim (Bool-cases (leb a.expand_bucket (v % half a))) [
  | inl e ↦ rw (home-growing a v g.expanding, e) refl
  | inr e ↦ rw (home-growing a v g.expanding, e) (mod_half a v g)
]

module _ (a : AssociativeArray) (g : IsGrowing a) where
  -- Hash values of one cell belong to one bucket of the old table.
  pub mod_of_home : (v w : ℕ) → home a w ≡ home a v → w % half a ≡ v % half a
  mod_of_home v w e = sym (old_bucket-home a w g) ∙ ap (old_bucket a) e ∙ old_bucket-home a v g

  pub home-kept : (v : ℕ) → v % half a ≢ a.expand_bucket → home (moved_on a) v ≡ home a v
  home-kept v ne = rw (home-moved_on a v g, home-growing a v g.expanding) (ground arith)

  pub home-taken :
      (v : ℕ)
      → v % half a ≡ a.expand_bucket
      → home (moved_on a) v ≡ primary (v % hashsize a.hashpower)
  home-taken v e = rw (home-moved_on a v g) (ground arith)

  pub home_of_bucket : (v : ℕ) → v % half a ≡ a.expand_bucket → home a v ≡ old a.expand_bucket
  home_of_bucket v e = rw (home-growing a v g.expanding) (ground arith)

  pub home-bucket : home a a.expand_bucket ≡ old a.expand_bucket
  home-bucket = home_of_bucket a.expand_bucket (mod-eq_of_lt g.left)

-- The chains before the bucket's items have come to the new table.
abbrev pub emptied : AssociativeArray → Chains → Chains
emptied a chains (old b) = chains (old b)
emptied a chains (primary b) = if b % half a == a.expand_bucket then [] else chains (primary b)
emptied a chains (after x) = chains (after x)

module _ (a : AssociativeArray) (g : IsGrowing a) (h : Heap) (chains : Chains) where
  pub emptied-kept :
      (v : ℕ)
      → v % half a ≢ a.expand_bucket
      → (emptied a chains (home (moved_on a) v) ≡ chains (home a v))
        × (read (moved_on a) h (home (moved_on a) v) ≡ read a h (home a v))
  unfolding read update
  emptied-kept v ne =
      rw (home-kept a g v ne, home-growing a v g.expanding)
        (elim (Bool-cases (leb a.expand_bucket (v % half a))) [
          | inl e ↦ rw e (refl, ground arith)
          | inr e ↦ rw e (ground (arith, mod_half a v g), refl)
        ])

  emptied-taken :
      (v : ℕ)
      → v % half a ≡ a.expand_bucket
      → (emptied a chains (home (moved_on a) v) ≡ [])
        × (read (moved_on a) h (home (moved_on a) v) ≡ null)
  unfolding read
  emptied-taken v e = rw (home-taken a g v e) (
    ground (arith, mod_half a v g),
    g.fresh (v % hashsize a.hashpower) (omega (arith, mod_half a v g)),
  )

  module _ (t : Holds a h chains) where
    -- A chain that is left has the same items and the same cell.
    pub emptied-has :
        (v : ℕ) (x : Ptr)
        → has x (emptied a chains (home (moved_on a) v)) ≡ true
        → (v % half a ≢ a.expand_bucket) × (has x (chains (home a v)) ≡ true)
    emptied-has v x i = elim (ℕ_discrete (v % half a) a.expand_bucket) [
      | yes e ↦ let none_there : has x [] ≡ true = rw (emptied-taken v e).0 at i in (cc)
      | no ne ↦ (ne, rw (emptied-kept v ne).0 at i)
    ]

    pub emptied-Holds : Holds (moved_on a) h (emptied a chains)
    emptied-Holds = record {
      chain = λ v. elim (ℕ_discrete (v % half a) a.expand_bucket) [
        | yes e ↦ rw ((emptied-taken v e).0, (emptied-taken v e).1) refl
        | no ne ↦ rw ((emptied-kept v ne).0, (emptied-kept v ne).1) (t.chain v)
      ];
      distinct = λ v. elim (ℕ_discrete (v % half a) a.expand_bucket) [
        | yes e ↦ rw ((emptied-taken v e).0) tt
        | no ne ↦ rw ((emptied-kept v ne).0) (t.distinct v)
      ];
      placed = λ v x i.
          let (ne, j) = emptied-has v x i in
          let same = t.placed v x j in
          let other = λ (e : (h x).hv % half a ≡ a.expand_bucket).
            ne (sym (mod_of_home a g v (h x).hv same) ∙ e) in
          home-kept a g (h x).hv other ∙ same ∙ sym (home-kept a g v ne);
    }

    pub bucket-mod :
        (x : Ptr)
        → has x (chains (old a.expand_bucket)) ≡ true
        → (h x).hv % half a ≡ a.expand_bucket
    bucket-mod x i =
        let j : has x (chains (home a a.expand_bucket)) ≡ true = rw (home-bucket a g) i in
        mod_of_home a g a.expand_bucket (h x).hv (t.placed a.expand_bucket x j)
        ∙ mod-eq_of_lt g.left

    pub bucket-Outside :
        (x : Ptr)
        → has x (chains (old a.expand_bucket)) ≡ true
        → Outside (moved_on a) (emptied a chains) x
    bucket-Outside x i v = elim (Bool-cases (has x (emptied a chains (home (moved_on a) v)))) [
      | inr out ↦ out
      | inl held ↦
          let (ne, j) = emptied-has v x held in
          absurd (ne (sym (mod_of_home a g v (h x).hv (t.placed v x j)) ∙ bucket-mod x i))
    ]
