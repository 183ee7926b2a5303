-- ===== src/Assoc/Round.antt =====
-- maintenance_round: one bucket of the old table comes to the new one, and nothing is lost.
use memcached4chaos.Base.{
  ℕ, ◌+◌, ◌%◌, ◌<◌, ◌≤◌, ◌≡◌, ◌≢◌, ◌⊎◌, arith, refl, sym, ap, ◌∙◌, true, false, Bool-cases, inl,
  inr, some, ◌==◌, length,
}
use memcached4chaos.Base.Bits.{mask-bit_and}
use native.Mathlib.Decide.{ℕ_discrete}
use memcached4chaos.System.{Ptr, Heap}
use memcached4chaos.Assoc.{
  AssociativeArray, old, read, get_bucket, hashsize, move_chain, maintenance_round,
}
use memcached4chaos.Assoc.Chain.{has, AreDistinct, IsChain}
use memcached4chaos.Assoc.Find.{Chains, Holds, Stored}
use memcached4chaos.Assoc.Growing.{
  half, IsGrowing, moved_on, mod_half, home-taken, home-bucket, home_of_bucket, emptied,
  emptied-Holds, emptied-has, bucket-mod, bucket-Outside, emptied-kept,
}
use memcached4chaos.Assoc.Move.{with_table, home-with_table, Moved, Aimed, move_chain-Moved}

-- What a round does, seen from outside: the same items are stored, none but its h_next is changed,
-- and the expansion has one bucket less to move or is over.
pub record Advanced (a : AssociativeArray) (h : Heap) (chains : Chains) (a' : AssociativeArray)
    (h' : Heap) (chains' : Chains) : Type 0 where
  pub holds : Holds a' h' chains'
  pub items : (x : Ptr) → h' x ≡ record (h x) { h_next = (h' x).h_next }
  pub keeps : (x : Ptr) → Stored a chains x → Stored a' chains' x
  pub adds_none : (x : Ptr) → Stored a' chains' x → Stored a chains x
  pub olds : (b : ℕ) → chains' (old b) ≡ chains (old b)
  pub same_power : a'.hashpower ≡ a.hashpower
  pub next : a'.expand_bucket ≡ a.expand_bucket + 1
  pub goes_on : IsGrowing a' ⊎ ((a'.expanding ≡ false) × (a.expand_bucket + 1 ≡ half a))

module _ (a : AssociativeArray) (h : Heap) (chains : Chains) (g : IsGrowing a)
    (t : Holds a h chains) where
  bucket-Aimed : Aimed a h (chains (old a.expand_bucket))
  unfolding get_bucket
  bucket-Aimed x i =
      rw (mask-bit_and a.hashpower (h x).hv)
        (home-taken a g (h x).hv (bucket-mod a g h chains t x i))

  bucket-IsChain : IsChain h (a.old_hashtable a.expand_bucket) (chains (old a.expand_bucket))
  unfolding read
  bucket-IsChain = rw (home-bucket a g) at (t.chain a.expand_bucket)

  bucket-AreDistinct : AreDistinct (chains (old a.expand_bucket))
  bucket-AreDistinct = rw (home-bucket a g) at (t.distinct a.expand_bucket)

  module _ (table : ℕ → Ptr) (h' : Heap) (chains' : Chains)
      (m : Moved a h (emptied a chains) (chains (old a.expand_bucket)) table h' chains') where
    after_round : AssociativeArray
    after_round = moved_on (with_table a table)

    round_keeps : (x : Ptr) → Stored a chains x → Stored after_round chains' x
    unfolding after_round
    round_keeps x (v, i) = elim (ℕ_discrete (v % half a) a.expand_bucket) [
      | yes e ↦
          let j : has x (chains (old a.expand_bucket)) ≡ true = rw (home_of_bucket a g v e) at i in
          ((h x).hv, rw (home-with_table a table (h x).hv) (m.brought x j))
      | no ne ↦ (
        v,
        rw (home-with_table a table v) (m.kept x v (rw ((emptied-kept a g h chains v ne).0) i)),
      )
    ]

    round_adds_none : (x : Ptr) → Stored after_round chains' x → Stored a chains x
    unfolding after_round
    round_adds_none x (v, i) = elim (m.origin x v (rw (home-with_table a table v) at i)) [
      | inl j ↦ (v, (emptied-has a g h chains t v x j).1)
      | inr j ↦ (a.expand_bucket, rw (home-bucket a g) j)
    ]

    round_away :
        (b : ℕ)
        → a.expand_bucket + 1 ≤ b % half a
        → (x : Ptr) → has x (chains (old a.expand_bucket)) ≡ true
        → get_bucket a (h x).hv ≢ b
    unfolding get_bucket
    round_away b le x i e =
        let same = mod_half a (h x).hv g in
        let low = bucket-mod a g h chains t x i in
        let here : (h x).hv % hashsize a.hashpower ≡ b =
          sym (mask-bit_and a.hashpower (h x).hv) ∙ e in
        let mod_b : (h x).hv % hashsize a.hashpower % half a ≡ b % half a =
          ap (λ (k : ℕ). k % half a) here in
        absurd (omega arith)

    round_fresh : (b : ℕ) → a.expand_bucket + 1 ≤ b % half a → table b ≡ 0
    round_fresh b le = m.untouched b (round_away b le) ∙ g.fresh b (omega arith)

    round_goes_on :
        IsGrowing after_round ⊎ ((after_round.expanding ≡ false) × (a.expand_bucket + 1 ≡ half a))
    unfolding after_round
    round_goes_on = elim (Bool-cases (a.expand_bucket + 1 == half a)) [
      | inl done ↦ inr (rw done refl, ground arith)
      | inr more ↦ inl (record {
        expanding = rw more refl;
        power_pos = g.power_pos;
        left = ground (arith, g.left);
        fresh = round_fresh;
      })
    ]

    round-Advanced : Holds after_round h' chains' → Advanced a h chains after_round h' chains'
    unfolding after_round
    round-Advanced holds = record {
      holds = holds;
      items = m.items;
      keeps = round_keeps;
      adds_none = round_adds_none;
      olds = m.olds;
      same_power = refl;
      next = refl;
      goes_on = round_goes_on;
    }

maintenance_round-moved_on :
    (fuel : ℕ) (a a' : AssociativeArray) (h h' : Heap)
    → a.expanding ≡ true
    → move_chain fuel (a.old_hashtable a.expand_bucket) a h ≡ some (a', h')
    → maintenance_round fuel a h ≡ some (moved_on a', h')
unfolding maintenance_round
maintenance_round-moved_on fuel a a' h h' e run = ground arith

-- A round of the maintenance thread moves one bucket, for good: the table keeps its invariant, the
-- same items are stored, and nothing but their h_next has changed.
pub maintenance_round-Advanced :
    (fuel : ℕ) (a : AssociativeArray) (h : Heap) (chains : Chains)
    → IsGrowing a
    → Holds a h chains
    → length (chains (old a.expand_bucket)) < fuel
    → (a' : AssociativeArray) × (h' : Heap) × (chains' : Chains) × (maintenance_round fuel a h
        ≡ some (a', h'))
      × Advanced a h chains a' h' chains'
unfolding after_round
maintenance_round-Advanced fuel a h chains g t enough =
    let (table, h', chains', run, holds, m) =
      move_chain-Moved fuel a h (emptied a chains) (a.old_hashtable a.expand_bucket)
        (chains (old a.expand_bucket)) (bucket-Aimed a h chains g t)
        (bucket-AreDistinct a h chains g t) (bucket-Outside a g h chains t)
        (bucket-IsChain a h chains g t) (emptied-Holds a g h chains t) enough in
    (
      moved_on (with_table a table),
      h',
      chains',
      maintenance_round-moved_on fuel a (with_table a table) h h' g.expanding run,
      round-Advanced a h chains g t table h' chains' m holds,
    )
