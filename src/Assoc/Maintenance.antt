-- ===== src/Assoc/Maintenance.antt =====
-- The maintenance thread: an expansion ends, and the table that it leaves has the same items.
use memcached4chaos.Base.{
  ℕ, zero, suc, ◌+◌, ◌<◌, ◌≤◌, ◌≡◌, arith, ap, ◌∙◌, true, false, inl, inr, some, length,
}
use memcached4chaos.System.{Ptr, Heap, Item}
use memcached4chaos.Assoc.{AssociativeArray, old, maintenance_round, assoc_maintenance_thread}
use memcached4chaos.Assoc.Find.{Chains, Holds, Stored}
use memcached4chaos.Assoc.Growing.{half, IsGrowing}
use memcached4chaos.Assoc.Round.{maintenance_round-Advanced}

thread_last :
    (rounds fuel : ℕ) (a a' : AssociativeArray) (h h' : Heap)
    → maintenance_round fuel a h ≡ some (a', h')
    → a'.expanding ≡ false
    → assoc_maintenance_thread (suc rounds) fuel a h ≡ some (a', h')
unfolding assoc_maintenance_thread
thread_last rounds fuel a a' h h' run done = ground arith

thread_next :
    (rounds fuel : ℕ) (a a' b : AssociativeArray) (h h' k : Heap)
    → maintenance_round fuel a h ≡ some (a', h')
    → a'.expanding ≡ true
    → assoc_maintenance_thread rounds fuel a' h' ≡ some (b, k)
    → assoc_maintenance_thread (suc rounds) fuel a h ≡ some (b, k)
unfolding assoc_maintenance_thread
thread_next rounds fuel a a' b h h' k run more rest = ground arith

-- With as many rounds as there are buckets left, and fuel for the longest chain, the thread comes
-- to its end: the expansion is over, the table keeps its invariant, the same items are stored, and
-- nothing but their h_next has changed.
pub assoc_maintenance_thread-ends :
    (rounds fuel : ℕ) (a : AssociativeArray) (h : Heap) (chains : Chains)
    → IsGrowing a
    → Holds a h chains
    → ((b : ℕ) → length (chains (old b)) < fuel)
    → half a ≤ a.expand_bucket + rounds
    → (a' : AssociativeArray) × (h' : Heap) × (chains' : Chains) × (assoc_maintenance_thread rounds
          fuel a h
        ≡ some (a', h'))
      × (a'.expanding ≡ false)
      × (a'.hashpower ≡ a.hashpower)
      × Holds a' h' chains'
      × ((x : Ptr) → h' x ≡ record (h x) { h_next = (h' x).h_next })
      × ((x : Ptr) → Stored a chains x → Stored a' chains' x)
      × ((x : Ptr) → Stored a' chains' x → Stored a chains x)
assoc_maintenance_thread-ends zero fuel a h chains g t enough rounds_left =
    absurd (omega (arith, g.left))
assoc_maintenance_thread-ends (suc rounds) fuel a h chains g t enough rounds_left =
    let (a', h', chains', run, m) =
      maintenance_round-Advanced fuel a h chains g t (enough a.expand_bucket) in
    elim m.goes_on [
      | inr (done, last) ↦ (
        a',
        h',
        chains',
        thread_last rounds fuel a a' h h' run done,
        done,
        m.same_power,
        m.holds,
        m.items,
        m.keeps,
        m.adds_none,
      )
      | inl more ↦
          let (b, k, others, run', done, power, holds, items, keeps, adds_none) =
            assoc_maintenance_thread-ends rounds fuel a' h' chains' more m.holds
              (λ b. rw (m.olds b) (enough b)) (rw (m.same_power, m.next) (omega arith)) in
          (
            b,
            k,
            others,
            thread_next rounds fuel a a' b h h' k run more.expanding run',
            done,
            power ∙ m.same_power,
            holds,
            λ x. items x ∙ ap (λ (i : Item). record i { h_next = (k x).h_next }) (m.items x),
            λ x i. keeps x (m.keeps x i),
            λ x i. m.adds_none x (adds_none x i),
          )
    ]
