-- ===== src/Slabs/Classes.antt =====
-- The size classes: what the constructor's loop builds, and the search for the class of a size.
use memcached4chaos.Base.{
  ℕ, zero, suc, ◌+◌, ◌≤◌, ◌<◌, ◌≡◌, ◌≢◌, refl, arith, ltb, ◌==◌, ◌||◌, ◌⊎◌, inl, inr, Bool-cases,
  not_ltb→le, ltb→lt, ap,
}
use native.Mathlib.Decide.{ℕ_discrete}
use memcached4chaos.Slabs.{SlabClass, SlabAllocator, slabs_clsid, clsid_from}

-- `id` is the first class, from `from` on, whose chunks hold `size` bytes.
pub record FirstFit (cs : ℕ → SlabClass) (size from last id : ℕ) : Type 0 where
  pub from-le : from ≤ id
  pub le-last : id ≤ last
  pub fits : size ≤ (cs id).size
  pub first : (j : ℕ) → from ≤ j → j < id → (cs j).size < size

clsid_from-FirstFit :
    (cs : ℕ → SlabClass) (size last rounds res : ℕ)
    → res ≤ last
    → last < res + rounds
    → size ≤ (cs last).size
    → FirstFit cs size res last (clsid_from cs size rounds res)
unfolding clsid_from
clsid_from-FirstFit cs size last zero res le end h = absurd (omega arith)
clsid_from-FirstFit cs size last (suc rounds) res le end h =
    elim (Bool-cases (ltb (cs res).size size)) [
      | inr fits ↦ rw fits (record {
        from-le = omega arith;
        le-last = le;
        fits = not_ltb→le _ _ fits;
        first = λ j p q. absurd (omega arith);
      })
      | inl small ↦
          let ne : res ≢ last =
            λ e. absurd (omega (arith, ltb→lt _ _ small, ap (λ j. (cs j).size) e)) in
          let ih =
            clsid_from-FirstFit cs size last rounds (res + 1) (omega arith) (omega arith) h in
          rw small (record {
            from-le = omega (arith, ih.from-le);
            le-last = ih.le-last;
            fits = ih.fits;
            first = λ j p q. elim (ℕ_discrete res j) [
              | yes e ↦ rw (← e) (ltb→lt _ _ small)
              | no e ↦ ih.first j (omega arith) q
            ];
          })
    ]

-- slabs_clsid returns 0 exactly for sizes that no class holds, and else the smallest class whose
-- chunks are large enough.
pub slabs_clsid-FirstFit :
    (s : SlabAllocator) (size : ℕ)
    → 1 ≤ s.power_largest
    → (((size ≡ 0) ⊎ ((s.slabclass s.power_largest).size < size)) × (slabs_clsid s size ≡ 0))
      ⊎ ((0 < size)
          × (size ≤ (s.slabclass s.power_largest).size)
          × FirstFit s.slabclass size 1 s.power_largest (slabs_clsid s size))
unfolding slabs_clsid
slabs_clsid-FirstFit s size pos =
    elim (Bool-cases (size == 0 || ltb (s.slabclass s.power_largest).size size)) [
      | inl out ↦ rw out (inl (ground arith, refl))
      | inr held ↦ rw held (
          inr (
            ground arith,
            ground arith,
            clsid_from-FirstFit s.slabclass size s.power_largest s.power_largest 1 pos (omega arith)
                (ground arith),
          ))
    ]
