-- ===== src/Slabs/Table.antt =====
-- The table of size classes that the constructor leaves behind.
use memcached4chaos.Base.{
  ℕ, zero, suc, ◌+◌, ◌*◌, ◌/◌, ◌%◌, ◌^◌, ◌≤◌, ◌<◌, ◌≡◌, refl, arith, ltb, leb, [], some,
  if◌then◌else◌, Bool-cases, not_ltb→le, ltb→lt, leb→le, ap, ◌∙◌, true, Option, inl, inr,
}
use native.Mathlib.Decide.{ℕ_discrete}
use native.Mathlib.Nat.{div-le_self, div-add-mod, mod-lt, mul-div-le}
use memcached4chaos.System.{update, update_self, update_ne, Env, null, sizeof_hash_item}
use memcached4chaos.Float.{round_float, round_float-near}
use memcached4chaos.Slabs.{
  largest_size, grown, Config, SlabClass, SlabAllocator, size_classes, align, empty_class,
  new_allocator,
}

-- A class with no page yet: nothing on the free list, no chunk of a last page.
pub record IsFresh (p : SlabClass) : Type 0 where
  pub slots : p.slots ≡ []
  pub sl_total : p.sl_total ≡ 0
  pub end_page_ptr : p.end_page_ptr ≡ null
  pub end_page_free : p.end_page_free ≡ 0
  pub slab_list : p.slab_list ≡ []
  pub list_size : p.list_size ≡ 0
  pub requested : p.requested ≡ 0

-- Chunks of a class: not empty, and a page of them is no larger than `max`.
pub record IsSized (max : ℕ) (p : SlabClass) : Type 0 where
  pub size_pos : 0 < p.size
  pub perslab_pos : 0 < p.perslab
  pub page-le : p.size * p.perslab ≤ max
  pub fresh : IsFresh p

-- The configurations that the theorem speaks of: the factor is 1.25, as DataCache sets it.
pub record IsConfig (c : Config) : Type 0 where
  pub num : c.factor_num ≡ 5
  pub den : c.factor_den ≡ 4
  pub room : 64 ≤ c.item_size_max
  pub small : c.item_size_max < 2 ^ 31
  pub chunk : c.chunk_size < 2 ^ 31

module _ (c : Config) (ok : IsConfig c) where
  -- Chunk sizes below the last class are multiples of 8.
  abbrev pub Good : SlabClass → Type 0
  Good p = IsSized c.item_size_max p × (p.size % 8 ≡ 0)

  align_lem :
      (size : ℕ)
      → 0 < size
      → size + 8 ≤ c.item_size_max
      → (0 < align size) × (align size ≤ c.item_size_max) × (align size % 8 ≡ 0)
  align_lem size pos le = ground (arith, ok.room, ok.small)

  page_lem : (size max : ℕ) → 0 < size → size ≤ max → (0 < max / size) × (size * (max / size) ≤ max)
  page_lem size max pos le = (
    elim (Bool-cases (ltb 0 (max / size))) [
      | inl some_fit ↦ ltb→lt _ _ some_fit
      | inr none_fit ↦
          let q : max / size ≡ 0 = omega (arith, not_ltb→le _ _ none_fit) in
          absurd (omega (arith, div-add-mod max size, mod-lt max pos, ap (λ (t : ℕ). size * t) q))
    ],
    mul-div-le max size,
  )

  test_lem :
      (size : ℕ)
      → 0 < size
      → leb (round_float size 1) (largest_size c) ≡ true
      → size + 8 ≤ c.item_size_max
  unfolding largest_size
  test_lem size pos h =
      let max = c.item_size_max in
      let (_, converted) = round_float-near size 1 (omega arith) pos in
      let (above, below) = round_float-near max 1 (omega arith) (omega (arith, ok.room)) in
      let (quotient, _) =
        round_float-near (round_float max 1 * 4) (2 ^ 23 * 5) (omega arith)
          (omega (arith, ok.room)) in
      let le = leb→le _ _ (rw (ok.num, ok.den) at h) in omega (arith, ok.room, le)

  growth_lem : (size : ℕ) → 0 < size → size ≤ c.item_size_max → 0 < grown c size
  unfolding grown
  growth_lem size pos le =
      let (above, below) = round_float-near size 1 (omega arith) pos in
      let (upper, lower) =
        round_float-near (round_float size 1 * 5) (2 ^ 23 * 4) (omega arith) (omega arith) in
      rw (ok.num, ok.den) (omega (arith, ok.small))

  -- The class that one round writes.
  sized : ℕ → SlabClass → SlabClass
  sized size p = record p { size = align size; perslab = c.item_size_max / align size % 2 ^ 32 }

  sized-Good :
      (size : ℕ) (p : SlabClass)
      → 0 < size
      → size + 8 ≤ c.item_size_max
      → IsFresh p
      → Good (sized size p)
  unfolding sized
  sized-Good size p pos bound f =
      let (positive, le, even) = align_lem size pos bound in
      let (some_fit, page) = page_lem (align size) c.item_size_max positive le in
      let whole : c.item_size_max / align size % 2 ^ 32 ≡ c.item_size_max / align size =
        omega (arith, div-le_self c.item_size_max (align size), ok.small) in
      (
        record {
          size_pos = positive;
          perslab_pos = rw whole some_fit;
          page-le = rw whole page;
          fresh = ground arith;
        },
        even,
      )

  -- What the loop leaves, from round `i` on.
  record Built (i rounds : ℕ) (cs : ℕ → SlabClass) (out : ℕ × (ℕ → SlabClass)) : Type 0 where
    from-le : i ≤ out.0
    le-end : out.0 ≤ i + rounds
    good : (j : ℕ) → i ≤ j → j < out.0 → Good (out.1 j)
    before : (j : ℕ) → j < i → out.1 j ≡ cs j
    after : IsFresh (out.1 out.0)

  Built-stop : (i rounds : ℕ) (cs : ℕ → SlabClass) → IsFresh (cs i) → Built i rounds cs (i, cs)
  Built-stop i rounds cs f = record {
    from-le = omega arith;
    le-end = omega arith;
    good = λ j p q. absurd (omega arith);
    before = λ j p. refl;
    after = f;
  }

  Built-round :
      (i rounds : ℕ) (cs : ℕ → SlabClass) (p : SlabClass) (out : ℕ × (ℕ → SlabClass))
      → Good p
      → Built (i + 1) rounds (update cs i p) out
      → Built i (suc rounds) cs out
  Built-round i rounds cs p out g b = record {
    from-le = omega (arith, b.from-le);
    le-end = omega (arith, b.le-end);
    good = λ j lo hi. elim (ℕ_discrete j i) [
      | yes e ↦ rw (e, b.before i (omega arith), update_self cs i p) g
      | no ne ↦ b.good j (omega arith) hi
    ];
    before = λ j lt. b.before j (omega arith) ∙ update_ne cs i j p (omega arith);
    after = b.after;
  }

  size_classes-suc :
      (rounds i size : ℕ) (cs : ℕ → SlabClass)
      → size_classes c (suc rounds) i size cs ≡ (
          if leb (round_float size 1) (largest_size c)
          then size_classes c rounds
              (i + 1)
              (grown c (align size))
              (update cs i (sized size (cs i)))
          else (i, cs))
  unfolding size_classes sized
  size_classes-suc rounds i size cs = refl

  size_classes-zero : (i size : ℕ) (cs : ℕ → SlabClass) → size_classes c 0 i size cs ≡ (i, cs)
  unfolding size_classes
  size_classes-zero i size cs = refl

  size_classes-Built :
      (rounds i size : ℕ) (cs : ℕ → SlabClass)
      → 0 < size
      → ((j : ℕ) → i ≤ j → IsFresh (cs j))
      → Built i rounds cs (size_classes c rounds i size cs)
  size_classes-Built zero i size cs pos fresh =
      rw (size_classes-zero i size cs) (Built-stop i 0 cs (fresh i (omega arith)))
  size_classes-Built (suc rounds) i size cs pos fresh =
      rw (size_classes-suc rounds i size cs)
        (elim (Bool-cases (leb (round_float size 1) (largest_size c))) [
          | inr stop ↦ rw stop (Built-stop i (suc rounds) cs (fresh i (omega arith)))
          | inl go ↦
              let bound = test_lem size pos go in
              let (positive, le, _) = align_lem size pos bound in
              let p = sized size (cs i) in
              rw go (
                Built-round i rounds cs p _
                  (sized-Good size (cs i) pos bound (fresh i (omega arith)))
                  (size_classes-Built rounds (i + 1) _ (update cs i p)
                    (growth_lem (align size) positive le)
                    (λ j lo. rw (update_ne cs i j p (omega arith)) (fresh j (omega arith)))))
        ])

  table : ℕ × (ℕ → SlabClass)
  table = size_classes c 199 1 ((sizeof_hash_item + c.chunk_size) % 2 ^ 32) (λ _. empty_class)

  table-Built : Built 1 199 (λ _. empty_class) table
  unfolding table
  table-Built =
      size_classes-Built 199 1 ((sizeof_hash_item + c.chunk_size) % 2 ^ 32) (λ _. empty_class)
        (omega (arith, ok.chunk)) (λ j _. ground arith)

  last_class : SlabClass
  last_class = record (table.1 table.0) { size = c.item_size_max % 2 ^ 32; perslab = 1 }

  last_class-IsSized : IsSized c.item_size_max last_class
  unfolding last_class
  last_class-IsSized = let f = table-Built.after in ground (arith, ok.room)

  new_allocator-table :
      ⦃env : Env⦄ (faked : Option ℕ) (raw s : SlabAllocator)
      → new_allocator c faked raw ≡ some s
      → (s.power_largest ≡ table.0) × (s.slabclass ≡ update table.1 table.0 last_class)
  unfolding new_allocator table last_class
  new_allocator-table faked raw s made = ground arith

  -- With the factor 1.25, a chunk_size below 2 ^ 31 and an item_size_max from 64 to 2 ^ 31 - 1, the
  -- constructor, where it does not abort, leaves between 1 and 200 classes: each has chunks, a page of which is no
  -- larger than item_size_max; all but the last have sizes that are multiples of 8; the last holds
  -- one item of the largest size; none has a page yet.
  pub new_allocator-Table :
      ⦃env : Env⦄ (faked : Option ℕ) (raw s : SlabAllocator)
      → new_allocator c faked raw ≡ some s
      → (1 ≤ s.power_largest)
        × (s.power_largest ≤ 200)
        × ((j : ℕ) → 1 ≤ j → j < s.power_largest → Good (s.slabclass j))
        × IsSized c.item_size_max (s.slabclass s.power_largest)
        × ((s.slabclass s.power_largest).size ≡ c.item_size_max)
  unfolding last_class
  new_allocator-Table faked raw s made =
      let b = table-Built in
      let (largest, classes) = new_allocator-table faked raw s made in
      let top : s.slabclass s.power_largest ≡ last_class =
        rw (largest, classes) (update_self table.1 table.0 last_class) in
      (
        omega (arith, b.from-le),
        omega (arith, b.le-end),
        λ j lo hi.
            rw (classes, update_ne table.1 table.0 j last_class (omega arith))
              (b.good j lo (omega arith)),
        rw top last_class-IsSized,
        rw top (omega (arith, ok.small)),
      )
