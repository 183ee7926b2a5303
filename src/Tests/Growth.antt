-- ===== src/Tests/Growth.antt =====
-- A table that has just started to grow from four buckets to eight, with one item, at address
-- 1000, whose hash value is 5.
use memcached4chaos.Base.{
  ℕ, ◌%◌, ◌<◌, ◌≡◌, refl, arith, ◌==◌, if◌then◌else◌, Option, List, [], ◌∷◌, length, some, none,
  true, false, ◌∙◌, Bool-cases, inl, inr,
}
use mathlib.Core.Path.{subst}
use memcached4chaos.System.{Ptr, null, zero_item, Heap}
use memcached4chaos.Assoc.{
  AssociativeArray, which_hashtable, same_bytes, assoc_find, find_from, primary, old, after, home,
  read, assoc_insert, assoc_maintenance_thread,
}
use memcached4chaos.Assoc.Chain.{has, IsChain, AreDistinct}
use memcached4chaos.Assoc.Find.{Chains, Holds, Stored}
use memcached4chaos.Assoc.Growing.{IsGrowing, home-growing}
use memcached4chaos.Assoc.Maintenance.{assoc_maintenance_thread-ends}
use memcached4chaos.Assoc.Fresh.{assoc_insert-IsGrowing}

abbrev bucket : ℕ → List Ptr
bucket b = if b == 1 then 1000 ∷ [] else []

abbrev growing : AssociativeArray
growing = record {
  hashpower = 3;
  hash_items = 1;
  primary_hashtable = λ _. null;
  old_hashtable = λ b. if b == 1 then 1000 else null;
  expanding = true;
  expand_bucket = 0;
}

abbrev items : Heap
items p =
    if p == 1000
    then record zero_item { hv = 5; nkey = 1; body = λ _. 97 }
    else record zero_item { hv = 2; nkey = 1; body = λ _. 98 }

abbrev chains : Chains
chains (primary b) = []
chains (old b) = bucket b
chains (after x) = []

bucket-IsChain : (b : ℕ) → IsChain items (if b == 1 then 1000 else null) (bucket b)
bucket-IsChain b = elim (Bool-cases (b == 1)) [
  | inl e ↦ rw e (refl, λ e. absurd (omega arith), refl)
  | inr e ↦ rw e refl
]

bucket-AreDistinct : (b : ℕ) → AreDistinct (bucket b)
bucket-AreDistinct b = elim (Bool-cases (b == 1)) [ inl e ↦ rw e (refl, tt) | inr e ↦ rw e tt ]

bucket-has : (b : ℕ) (x : Ptr) → has x (bucket b) ≡ true → (b ≡ 1) × (x ≡ 1000)
bucket-has b x i = (ground arith, ground arith)

not_moved : (v : ℕ) → home growing v ≡ old (v % 4)
not_moved v = home-growing growing v refl ∙ ground arith

growing-Holds : Holds growing items chains
unfolding read
growing-Holds = record {
  chain = λ v. rw (not_moved v) (bucket-IsChain (v % 4));
  distinct = λ v. rw (not_moved v) (bucket-AreDistinct (v % 4));
  placed = λ v x i.
      let (b, e) = bucket-has (v % 4) x (subst (λ p. has x (chains p) ≡ true) (not_moved v) i) in
      rw (e, not_moved v, not_moved 5, b) refl;
}

growing-IsGrowing : IsGrowing growing
growing-IsGrowing = record {
  expanding = refl;
  power_pos = omega arith;
  left = omega arith;
  fresh = λ b le. refl;
}

bucket-short : (b : ℕ) → length (bucket b) < 5
bucket-short b = elim (Bool-cases (b == 1)) [
  | inl e ↦ rw e (omega arith)
  | inr e ↦ rw e (omega arith)
]

-- a table and the items that a run leaves, if it ends
abbrev outcome : Option (AssociativeArray × Heap) → AssociativeArray × Heap
outcome none = (growing, items)
outcome (some r) = r

abbrev inserted : AssociativeArray × Heap
inserted = outcome (assoc_insert 5 true true (98 ∷ []) 2000 growing items)

insertion : assoc_insert 5 true true (98 ∷ []) 2000 growing items ≡ some inserted
unfolding assoc_insert assoc_find find_from home which_hashtable read same_bytes
insertion = refl

assoc_insert-IsGrowing_example : IsGrowing inserted.0
assoc_insert-IsGrowing_example =
    assoc_insert-IsGrowing 5 true true (98 ∷ []) 2000 growing inserted.0 items inserted.1
      growing-IsGrowing insertion

assoc_maintenance_thread-ends_example :
    (a' : AssociativeArray) × (h' : Heap) × (chains' : Chains) × (assoc_maintenance_thread 4 5
        growing items
      ≡ some (a', h'))
    × (a'.expanding ≡ false)
    × (a'.hashpower ≡ 3)
    × Holds a' h' chains'
    × ((x : Ptr) → h' x ≡ record (items x) { h_next = (h' x).h_next })
    × ((x : Ptr) → Stored growing chains x → Stored a' chains' x)
    × ((x : Ptr) → Stored a' chains' x → Stored growing chains x)
assoc_maintenance_thread-ends_example =
    assoc_maintenance_thread-ends 4 5 growing items chains growing-IsGrowing growing-Holds
      bucket-short (omega arith)
