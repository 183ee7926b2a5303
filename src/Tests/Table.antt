-- ===== src/Tests/Table.antt =====
-- A hash table of four buckets with one item, at address 1000, whose key is "b"; there is an item
-- with the same key at 5000.
use memcached4chaos.Base.{
  ℕ, ◌%◌, ◌≡◌, ◌≢◌, refl, arith, ◌==◌, ◌&&◌, not, if◌then◌else◌, List, [], ◌∷◌, some, ◌⊎◌, true,
  false, Bool-cases, inl, inr,
}
use mathlib.Core.Path.{subst}
use memcached4chaos.System.{Ptr, null, zero_item, Heap}
use memcached4chaos.Assoc.{
  AssociativeArray, primary, old, after, home, read, same_bytes, assoc_find, assoc_insert,
  assoc_delete, assoc_expand,
}
use memcached4chaos.Assoc.Chain.{has, IsChain, AreDistinct, search_chain}
use memcached4chaos.Assoc.Find.{Chains, Holds, Stored, Absent, assoc_find_complete}
use memcached4chaos.Assoc.Expand.{home-steady, assoc_expand-Holds}
use memcached4chaos.Assoc.Insert.{Outside, in_front, assoc_insert-Holds}
use memcached4chaos.Assoc.Delete.{assoc_delete-Holds}

-- the hash value of "b"
abbrev pub b_hash : ℕ
b_hash = 2146812821

abbrev pub bucket : ℕ → List Ptr
bucket b = if b == 1 then 1000 ∷ [] else []

abbrev pub table : AssociativeArray
table = record {
  hashpower = 2;
  hash_items = 1;
  primary_hashtable = λ b. if b == 1 then 1000 else null;
  old_hashtable = λ _. null;
  expanding = false;
  expand_bucket = 0;
}

abbrev pub items : Heap
items p =
    if p == 1000
    then record zero_item {
      hv = b_hash;
      nkey = 1;
      nbytes = 7;
      linked = true;
      slabs_clsid = 1;
      body = λ _. 98;
    }
    else if p == 5000
    then record zero_item { hv = b_hash; nkey = 1; nbytes = 8; slabs_clsid = 1; body = λ _. 98 }
    else record zero_item { hv = 2; nkey = 1; body = λ _. 97 }

abbrev pub chains : Chains
chains (primary b) = bucket b
chains (old b) = []
chains (after x) = []

bucket-IsChain : (b : ℕ) → IsChain items (if b == 1 then 1000 else null) (bucket b)
bucket-IsChain b = elim (Bool-cases (b == 1)) [
  | inl e ↦ rw e (refl, λ e. absurd (omega arith), refl)
  | inr e ↦ rw e refl
]

bucket-AreDistinct : (b : ℕ) → AreDistinct (bucket b)
bucket-AreDistinct b = elim (Bool-cases (b == 1)) [ inl e ↦ rw e (refl, tt) | inr e ↦ rw e tt ]

pub bucket-has : (b : ℕ) (x : Ptr) → has x (bucket b) ≡ true → (b ≡ 1) × (x ≡ 1000)
bucket-has b x i = (ground arith, ground arith)

pub steady : (v : ℕ) → home table v ≡ primary (v % 4)
steady v = home-steady table v refl

pub table-Holds : Holds table items chains
unfolding read
table-Holds = record {
  chain = λ v. rw (steady v) (bucket-IsChain (v % 4));
  distinct = λ v. rw (steady v) (bucket-AreDistinct (v % 4));
  placed = λ v x i.
      let (b, e) = bucket-has (v % 4) x (subst (λ p. has x (chains p) ≡ true) (steady v) i) in
      rw (e, steady v, steady b_hash, b) refl;
}

assoc_find_complete_example :
    (x : Ptr) × (assoc_find 5 table items b_hash (98 ∷ []) ≡ some x)
    × (((x ≡ null) × Absent table items chains b_hash (98 ∷ []))
        ⊎ ((x ≢ null)
            × Stored table chains x
            × ((items x).hv ≡ b_hash)
            × (same_bytes (98 ∷ []) (items x).body ≡ true)))
unfolding home
assoc_find_complete_example =
    assoc_find_complete 5 table items chains b_hash (98 ∷ []) table-Holds (omega arith)

assoc_delete-Holds_example :
    (a' : AssociativeArray) × (h' : Heap) × (chains' : Chains) × (assoc_delete 5 b_hash
        (98 ∷ [])
        table
        items
      ≡ some (a', h'))
    × Holds a' h' chains'
    × ((v : ℕ) → home a' v ≡ home table v)
    × ((v : ℕ) (y : Ptr)
        → has y (chains' (home table v)) ≡ (has y (chains (home table v)) && not (y == 1000)))
unfolding home search_chain same_bytes
assoc_delete-Holds_example =
    assoc_delete-Holds 5 b_hash (98 ∷ []) table items chains table-Holds (λ e. absurd (omega arith))
      (omega arith)

-- an item that is not in the table, with another hash value
elsewhere : Outside table chains 2000
elsewhere v =
    rw (steady v) (elim (Bool-cases (v % 4 == 1)) [ inl e ↦ rw e refl | inr e ↦ rw e refl ])

unknown : Absent table items chains 2 (97 ∷ [])
unknown x (v, i) =
    let (b, e) = bucket-has (v % 4) x (subst (λ p. has x (chains p) ≡ true) (steady v) i) in
    rw e refl

assoc_insert-Holds_example :
    (a' : AssociativeArray) × (h' : Heap) × (chains' : Chains) × (assoc_insert 5 true true
        (97 ∷ [])
        2000
        table
        items
      ≡ some (a', h'))
    × Holds a' h' chains'
    × ((v : ℕ) → chains' (home a' v) ≡ in_front 2000 (home table 2) chains (home table v))
unfolding home
assoc_insert-Holds_example =
    assoc_insert-Holds 5 true true (97 ∷ []) 2000 table items chains table-Holds
      (λ e. absurd (omega arith)) elsewhere unknown (omega arith)

assoc_expand-Holds_example :
    (chains' : Chains) × Holds (assoc_expand true true table) items chains'
    × ((v : ℕ) → chains' (home (assoc_expand true true table) v) ≡ chains (home table v))
assoc_expand-Holds_example = assoc_expand-Holds true true table items chains refl table-Holds
