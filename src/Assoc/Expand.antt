-- ===== src/Assoc/Expand.antt =====
-- The start of an expansion: the table becomes the old one, and each hash value keeps its chain.
use memcached4chaos.Base.{
  ℕ, ◌+◌, ◌-◌, ◌%◌, ◌^◌, ◌≡◌, refl, arith, Bool, true, false, [], sym, ap, ◌∙◌,
}
use memcached4chaos.Base.Bits.{bit_and-mask, mask-bit_and}
use memcached4chaos.System.{Heap}
use memcached4chaos.Assoc.{
  AssociativeArray, old, primary, after, read, home, which_hashtable, get_bucket, assoc_expand,
}
use memcached4chaos.Assoc.Find.{Chains, Holds}

-- The cells that hash values belong to, by the state of the table.
pub home-steady :
    (a : AssociativeArray) (v : ℕ) → a.expanding ≡ false → home a v ≡ primary (v % 2 ^ a.hashpower)
unfolding home which_hashtable get_bucket
home-steady a v e = rw (e, mask-bit_and a.hashpower v)

-- The chains after the table has been made the old one.
pub expanded : Chains → Chains
expanded chains (old b) = chains (primary b)
expanded chains (primary b) = []
expanded chains (after x) = []

home-expanded :
    (a : AssociativeArray) (v : ℕ)
    → a.expanding ≡ false
    → (home (assoc_expand true true a) v ≡ old (v % 2 ^ a.hashpower))
unfolding home which_hashtable assoc_expand
home-expanded a v e =
    let same : a.hashpower + 1 - 1 ≡ a.hashpower = omega arith in
    rw (same, bit_and-mask a.hashpower v) (ground arith)

-- The same chains under other cells.
Holds-moved :
    (a a' : AssociativeArray) (h : Heap) (chains chains' : Chains)
    → ((v : ℕ) → read a' h (home a' v) ≡ read a h (home a v))
    → ((v : ℕ) → chains' (home a' v) ≡ chains (home a v))
    → ((v w : ℕ) → home a w ≡ home a v → home a' w ≡ home a' v)
    → Holds a h chains
    → Holds a' h chains'
Holds-moved a a' h chains chains' heads same cells t = record {
  chain = λ v. rw (heads v, same v) (t.chain v);
  distinct = λ v. rw (same v) (t.distinct v);
  placed = λ v x i. cells v (h x).hv (t.placed v x (rw (same v) at i));
}

primary-injective : (b c : ℕ) → primary b ≡ primary c → b ≡ c
primary-injective b c e = cc

read-expanded :
    (a : AssociativeArray) (h : Heap) (b : ℕ)
    → read (assoc_expand true true a) h (old b) ≡ read a h (primary b)
unfolding read assoc_expand
read-expanded a h b = refl

-- A failed expansion leaves the table in use as it was.
same_homes :
    (a b : AssociativeArray) (h : Heap) (chains : Chains)
    → ((v : ℕ) → (home b v ≡ home a v) × (read b h (home b v) ≡ read a h (home a v)))
    → Holds a h chains
    → (chains' : Chains) × Holds b h chains' × ((v : ℕ) → chains' (home b v) ≡ chains (home a v))
same_homes a b h chains same t =
    let cells : (v w : ℕ) → home a w ≡ home a v → home b w ≡ home b v =
      λ v w e. (same w).0 ∙ e ∙ sym (same v).0 in
    let kept : (v : ℕ) → chains (home b v) ≡ chains (home a v) = λ v. ap chains (same v).0 in
    (chains, Holds-moved a b h chains chains (λ v. (same v).1) kept cells t, kept)

failed-home :
    (a : AssociativeArray) (h : Heap) (v : ℕ)
    → a.expanding ≡ false
    → let b = assoc_expand true false a in
      (home b v ≡ home a v) × (read b h (home b v) ≡ read a h (home a v))
unfolding assoc_expand home which_hashtable get_bucket read
failed-home a h v e = rw e (refl, refl)

unallocated-home :
    (started : Bool) (a : AssociativeArray) (h : Heap) (v : ℕ)
    → a.expanding ≡ false
    → let b = assoc_expand false started a in
      (home b v ≡ home a v) × (read b h (home b v) ≡ read a h (home a v))
unfolding assoc_expand home which_hashtable get_bucket read
unallocated-home started a h v e = rw e (refl, refl)

-- Outside an expansion, starting one, or failing to, leaves every chain reachable under the same hash values.
pub assoc_expand-Holds :
    (allocated started : Bool) (a : AssociativeArray) (h : Heap) (chains : Chains)
    → a.expanding ≡ false
    → Holds a h chains
    → (chains' : Chains) × Holds (assoc_expand allocated started a) h chains'
      × ((v : ℕ) → chains' (home (assoc_expand allocated started a) v) ≡ chains (home a v))
unfolding expanded
assoc_expand-Holds true true a h chains steady t =
    let a' = assoc_expand true true a in
    let here = λ (v : ℕ). home-expanded a v steady in
    let there = λ (v : ℕ). home-steady a v steady in
    let same : (v : ℕ) → expanded chains (home a' v) ≡ chains (home a v) =
      λ v. rw (here v, there v) in
    let heads : (v : ℕ) → read a' h (home a' v) ≡ read a h (home a v) =
      λ v. rw (here v, there v) (read-expanded a h (v % 2 ^ a.hashpower)) in
    let cells : (v w : ℕ) → home a w ≡ home a v → home a' w ≡ home a' v =
      λ v w e. rw (here v, here w) (ap old (primary-injective _ _ (sym (there w) ∙ e ∙ there v))) in
    (expanded chains, Holds-moved a a' h chains (expanded chains) heads same cells t, same)
assoc_expand-Holds true false a h chains steady t =
    same_homes a (assoc_expand true false a) h chains (λ v. failed-home a h v steady) t
assoc_expand-Holds false started a h chains steady t =
    same_homes a (assoc_expand false started a) h chains
      (λ v. unallocated-home started a h v steady) t
