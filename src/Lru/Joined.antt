-- ===== src/Lru/Joined.antt =====
-- An item that has come into the table and into the queue of its class.
use memcached4chaos.Base.{
  ℕ, ◌+◌, ◌≤◌, length, ◌<◌, ◌≡◌, ◌≢◌, ◌⊎◌, ap, ◌∙◌, sym, arith, true, false, Bool-cases, inl, inr,
  List, ◌∷◌, has, ◌==◌,
}
use mathlib.Core.Path.{subst}
use native.Mathlib.Decide.{ℕ_discrete}
use memcached4chaos.System.{Ptr, Item, update, update_self, update_ne}
use memcached4chaos.Slabs.{power_largest_max}
use memcached4chaos.Assoc.{Place, home}
use memcached4chaos.Assoc.Cells.{same_place, same_place→eq}
use memcached4chaos.Assoc.Find.{Chains, Holds, Stored}
use memcached4chaos.Assoc.Insert.{in_front}
use memcached4chaos.Assoc.Items.{inserted-Stored, kept-Stored, Stored-inserted}
use memcached4chaos.Lru.Monad.{LruLists}
use memcached4chaos.Lru.Queue.Runs.{clsid}
use memcached4chaos.Lru.Queue.Lists.{IsQueue, Others}
use memcached4chaos.Lru.State.{IsCache, Fits, Fits-same, Fits-swap, SameKey}
use memcached4chaos.Lru.Requeue.{same_table, Holds-requeue, queues-requeue}

-- An item that differs in its three pointers at most.
abbrev pub Relinked : Item → Item → Type 0
Relinked i j = j ≡ record i { next = j.next; prev = j.prev; h_next = j.h_next }

-- The same for one that has become part of the cache.
abbrev pub LinkedUp : Item → Item → Type 0
LinkedUp i j =
    j ≡ record i { next = j.next; prev = j.prev; h_next = j.h_next; linked = true; time = j.time }

-- What an item must be, to become part of the cache: it is outside, no item has its key, and those
-- with its hash value have keys of its length.
pub record MayJoin (s : LruLists) (chains : Chains) (it : Ptr) : Type 0 where
  pub outside : Stored s.assoc chains it → ⊥
  pub whole : (s.slabs.heap it).slabbed ≡ false
  pub small : clsid it s < power_largest_max
  pub absent : (x : Ptr) → Stored s.assoc chains x → Fits (s.slabs.heap it) (s.slabs.heap x) → ⊥
  pub sizes :
      (x : Ptr)
      → Stored s.assoc chains x
      → (s.slabs.heap x).hv ≡ (s.slabs.heap it).hv
      → (s.slabs.heap x).nkey ≡ (s.slabs.heap it).nkey

in_front-length :
    (it : Ptr) (cell : Place) (chains : Chains) (d : Place)
    → length (in_front it cell chains d) ≤ length (chains d) + 1
in_front-length it cell chains d = elim (Bool-cases (same_place d cell)) [
  | inl e ↦ rw (e, same_place→eq d cell e) (omega arith)
  | inr e ↦ rw e (omega arith)
]

-- `s2` has it in the table, `s3` in the queue too.
module _ (s s2 s3 : LruLists) (chains chains' : Chains) (queue : ℕ → List Ptr) (it : Ptr) (id : ℕ)
    (k : IsCache s chains queue) (m : MayJoin s chains it) (at : clsid it s ≡ id)
    (t : Holds s2.assoc s2.slabs.heap chains') (q : (c : ℕ) → IsQueue s2 c (queue c))
    (front : IsQueue s3 id (it ∷ queue id)) (o : Others id (it ∷ queue id) s2 s3)
    (same : (v : ℕ)
      → chains' (home s2.assoc v)
        ≡ in_front it (home s.assoc (s.slabs.heap it).hv) chains (home s.assoc v))
    (items : (x : Ptr) → x ≢ it → Relinked (s.slabs.heap x) (s3.slabs.heap x))
    (item : LinkedUp (s.slabs.heap it) (s3.slabs.heap it)) where
  hv : ℕ
  hv = (s.slabs.heap it).hv

  queues : ℕ → List Ptr
  queues = update queue id (it ∷ queue id)

  -- Membership in the table, before and after.
  pub joined-Stored : Stored s3.assoc chains' it
  joined-Stored =
      rw (same_table s2 s3 id (it ∷ queue id) o)
        (inserted-Stored it (s.slabs.heap it).hv s.assoc s2.assoc chains chains' same)

  pub before-Stored : (x : Ptr) → Stored s.assoc chains x → Stored s3.assoc chains' x
  before-Stored x i =
      rw (same_table s2 s3 id (it ∷ queue id) o)
        (kept-Stored it (s.slabs.heap it).hv s.assoc s2.assoc chains chains' same x i)

  pub Stored-joined : (x : Ptr) → Stored s3.assoc chains' x → (x ≡ it) ⊎ Stored s.assoc chains x
  Stored-joined x i =
      Stored-inserted it (s.slabs.heap it).hv s.assoc s2.assoc chains chains' same x
        (rw (same_table s2 s3 id (it ∷ queue id) o) at i)

  pub joined-length :
      (v : ℕ) → length (chains' (home s3.assoc v)) ≤ length (chains (home s.assoc v)) + 1
  joined-length v =
      rw (same_table s2 s3 id (it ∷ queue id) o, same v)
        (in_front-length it (home s.assoc (s.slabs.heap it).hv) chains (home s.assoc v))

  other : (x : Ptr) → Stored s.assoc chains x → x ≢ it
  other x i e = m.outside (subst (λ y. Stored s.assoc chains y) e i)

  class_kept : (x : Ptr) → Stored s.assoc chains x → clsid x s3 ≡ clsid x s
  class_kept x i = ap (λ (j : Item). j.slabs_clsid) (items x (other x i))

  class_it : clsid it s3 ≡ id
  class_it = ap (λ (j : Item). j.slabs_clsid) item ∙ at

  not_queued : (c : ℕ) → has it (queue c) ≡ false
  not_queued c = elim (Bool-cases (has it (queue c))) [
    | inl i ↦ absurd (m.outside (k.queued c it i).0)
    | inr e ↦ e
  ]

  apart : (c : ℕ) → c ≢ id → (y : Ptr) → has y (queue c) ≡ true → has y (it ∷ queue id) ≡ false
  apart c ne y i =
      let (stored, class) = k.queued c y i in
      let y_it = other y stored in
      elim (Bool-cases (has y (queue id))) [
        | inl j ↦ absurd (ne (sym class ∙ (k.queued id y j).1))
        | inr e ↦ ground arith
      ]

  queued :
      (c : ℕ) (x : Ptr) → has x (queues c) ≡ true → Stored s3.assoc chains' x × (clsid x s3 ≡ c)
  unfolding queues
  queued c x i = elim (ℕ_discrete c id) [
    | yes e ↦
        let j : has x (it ∷ queue id) ≡ true = rw (e, update_self queue id (it ∷ queue id)) at i in
        elim (Bool-cases (x == it)) [
          | inl here ↦
              let same_item : it ≡ x = ground arith in
              rw (← same_item) (joined-Stored, class_it ∙ sym e)
          | inr there ↦
              let (stored, class) = k.queued id x (ground arith) in
              (before-Stored x stored, class_kept x stored ∙ class ∙ sym e)
        ]
    | no ne ↦
        let (stored, class) = k.queued c x (rw (update_ne queue id c (it ∷ queue id) ne) at i) in
        (before-Stored x stored, class_kept x stored ∙ class)
  ]

  stored :
      (x : Ptr)
      → Stored s3.assoc chains' x
      → ((s3.slabs.heap x).linked ≡ true)
        × ((s3.slabs.heap x).slabbed ≡ false)
        × (clsid x s3 < power_largest_max)
        × (has x (queues (clsid x s3)) ≡ true)
  unfolding queues update
  stored x i = elim (Stored-joined x i) [
    | inl e ↦ rw e (
      ap (λ (j : Item). j.linked) item,
      ap (λ (j : Item). j.slabbed) item ∙ m.whole,
      rw class_it (subst (λ c. c < power_largest_max) at m.small),
      rw class_it (ground arith),
    )
    | inr old ↦
        let (linked, whole, small, j) = k.stored x old in
        let keep = items x (other x old) in
        (
          ap (λ (j : Item). j.linked) keep ∙ linked,
          ap (λ (j : Item). j.slabbed) keep ∙ whole,
          rw (class_kept x old) small,
          rw (class_kept x old) (ground arith),
        )
  ]

  key_kept : (x : Ptr) → Stored s3.assoc chains' x → SameKey (s.slabs.heap x) (s3.slabs.heap x)
  key_kept x i = elim (Stored-joined x i) [
    | inl e ↦ rw e (
      ap (λ (j : Item). j.hv) item,
      ap (λ (j : Item). j.nkey) item,
      ap (λ (j : Item). j.body) item,
    )
    | inr old ↦
        let keep = items x (other x old) in
        (
          ap (λ (j : Item). j.hv) keep,
          ap (λ (j : Item). j.nkey) keep,
          ap (λ (j : Item). j.body) keep,
        )
  ]

  keys :
      (x y : Ptr)
      → Stored s3.assoc chains' x
      → Stored s3.assoc chains' y
      → Fits (s3.slabs.heap x) (s3.slabs.heap y)
      → y ≡ x
  keys x y i j fits =
      let before =
        Fits-same (s.slabs.heap x) (s3.slabs.heap x) (s.slabs.heap y) (s3.slabs.heap y)
          (key_kept x i) (key_kept y j) fits in
      elim (Stored-joined x i) [
        | inl e ↦ elim (Stored-joined y j) [
          | inl f ↦ f ∙ sym e
          | inr old ↦
              absurd (m.absent y old (subst (λ z. Fits (s.slabs.heap z) (s.slabs.heap y)) e before))
        ]
        | inr old ↦ elim (Stored-joined y j) [
          | inr old' ↦ k.keys x y old old' before
          | inl f ↦
              let to_it = subst (λ z. Fits (s.slabs.heap x) (s.slabs.heap z)) f before in
              let size = m.sizes x old (Fits-hv (s.slabs.heap x) (s.slabs.heap it) to_it) in
              absurd
                (m.absent x old (Fits-swap (s.slabs.heap x) (s.slabs.heap it) (sym size) to_it))
        ]
      ]
    where
      Fits-hv : (i j : Item) → Fits i j → i.hv ≡ j.hv
      Fits-hv i j f = ground arith

  pub joined-IsCache : IsCache s3 chains' (update queue id (it ∷ queue id))
  unfolding queues
  joined-IsCache = record {
    table = Holds-requeue s2 s3 id (it ∷ queue id) o chains' t;
    queues =
        queues-requeue s2 s3 id (it ∷ queue id) o queue (it ∷ queue id) (λ c ne. q c) apart front;
    queued = queued;
    stored = stored;
    keys = keys;
  }
