-- ===== src/Lru/Parted.antt =====
-- An item that has left the table and its queue.
use memcached4chaos.Base.{
  ℕ, ◌<◌, ◌≡◌, ◌≢◌, ap, ◌∙◌, sym, arith, true, false, Bool-cases, inl, inr, List, ◌∷◌, ◌++◌, has,
  has-append, AreDistinct, AreDistinct-middle, ◌==◌, ◌&&◌, not,
}
use mathlib.Core.Path.{subst}
use native.Mathlib.Decide.{ℕ_discrete}
use memcached4chaos.System.{Ptr, Item, update, update_self, update_ne}
use memcached4chaos.Slabs.{power_largest_max}
use memcached4chaos.Assoc.{home}
use memcached4chaos.Assoc.Find.{Chains, Holds, Stored}
use memcached4chaos.Assoc.Items.{Stored-left, left-Stored}
use memcached4chaos.Lru.Monad.{LruLists}
use memcached4chaos.Lru.Queue.Runs.{clsid}
use memcached4chaos.Lru.Queue.Lists.{IsQueue, Others}
use memcached4chaos.Lru.State.{IsCache, Fits, Fits-same, SameKey}
use memcached4chaos.Lru.Requeue.{same_table, Holds-requeue, queues-requeue}
use memcached4chaos.Lru.Joined.{Relinked}

-- `s2` has it no more in the table, `s3` neither in the queue.
module _ (s s2 s3 : LruLists) (chains chains' : Chains) (queue : ℕ → List Ptr) (it : Ptr) (id : ℕ)
    (xs ys : List Ptr) (k : IsCache s chains queue) (split : queue id ≡ xs ++ it ∷ ys)
    (t : Holds s2.assoc s2.slabs.heap chains') (q : (c : ℕ) → IsQueue s2 c (queue c))
    (rest : IsQueue s3 id (xs ++ ys)) (o : Others id (xs ++ it ∷ ys) s2 s3)
    (homes : (v : ℕ) → home s2.assoc v ≡ home s.assoc v)
    (left : (v : ℕ) (y : Ptr)
      → has y (chains' (home s.assoc v)) ≡ (has y (chains (home s.assoc v)) && not (y == it)))
    (items : (x : Ptr) → x ≢ it → Relinked (s.slabs.heap x) (s3.slabs.heap x)) where
  queues : ℕ → List Ptr
  queues = update queue id (xs ++ ys)

  pub parted-Stored : (x : Ptr) → Stored s3.assoc chains' x → Stored s.assoc chains x × (x ≢ it)
  parted-Stored x i =
      Stored-left it s.assoc s2.assoc chains chains' homes left x
        (rw (same_table s2 s3 id (xs ++ it ∷ ys) o) at i)

  pub other-Stored : (x : Ptr) → Stored s.assoc chains x → x ≢ it → Stored s3.assoc chains' x
  other-Stored x i ne =
      rw (same_table s2 s3 id (xs ++ it ∷ ys) o)
        (left-Stored it s.assoc s2.assoc chains chains' homes left x i ne)

  class_kept : (x : Ptr) → x ≢ it → clsid x s3 ≡ clsid x s
  class_kept x ne = ap (λ (j : Item). j.slabs_clsid) (items x ne)

  has_split : (x : Ptr) → has x (queue id) ≡ has x (xs ++ it ∷ ys)
  has_split x = ap (has x) split

  it_out : has it (xs ++ ys) ≡ false
  it_out =
      let (e, f, _) =
        AreDistinct-middle xs ys it
          (subst (λ (l : List Ptr). AreDistinct l) split (k.queues id).distinct) in
      rw (has-append it xs ys) (ground arith)

  has_rest : (x : Ptr) → x ≢ it → has x (xs ++ ys) ≡ has x (queue id)
  has_rest x ne = rw (has_split x, has-append x xs ys, has-append x xs (it ∷ ys)) (ground arith)

  apart : (c : ℕ) → c ≢ id → (y : Ptr) → has y (queue c) ≡ true → has y (xs ++ it ∷ ys) ≡ false
  apart c ne y i = elim (Bool-cases (has y (xs ++ it ∷ ys))) [
    | inl j ↦ absurd (ne (sym (k.queued c y i).1 ∙ (k.queued id y (has_split y ∙ j)).1))
    | inr e ↦ e
  ]

  queued :
      (c : ℕ) (x : Ptr) → has x (queues c) ≡ true → Stored s3.assoc chains' x × (clsid x s3 ≡ c)
  unfolding queues
  queued c x i = elim (ℕ_discrete c id) [
    | yes e ↦
        let j : has x (xs ++ ys) ≡ true = rw (e, update_self queue id (xs ++ ys)) at i in
        let x_it =
          λ (f : x ≡ it). absurd (ground (arith, it_out, ap (λ (y : Ptr). has y (xs ++ ys)) f)) in
        let (stored, class) = k.queued id x (sym (has_rest x x_it) ∙ j) in
        (other-Stored x stored x_it, class_kept x x_it ∙ class ∙ sym e)
    | no ne ↦
        let j = rw (update_ne queue id c (xs ++ ys) ne) at i in
        let (stored, class) = k.queued c x j in
        let x_it = λ (f : x ≡ it). ne (
          sym class
          ∙ (k.queued id x (rw (has_split x, f, has-append it xs (it ∷ ys)) (ground arith))).1) in
        (other-Stored x stored x_it, class_kept x x_it ∙ class)
  ]

  stored :
      (x : Ptr)
      → Stored s3.assoc chains' x
      → ((s3.slabs.heap x).linked ≡ true)
        × ((s3.slabs.heap x).slabbed ≡ false)
        × (clsid x s3 < power_largest_max)
        × (has x (queues (clsid x s3)) ≡ true)
  unfolding queues update
  stored x i =
      let (before, ne) = parted-Stored x i in
      let (linked, whole, small, j) = k.stored x before in
      let keep = items x ne in
      (
        ap (λ (j : Item). j.linked) keep ∙ linked,
        ap (λ (j : Item). j.slabbed) keep ∙ whole,
        rw (class_kept x ne) small,
        rw (class_kept x ne) (ground (arith, has_rest x, ap (λ (c : ℕ). has x (queue c)))),
      )

  key_kept : (x : Ptr) → x ≢ it → SameKey (s.slabs.heap x) (s3.slabs.heap x)
  key_kept x ne =
      let keep = items x ne in
      (ap (λ (j : Item). j.hv) keep, ap (λ (j : Item). j.nkey) keep, ap (λ (j : Item). j.body) keep)

  keys :
      (x y : Ptr)
      → Stored s3.assoc chains' x
      → Stored s3.assoc chains' y
      → Fits (s3.slabs.heap x) (s3.slabs.heap y)
      → y ≡ x
  keys x y i j fits =
      let (before_x, x_it) = parted-Stored x i in
      let (before_y, y_it) = parted-Stored y j in
      k.keys x y before_x before_y (
        Fits-same (s.slabs.heap x) (s3.slabs.heap x) (s.slabs.heap y) (s3.slabs.heap y)
          (key_kept x x_it) (key_kept y y_it) fits)

  pub parted-IsCache : IsCache s3 chains' (update queue id (xs ++ ys))
  unfolding queues
  parted-IsCache = record {
    table = Holds-requeue s2 s3 id (xs ++ it ∷ ys) o chains' t;
    queues = queues-requeue s2 s3 id (xs ++ it ∷ ys) o queue (xs ++ ys) (λ c ne. q c) apart rest;
    queued = queued;
    stored = stored;
    keys = keys;
  }
