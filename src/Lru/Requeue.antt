-- ===== src/Lru/Requeue.antt =====
-- What a change of one queue means for the table, the items and the other queues.
use memcached4chaos.Base.{ℕ, ◌≡◌, ◌≢◌, ap, true, false, List, has}
use native.Mathlib.Decide.{ℕ_discrete}
use memcached4chaos.System.{Ptr, Item, update, update_self, update_ne}
use memcached4chaos.Assoc.Find.{Chains, Holds}
use memcached4chaos.Lru.Monad.{LruLists}
use memcached4chaos.Lru.Queue.Runs.{clsid}
use memcached4chaos.Lru.Queue.Lists.{IsQueue, Others}
use memcached4chaos.Lru.State.{Holds-frame}

-- An item that differs at most in where it stands in its queue.
abbrev pub Moves : Item → Item → Type 0
Moves i j = j ≡ record i { next = j.next; prev = j.prev }

module _ (s s' : LruLists) (id : ℕ) (xs : List Ptr) (o : Others id xs s s') where
  pub same_table : s'.assoc ≡ s.assoc
  same_table = ap (λ (t : LruLists). t.assoc) o.rest

  pub Holds-requeue :
      (chains : Chains) → Holds s.assoc s.slabs.heap chains → Holds s'.assoc s'.slabs.heap chains
  Holds-requeue chains t = rw same_table (
      Holds-frame s.assoc s.slabs.heap s'.slabs.heap chains
        (λ x i. (ap (λ (j : Item). j.hv) (o.items x), ap (λ (j : Item). j.h_next) (o.items x))) t)

  pub clsid-requeue : (x : Ptr) → clsid x s' ≡ clsid x s
  clsid-requeue x = ap (λ (j : Item). j.slabs_clsid) (o.items x)

  pub queues-requeue :
      (queue : ℕ → List Ptr) (new : List Ptr)
      → ((c : ℕ) → c ≢ id → IsQueue s c (queue c))
      → ((c : ℕ) → c ≢ id → (y : Ptr) → has y (queue c) ≡ true → has y xs ≡ false)
      → IsQueue s' id new
      → (c : ℕ) → IsQueue s' c (update queue id new c)
  queues-requeue queue new others apart q c = elim (ℕ_discrete c id) [
    | yes e ↦ rw (e, update_self queue id new) q
    | no ne ↦ rw (update_ne queue id c new ne) (o.queues c (queue c) ne (apart c ne) (others c ne))
  ]
