-- ===== src/Lru/Get.antt =====
-- do_item_update and do_item_get on the cache as a whole.
use memcached4chaos.Base.{
  ℕ, ◌+◌, ◌-◌, ◌%◌, ◌^◌, ◌≡◌, ◌≢◌, ap, ◌∙◌, sym, refl, arith, true, false, ltb, Bool-cases, inl,
  inr, List, ◌∷◌, ◌++◌, has, has-append, has-split, some,
}
use native.Mathlib.Decide.{ℕ_discrete}
use memcached4chaos.System.{Ptr, null, Env, Item, update, update_self, update_ne}
use memcached4chaos.Assoc.Find.{Chains, Stored}
use memcached4chaos.Lru.Monad.{LruLists, ◌>>=◌}
use memcached4chaos.Lru.Items.{do_item_update, item_update_interval}
use memcached4chaos.Lru.Queue.Runs.{clsid, load-ne}
use memcached4chaos.Lru.Queue.Linked.{Linked-ne_null}
use memcached4chaos.Lru.Queue.Lists.{IsQueue}
use memcached4chaos.Lru.State.{IsCache, IsCache-frame, Holds-frame, Fits-same, SameKey}
use memcached4chaos.Lru.Update.{asked, get_current_time-asked, Bumped, do_item_update-IsQueue}

-- The same items in another order, in the queue of one class.
module _ (s s' : LruLists) (chains : Chains) (queue : ℕ → List Ptr) (id : ℕ) (new : List Ptr)
    (k : IsCache s chains queue) (table : s'.assoc ≡ s.assoc)
    (items : (x : Ptr) → Bumped (s.slabs.heap x) (s'.slabs.heap x))
    (queues : (c : ℕ) → IsQueue s' c (update queue id new c))
    (members : (x : Ptr) → has x new ≡ has x (queue id)) where
  has_same : (c : ℕ) (x : Ptr) → has x (update queue id new c) ≡ has x (queue c)
  has_same c x = elim (ℕ_discrete c id) [
    | yes e ↦ rw (e, update_self queue id new) (members x)
    | no ne ↦ rw (update_ne queue id c new ne) refl
  ]

  class_kept : (x : Ptr) → clsid x s' ≡ clsid x s
  class_kept x = ap (λ (j : Item). j.slabs_clsid) (items x)

  key_kept : (x : Ptr) → SameKey (s.slabs.heap x) (s'.slabs.heap x)
  key_kept x = (
    ap (λ (j : Item). j.hv) (items x),
    ap (λ (j : Item). j.nkey) (items x),
    ap (λ (j : Item). j.body) (items x),
  )

  before : (x : Ptr) → Stored s'.assoc chains x → Stored s.assoc chains x
  before x i = rw table at i

  reordered-IsCache : IsCache s' chains (update queue id new)
  reordered-IsCache = record {
    table = rw table (
        Holds-frame s.assoc s.slabs.heap s'.slabs.heap chains
          (λ x i. (ap (λ (j : Item). j.hv) (items x), ap (λ (j : Item). j.h_next) (items x)))
          k.table);
    queues = queues;
    queued = λ c x i.
        let (stored, class) = k.queued c x (sym (has_same c x) ∙ i) in
        (rw table stored, class_kept x ∙ class);
    stored = λ x i.
        let (linked, whole, small, j) = k.stored x (before x i) in
        (
          ap (λ (j : Item). j.linked) (items x) ∙ linked,
          ap (λ (j : Item). j.slabbed) (items x) ∙ whole,
          rw (class_kept x) small,
          rw (class_kept x) (has_same (clsid x s) x ∙ j),
        );
    keys = λ x y i j fits. k.keys x y (before x i) (before y j) (
        Fits-same (s.slabs.heap x) (s'.slabs.heap x) (s.slabs.heap y) (s'.slabs.heap y) (key_kept x)
          (key_kept y) fits);
  }

module _ (fuel : ℕ) ⦃env : Env⦄ (s : LruLists) (chains : Chains) (queue : ℕ → List Ptr)
    (k : IsCache s chains queue) (it : Ptr) (i : Stored s.assoc chains it) where
  pub live : it ≢ null
  live =
      let (_, _, _, j) = k.stored it i in
      let id = clsid it s in
      Linked-ne_null s.slabs.heap null (s.heads id) (queue id) it (k.queues id).linked j

  update-recent :
      let now = env.time s.ticks % 2 ^ 32 in
      ltb (s.slabs.heap it).time ((now + 2 ^ 32 - item_update_interval) % 2 ^ 32) ≡ false
      → do_item_update fuel it s ≡ some (tt, asked s)
  unfolding do_item_update
  update-recent recent =
      let clock = get_current_time-asked s (env.time s.ticks % 2 ^ 32) refl in
      let opened = load-ne it (asked s) live in
      rw (do_item_update, ◌>>=◌, clock, opened, recent) refl

  requeued : (xs ys : List Ptr) (x : Ptr) → has x (it ∷ (xs ++ ys)) ≡ has x (xs ++ it ∷ ys)
  requeued xs ys x = rw (has-append x xs ys, has-append x xs (it ∷ ys)) (ground arith)

  -- do_item_update of an item of the cache succeeds, and keeps the cache, with a queue reordered at
  -- most.
  pub do_item_update-IsCache :
      (s' : LruLists) × (queue' : ℕ → List Ptr) × (do_item_update fuel it s ≡ some (tt, s'))
      × IsCache s' chains queue'
      × ((x : Ptr) → Bumped (s.slabs.heap x) (s'.slabs.heap x))
      × (s'.assoc ≡ s.assoc)
      × (s'.item_size_max ≡ s.item_size_max)
  do_item_update-IsCache =
      let now = env.time s.ticks % 2 ^ 32 in
      elim (Bool-cases
        (ltb (s.slabs.heap it).time ((now + 2 ^ 32 - item_update_interval) % 2 ^ 32))) [
          | inr recent ↦ (
            asked s,
            queue,
            update-recent recent,
            IsCache-frame s s.slabs (s.ticks + 1) chains queue (λ x j. refl) k,
            λ x. refl,
            refl,
            refl,
          )
          | inl stale ↦
              let (linked, whole, small, j) = k.stored it i in
              let id = clsid it s in
              let (xs, ys, split) = has-split it (queue id) j in
              let (s', run, q, _, others, items, table, limit) =
                do_item_update-IsQueue fuel it s xs ys now refl (rw (← split) (k.queues id)) small
                  whole linked (ground arith) in
              let new = it ∷ (xs ++ ys) in
              let apart = λ (c : ℕ) (ne : c ≢ id) (y : Ptr) (f : has y (queue c) ≡ true).
                absent_elsewhere c id ne y f xs ys split in
              let queues = λ (c : ℕ). queues_after s' id new xs ys q others apart c in
              (
                s',
                update queue id new,
                run,
                reordered-IsCache s s' chains queue id new k table items queues
                    (λ x. requeued xs ys x ∙ ap (has x) (sym split)),
                items,
                table,
                limit,
              )
        ]
    where
      absent_elsewhere :
          (c id : ℕ)
          → c ≢ id
          → (y : Ptr) → has y (queue c) ≡ true
          → (xs ys : List Ptr) → queue id ≡ xs ++ it ∷ ys
          → has y (xs ++ it ∷ ys) ≡ false
      absent_elsewhere c id ne y f xs ys split = elim (Bool-cases (has y (xs ++ it ∷ ys))) [
        | inl j ↦ absurd (ne (sym (k.queued c y f).1 ∙ (k.queued id y (ap (has y) split ∙ j)).1))
        | inr e ↦ e
      ]

      queues_after :
          (s' : LruLists) (id : ℕ) (new xs ys : List Ptr)
          → IsQueue s' id new
          → ((j : ℕ) (zs : List Ptr)
              → j ≢ id
              → ((y : Ptr) → has y zs ≡ true → has y (xs ++ it ∷ ys) ≡ false)
              → IsQueue s j zs
              → IsQueue s' j zs)
          → ((c : ℕ) → c ≢ id → (y : Ptr) → has y (queue c) ≡ true → has y (xs ++ it ∷ ys) ≡ false)
          → (c : ℕ) → IsQueue s' c (update queue id new c)
      queues_after s' id new xs ys q others apart c = elim (ℕ_discrete c id) [
        | yes e ↦ rw (e, update_self queue id new) q
        | no ne ↦ rw (update_ne queue id c new ne) (others c (queue c) ne (apart c ne) (k.queues c))
      ]
