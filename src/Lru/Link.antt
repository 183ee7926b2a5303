-- ===== src/Lru/Link.antt =====
-- do_item_link: an item comes into the table and into the queue of its class.
use memcached4chaos.Base.{
  ℕ, ◌+◌, ◌≤◌, ◌%◌, ◌^◌, ◌<◌, ◌≡◌, ◌≢◌, ◌⊎◌, ap, ◌∙◌, refl, arith, true, false, ltb, Bool-cases,
  inl, inr, List, ◌∷◌, has, length, some,
}
use mathlib.Core.Path.{subst}
use memcached4chaos.System.{Ptr, null, Env, Heap, Item, update, update_self, update_ne}
use memcached4chaos.Assoc.{AssociativeArray, home, matches, assoc_insert}
use memcached4chaos.Assoc.Find.{Chains, Stored}
use memcached4chaos.Assoc.Insert.{in_front, assoc_insert-Holds}
use memcached4chaos.Assoc.Items.{Rechained, assoc_insert-Rechained}
use memcached4chaos.Lru.Monad.{LruLists, ◌>>=◌, prefix, on_assoc}
use memcached4chaos.Lru.Items.{do_item_link}
use memcached4chaos.Lru.Queue.{item_link_q}
use memcached4chaos.Lru.Queue.Runs.{clsid, with_heap, load-ne, change-ne, assert-true}
use memcached4chaos.Lru.Queue.Lists.{IsQueue, Others, frame-IsQueue, item_link_q-IsQueue}
use memcached4chaos.Lru.State.{IsCache, IsCache-frame, Agrees-refl}
use memcached4chaos.Lru.Requeue.{Moves}
use memcached4chaos.Lru.Joined.{
  MayJoin, Relinked, LinkedUp, joined-length, joined-Stored, before-Stored, Stored-joined,
  joined-IsCache,
}
use memcached4chaos.Lru.Update.{asked, get_current_time-asked}

abbrev link_up : ℕ → Item → Item
link_up now i = record i { linked = true; time = now }

abbrev in_use : Ptr → ℕ → LruLists → LruLists
in_use it now s = with_heap (update s.slabs.heap it (link_up now (s.slabs.heap it))) (asked s)

abbrev pub with_assoc : AssociativeArray → Heap → LruLists → LruLists
with_assoc a h s = record s { assoc = a; slabs = record s.slabs { heap = h } }

module _ (fuel : ℕ) ⦃env : Env⦄ where
  link-run :
      (it : Ptr) (s s3 : LruLists) (now : ℕ) (a : AssociativeArray) (h : Heap)
      → now ≡ env.time s.ticks % 2 ^ 32
      → it ≢ null
      → (s.slabs.heap it).linked ≡ false
      → (s.slabs.heap it).slabbed ≡ false
      → (s.slabs.heap it).nbytes < s.item_size_max
      → assoc_insert fuel
          (env.expansion s.ticks).0
          (env.expansion s.ticks).1
          (prefix (s.slabs.heap it).nkey (s.slabs.heap it).body)
          it
          s.assoc
          (in_use it now s).slabs.heap
        ≡ some (a, h)
      → item_link_q it (with_assoc a h (in_use it now s)) ≡ some (tt, s3)
      → do_item_link fuel it s ≡ some (tt, s3)
  unfolding do_item_link
  link-run it s s3 now a h at_now live unlinked whole fits insert link =
      let opened = load-ne it s live in
      let clock = get_current_time-asked s now at_now in
      let a2 = assert-true (ltb (s.slabs.heap it).nbytes s.item_size_max) s (ground arith) in
      let set = change-ne it (link_up now) (asked s) live in
      rw (do_item_link, ◌>>=◌, opened, unlinked, whole, a2, clock, set, on_assoc, insert, link) refl

-- The cache with an item more.
pub record Joins (s : LruLists) (chains : Chains) (queue : ℕ → List Ptr) (it : Ptr) (s' : LruLists)
    (chains' : Chains) : Type 0 where
  pub cache : IsCache s' chains' (update queue (clsid it s) (it ∷ queue (clsid it s)))
  pub holds : Stored s'.assoc chains' it
  pub keeps : (x : Ptr) → Stored s.assoc chains x → Stored s'.assoc chains' x
  pub adds_none : (x : Ptr) → Stored s'.assoc chains' x → (x ≡ it) ⊎ Stored s.assoc chains x
  pub items : (x : Ptr) → x ≢ it → Relinked (s.slabs.heap x) (s'.slabs.heap x)
  pub longer : (v : ℕ) → length (chains' (home s'.assoc v)) ≤ length (chains (home s.assoc v)) + 1
  pub item : LinkedUp (s.slabs.heap it) (s'.slabs.heap it)

pub Relinked-trans : (i i1 i2 i3 : Item) → i1 ≡ i → Rechained i1 i2 → Moves i2 i3 → Relinked i i3
Relinked-trans i i1 i2 i3 e f g = ground arith

LinkedUp-trans :
    (now : ℕ) (i i1 i2 i3 : Item)
    → i1 ≡ link_up now i
    → Rechained i1 i2
    → Moves i2 i3
    → LinkedUp i i3
LinkedUp-trans now i i1 i2 i3 e f g = ground arith

module _ (fuel : ℕ) ⦃env : Env⦄ (it : Ptr) (s : LruLists) (chains : Chains) (queue : ℕ → List Ptr)
    (k : IsCache s chains queue) (m : MayJoin s chains it) (live : it ≢ null) where
  now : ℕ
  now = env.time s.ticks % 2 ^ 32

  s1 : LruLists
  unfolding now
  s1 = in_use it now s

  it_1 : s1.slabs.heap it ≡ link_up now (s.slabs.heap it)
  unfolding s1
  it_1 = update_self s.slabs.heap it (link_up now (s.slabs.heap it))

  other_1 : (x : Ptr) → x ≢ it → s1.slabs.heap x ≡ s.slabs.heap x
  unfolding s1
  other_1 x ne = update_ne s.slabs.heap it x (link_up now (s.slabs.heap it)) ne

  Stored-ne : (x : Ptr) → Stored s.assoc chains x → x ≢ it
  Stored-ne x i e = m.outside (subst (λ y. Stored s.assoc chains y) e i)

  in_use-IsCache : IsCache s1 chains queue
  unfolding s1
  in_use-IsCache =
      IsCache-frame s s1.slabs s1.ticks chains queue
        (λ x i. Agrees-refl (s.slabs.heap x) (s1.slabs.heap x) (other_1 x (Stored-ne x i))) k

  hv_1 : (s1.slabs.heap it).hv ≡ (s.slabs.heap it).hv
  hv_1 = ap (λ (j : Item). j.hv) it_1

  outside_1 : (v : ℕ) → has it (chains (home s.assoc v)) ≡ false
  outside_1 v = elim (Bool-cases (has it (chains (home s.assoc v)))) [
    | inl i ↦ absurd (m.outside (v, i))
    | inr e ↦ e
  ]

  absent_1 :
      (x : Ptr)
      → Stored s.assoc chains x
      → matches
          (s1.slabs.heap it).hv
          (prefix (s.slabs.heap it).nkey (s.slabs.heap it).body)
          (s1.slabs.heap x)
        ≡ false
  absent_1 x i =
      rw (hv_1, other_1 x (Stored-ne x i))
        (elim (Bool-cases (
          matches (s.slabs.heap it).hv (prefix (s.slabs.heap it).nkey (s.slabs.heap it).body)
            (s.slabs.heap x))) [ inl fits ↦ absurd (m.absent x i fits) | inr e ↦ e ])

  not_queued : (c : ℕ) → has it (queue c) ≡ false
  not_queued c = elim (Bool-cases (has it (queue c))) [
    | inl i ↦ absurd (m.outside (k.queued c it i).0)
    | inr e ↦ e
  ]

  -- do_item_link of an item that may join succeeds, where its value is not too large, and the cache has it, in front of its queue, besides what it had.
  pub do_item_link-Joins :
      (s.slabs.heap it).linked ≡ false
      → (s.slabs.heap it).nbytes < s.item_size_max
      → length (chains (home s.assoc (s.slabs.heap it).hv)) < fuel
      → (s' : LruLists) × (chains' : Chains) × (do_item_link fuel it s ≡ some (tt, s'))
        × Joins s chains queue it s' chains'
  unfolding s1 now
  do_item_link-Joins unlinked fits enough =
      let (allocated, started) = env.expansion s.ticks in
      let key = prefix (s.slabs.heap it).nkey (s.slabs.heap it).body in
      let (a, h, chains', insert, t, same) =
        assoc_insert-Holds fuel allocated started key it s.assoc s1.slabs.heap chains
          in_use-IsCache.table live outside_1 absent_1 (rw hv_1 enough) in
      let rechained =
        assoc_insert-Rechained fuel allocated started key it s.assoc a s1.slabs.heap h insert in
      let s2 = with_assoc a h s1 in
      let id = clsid it s in
      let class : clsid it s2 ≡ id =
        ap (λ (j : Item). j.slabs_clsid) (rechained it) ∙ ap (λ (j : Item). j.slabs_clsid) it_1 in
      let queues = λ (c : ℕ).
        frame-IsQueue s1 s2 c (queue c) (refl, refl, refl)
          (λ y i.
            (ap (λ (j : Item). j.prev) (rechained y), ap (λ (j : Item). j.next) (rechained y)))
          (in_use-IsCache.queues c) in
      let away : has it (queue id) ≡ false = not_queued id in
      let (s3, link, front, o) =
        item_link_q-IsQueue it s2 (queue id) (rw class (queues id)) live away (rw class m.small) (
          ap (λ (j : Item). j.slabbed) (rechained it)
          ∙ ap (λ (j : Item). j.slabbed) it_1
          ∙ m.whole) in
      let front' = subst (λ (c : ℕ). IsQueue s3 c (it ∷ queue id)) class front in
      let o' = subst (λ (c : ℕ). Others c (it ∷ queue id) s2 s3) class o in
      let same' =
        subst
          (λ (v : ℕ).
            (w : ℕ) → chains' (home a w) ≡ in_front it (home s.assoc v) chains (home s.assoc w))
          hv_1 same in
      let items = λ (x : Ptr) (ne : x ≢ it).
        Relinked-trans (s.slabs.heap x) (s1.slabs.heap x) (h x) (s3.slabs.heap x) (other_1 x ne)
          (rechained x) (o.items x) in
      let item =
        LinkedUp-trans now (s.slabs.heap it) (s1.slabs.heap it) (h it) (s3.slabs.heap it) it_1
          (rechained it) (o.items it) in
      (
        s3,
        chains',
        link-run fuel it s s3 now a h refl live unlinked m.whole fits insert link,
        record {
          cache =
              joined-IsCache s s2 s3 chains chains' queue it id k m refl t queues front' o' same'
                items item;
          holds =
              joined-Stored s s2 s3 chains chains' queue it id k m refl t queues front' o' same'
                items item;
          keeps =
              before-Stored s s2 s3 chains chains' queue it id k m refl t queues front' o' same'
                items item;
          adds_none =
              Stored-joined s s2 s3 chains chains' queue it id k m refl t queues front' o' same'
                items item;
          longer =
              joined-length s s2 s3 chains chains' queue it id k m refl t queues front' o' same'
                items item;
          items = items;
          item = item;
        },
      )
