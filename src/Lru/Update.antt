-- ===== src/Lru/Update.antt =====
-- do_item_update: an item that has not been used for a minute goes to the front of its queue.
use memcached4chaos.Base.{
  ℕ, ◌+◌, ◌-◌, ◌%◌, ◌^◌, ◌<◌, ◌≡◌, ◌≢◌, refl, sym, ap, ◌∙◌, arith, true, false, ltb, List, ◌∷◌,
  ◌++◌, has, has-append, AreDistinct-middle, some,
}
use mathlib.Core.Path.{subst}
use memcached4chaos.System.{Ptr, null, Env, Item, update, update_self}
use memcached4chaos.Slabs.{power_largest_max}
use memcached4chaos.Lru.Monad.{LruLists, ◌>>=◌, get_current_time}
use memcached4chaos.Lru.Items.{do_item_update, item_update_interval}
use memcached4chaos.Lru.Queue.{item_link_q, item_unlink_q}
use memcached4chaos.Lru.Queue.Runs.{with_heap, clsid, load-ne, change-ne}
use memcached4chaos.Lru.Queue.Linked.{Linked-ne_null}
use memcached4chaos.Lru.Queue.Lists.{IsQueue, frame-IsQueue, item_link_q-IsQueue}
use memcached4chaos.Lru.Queue.Removal.{item_unlink_q-IsQueue}

-- the state after a question to the clock
abbrev pub asked : LruLists → LruLists
asked s = record s { ticks = s.ticks + 1 }

abbrev touch : ℕ → Item → Item
touch now i = record i { time = now }

abbrev touched : Ptr → ℕ → LruLists → LruLists
touched it now s = with_heap (update s.slabs.heap it (touch now (s.slabs.heap it))) s

module _ ⦃env : Env⦄ where
  pub get_current_time-asked :
      (s : LruLists) (now : ℕ)
      → now ≡ env.time s.ticks % 2 ^ 32
      → get_current_time s ≡ some (now, asked s)
  unfolding get_current_time
  get_current_time-asked s now at_now = rw at_now refl

module _ (fuel : ℕ) ⦃env : Env⦄ where
  update-run :
      (it : Ptr) (s s1 s2 : LruLists) (now : ℕ)
      → now ≡ env.time s.ticks % 2 ^ 32
      → it ≢ null
      → (s.slabs.heap it).time < (now + 2 ^ 32 - item_update_interval) % 2 ^ 32
      → (s.slabs.heap it).slabbed ≡ false
      → (s.slabs.heap it).linked ≡ true
      → item_unlink_q it (asked s) ≡ some (tt, s1)
      → item_link_q it (touched it now s1) ≡ some (tt, s2)
      → do_item_update fuel it s ≡ some (tt, s2)
  unfolding do_item_update
  update-run it s s1 s2 now at_now live stale unslabbed linked unlink link =
      let clock = get_current_time-asked s now at_now in
      let opened = load-ne it (asked s) live in
      let old : ltb (s.slabs.heap it).time ((now + 2 ^ 32 - item_update_interval) % 2 ^ 32) ≡ true =
        ground arith in
      let set = change-ne it (touch now) s1 live in
      rw (do_item_update, ◌>>=◌, clock, opened, old, unslabbed, linked, unlink, set, link) refl

touched-IsQueue :
    (it : Ptr) (now : ℕ) (s : LruLists) (j : ℕ) (xs : List Ptr)
    → IsQueue s j xs
    → IsQueue (touched it now s) j xs
unfolding update
touched-IsQueue it now s j xs q =
    frame-IsQueue s (touched it now s) j xs (refl, refl, refl) (λ y i. (ground arith, ground arith))
      q

asked-IsQueue : (s : LruLists) (j : ℕ) (xs : List Ptr) → IsQueue s j xs → IsQueue (asked s) j xs
asked-IsQueue s j xs q = record {
  linked = q.linked;
  last = q.last;
  distinct = q.distinct;
  counted = q.counted;
}

-- An item that differs at most in its time and where it stands in its queue.
abbrev pub Bumped : Item → Item → Type 0
Bumped i j = j ≡ record i { next = j.next; prev = j.prev; time = j.time }

Bumped-trans :
    (i j k l : Item)
    → j ≡ record i { next = j.next; prev = j.prev }
    → k ≡ record j { time = k.time }
    → l ≡ record k { next = l.next; prev = l.prev }
    → Bumped i l
Bumped-trans i j k l e f g = ground arith

touched-Touch :
    (it : Ptr) (now : ℕ) (s : LruLists) (x : Ptr)
    → let j = (touched it now s).slabs.heap x in j ≡ record (s.slabs.heap x) { time = j.time }
unfolding update
touched-Touch it now s x = ground arith

-- An item of a queue, linked and last used more than a minute ago, goes to the front of its queue
-- with the current time; the other items keep their order, and other queues, the other fields of
-- items and the table are untouched.
pub do_item_update-IsQueue :
    (fuel : ℕ) ⦃env : Env⦄ (it : Ptr) (s : LruLists) (xs ys : List Ptr) (now : ℕ)
    → now ≡ env.time s.ticks % 2 ^ 32
    → IsQueue s (clsid it s) (xs ++ it ∷ ys)
    → clsid it s < power_largest_max
    → (s.slabs.heap it).slabbed ≡ false
    → (s.slabs.heap it).linked ≡ true
    → (s.slabs.heap it).time < (now + 2 ^ 32 - item_update_interval) % 2 ^ 32
    → (s' : LruLists) × (do_item_update fuel it s ≡ some (tt, s'))
      × IsQueue s' (clsid it s) (it ∷ (xs ++ ys))
      × ((s'.slabs.heap it).time ≡ now)
      × ((j : ℕ) (zs : List Ptr)
          → j ≢ clsid it s
          → ((y : Ptr) → has y zs ≡ true → has y (xs ++ it ∷ ys) ≡ false)
          → IsQueue s j zs
          → IsQueue s' j zs)
      × ((x : Ptr) → Bumped (s.slabs.heap x) (s'.slabs.heap x))
      × (s'.assoc ≡ s.assoc)
      × (s'.item_size_max ≡ s.item_size_max)
do_item_update-IsQueue fuel it s xs ys now at_now q small unslabbed linked stale =
    let id = clsid it s in
    let live =
      Linked-ne_null s.slabs.heap null (s.heads id) (xs ++ it ∷ ys) it q.linked
        (rw (has-append it xs (it ∷ ys)) (ground arith)) in
    let (e, f, _) = AreDistinct-middle xs ys it q.distinct in
    let (s1, unlink, q1, o1) =
      item_unlink_q-IsQueue it (asked s) xs ys (asked-IsQueue s id (xs ++ it ∷ ys) q) small in
    let t = touched it now s1 in
    let at_it : t.slabs.heap it ≡ touch now (s1.slabs.heap it) =
      update_self s1.slabs.heap it (touch now (s1.slabs.heap it)) in
    let class : clsid it t ≡ id =
      ap (λ (i : Item). i.slabs_clsid) at_it ∙ ap (λ (i : Item). i.slabs_clsid) (o1.items it) in
    let free : (t.slabs.heap it).slabbed ≡ false =
      ap (λ (i : Item). i.slabbed) at_it ∙ ap (λ (i : Item). i.slabbed) (o1.items it) ∙ unslabbed in
    let away : has it (xs ++ ys) ≡ false = rw (has-append it xs ys) (ground arith) in
    let qt =
      subst (λ j. IsQueue t j (xs ++ ys)) (sym class)
        (touched-IsQueue it now s1 id (xs ++ ys) q1) in
    let (s2, link, q2, o2) =
      item_link_q-IsQueue it t (xs ++ ys) qt live away (rw class small) free in
    (
      s2,
      update-run fuel it s s1 s2 now at_now live stale unslabbed linked unlink link,
      subst (λ j. IsQueue s2 j (it ∷ (xs ++ ys))) class q2,
      ap (λ (i : Item). i.time) (o2.items it) ∙ ap (λ (i : Item). i.time) at_it,
      λ j zs other apart p.
          o2.queues j zs (λ g. other (g ∙ class))
            (λ y i.
              let d = rw (has-append y xs (it ∷ ys)) at (apart y i) in
              rw (has-append y xs ys) (ground arith))
            (touched-IsQueue it now s1 j zs (o1.queues j zs other apart (asked-IsQueue s j zs p))),
      λ x.
          Bumped-trans (s.slabs.heap x) (s1.slabs.heap x) (t.slabs.heap x) (s2.slabs.heap x)
            (o1.items x) (touched-Touch it now s1 x) (o2.items x),
      ap (λ (r : LruLists). r.assoc) o2.rest ∙ ap (λ (r : LruLists). r.assoc) o1.rest,
      ap (λ (r : LruLists). r.item_size_max) o2.rest
          ∙ ap (λ (r : LruLists). r.item_size_max) o1.rest,
    )
