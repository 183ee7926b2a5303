-- ===== src/Lru/Queue/Removal.antt =====
-- Taking an item out of the queue of its class, wherever it stands.
use memcached4chaos.Base.{
  ◌+◌, ◌-◌, ◌%◌, ◌^◌, ◌<◌, ◌≡◌, ◌≢◌, refl, sym, ◌∙◌, arith, false, ◌==◌, if◌then◌else◌, List, [],
  ◌∷◌, ◌++◌, length-append, has, has-append, AreDistinct, AreDistinct-middle, some, Bool-cases, inl,
  inr,
}
use memcached4chaos.System.{Ptr, null, Heap, update, update_self, update_ne}
use memcached4chaos.Slabs.{power_largest_max}
use memcached4chaos.Lru.Monad.{LruLists}
use memcached4chaos.Lru.Queue.{item_unlink_q, set_queue}
use memcached4chaos.Lru.Queue.Runs.{unlinked_heap, with_heap, clsid, item_unlink_q-unlinked}
use memcached4chaos.Lru.Queue.Linked.{
  Linked, first_of, last_of, last_of-append, has-last_of, Linked-next, Linked-prev, Linked-ne_null,
  ne-first_of, has_apart, remove-Linked,
}
use memcached4chaos.Lru.Queue.Lists.{IsQueue, Others, frame-IsQueue}

-- The last of some items, with null for none, is not an item that is not among them.
pub ne-last_of : (x : Ptr) (xs : List Ptr) → has x xs ≡ false → x ≢ null → x ≢ last_of null xs
ne-last_of x [] away live e = live e
ne-last_of x (y ∷ xs) away live e =
    has_apart (last_of y xs) x (y ∷ xs) (has-last_of y xs) away (sym e)

module _ (it : Ptr) (s : LruLists) (xs ys : List Ptr)
    (q : IsQueue s (clsid it s) (xs ++ it ∷ ys)) where
  apart : (has it xs ≡ false) × (has it ys ≡ false) × AreDistinct (xs ++ ys)
  apart = AreDistinct-middle xs ys it q.distinct

  live : it ≢ null
  live =
      Linked-ne_null s.slabs.heap null _ (xs ++ it ∷ ys) it q.linked
        (rw (has-append it xs (it ∷ ys)) (ground arith))

  next_it : (s.slabs.heap it).next ≡ first_of null ys
  next_it = Linked-next s.slabs.heap null _ it xs ys q.linked

  prev_it : (s.slabs.heap it).prev ≡ last_of null xs
  prev_it = Linked-prev s.slabs.heap null _ it xs ys q.linked

  head_it : s.heads (clsid it s) ≡ first_of it xs
  head_it = first_head xs (s.heads (clsid it s)) q.linked
    where
      first_head :
          (zs : List Ptr) (p : Ptr)
          → Linked s.slabs.heap null p (zs ++ it ∷ ys)
          → p ≡ first_of it zs
      first_head [] p l = l.0
      first_head (z ∷ zs) p l = l.0

  tail_it : s.tails (clsid it s) ≡ last_of it ys
  tail_it = q.last ∙ last_of-append null xs (it ∷ ys)

  next_ne : (s.slabs.heap it).next ≢ it
  next_ne e = ne-first_of it ys apart.1 live (sym e ∙ next_it)

  prev_ne : (s.slabs.heap it).prev ≢ it
  prev_ne e = ne-last_of it xs apart.0 live (sym e ∙ prev_it)

  after_unlink : Heap
  after_unlink = unlinked_heap it s.slabs.heap

  nexts :
      (x : Ptr)
      → x ≢ null
      → (after_unlink x).next
        ≡ (if x == (s.slabs.heap it).prev then (s.slabs.heap it).next else (s.slabs.heap x).next)
  unfolding after_unlink unlinked_heap update
  nexts x some_x = ground arith

  prevs :
      (x : Ptr)
      → x ≢ null
      → (after_unlink x).prev
        ≡ (if x == (s.slabs.heap it).next then (s.slabs.heap it).prev else (s.slabs.heap x).prev)
  unfolding after_unlink unlinked_heap update
  prevs x some_x = ground arith

  items_kept :
      (x : Ptr)
      → after_unlink x
        ≡ record (s.slabs.heap x) { next = (after_unlink x).next; prev = (after_unlink x).prev }
  unfolding after_unlink unlinked_heap update
  items_kept x = ground arith

  new_head :
      (if s.heads (clsid it s) == it then (s.slabs.heap it).next else s.heads (clsid it s))
      ≡ first_of (s.slabs.heap it).next xs
  new_head = rw head_it (go xs apart.0)
    where
      go :
          (zs : List Ptr)
          → has it zs ≡ false
          → (if first_of it zs == it then (s.slabs.heap it).next else first_of it zs)
            ≡ first_of (s.slabs.heap it).next zs
      go [] away = ground arith
      go (z ∷ zs) away = ground arith

  new_tail :
      (if s.tails (clsid it s) == it then (s.slabs.heap it).prev else s.tails (clsid it s))
      ≡ last_of null (xs ++ ys)
  new_tail = rw (tail_it, last_of-append null xs ys, prev_it) (go ys apart.1)
    where
      go :
          (zs : List Ptr)
          → has it zs ≡ false
          → (if last_of it zs == it then last_of null xs else last_of it zs)
            ≡ last_of (last_of null xs) zs
      go [] away = ground arith
      go (z ∷ zs) away = ground (arith, has-last_of z zs, has_apart (last_of z zs) it (z ∷ zs))

  is_first : s.heads (clsid it s) ≡ it → (s.slabs.heap it).prev ≡ null
  is_first e = prev_it ∙ go xs apart.0 (sym head_it ∙ e)
    where
      go : (zs : List Ptr) → has it zs ≡ false → first_of it zs ≡ it → last_of null zs ≡ null
      go [] away e = refl
      go (z ∷ zs) away e = ground arith

  is_last : s.tails (clsid it s) ≡ it → (s.slabs.heap it).next ≡ null
  is_last e = next_it ∙ go ys apart.1 (sym tail_it ∙ e)
    where
      go : (zs : List Ptr) → has it zs ≡ false → last_of it zs ≡ it → first_of null zs ≡ null
      go [] away e = refl
      go (z ∷ zs) away e = absurd (has_apart (last_of z zs) it (z ∷ zs) (has-last_of z zs) away e)

  null_out : has null (xs ++ it ∷ ys) ≡ false
  null_out = elim (Bool-cases (has null (xs ++ it ∷ ys))) [
    | inl i ↦ absurd (
        Linked-ne_null s.slabs.heap null (s.heads (clsid it s)) (xs ++ it ∷ ys) null q.linked i
          refl)
    | inr e ↦ e
  ]

  -- the items of other lists
  kept :
      (y : Ptr)
      → has y (xs ++ it ∷ ys) ≡ false
      → y ≢ null
      → ((after_unlink y).prev ≡ (s.slabs.heap y).prev)
        × ((after_unlink y).next ≡ (s.slabs.heap y).next)
  kept y away some_y =
      let split = has-append y xs (it ∷ ys) in
      let after = ne-first_of y ys (ground arith) some_y in
      let before = ne-last_of y xs (ground arith) some_y in
      (ground (arith, prevs y, next_it), ground (arith, nexts y, prev_it))

  -- Unlinking an item succeeds and takes it out of its queue, wherever it stands there; other
  -- queues and all other fields of items are untouched.
  pub item_unlink_q-IsQueue :
      clsid it s < power_largest_max
      → (s' : LruLists) × (item_unlink_q it s ≡ some (tt, s'))
        × IsQueue s' (clsid it s) (xs ++ ys)
        × Others (clsid it s) (xs ++ it ∷ ys) s s'
  unfolding after_unlink
  item_unlink_q-IsQueue small =
      let id = clsid it s in
      let head = if s.heads id == it then (s.slabs.heap it).next else s.heads id in
      let tail = if s.tails id == it then (s.slabs.heap it).prev else s.tails id in
      let count = (s.sizes id + 2 ^ 32 - 1) % 2 ^ 32 in
      let s' = set_queue id head tail count (with_heap after_unlink s) in
      (
        s',
        item_unlink_q-unlinked it s live small is_first is_last next_ne prev_ne,
        record {
          linked =
              rw (update_self s.heads id head, new_head)
                (remove-Linked s.slabs.heap after_unlink it nexts prevs null (s.heads id) xs ys
                  q.distinct null_out q.linked);
          last = update_self s.tails id tail ∙ new_tail;
          distinct = apart.2;
          counted =
              update_self s.sizes id count
              ∙ omega (arith, q.counted, length-append xs (it ∷ ys), length-append xs ys);
        },
        record {
          rest = refl;
          items = items_kept;
          queues = λ j zs other away p.
              frame-IsQueue s s' j zs
                (
                  update_ne s.heads id j head other,
                  update_ne s.tails id j tail other,
                  update_ne s.sizes id j count other,
                )
                (λ y i.
                  kept y (away y i) (Linked-ne_null s.slabs.heap null (s.heads j) zs y p.linked i))
                p;
        },
      )
