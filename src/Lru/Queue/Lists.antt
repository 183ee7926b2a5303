-- ===== src/Lru/Queue/Lists.antt =====
-- The queue of a class refines a list: item_link_q puts an item in front, item_unlink_q takes one
-- out from anywhere.
use memcached4chaos.Base.{
  ℕ, ◌+◌, ◌%◌, ◌^◌, ◌<◌, ◌≡◌, ◌≢◌, refl, sym, ap, ◌∙◌, arith, true, false, ◌==◌, if◌then◌else◌,
  List, [], ◌∷◌, length, has, AreDistinct, some,
}
use memcached4chaos.System.{Ptr, null, Heap, update, update_self, update_ne}
use memcached4chaos.Slabs.{power_largest_max}
use memcached4chaos.Lru.Monad.{LruLists}
use memcached4chaos.Lru.Queue.{item_link_q, set_queue}
use memcached4chaos.Lru.Queue.Runs.{linked_heap, with_heap, clsid, item_link_q-linked}
use memcached4chaos.Lru.Queue.Linked.{
  Linked, first_of, last_of, Linked-frame, Linked-head, Linked-ne_null, Linked-ends, last_of-cons,
  ne-first_of, has_apart,
}

-- The queue of class `id` holds the items `xs`, the newest first.
pub record IsQueue (s : LruLists) (id : ℕ) (xs : List Ptr) : Type 0 where
  pub linked : Linked s.slabs.heap null (s.heads id) xs
  pub last : s.tails id ≡ last_of null xs
  pub distinct : AreDistinct xs
  pub counted : s.sizes id ≡ length xs % 2 ^ 32

-- Nothing but the heap, the ends and the counts is changed.
abbrev pub OnlyQueues : LruLists → LruLists → Type 0
OnlyQueues s s' = s' ≡ record s {
  slabs = record s.slabs { heap = s'.slabs.heap };
  heads = s'.heads;
  tails = s'.tails;
  sizes = s'.sizes;
}

-- What a change of one queue leaves of the rest: items differ in next and prev at most, and the
-- queue of another class, whose items are not of this queue, is as it was.
pub record Others (id : ℕ) (xs : List Ptr) (s s' : LruLists) : Type 0 where
  pub rest : OnlyQueues s s'
  pub items :
      (x : Ptr)
      → s'.slabs.heap x
        ≡ record (s.slabs.heap x) { next = (s'.slabs.heap x).next; prev = (s'.slabs.heap x).prev }
  pub queues :
      (j : ℕ) (ys : List Ptr)
      → j ≢ id
      → ((y : Ptr) → has y ys ≡ true → has y xs ≡ false)
      → IsQueue s j ys
      → IsQueue s' j ys

pub frame-IsQueue :
    (s s' : LruLists) (j : ℕ) (ys : List Ptr)
    → (s'.heads j ≡ s.heads j) × (s'.tails j ≡ s.tails j) × (s'.sizes j ≡ s.sizes j)
    → ((y : Ptr)
        → has y ys ≡ true
        → ((s'.slabs.heap y).prev ≡ (s.slabs.heap y).prev)
          × ((s'.slabs.heap y).next ≡ (s.slabs.heap y).next))
    → IsQueue s j ys
    → IsQueue s' j ys
frame-IsQueue s s' j ys (e, f, g) same q = record {
  linked = rw e (Linked-frame s.slabs.heap s'.slabs.heap null (s.heads j) ys same q.linked);
  last = f ∙ q.last;
  distinct = q.distinct;
  counted = g ∙ q.counted;
}

module _ (it : Ptr) (s : LruLists) (xs : List Ptr) (q : IsQueue s (clsid it s) xs) (ne : it ≢ null)
    (out : has it xs ≡ false) where
  h : Heap
  h = s.slabs.heap

  head : Ptr
  head = s.heads (clsid it s)

  head_first : head ≡ first_of null xs
  unfolding head
  head_first = Linked-head s.slabs.heap null (s.heads (clsid it s)) xs q.linked

  head_ne : it ≢ head
  head_ne e = ne-first_of it xs out ne (e ∙ head_first)

  ends : (head == null) ≡ (s.tails (clsid it s) == null)
  unfolding head
  ends =
      Linked-ends s.slabs.heap null (s.heads (clsid it s)) xs q.linked
      ∙ ap (λ p. p == null) (sym q.last)

  after_link : Heap
  unfolding h head
  after_link = linked_heap it head h

  linked_it : ((after_link it).prev ≡ null) × ((after_link it).next ≡ head)
  unfolding after_link linked_heap update
  linked_it = ground (arith, head_ne)

  linked_other :
      (x : Ptr)
      → x ≢ it
      → ((after_link x).next ≡ (h x).next)
        × ((x ≢ head) → (after_link x).prev ≡ (h x).prev)
        × (x ≢ null → x ≡ head → (after_link x).prev ≡ it)
  unfolding after_link linked_heap update
  linked_other x other = (ground arith, λ e. ground arith, λ l e. ground arith)

  after_link-Linked : Linked after_link it head xs
  unfolding h head
  after_link-Linked = rest xs head refl q.linked q.distinct out
    where
      rest :
          (ys : List Ptr) (p : Ptr)
          → p ≡ head
          → Linked h null p ys
          → AreDistinct ys
          → has it ys ≡ false
          → Linked after_link it p ys
      rest [] p e l d away = l
      rest (y ∷ ys) p e (at, live, back, more) d away =
          let other : y ≢ it = λ f. has_apart y it (y ∷ ys) (ground arith) away f in
          let (same, _, front) = linked_other y other in
          (
            at,
            live,
            front live (sym at ∙ e),
            rw same (
                Linked-frame h after_link y (h y).next ys
                  (λ x i.
                    let x_it = has_apart x it ys i (ground arith) in
                    let x_y = has_apart x y ys i d.0 in
                    ((linked_other x x_it).1 (λ f. x_y (f ∙ sym e ∙ at)), (linked_other x x_it).0))
                  more),
          )

  linked_items :
      (x : Ptr)
      → after_link x
        ≡ record (s.slabs.heap x) { next = (after_link x).next; prev = (after_link x).prev }
  unfolding after_link linked_heap update h
  linked_items x = ground arith

  linked_apart :
      (y : Ptr)
      → has y (it ∷ xs) ≡ false
      → y ≢ null
      → ((after_link y).prev ≡ (s.slabs.heap y).prev)
        × ((after_link y).next ≡ (s.slabs.heap y).next)
  unfolding h
  linked_apart y away live =
      let (next, prev, _) = linked_other y (ground arith) in
      (prev (λ e. ne-first_of y xs (ground arith) live (e ∙ head_first)), next)

  -- Linking an item to its class succeeds and puts it in front of the queue, counted once more;
  -- other queues and all other fields of items are untouched.
  pub item_link_q-IsQueue :
      clsid it s < power_largest_max
      → (s.slabs.heap it).slabbed ≡ false
      → (s' : LruLists) × (item_link_q it s ≡ some (tt, s'))
        × IsQueue s' (clsid it s) (it ∷ xs)
        × Others (clsid it s) (it ∷ xs) s s'
  unfolding after_link h head linked_heap
  item_link_q-IsQueue small live =
      let id = clsid it s in
      let tail = if s.tails id == null then it else s.tails id in
      let count = (s.sizes id + 1) % 2 ^ 32 in
      (
        set_queue id it tail count (with_heap after_link s),
        item_link_q-linked it s ne small live head_ne ends,
        record {
          linked = (update_self s.heads id it, ne, linked_it.0, rw (linked_it.1) after_link-Linked);
          last =
              update_self s.tails id tail
              ∙ rw (q.last) (last_of-cons s.slabs.heap null (s.heads id) it xs q.linked);
          distinct = (out, q.distinct);
          counted = update_self s.sizes id count ∙ omega (arith, q.counted);
        },
        record {
          rest = refl;
          items = linked_items;
          queues = λ j ys other apart p.
              frame-IsQueue s (set_queue id it tail count (with_heap after_link s)) j ys
                (
                  update_ne s.heads id j it other,
                  update_ne s.tails id j tail other,
                  update_ne s.sizes id j count other,
                )
                (λ y i.
                  linked_apart y (apart y i)
                    (Linked-ne_null s.slabs.heap null (s.heads j) ys y p.linked i))
                p;
        },
      )
