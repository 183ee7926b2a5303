-- ===== src/Lru/Queue/Runs.antt =====
-- The states that item_link_q and item_unlink_q leave, where their assertions hold.
use memcached4chaos.Base.{
  ℕ, ◌+◌, ◌-◌, ◌%◌, ◌^◌, ◌≡◌, ◌≢◌, ◌<◌, refl, arith, ◌==◌, ltb, if◌then◌else◌, some, true, false,
  Bool, not, ◌||◌, Bool-cases, inl, inr,
}
use memcached4chaos.System.{Ptr, null, Item, Heap, update}
use memcached4chaos.Slabs.{power_largest_max}
use memcached4chaos.Lru.Monad.{LruLists, ◌>>=◌, assert, load, change}
use memcached4chaos.Lru.Queue.{item_link_q, item_unlink_q, set_queue, ends_agree}

-- the items after linking `it` before `head`
unfoldable pub linked_heap : Ptr → Ptr → Heap → Heap
linked_heap it head h =
    let h' = update h it (record (h it) { prev = null; next = head }) in
    if head == null then h' else update h' head (record (h' head) { prev = it })

-- the items after taking out `it`
unfoldable pub unlinked_heap : Ptr → Heap → Heap
unlinked_heap it h =
    let next = (h it).next in
    let prev = (h it).prev in
    let h' = if next == null then h else update h next (record (h next) { prev = prev }) in
    if prev == null then h' else update h' prev (record (h' prev) { next = next })

abbrev pub with_heap : Heap → LruLists → LruLists
with_heap h s = record s { slabs = record s.slabs { heap = h } }

abbrev pub clsid : Ptr → LruLists → ℕ
clsid it s = (s.slabs.heap it).slabs_clsid

pub load-ne : (p : Ptr) (s : LruLists) → p ≢ null → load p s ≡ some (s.slabs.heap p, s)
unfolding load
load-ne p s ne = let e : (p == null) ≡ false = ground arith in rw e

pub change-ne :
    (p : Ptr) (f : Item → Item) (s : LruLists)
    → p ≢ null
    → change p f s ≡ some (tt, with_heap (update s.slabs.heap p (f (s.slabs.heap p))) s)
unfolding change
change-ne p f s ne = let e : (p == null) ≡ false = ground arith in rw e

pub assert-true : (b : Bool) (s : LruLists) → b ≡ true → assert b s ≡ some (tt, s)
assert-true b s e = rw e

ends_agree-true :
    (it head tail : Ptr)
    → it ≢ head
    → (head == null) ≡ (tail == null)
    → ends_agree it head tail ≡ true
unfolding ends_agree
ends_agree-true it head tail ne same = ground arith

pub item_link_q-linked :
    (it : Ptr) (s : LruLists)
    → it ≢ null
    → clsid it s < power_largest_max
    → (s.slabs.heap it).slabbed ≡ false
    → it ≢ s.heads (clsid it s)
    → (s.heads (clsid it s) == null) ≡ (s.tails (clsid it s) == null)
    → item_link_q it s
      ≡ some (
        tt,
        set_queue
            (clsid it s)
            it
            (if s.tails (clsid it s) == null then it else s.tails (clsid it s))
            ((s.sizes (clsid it s) + 1) % 2 ^ 32)
            (with_heap (linked_heap it (s.heads (clsid it s)) s.slabs.heap) s),
      )
unfolding item_link_q linked_heap
item_link_q-linked it s ne small live other ends =
    let id = clsid it s in
    let front = λ (i : Item). record i { prev = null; next = s.heads id } in
    let a1 = assert-true (ltb id power_largest_max) s (ground arith) in
    let a2 = assert-true (not (s.slabs.heap it).slabbed) s (ground arith) in
    let a3 =
      assert-true (ends_agree it (s.heads id) (s.tails id)) s
        (ends_agree-true it (s.heads id) (s.tails id) other ends) in
    elim (Bool-cases (s.heads id == null)) [
      | inl e ↦
          rw (item_link_q, ◌>>=◌, load-ne it s ne, a1, a2, a3, change-ne it front s ne, e) refl
      | inr e ↦
          let t = with_heap (update s.slabs.heap it (front (s.slabs.heap it))) s in
          let back = λ (n : Item). record n { prev = it } in
          let full = change-ne (s.heads id) back t (ground arith) in
          rw (item_link_q, ◌>>=◌, load-ne it s ne, a1, a2, a3, change-ne it front s ne, e, full)
            refl
    ]

pub item_unlink_q-unlinked :
    (it : Ptr) (s : LruLists)
    → it ≢ null
    → clsid it s < power_largest_max
    → (s.heads (clsid it s) ≡ it → (s.slabs.heap it).prev ≡ null)
    → (s.tails (clsid it s) ≡ it → (s.slabs.heap it).next ≡ null)
    → (s.slabs.heap it).next ≢ it
    → (s.slabs.heap it).prev ≢ it
    → item_unlink_q it s
      ≡ some (
        tt,
        set_queue
            (clsid it s)
            (if s.heads (clsid it s) == it then (s.slabs.heap it).next else s.heads (clsid it s))
            (if s.tails (clsid it s) == it then (s.slabs.heap it).prev else s.tails (clsid it s))
            ((s.sizes (clsid it s) + 2 ^ 32 - 1) % 2 ^ 32)
            (with_heap (unlinked_heap it s.slabs.heap) s),
      )
unfolding item_unlink_q unlinked_heap
item_unlink_q-unlinked it s ne small first last next_ne prev_ne =
    let id = clsid it s in
    let next = (s.slabs.heap it).next in
    let prev = (s.slabs.heap it).prev in
    let a1 = assert-true (ltb id power_largest_max) s (ground arith) in
    let a2 = assert-true (not (s.heads id == it) || prev == null) s (ground arith) in
    let a3 = assert-true (not (s.tails id == it) || next == null) s (ground arith) in
    let a4 = assert-true (not (next == it)) s (ground arith) in
    let a5 = assert-true (not (prev == it)) s (ground arith) in
    let back = λ (n : Item). record n { prev = prev } in
    let on = λ (n : Item). record n { next = next } in
    let opened = load-ne it s ne in
    elim (Bool-cases (next == null)) [
      | inl e ↦ elim (Bool-cases (prev == null)) [
        | inl f ↦ rw (item_unlink_q, ◌>>=◌, opened, a1, a2, a3, a4, a5, e, f) refl
        | inr f ↦
            let left = change-ne prev on s (ground arith) in
            rw (item_unlink_q, ◌>>=◌, opened, a1, a2, a3, a4, a5, e, f, left) refl
      ]
      | inr e ↦
          let right = change-ne next back s (ground arith) in
          elim (Bool-cases (prev == null)) [
            | inl f ↦ rw (item_unlink_q, ◌>>=◌, opened, a1, a2, a3, a4, a5, e, right, f) refl
            | inr f ↦
                let t = with_heap (update s.slabs.heap next (back (s.slabs.heap next))) s in
                let left = change-ne prev on t (ground arith) in
                rw (item_unlink_q, ◌>>=◌, opened, a1, a2, a3, a4, a5, e, right, f, left) refl
          ]
    ]
