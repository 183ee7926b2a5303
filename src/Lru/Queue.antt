-- ===== src/Lru/Queue.antt =====
-- The queue of a size class: a doubly linked list from `heads` to `tails`, the newest item first.
pub mod Runs
pub mod Linked
pub mod Lists
pub mod Removal
use memcached4chaos.Base.{ℕ, ◌+◌, ◌-◌, ◌%◌, ◌^◌, Bool, not, ◌&&◌, ◌||◌, ltb, ◌==◌, if◌then◌else◌}
use memcached4chaos.System.{Ptr, null, update}
use memcached4chaos.Slabs.{power_largest_max}
use memcached4chaos.Lru.Monad.{LruLists, Cmd, pure, ◌>>=◌, ◌>>◌, assert, get, modify, load, change}

-- assert(it != *head); assert((*head && *tail) || (*head == NULL && *tail == NULL));
unfoldable pub ends_agree : Ptr → Ptr → Ptr → Bool
ends_agree it head tail =
    not (it == head) && (not (head == null) && not (tail == null) || head == null && tail == null)

-- the new ends and the count of class `id`
abbrev pub set_queue : ℕ → Ptr → Ptr → ℕ → LruLists → LruLists
set_queue id head tail size s = record s {
  heads = update s.heads id head;
  tails = update s.tails id tail;
  sizes = update s.sizes id size;
}

unfoldable pub item_link_q : Ptr → Cmd (Unit {0})
item_link_q it = do
  i ← load it
  let id = i.slabs_clsid
  assert (ltb id power_largest_max)
  assert (not i.slabbed)
  s ← get
  let head = s.heads id
  let tail = s.tails id
  assert (ends_agree it head tail)
  change it (λ i. record i { prev = null; next = head })
  (if head == null then pure tt else change head (λ n. record n { prev = it }))
  modify (set_queue id it (if tail == null then it else tail) ((s.sizes id + 1) % 2 ^ 32))

unfoldable pub item_unlink_q : Ptr → Cmd (Unit {0})
item_unlink_q it = do
  i ← load it
  let id = i.slabs_clsid
  assert (ltb id power_largest_max)
  s ← get
  let head = s.heads id
  let tail = s.tails id
  assert (not (head == it) || i.prev == null)
  assert (not (tail == it) || i.next == null)
  assert (not (i.next == it))
  assert (not (i.prev == it))
  (if i.next == null then pure tt else change i.next (λ n. record n { prev = i.prev }))
  (if i.prev == null then pure tt else change i.prev (λ p. record p { next = i.next }))
  modify (
      set_queue id (if head == it then i.next else head) (if tail == it then i.prev else tail)
        ((s.sizes id + 2 ^ 32 - 1) % 2 ^ 32))
