-- ===== src/Assoc/Cells.antt =====
-- Writes to one cell of the table: which other reads they change.
use memcached4chaos.Base.{ℕ, ◌≡◌, refl, arith, Bool, true, false, ◌==◌, if◌then◌else◌, ap}
use memcached4chaos.System.{Ptr, Heap, update}
use memcached4chaos.Assoc.{
  AssociativeArray, Place, old, primary, after, read, write, home, which_hashtable, get_bucket,
}

abbrev pub same_place : Place → Place → Bool
same_place (old b) (old c) = b == c
same_place (primary b) (primary c) = b == c
same_place (after x) (after y) = x == y
same_place (old b) (primary c) = false
same_place (old b) (after c) = false
same_place (primary b) (old c) = false
same_place (primary b) (after c) = false
same_place (after b) (old c) = false
same_place (after b) (primary c) = false

pub same_place→eq : (c d : Place) → same_place c d ≡ true → c ≡ d
same_place→eq (old b) (old c) e = ap old (ground arith)
same_place→eq (primary b) (primary c) e = ap primary (ground arith)
same_place→eq (after b) (after c) e = ap after (ground arith)
same_place→eq (old b) (primary c) e = cc
same_place→eq (old b) (after c) e = cc
same_place→eq (primary b) (old c) e = cc
same_place→eq (primary b) (after c) e = cc
same_place→eq (after b) (old c) e = cc
same_place→eq (after b) (primary c) e = cc

pub same_place_self : (c : Place) → same_place c c ≡ true
same_place_self (old b) = ground arith
same_place_self (primary b) = ground arith
same_place_self (after b) = ground arith

-- A cell of one of the two arrays.
abbrev pub is_cell : Place → Bool
is_cell (old b) = true
is_cell (primary b) = true
is_cell (after x) = false

pub home-is_cell : (a : AssociativeArray) (v : ℕ) → is_cell (home a v) ≡ true
unfolding home
home-is_cell a v = ground arith

-- Where a hash value belongs does not depend on what the arrays hold.
pub home-write :
    (c : Place) (p : Ptr) (a : AssociativeArray) (h : Heap) (v : ℕ)
    → home (write c p a h).0 v ≡ home a v
unfolding home which_hashtable get_bucket write
home-write (old b) p a h v = refl
home-write (primary b) p a h v = refl
home-write (after x) p a h v = refl

pub heap-write :
    (c : Place) (p : Ptr) (a : AssociativeArray) (h : Heap)
    → is_cell c ≡ true
    → (write c p a h).1 ≡ h
unfolding write
heap-write (old b) p a h e = refl
heap-write (primary b) p a h e = refl
heap-write (after x) p a h e = cc

-- Reading a cell after a write; no heap matters to either.
pub read-write :
    (c d : Place) (p : Ptr) (a : AssociativeArray) (h h' h'' : Heap)
    → is_cell c ≡ true
    → is_cell d ≡ true
    → read (write c p a h).0 h' d ≡ (if same_place d c then p else read a h'' d)
unfolding write read update
read-write (old b) (old c) p a h h' h'' e f = refl
read-write (primary b) (primary c) p a h h' h'' e f = refl
read-write (old b) (primary c) p a h h' h'' e f = refl
read-write (primary b) (old c) p a h h' h'' e f = refl
read-write (after x) d p a h h' h'' e f = cc
read-write (old b) (after c) p a h h' h'' e f = cc
read-write (primary b) (after c) p a h h' h'' e f = cc
