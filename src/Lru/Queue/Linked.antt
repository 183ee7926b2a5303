-- ===== src/Lru/Queue/Linked.antt =====
-- Doubly linked lists on the heap.
use memcached4chaos.Base.{
  ◌≡◌, ◌≢◌, refl, ◌∙◌, arith, true, false, ◌==◌, if◌then◌else◌, List, [], ◌∷◌, ◌++◌, has,
  has-append, AreDistinct, Bool-cases, inl, inr,
}
use memcached4chaos.System.{Ptr, null, Heap}

-- From `p` on, next leads through the items `xs` to null, and prev leads back to `prev`.
abbrev pub Linked : Heap → Ptr → Ptr → List Ptr → Type 0
Linked h prev p [] = p ≡ null
Linked h prev p (x ∷ xs) = (p ≡ x) × (x ≢ null) × ((h x).prev ≡ prev) × Linked h x (h x).next xs

abbrev pub first_of : Ptr → List Ptr → Ptr
first_of d [] = d
first_of d (x ∷ xs) = x

abbrev pub last_of : Ptr → List Ptr → Ptr
last_of d [] = d
last_of d (x ∷ xs) = last_of x xs

pub last_of-append : (d : Ptr) (xs ys : List Ptr) → last_of d (xs ++ ys) ≡ last_of (last_of d xs) ys
last_of-append d [] ys = refl
last_of-append d (x ∷ xs) ys = last_of-append x xs ys

pub has-last_of : (x : Ptr) (xs : List Ptr) → has (last_of x xs) (x ∷ xs) ≡ true
has-last_of x [] = ground arith
has-last_of x (y ∷ xs) = ground (arith, has-last_of y xs)

pub Linked-frame :
    (h h' : Heap) (prev p : Ptr) (xs : List Ptr)
    → ((x : Ptr) → has x xs ≡ true → ((h' x).prev ≡ (h x).prev) × ((h' x).next ≡ (h x).next))
    → Linked h prev p xs
    → Linked h' prev p xs
Linked-frame h h' prev p [] same l = l
Linked-frame h h' prev p (x ∷ xs) same (at, ne, back, rest) =
    let (e, f) = same x (ground arith) in
    (at, ne, e ∙ back, rw f (Linked-frame h h' x (h x).next xs (λ y i. same y (ground arith)) rest))

-- What the pointer to a list is.
pub Linked-head :
    (h : Heap) (prev p : Ptr) (xs : List Ptr) → Linked h prev p xs → p ≡ first_of null xs
Linked-head h prev p [] l = l
Linked-head h prev p (x ∷ xs) l = l.0

-- The neighbours of an item.
pub Linked-next :
    (h : Heap) (prev p it : Ptr) (xs ys : List Ptr)
    → Linked h prev p (xs ++ it ∷ ys)
    → (h it).next ≡ first_of null ys
Linked-next h prev p it [] [] (at, ne, back, rest) = rest
Linked-next h prev p it [] (y ∷ ys) (at, ne, back, rest) = rest.0
Linked-next h prev p it (x ∷ xs) ys (at, ne, back, rest) = Linked-next h x (h x).next it xs ys rest

pub Linked-prev :
    (h : Heap) (prev p it : Ptr) (xs ys : List Ptr)
    → Linked h prev p (xs ++ it ∷ ys)
    → (h it).prev ≡ last_of prev xs
Linked-prev h prev p it [] ys (at, ne, back, rest) = back
Linked-prev h prev p it (x ∷ xs) ys (at, ne, back, rest) = Linked-prev h x (h x).next it xs ys rest

pub Linked-ne_null :
    (h : Heap) (prev p : Ptr) (xs : List Ptr) (x : Ptr)
    → Linked h prev p xs
    → has x xs ≡ true
    → x ≢ null
Linked-ne_null h prev p [] x l i = cc
Linked-ne_null h prev p (y ∷ xs) x (at, ne, back, rest) i = elim (Bool-cases (x == y)) [
  | inl e ↦ ground arith
  | inr e ↦ Linked-ne_null h y (h y).next xs x rest (ground arith)
]

pub has_apart : (x y : Ptr) (xs : List Ptr) → has x xs ≡ true → has y xs ≡ false → x ≢ y
has_apart x y xs i away e = let j : has y xs ≡ true = rw (← e) i in cc

pub ne-first_of : (x : Ptr) (xs : List Ptr) → has x xs ≡ false → x ≢ null → x ≢ first_of null xs
ne-first_of x [] away live = live
ne-first_of x (y ∷ xs) away live = ground arith

-- Both ends are null, or neither is.
pub Linked-ends :
    (h : Heap) (prev p : Ptr) (xs : List Ptr)
    → Linked h prev p xs
    → (p == null) ≡ (last_of null xs == null)
Linked-ends h prev p [] l = rw l refl
Linked-ends h prev p (x ∷ xs) l =
    ground (arith, l.0, l.1, Linked-ne_null h prev p (x ∷ xs) (last_of x xs) l (has-last_of x xs))

-- The last item of a list with one more in front.
pub last_of-cons :
    (h : Heap) (prev p d : Ptr) (xs : List Ptr)
    → Linked h prev p xs
    → (if last_of null xs == null then d else last_of null xs) ≡ last_of d xs
last_of-cons h prev p d [] l = refl
last_of-cons h prev p d (x ∷ xs) l =
    ground (arith, Linked-ne_null h prev p (x ∷ xs) (last_of x xs) l (has-last_of x xs))

-- A heap on which `it` has been bypassed.
module _ (h h' : Heap) (it : Ptr)
    (nexts : (x : Ptr)
      → x ≢ null
      → (h' x).next ≡ (if x == (h it).prev then (h it).next else (h x).next))
    (prevs : (x : Ptr)
      → x ≢ null
      → (h' x).prev ≡ (if x == (h it).next then (h it).prev else (h x).prev)) where
  bypass-Linked :
      (prev : Ptr) (ys : List Ptr)
      → AreDistinct (it ∷ ys)
      → has prev (it ∷ ys) ≡ false
      → (h it).prev ≡ prev
      → Linked h it (h it).next ys
      → Linked h' prev (h it).next ys
  bypass-Linked prev [] d away back l = l
  bypass-Linked prev (y ∷ ys) d away back (at, ne, to_it, rest) = (
    at,
    ne,
    ground (arith, prevs y),
    let same : (h' y).next ≡ (h y).next = ground (arith, nexts y) in
        rw same (
          Linked-frame h h' y (h y).next ys
            (λ x i.
              let live = Linked-ne_null h y (h y).next ys x rest i in
              (
                ground (arith, prevs x, has_apart x y ys),
                ground (arith, nexts x, has_apart x prev ys),
              ))
            rest),
  )

  -- Taking an item out of a list.
  pub remove-Linked :
      (prev p : Ptr) (xs ys : List Ptr)
      → AreDistinct (xs ++ it ∷ ys)
      → has prev (xs ++ it ∷ ys) ≡ false
      → Linked h prev p (xs ++ it ∷ ys)
      → Linked h' prev (first_of (h it).next xs) (xs ++ ys)
  remove-Linked prev p [] ys d away (at, ne, back, rest) = bypass-Linked prev ys d away back rest
  remove-Linked prev p (x ∷ xs) ys d away (at, ne, back, rest) =
      let (fresh, d') = d in
      let next_it = Linked-next h x (h x).next it xs ys rest in
      let prev_it = Linked-prev h x (h x).next it xs ys rest in
      (
        refl,
        ne,
        ground (arith, prevs x, first_apart x xs ys fresh ne) ∙ back,
        rw (next_of x xs ys fresh ne rest) (remove-Linked x (h x).next xs ys d' fresh rest),
      )
    where
      first_apart :
          (x : Ptr) (xs ys : List Ptr)
          → has x (xs ++ it ∷ ys) ≡ false
          → x ≢ null
          → x ≢ first_of null ys
      first_apart x xs [] away live = live
      first_apart x xs (y ∷ ys) away live = ground (arith, has-append x xs (it ∷ y ∷ ys))

      next_of :
          (x : Ptr) (xs ys : List Ptr)
          → has x (xs ++ it ∷ ys) ≡ false
          → x ≢ null
          → Linked h x (h x).next (xs ++ it ∷ ys)
          → (h' x).next ≡ first_of (h it).next xs
      next_of x [] ys away live rest =
          ground (arith, nexts x, Linked-prev h x (h x).next it [] ys rest)
      next_of x (z ∷ zs) ys away live rest = ground (
        arith,
        nexts x,
        Linked-prev h x (h x).next it (z ∷ zs) ys rest,
        has-last_of z zs,
        has-append x (z ∷ zs) (it ∷ ys),
        rest.0,
      )
