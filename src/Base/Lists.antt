-- ===== src/Base/Lists.antt =====
-- Lists measured and indexed by native numbers, under the library's names.
use Prim.Native.Nat.{ℕ, suc, ◌+◌, ◌≤◌}
use mathlib.Core.Path.{◌≡◌, refl, ap, sym, ◌∙◌}
use mathlib.Core.Logic.{inl, inr, ◌≢◌}
use mathlib.Core.Bool.{Bool, false, ◌||◌, true}
use mathlib.Core.List.{List, [], ◌∷◌, ◌++◌}
use native.Mathlib.Omega.{arith}
use memcached4chaos.Base.Tests.{◌==◌, Bool-cases}

module _ {ℓ} {A : Type ℓ} where
  abbrev pub length : List A → ℕ
  length [] = 0
  length (x ∷ xs) = suc (length xs)

  pub length-append : (xs ys : List A) → length (xs ++ ys) ≡ length xs + length ys
  length-append [] ys = omega arith
  length-append (x ∷ xs) ys = omega (arith, length-append xs ys)

-- A number occurs in a list; no number occurs twice.
abbrev pub has : ℕ → List ℕ → Bool
has a [] = false
has a (x ∷ xs) = a == x || has a xs

abbrev pub AreDistinct : List ℕ → Type 0
AreDistinct [] = Unit
AreDistinct (x ∷ xs) = (has x xs ≡ false) × AreDistinct xs

pub has-append : (a : ℕ) (xs ys : List ℕ) → has a (xs ++ ys) ≡ (has a xs || has a ys)
has-append a [] ys = refl
has-append a (x ∷ xs) ys = ground (arith, has-append a xs ys)

pub AreDistinct-append :
    (xs : List ℕ) (y : ℕ) → AreDistinct xs → has y xs ≡ false → AreDistinct (xs ++ y ∷ [])
AreDistinct-append [] y d away = (refl, tt)
AreDistinct-append (x ∷ xs) y (fresh, d) away =
    (rw (has-append x xs (y ∷ [])) (ground arith), AreDistinct-append xs y d (ground arith))

pub AreDistinct-middle :
    (xs ys : List ℕ) (a : ℕ)
    → AreDistinct (xs ++ a ∷ ys)
    → (has a xs ≡ false) × (has a ys ≡ false) × AreDistinct (xs ++ ys)
AreDistinct-middle [] ys a d = (refl, d.0, d.1)
AreDistinct-middle (x ∷ xs) ys a d =
    let (e, f, g) = AreDistinct-middle xs ys a d.1 in
    let away = rw (has-append x xs (a ∷ ys)) at (d.0) in
    (ground arith, f, (rw (has-append x xs ys) (ground arith), g))

-- Where an element stands.
pub has-split :
    (a : ℕ) (xs : List ℕ) → has a xs ≡ true → (ys : List ℕ) × (zs : List ℕ) × (xs ≡ ys ++ a ∷ zs)
has-split a [] i = cc
has-split a (x ∷ xs) i = elim (Bool-cases (a == x)) [
  | inl e ↦ ([], xs, let same : x ≡ a = ground arith in rw same refl)
  | inr e ↦
      let (ys, zs, f) = has-split a xs (ground arith) in (x ∷ ys, zs, ap (λ (l : List ℕ). x ∷ l) f)
]

-- Distinct numbers of a list are no more than the list has.
pub length-le :
    (xs ys : List ℕ)
    → AreDistinct xs
    → ((a : ℕ) → has a xs ≡ true → has a ys ≡ true)
    → length xs ≤ length ys
length-le [] ys d sub = omega arith
length-le (x ∷ xs) ys (fresh, d) sub =
    let (ls, rs, split) = has-split x ys (sub x (ground arith)) in
    let rest = length-le xs (ls ++ rs) d (λ a i.
      let there : has a (ls ++ x ∷ rs) ≡ true = ap (has a) (sym split) ∙ sub a (ground arith) in
      let here : a ≢ x = λ e. absurd (ground (arith, ap (λ b. has b xs) e)) in
      let parts = rw (has-append a ls (x ∷ rs)) at there in
      rw (has-append a ls rs) (ground arith)) in
    let n = ap length split in omega (arith, length-append ls (x ∷ rs), length-append ls rs)
