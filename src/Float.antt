-- ===== src/Float.antt =====
-- The type float, in which cache/slabs.cpp computes the sizes of its classes: 24 bits, rounded to
-- the nearest and to even between two. A float is given as a multiple of 2 ^ -23, so numbers below 1
-- are not exact; sizes are not below 1.
use memcached4chaos.Base.{
  ℕ, zero, suc, ◌+◌, ◌*◌, ◌-◌, ◌/◌, ◌%◌, ◌^◌, ◌≤◌, ◌<◌, ◌≡◌, ap, arith, ◌⊎◌, ltb, if◌then◌else◌,
  inl, inr, Bool-cases, ltb→lt, not_ltb→le,
}
use native.Mathlib.Nat.{mul-le-mul_left, mul-div-le, div-add-mod, mod-lt, one-le-mul}

-- the largest power of two that is at most n, for n below 2 ^ rounds
unfoldable pub binade : ℕ → ℕ → ℕ
binade zero n = 1
binade (suc rounds) n = let half = binade rounds (n / 2) in if ltb n 2 then 1 else half * 2

-- a / b to the nearest, and to even between two
unfoldable pub nearest : ℕ → ℕ → ℕ
nearest a b =
    let q = a / b in
    let r = a % b in if ltb (r * 2) b then q else if ltb b (r * 2) then q + 1 else q + q % 2

-- num / den in units of 2 ^ -23 * unit
unfoldable pub in_units : (num den unit : ℕ) → ℕ
in_units num den unit = nearest (num * 2 ^ 23) (den * unit) * unit

-- num / den as a float
unfoldable pub round_float : ℕ → ℕ → ℕ
round_float num den = in_units num den (binade 64 (num / den))

binade-le : (rounds n : ℕ) → 0 < n → binade rounds n ≤ n
unfolding binade
binade-le zero n pos = omega arith
binade-le (suc rounds) n pos = elim (Bool-cases (ltb n 2)) [
  | inl small ↦ rw small (omega arith)
  | inr large ↦ rw large (ground (arith, binade-le rounds (n / 2)))
]

binade-pos : (rounds n : ℕ) → 0 < binade rounds n
unfolding binade
binade-pos zero n = omega arith
binade-pos (suc rounds) n = ground (arith, binade-pos rounds (n / 2))

nearest-cases :
    (a b : ℕ)
    → ((nearest a b ≡ a / b) × (a % b * 2 ≤ b)) ⊎ ((nearest a b ≡ a / b + 1) × (b ≤ a % b * 2))
unfolding nearest
nearest-cases a b = ground arith

nearest-near :
    (a b : ℕ) → 0 < b → (2 * (b * nearest a b) ≤ 2 * a + b) × (2 * a ≤ 2 * (b * nearest a b) + b)
nearest-near a b pos =
    let whole = div-add-mod a b in
    let less = mod-lt a pos in
    let above : b * (a / b + 1) ≡ b * (a / b) + b = grind arith in
    elim (nearest-cases a b) [
      | inl (e, le) ↦ rw e (omega arith, omega arith)
      | inr (e, le) ↦ rw (e, above) (omega arith, omega arith)
    ]

in_units-near :
    (num den unit : ℕ)
    → 0 < den * unit
    → den * unit ≤ num
    → (2 * (in_units num den unit * den) ≤ num * (2 ^ 24 + 1))
      × (num * (2 ^ 24 - 1) ≤ 2 * (in_units num den unit * den))
unfolding in_units
in_units-near num den unit pos fits =
    let n = nearest (num * 2 ^ 23) (den * unit) in
    let (upper, lower) = nearest-near (num * 2 ^ 23) (den * unit) pos in
    let same : n * unit * den ≡ den * unit * n = grind arith in rw same (omega arith, omega arith)

div-pos : (num den : ℕ) → 0 < den → den ≤ num → 0 < num / den
div-pos num den pos le = elim (Bool-cases (ltb 0 (num / den))) [
  | inl some ↦ ltb→lt _ _ some
  | inr none_fit ↦
      let q : num / den ≡ 0 = omega (arith, not_ltb→le _ _ none_fit) in
      absurd (omega (arith, div-add-mod num den, mod-lt num pos, ap (λ (t : ℕ). den * t) q))
]

-- Rounding changes a number that is at least 1 by one part in 2 ^ 24 at most.
pub round_float-near :
    (num den : ℕ)
    → 0 < den
    → den ≤ num
    → (2 * (round_float num den * den) ≤ num * (2 ^ 24 + 1))
      × (num * (2 ^ 24 - 1) ≤ 2 * (round_float num den * den))
unfolding round_float
round_float-near num den pos le =
    let small = binade-le 64 (num / den) (div-pos num den pos le) in
    let fits = mul-le-mul_left den small in
    in_units-near num den (binade 64 (num / den)) (one-le-mul pos (binade-pos 64 (num / den)))
      (omega (arith, fits, mul-div-le num den))
