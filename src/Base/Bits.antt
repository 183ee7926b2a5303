-- ===== src/Base/Bits.antt =====
-- `&` with a mask of low ones is a remainder; `^` stays in range and cancels itself.
-- The native operations recur on binary digits with a count of digits to go; `bitwise_step` is
-- their law for the lowest digit, with the count dropped.
use Prim.Native.Nat.{
  ℕ, zero, suc, ◌+◌, ◌-◌, ◌*◌, ◌/◌, ◌%◌, ◌^◌, ◌≤◌, ◌<◌, min, bit_and, bit_xor, digits, bitwise,
  differ, bit_and-bitwise, bit_xor-bitwise,
}
use mathlib.Core.Path.{◌≡◌, refl, sym, ap, ◌∙◌}
use native.Mathlib.Omega.{arith}
use native.Mathlib.Nat.{
  pow-suc, div-add-mod, add-mul-mod_self_right, mod-eq_of_lt, mod-lt, div-div-eq-div-mul, mul_comm,
}

module _ (z : ℕ → ℕ) (op : ℕ → ℕ → ℕ) (ends : (b : ℕ) → z b ≡ z (b / 2) * 2 + op 0 (b % 2)) where
  enough_digits : (n m a b : ℕ) → a ≤ n → a ≤ m → digits z op n a b ≡ digits z op m a b
  enough_digits (suc n) (suc m) (suc a) b p q =
      ap (λ t. t * 2 + op (suc a % 2) (b % 2))
        (enough_digits n m (suc a / 2) (b / 2) (omega arith) (omega arith))
  enough_digits zero _ (suc a) b p q = absurd (omega arith)
  enough_digits (suc n) zero (suc a) b p q = absurd (omega arith)
  enough_digits zero zero zero b p q = refl
  enough_digits zero (suc m) zero b p q = refl
  enough_digits (suc n) zero zero b p q = refl
  enough_digits (suc n) (suc m) zero b p q = refl

  bitwise_step :
      (a b : ℕ) → bitwise z op a b ≡ bitwise z op (a / 2) (b / 2) * 2 + op (a % 2) (b % 2)
  bitwise_step zero b = ends b
  bitwise_step (suc a) b =
      rw (enough_digits a (suc a / 2) (suc a / 2) (b / 2) (omega arith) (omega arith))

bit_and_step : (a b : ℕ) → bit_and a b ≡ bit_and (a / 2) (b / 2) * 2 + min (a % 2) (b % 2)
bit_and_step a b = simp bit_and-bitwise (bitwise_step (λ _. 0) min (λ b. omega arith) a b)

differ-zero : (b : ℕ) → differ 0 b ≡ b
differ-zero b = refl

bit_xor_step : (a b : ℕ) → bit_xor a b ≡ bit_xor (a / 2) (b / 2) * 2 + differ (a % 2) (b % 2)
bit_xor_step a b = simp bit_xor-bitwise (bitwise_step (λ b. b) differ (λ b. omega arith) a b)

pub pow-pos : (n : ℕ) → 0 < 2 ^ n
pow-pos zero = omega arith
pow-pos (suc n) = omega (arith, pow-suc 2 n, pow-pos n)

bit_and-zero : (n a : ℕ) → a ≤ n → bit_and a 0 ≡ 0
bit_and-zero zero zero le = refl
bit_and-zero zero (suc a) le = absurd (omega arith)
bit_and-zero (suc n) a le = omega (arith, bit_and_step a 0, bit_and-zero n (a / 2) (omega arith))

mod-double : (x m : ℕ) → 0 < m → x % (m * 2) ≡ (x / 2) % m * 2 + x % 2
mod-double x m h =
    let r = x / 2 % m * 2 + x % 2 in
    let whole : x ≡ r + x / 2 / m * (m * 2) =
      omega (arith, div-add-mod (x / 2) m, ap (λ (t : ℕ). t * 2) (div-add-mod (x / 2) m)) in
    ap (λ t. t % (m * 2)) whole
    ∙ add-mul-mod_self_right r (x / 2 / m) (m * 2)
    ∙ mod-eq_of_lt (omega (arith, mod-lt (x / 2) h))

-- `x & (2 ^ n - 1)` is `x % 2 ^ n`
pub bit_and-mask : (n x : ℕ) → bit_and x (2 ^ n - 1) ≡ x % 2 ^ n
bit_and-mask zero x = omega (arith, bit_and-zero x x (omega arith))
bit_and-mask (suc n) x =
    let half : (2 ^ suc n - 1) / 2 ≡ 2 ^ n - 1 = omega (arith, pow-suc 2 n, pow-pos n) in
    let odd : (2 ^ suc n - 1) % 2 ≡ 1 = omega (arith, pow-suc 2 n, pow-pos n) in
    let double = mod-double x (2 ^ n) (pow-pos n) in
    rw (bit_and_step x (2 ^ suc n - 1), half, odd, bit_and-mask n (x / 2), pow-suc 2 n, double)
      (omega arith)

zero-bit_and : (b : ℕ) → bit_and 0 b ≡ 0
zero-bit_and b = bit_and-bitwise 0 b

-- `(2 ^ n - 1) & x` likewise
pub mask-bit_and : (n x : ℕ) → bit_and (2 ^ n - 1) x ≡ x % 2 ^ n
mask-bit_and zero x = omega (arith, zero-bit_and x)
mask-bit_and (suc n) x =
    let half : (2 ^ suc n - 1) / 2 ≡ 2 ^ n - 1 = omega (arith, pow-suc 2 n, pow-pos n) in
    let odd : (2 ^ suc n - 1) % 2 ≡ 1 = omega (arith, pow-suc 2 n, pow-pos n) in
    let double = mod-double x (2 ^ n) (pow-pos n) in
    rw (bit_and_step (2 ^ suc n - 1) x, half, odd, mask-bit_and n (x / 2), pow-suc 2 n, double)
      (omega arith)

div-double : (x m : ℕ) → x / 2 / m ≡ x / (m * 2)
div-double x m = div-div-eq-div-mul x 2 m ∙ ap (λ t. x / t) (mul_comm 2 m)

-- `x & ((2 ^ n - 1) << m)` clears the last m digits of an (n + m)-digit number.
pub bit_and-high_mask :
    (m n x : ℕ) → x / 2 ^ m < 2 ^ n → bit_and x ((2 ^ n - 1) * 2 ^ m) ≡ x / 2 ^ m * 2 ^ m
bit_and-high_mask zero n x h =
    let one : (2 ^ n - 1) * 2 ^ 0 ≡ 2 ^ n - 1 = omega arith in
    rw (one, bit_and-mask n x) (mod-eq_of_lt (omega arith) ∙ omega arith)
bit_and-high_mask (suc m) n x h =
    let mask = (2 ^ n - 1) * 2 ^ m in
    let twice : (2 ^ n - 1) * 2 ^ suc m ≡ mask * 2 =
      omega (arith, ap (λ (t : ℕ). (2 ^ n - 1) * t) (pow-suc 2 m)) in
    let half : mask * 2 / 2 ≡ mask = omega arith in
    let quotient : x / 2 ^ suc m ≡ x / 2 / 2 ^ m =
      ap (λ t. x / t) (pow-suc 2 m) ∙ sym (div-double x (2 ^ m)) in
    rw
      (
        twice,
        bit_and_step x (mask * 2),
        half,
        quotient,
        bit_and-high_mask m n (x / 2) (rw quotient at h),
      )
      (omega (arith, ap (λ (t : ℕ). x / 2 / 2 ^ m * t) (pow-suc 2 m)))

-- Two digits that differ give 1.
differ_bits : (x y : ℕ) → x < 2 → y < 2 → (differ x y < 2) × (differ (differ x y) y ≡ x)
differ_bits zero zero p q = (omega arith, refl)
differ_bits zero (suc zero) p q = (omega arith, refl)
differ_bits (suc zero) zero p q = (omega arith, refl)
differ_bits (suc zero) (suc zero) p q = (omega arith, refl)
differ_bits (suc (suc x)) y p q = absurd (omega arith)
differ_bits zero (suc (suc y)) p q = absurd (omega arith)
differ_bits (suc zero) (suc (suc y)) p q = absurd (omega arith)

-- `^` of two n-bit numbers has n bits.
pub bit_xor-lt : (n a b : ℕ) → a < 2 ^ n → b < 2 ^ n → bit_xor a b < 2 ^ n
bit_xor-lt zero zero zero p q = omega arith
bit_xor-lt zero zero (suc b) p q = absurd (omega arith)
bit_xor-lt zero (suc a) b p q = absurd (omega arith)
bit_xor-lt (suc n) a b p q =
    let size = pow-suc 2 n in
    let (low, _) = differ_bits (a % 2) (b % 2) (omega arith) (omega arith) in
    omega (
      arith,
      bit_xor_step a b,
      bit_xor-lt n (a / 2) (b / 2) (omega (arith, size)) (omega (arith, size)),
    )

xor_cancel_below : (n a b : ℕ) → a ≤ n → b ≤ n → bit_xor (bit_xor a b) b ≡ a
xor_cancel_below zero zero zero p q = refl
xor_cancel_below zero zero (suc b) p q = absurd (omega arith)
xor_cancel_below zero (suc a) b p q = absurd (omega arith)
xor_cancel_below (suc n) a b p q =
    let (low, back) = differ_bits (a % 2) (b % 2) (omega arith) (omega arith) in
    let x = bit_xor a b in
    let high : x / 2 ≡ bit_xor (a / 2) (b / 2) = omega (arith, bit_xor_step a b) in
    let bit : x % 2 ≡ differ (a % 2) (b % 2) = omega (arith, bit_xor_step a b) in
    rw
      (
        bit_xor_step x b,
        high,
        bit,
        back,
        xor_cancel_below n (a / 2) (b / 2) (omega arith) (omega arith),
      )
      (omega arith)

-- `^` undoes itself.
pub bit_xor-cancel : (a b : ℕ) → bit_xor (bit_xor a b) b ≡ a
bit_xor-cancel a b = xor_cancel_below (a + b) a b (omega arith) (omega arith)
