-- ===== src/Word.antt =====
-- uint32_t arithmetic: the operators of cache/hash.c and the macro `rot` of cache/hash.h.
-- A word is a native number below 2 ^ 32; the range is a hypothesis where a law needs it.
use memcached4chaos.Base.{ℕ, ◌+◌, ◌-◌, ◌*◌, ◌/◌, ◌%◌, ◌^◌, ◌<◌, ◌≡◌, bit_xor, arith}
use memcached4chaos.Base.Bits.{bit_xor-lt}
use native.Mathlib.Nat.{div-le_self}

-- x + y and x - y on uint32_t
unfoldable pub add32 : ℕ → ℕ → ℕ
add32 x y = (x + y) % 2 ^ 32

unfoldable pub sub32 : ℕ → ℕ → ℕ
sub32 x y = (x + 2 ^ 32 - y) % 2 ^ 32

-- x << k on uint32_t
unfoldable pub shl32 : ℕ → ℕ → ℕ
shl32 x k = x * 2 ^ k % 2 ^ 32

-- #define rot(x,k) (((x)<<(k)) ^ ((x)>>(32-(k))))
unfoldable pub rot : ℕ → ℕ → ℕ
unfolding shl32
rot x k = bit_xor (shl32 x k) (x / 2 ^ (32 - k))

abbrev pub IsWord : ℕ → Type 0
IsWord x = x < 2 ^ 32

pub add32-IsWord : (x y : ℕ) → IsWord (add32 x y)
unfolding add32
add32-IsWord x y = omega arith

pub sub32-IsWord : (x y : ℕ) → IsWord (sub32 x y)
unfolding sub32
sub32-IsWord x y = omega arith

pub xor-IsWord : (x y : ℕ) → IsWord x → IsWord y → IsWord (bit_xor x y)
xor-IsWord x y p q = bit_xor-lt 32 x y p q

pub rot-IsWord : (x k : ℕ) → IsWord x → IsWord (rot x k)
unfolding rot
rot-IsWord x k p =
    let high = div-le_self x (2 ^ (32 - k)) in
    xor-IsWord (shl32 x k) (x / 2 ^ (32 - k)) (unfold shl32 in omega arith) (omega arith)

pub sub32-add32 : (x y : ℕ) → IsWord x → IsWord y → sub32 (add32 x y) y ≡ x
unfolding add32 sub32
sub32-add32 x y p q = omega arith

pub add32-sub32 : (x y : ℕ) → IsWord x → IsWord y → add32 (sub32 x y) y ≡ x
unfolding add32 sub32
add32-sub32 x y p q = omega arith
