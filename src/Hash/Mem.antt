-- ===== src/Hash/Mem.antt =====
-- How hash.c reads its key: as bytes, as 16-bit or as 32-bit words, in either byte order; the loop
-- over the blocks of 12 bytes; and the key padded with zeros, which no branch can tell from it.
use memcached4chaos.Base.{
  ℕ, zero, suc, ◌+◌, ◌-◌, ◌*◌, ◌%◌, ◌^◌, ◌≤◌, ◌<◌, ◌≡◌, refl, arith, ltb, if◌then◌else◌, fun_ext,
}
use memcached4chaos.Word.{add32, IsWord}
use memcached4chaos.Hash.Mixing.{Regs}

-- what stands in memory from the first byte of the key on
abbrev pub Bytes : Type 0
Bytes = ℕ → ℕ

abbrev pub AreBytes : Bytes → Type 0
AreBytes k = (i : ℕ) → k i < 256

-- k += n
abbrev pub skip : ℕ → Bytes → Bytes
skip n k i = k (n + i)

-- ((uint16_t *) k)[i] and ((uint32_t *) k)[i] on a little-endian machine
abbrev pub half : Bytes → ℕ → ℕ
half k i = k (2 * i) + k (2 * i + 1) * 2 ^ 8

abbrev pub word : Bytes → ℕ → ℕ
word k i = k (4 * i) + k (4 * i + 1) * 2 ^ 8 + k (4 * i + 2) * 2 ^ 16 + k (4 * i + 3) * 2 ^ 24

-- ((uint32_t *) k)[i] on a big-endian machine
abbrev pub word_big : Bytes → ℕ → ℕ
word_big k i = k (4 * i) * 2 ^ 24 + k (4 * i + 1) * 2 ^ 16 + k (4 * i + 2) * 2 ^ 8 + k (4 * i + 3)

-- (uint32_t) 0xdeadbeef + ((uint32_t) length) + initval
unfoldable pub initial : ℕ → ℕ → ℕ
initial length initval = add32 (add32 0xdeadbeef (length % 2 ^ 32)) initval

pub initial-IsWord : (n v : ℕ) → IsWord (initial n v)
unfolding initial add32
initial-IsWord n v = omega arith

-- `for (; length > 12; length -= 12, k += 12) absorb;` and what follows the loop. The fuel is at
-- least the length, so it lasts: with no fuel left the length is 0 and the test fails anyway.
unfoldable pub blocks :
    (absorb : Bytes → Regs → Regs) (last : ℕ → Bytes → Regs → ℕ) → ℕ → Bytes → ℕ → Regs → ℕ
blocks absorb last zero k length r = last length k r
blocks absorb last (suc fuel) k length r =
    let rest = blocks absorb last fuel (skip 12 k) (length - 12) (absorb k r) in
    if ltb 12 length then rest else last length k r

-- Any fuel from the length on gives the same result.
blocks-fuel :
    (absorb : Bytes → Regs → Regs) (last : ℕ → Bytes → Regs → ℕ)
    → (f g : ℕ) (k : Bytes) (n : ℕ) (r : Regs) → n ≤ f
    → n ≤ g
    → blocks absorb last f k n r ≡ blocks absorb last g k n r
unfolding blocks
blocks-fuel absorb last zero zero k n r p q = refl
blocks-fuel absorb last zero (suc g) k n r p q = ground arith
blocks-fuel absorb last (suc f) zero k n r p q = ground arith
blocks-fuel absorb last (suc f) (suc g) k n r p q =
    ground (arith, blocks-fuel absorb last f g (skip 12 k) (n - 12) (absorb k r))

-- the key with zeros behind its end
abbrev pub padded : ℕ → Bytes → Bytes
padded n k i = if ltb i n then k i else 0

pub padded-AreBytes : (n : ℕ) (k : Bytes) → AreBytes k → AreBytes (padded n k)
padded-AreBytes n k b i = ground (arith, b i)

pub skip-padded : (n : ℕ) (k : Bytes) → 12 < n → skip 12 (padded n k) ≡ padded (n - 12) (skip 12 k)
skip-padded n k h = fun_ext λ i. ground arith

pub padded_congr : (n : ℕ) (k l : Bytes) → ((i : ℕ) → i < n → k i ≡ l i) → padded n k ≡ padded n l
padded_congr n k l same = fun_ext λ i. ground (arith, same i)
