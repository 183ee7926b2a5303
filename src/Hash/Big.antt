-- ===== src/Hash/Big.antt =====
-- cache/hash.c on a big-endian machine: two branches. The byte-wise loop moves `length` and `k`
-- both in its body and in its header.
pub mod Short
pub mod Long
use memcached4chaos.Base.{
  ℕ, zero, suc, ◌+◌, ◌-◌, ◌%◌, ◌^◌, Option, none, some, if◌then◌else◌, ◌==◌, ltb, leb, bit_and,
}
use memcached4chaos.Word.{add32, shl32}
use memcached4chaos.Hash.Mixing.{Regs, mix}
use memcached4chaos.Hash.Mem.{Bytes, word_big, initial, blocks, skip}
use memcached4chaos.Hash.Little.{finish}

unfoldable pub add_words_big : Bytes → Regs → Regs
add_words_big k (a, b, c) = (add32 a (word_big k 0), add32 b (word_big k 1), add32 c (word_big k 2))

unfoldable pub tail_words_big : ℕ → Bytes → Regs → Regs
tail_words_big n k (a, b, c) =
    let k0 = word_big k 0 in
    let k1 = word_big k 1 in
    let k2 = word_big k 2 in
    if n == 12
    then (add32 a k0, add32 b k1, add32 c k2)
    else if n == 11
    then (add32 a k0, add32 b k1, add32 c (bit_and k2 0xffffff00))
    else if n == 10
    then (add32 a k0, add32 b k1, add32 c (bit_and k2 0xffff0000))
    else if n == 9
    then (add32 a k0, add32 b k1, add32 c (bit_and k2 0xff000000))
    else if n == 8
    then (add32 a k0, add32 b k1, c)
    else if n == 7
    then (add32 a k0, add32 b (bit_and k1 0xffffff00), c)
    else if n == 6
    then (add32 a k0, add32 b (bit_and k1 0xffff0000), c)
    else if n == 5
    then (add32 a k0, add32 b (bit_and k1 0xff000000), c)
    else if n == 4
    then (add32 a k0, b, c)
    else if n == 3
    then (add32 a (bit_and k0 0xffffff00), b, c)
    else if n == 2
    then (add32 a (bit_and k0 0xffff0000), b, c)
    else if n == 1
    then (add32 a (bit_and k0 0xff000000), b, c)
    else (a, b, c)

-- x += k[i]<<24; x += k[i+1]<<16; x += k[i+2]<<8; x += k[i+3]
add_four_big : Bytes → ℕ → ℕ → ℕ
unfolding shl32
add_four_big k i x =
    let x = add32 x (shl32 (k i) 24) in
    let x = add32 x (shl32 (k (i + 1)) 16) in
    let x = add32 x (shl32 (k (i + 2)) 8) in add32 x (k (i + 3))

unfoldable pub add_bytes_big : Bytes → Regs → Regs
unfolding add_four_big
add_bytes_big k (a, b, c) = (add_four_big k 0 a, add_four_big k 4 b, add_four_big k 8 c)

-- case i+4, i+3, i+2, i+1 of the `switch`, down from where `n` enters it
four_from_big : ℕ → Bytes → ℕ → ℕ → ℕ
unfolding shl32
four_from_big n k i x =
    let x = if leb (i + 4) n then add32 x (k (i + 3)) else x in
    let x = if leb (i + 3) n then add32 x (shl32 (k (i + 2)) 8) else x in
    let x = if leb (i + 2) n then add32 x (shl32 (k (i + 1)) 16) else x in
    if leb (i + 1) n then add32 x (shl32 (k i) 24) else x

unfoldable pub tail_bytes_big : ℕ → Bytes → Regs → Regs
unfolding four_from_big
tail_bytes_big n k (a, b, c) = (four_from_big n k 0 a, four_from_big n k 4 b, four_from_big n k 8 c)

-- `length -= 12` on a 64-bit size_t
abbrev pub less_12 : ℕ → ℕ
less_12 length = (length + 2 ^ 64 - 12) % 2 ^ 64

-- The byte-wise loop: `length -= 12; k += 12;` stand in the body and in the header of the `for`.
-- `none`: it has not ended after as many rounds as there was fuel.
unfoldable pub blocks_bytes_big : ℕ → Bytes → ℕ → Regs → Option ℕ
blocks_bytes_big zero k length r = none
blocks_bytes_big (suc fuel) k length r =
    let rest =
      blocks_bytes_big fuel (skip 12 (skip 12 k)) (less_12 (less_12 length))
        (mix (add_bytes_big k r)) in
    if ltb 12 length then rest else some (finish tail_bytes_big length k r)

-- uint32_t hash(const void *key, size_t length, const uint32_t initval)
unfoldable pub hash_big : (fuel address : ℕ) → Bytes → (length initval : ℕ) → Option ℕ
unfolding add_words_big tail_words_big tail_bytes_big add_bytes_big finish blocks blocks_bytes_big
    initial
hash_big fuel address k length initval =
    let s = initial length initval in
    if bit_and address 3 == 0
    then some
        (blocks (λ k r. mix (add_words_big k r)) (finish tail_words_big) length k length (s, s, s))
    else blocks_bytes_big fuel k length (s, s, s)
