-- ===== src/Hash/Little.antt =====
-- cache/hash.c on a little-endian machine: three branches, by the alignment of the key.
pub mod Tails
pub mod Agree
use memcached4chaos.Base.{ℕ, ◌+◌, if◌then◌else◌, ◌==◌, leb, bit_and}
use memcached4chaos.Word.{add32, shl32}
use memcached4chaos.Hash.Mixing.{Regs, mix, finalmix}
use memcached4chaos.Hash.Mem.{Bytes, half, word, initial, blocks}

-- the loop bodies before `mix`, 32, 16 and 8 bits at a time
unfoldable pub add_words : Bytes → Regs → Regs
add_words k (a, b, c) = (add32 a (word k 0), add32 b (word k 1), add32 c (word k 2))

unfoldable pub add_halves : Bytes → Regs → Regs
unfolding shl32
add_halves k (a, b, c) = (
  add32 a (add32 (half k 0) (shl32 (half k 1) 16)),
  add32 b (add32 (half k 2) (shl32 (half k 3) 16)),
  add32 c (add32 (half k 4) (shl32 (half k 5) 16)),
)

-- x += k[i]; x += k[i+1]<<8; x += k[i+2]<<16; x += k[i+3]<<24
add_four : Bytes → ℕ → ℕ → ℕ
unfolding shl32
add_four k i x =
    let x = add32 x (k i) in
    let x = add32 x (shl32 (k (i + 1)) 8) in
    let x = add32 x (shl32 (k (i + 2)) 16) in add32 x (shl32 (k (i + 3)) 24)

unfoldable pub add_bytes : Bytes → Regs → Regs
unfolding add_four
add_bytes k (a, b, c) = (add_four k 0 a, add_four k 4 b, add_four k 8 c)

-- the `switch` on what is left, at most 12 bytes; words past the end are masked
unfoldable pub tail_words : ℕ → Bytes → Regs → Regs
tail_words n k (a, b, c) =
    let k0 = word k 0 in
    let k1 = word k 1 in
    let k2 = word k 2 in
    if n == 12
    then (add32 a k0, add32 b k1, add32 c k2)
    else if n == 11
    then (add32 a k0, add32 b k1, add32 c (bit_and k2 0xffffff))
    else if n == 10
    then (add32 a k0, add32 b k1, add32 c (bit_and k2 0xffff))
    else if n == 9
    then (add32 a k0, add32 b k1, add32 c (bit_and k2 0xff))
    else if n == 8
    then (add32 a k0, add32 b k1, c)
    else if n == 7
    then (add32 a k0, add32 b (bit_and k1 0xffffff), c)
    else if n == 6
    then (add32 a k0, add32 b (bit_and k1 0xffff), c)
    else if n == 5
    then (add32 a k0, add32 b (bit_and k1 0xff), c)
    else if n == 4
    then (add32 a k0, b, c)
    else if n == 3
    then (add32 a (bit_and k0 0xffffff), b, c)
    else if n == 2
    then (add32 a (bit_and k0 0xffff), b, c)
    else if n == 1
    then (add32 a (bit_and k0 0xff), b, c)
    else (a, b, c)

-- the cases fall through: each does what is left of the next lower group too
unfoldable pub tail_halves : ℕ → Bytes → Regs → Regs
unfolding shl32
tail_halves n k (a, b, c) =
    let k01 = add32 (half k 0) (shl32 (half k 1) 16) in
    let k23 = add32 (half k 2) (shl32 (half k 3) 16) in
    if n == 12
    then (add32 a k01, add32 b k23, add32 c (add32 (half k 4) (shl32 (half k 5) 16)))
    else if n == 11
    then (add32 a k01, add32 b k23, add32 (add32 c (shl32 (k 10) 16)) (half k 4))
    else if n == 10
    then (add32 a k01, add32 b k23, add32 c (half k 4))
    else if n == 9
    then (add32 a k01, add32 b k23, add32 c (k 8))
    else if n == 8
    then (add32 a k01, add32 b k23, c)
    else if n == 7
    then (add32 a k01, add32 (add32 b (shl32 (k 6) 16)) (half k 2), c)
    else if n == 6
    then (add32 a k01, add32 b (half k 2), c)
    else if n == 5
    then (add32 a k01, add32 b (k 4), c)
    else if n == 4
    then (add32 a k01, b, c)
    else if n == 3
    then (add32 (add32 a (shl32 (k 2) 16)) (half k 0), b, c)
    else if n == 2
    then (add32 a (half k 0), b, c)
    else if n == 1
    then (add32 a (k 0), b, c)
    else (a, b, c)

-- case i+4, i+3, i+2, i+1 of the byte-wise `switch`, down from where `n` enters it
four_from : ℕ → Bytes → ℕ → ℕ → ℕ
unfolding shl32
four_from n k i x =
    let x = if leb (i + 4) n then add32 x (shl32 (k (i + 3)) 24) else x in
    let x = if leb (i + 3) n then add32 x (shl32 (k (i + 2)) 16) else x in
    let x = if leb (i + 2) n then add32 x (shl32 (k (i + 1)) 8) else x in
    if leb (i + 1) n then add32 x (k i) else x

unfoldable pub tail_bytes : ℕ → Bytes → Regs → Regs
unfolding four_from
tail_bytes n k (a, b, c) = (four_from n k 0 a, four_from n k 4 b, four_from n k 8 c)

-- `case 0: return c;`, and `finalmix` for the others
unfoldable pub finish : (ℕ → Bytes → Regs → Regs) → ℕ → Bytes → Regs → ℕ
finish tail n k r = if n == 0 then r.2 else (finalmix (tail n k r)).2

-- uint32_t hash(const void *key, size_t length, const uint32_t initval)
unfoldable pub hash : (address : ℕ) → Bytes → (length initval : ℕ) → ℕ
unfolding add_words add_halves add_bytes tail_words tail_halves tail_bytes finish blocks initial
hash address k length initval =
    let s = initial length initval in
    if bit_and address 3 == 0
    then blocks (λ k r. mix (add_words k r)) (finish tail_words) length k length (s, s, s)
    else if bit_and address 1 == 0
    then blocks (λ k r. mix (add_halves k r)) (finish tail_halves) length k length (s, s, s)
    else blocks (λ k r. mix (add_bytes k r)) (finish tail_bytes) length k length (s, s, s)
