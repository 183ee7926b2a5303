-- ===== src/Hash/Big/Short.antt =====
-- Keys of at most 12 bytes: the two big-endian branches agree.
use memcached4chaos.Base.{
  ℕ, suc, ◌+◌, ◌*◌, ◌^◌, ◌≤◌, ◌<◌, ◌≡◌, arith, bit_and, leb, if◌then◌else◌, zero, refl,
}
use memcached4chaos.Base.Bits.{bit_and-high_mask}
use memcached4chaos.Word.{add32, shl32, IsWord}
use memcached4chaos.Hash.Mixing.{Regs, IsWords, mix}
use memcached4chaos.Hash.Mem.{Bytes, AreBytes, initial, initial-IsWord, blocks}
use memcached4chaos.Hash.Little.{finish}
use memcached4chaos.Hash.Big.{
  four_from_big, tail_bytes_big, tail_words_big, add_words_big, blocks_bytes_big, hash_big,
}

mask_bytes_big :
    (b0 b1 b2 b3 : ℕ)
    → b0 < 256
    → b1 < 256
    → b2 < 256
    → b3 < 256
    → let w = b0 * 2 ^ 24 + b1 * 2 ^ 16 + b2 * 2 ^ 8 + b3 in
      (bit_and w 0xff000000 ≡ b0 * 2 ^ 24)
      × (bit_and w 0xffff0000 ≡ b0 * 2 ^ 24 + b1 * 2 ^ 16)
      × (bit_and w 0xffffff00 ≡ b0 * 2 ^ 24 + b1 * 2 ^ 16 + b2 * 2 ^ 8)
mask_bytes_big b0 b1 b2 b3 p0 p1 p2 p3 =
    let w = b0 * 2 ^ 24 + b1 * 2 ^ 16 + b2 * 2 ^ 8 + b3 in
    omega (
      arith,
      bit_and-high_mask 24 8 w (omega arith),
      bit_and-high_mask 16 16 w (omega arith),
      bit_and-high_mask 8 24 w (omega arith),
    )

-- The bytes added one by one, the last four, three, two or one of the `switch`.
sums_big :
    (x b0 b1 b2 b3 : ℕ)
    → b0 < 256
    → b1 < 256
    → b2 < 256
    → b3 < 256
    → let one = shl32 b0 24 in
      let two = shl32 b1 16 in
      let three = shl32 b2 8 in
      (add32 (add32 (add32 (add32 x b3) three) two) one
        ≡ add32 x (b0 * 2 ^ 24 + b1 * 2 ^ 16 + b2 * 2 ^ 8 + b3))
      × (add32 (add32 (add32 x three) two) one ≡ add32 x (b0 * 2 ^ 24 + b1 * 2 ^ 16 + b2 * 2 ^ 8))
      × (add32 (add32 x two) one ≡ add32 x (b0 * 2 ^ 24 + b1 * 2 ^ 16))
      × (add32 x one ≡ add32 x (b0 * 2 ^ 24))
unfolding add32 shl32
sums_big x b0 b1 b2 b3 p0 p1 p2 p3 = omega arith

-- One register: `w` and its masked forms against the bytes that the `switch` adds.
register_big : ℕ → Bytes → ℕ → ℕ → ℕ
register_big n k i x =
    let w = k i * 2 ^ 24 + k (i + 1) * 2 ^ 16 + k (i + 2) * 2 ^ 8 + k (i + 3) in
    if leb (i + 4) n
    then add32 x w
    else if leb (i + 3) n
    then add32 x (bit_and w 0xffffff00)
    else if leb (i + 2) n
    then add32 x (bit_and w 0xffff0000)
    else if leb (i + 1) n
    then add32 x (bit_and w 0xff000000)
    else x

four_from_register :
    (n : ℕ) (k : Bytes) (i x : ℕ)
    → AreBytes k
    → IsWord x
    → four_from_big n k i x ≡ register_big n k i x
unfolding four_from_big register_big
four_from_register n k i x h w =
    let m =
      mask_bytes_big (k i) (k (i + 1)) (k (i + 2)) (k (i + 3)) (h i) (h (i + 1)) (h (i + 2))
        (h (i + 3)) in
    let s =
      sums_big x (k i) (k (i + 1)) (k (i + 2)) (k (i + 3)) (h i) (h (i + 1)) (h (i + 2))
        (h (i + 3)) in
    ground arith

tail_words-register :
    (n : ℕ) (k : Bytes) (r : Regs)
    → n ≤ 12
    → tail_words_big n k r
      ≡ (register_big n k 0 r.0, register_big n k 4 r.1, register_big n k 8 r.2)
unfolding tail_words_big register_big
tail_words-register n k (a, b, c) le = ground arith

tails_agree :
    (n : ℕ) (k : Bytes) (r : Regs)
    → AreBytes k
    → IsWords r
    → n ≤ 12
    → tail_bytes_big n k r ≡ tail_words_big n k r
unfolding tail_bytes_big
tails_agree n k (a, b, c) h (p, q, s) le = rw (
  tail_words-register n k (a, b, c) le,
  four_from_register n k 0 a h p,
  four_from_register n k 4 b h q,
  four_from_register n k 8 c h s,
)

blocks_short :
    (f n : ℕ) (k : Bytes) (r : Regs)
    → n ≤ 12
    → blocks (λ k r. mix (add_words_big k r)) (finish tail_words_big) f k n r
      ≡ finish tail_words_big n k r
unfolding blocks
blocks_short zero n k r le = refl
blocks_short (suc f) n k r le = ground arith

-- On a key of at most 12 bytes the big-endian hash ends in its first round and does not depend on
-- the alignment of the key.
hash_big-short :
    (f address address' : ℕ) (k : Bytes) (n v : ℕ)
    → AreBytes k
    → n ≤ 12
    → hash_big (suc f) address k n v ≡ hash_big (suc f) address' k n v
unfolding hash_big finish blocks_bytes_big
hash_big-short f address address' k n v h le =
    let s = initial-IsWord n v in
    let r = initial n v in
    ground (arith, tails_agree n k (r, r, r) h (s, s, s) le, blocks_short n n k (r, r, r) le)
