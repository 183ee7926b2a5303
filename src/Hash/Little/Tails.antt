-- ===== src/Hash/Little/Tails.antt =====
-- What each branch adds for a block or for the last bytes: always the three words of the padded key.
use memcached4chaos.Base.{
  ℕ, ◌+◌, ◌*◌, ◌^◌, ◌≤◌, ◌<◌, ◌≡◌, ◌-◌, ap, ◌∙◌, arith, bit_and, leb, ◌==◌, if◌then◌else◌,
}
use memcached4chaos.Base.Bits.{bit_and-mask}
use memcached4chaos.Word.{add32, shl32, IsWord}
use memcached4chaos.Hash.Mixing.{Regs, IsWords}
use memcached4chaos.Hash.Mem.{Bytes, AreBytes, padded, half, word, skip}
use memcached4chaos.Hash.Little.{
  add_words, add_halves, add_bytes, tail_words, tail_halves, tail_bytes, add_four, four_from,
}

regs_eq : {a b c x y z : ℕ} → a ≡ x → b ≡ y → c ≡ z → ◌≡◌ {A = Regs} (a, b, c) (x, y, z)
regs_eq p q r = λ i. (p i, q i, r i)

-- A word of the padded key, by how many of its four bytes are in the key.
add_four_word :
    (k : Bytes) (i x : ℕ)
    → AreBytes k
    → add_four k i x ≡ add32 x (k i + k (i + 1) * 2 ^ 8 + k (i + 2) * 2 ^ 16 + k (i + 3) * 2 ^ 24)
unfolding add_four add32 shl32
add_four_word k i x b = omega (arith, b i, b (i + 1), b (i + 2), b (i + 3))

four_from_word :
    (n : ℕ) (k : Bytes) (i x : ℕ)
    → AreBytes k
    → IsWord x
    → let p = padded n k in
      four_from n k i x
      ≡ add32 x (p i + p (i + 1) * 2 ^ 8 + p (i + 2) * 2 ^ 16 + p (i + 3) * 2 ^ 24)
unfolding four_from add32 shl32
four_from_word n k i x b w = ground (arith, b i, b (i + 1), b (i + 2), b (i + 3))

pub add_bytes-words : (k : Bytes) (r : Regs) → AreBytes k → add_bytes k r ≡ add_words k r
unfolding add_bytes add_words
add_bytes-words k (a, b, c) h =
    regs_eq (add_four_word k 0 a h) (add_four_word k 4 b h) (add_four_word k 8 c h)

-- Two half words make a word.
halves_word :
    (x b0 b1 b2 b3 : ℕ)
    → b0 < 256
    → b1 < 256
    → b2 < 256
    → b3 < 256
    → add32 x (add32 (b0 + b1 * 2 ^ 8) (shl32 (b2 + b3 * 2 ^ 8) 16))
      ≡ add32 x (b0 + b1 * 2 ^ 8 + b2 * 2 ^ 16 + b3 * 2 ^ 24)
unfolding add32 shl32
halves_word x b0 b1 b2 b3 p0 p1 p2 p3 = omega arith

pub add_halves-words : (k : Bytes) (r : Regs) → AreBytes k → add_halves k r ≡ add_words k r
unfolding add_halves add_words
add_halves-words k (a, b, c) h =
    regs_eq (halves_word a (k 0) (k 1) (k 2) (k 3) (h 0) (h 1) (h 2) (h 3))
      (halves_word b (k 4) (k 5) (k 6) (k 7) (h 4) (h 5) (h 6) (h 7))
      (halves_word c (k 8) (k 9) (k 10) (k 11) (h 8) (h 9) (h 10) (h 11))

pub tail_bytes-words :
    (n : ℕ) (k : Bytes) (r : Regs)
    → AreBytes k
    → IsWords r
    → tail_bytes n k r ≡ add_words (padded n k) r
unfolding tail_bytes add_words
tail_bytes-words n k (a, b, c) h (p, q, s) =
    regs_eq (four_from_word n k 0 a h p) (four_from_word n k 4 b h q) (four_from_word n k 8 c h s)

-- The masks cut a word down to its first bytes.
mask_bytes :
    (b0 b1 b2 b3 : ℕ)
    → b0 < 256
    → b1 < 256
    → b2 < 256
    → b3 < 256
    → let w = b0 + b1 * 2 ^ 8 + b2 * 2 ^ 16 + b3 * 2 ^ 24 in
      (bit_and w 0xff ≡ b0)
      × (bit_and w 0xffff ≡ b0 + b1 * 2 ^ 8)
      × (bit_and w 0xffffff ≡ b0 + b1 * 2 ^ 8 + b2 * 2 ^ 16)
mask_bytes b0 b1 b2 b3 p0 p1 p2 p3 =
    let w = b0 + b1 * 2 ^ 8 + b2 * 2 ^ 16 + b3 * 2 ^ 24 in
    omega (arith, bit_and-mask 8 w, bit_and-mask 16 w, bit_and-mask 24 w)

pub tail_words-words :
    (n : ℕ) (k : Bytes) (r : Regs)
    → AreBytes k
    → IsWords r
    → n ≤ 12
    → tail_words n k r ≡ add_words (padded n k) r
unfolding tail_words add_words add32
tail_words-words n k (a, b, c) h (p, q, s) le =
    let m0 = mask_bytes (k 0) (k 1) (k 2) (k 3) (h 0) (h 1) (h 2) (h 3) in
    let m1 = mask_bytes (k 4) (k 5) (k 6) (k 7) (h 4) (h 5) (h 6) (h 7) in
    let m2 = mask_bytes (k 8) (k 9) (k 10) (k 11) (h 8) (h 9) (h 10) (h 11) in ground arith

-- One register of the tail, `m` bytes of which are in the key.
half_tail : ℕ → Bytes → ℕ → ℕ
half_tail m k x =
    if leb 4 m
    then add32 x (add32 (half k 0) (shl32 (half k 1) 16))
    else if m == 3
    then add32 (add32 x (shl32 (k 2) 16)) (half k 0)
    else if m == 2
    then add32 x (half k 0)
    else if m == 1
    then add32 x (k 0)
    else x

half_tail-word :
    (m : ℕ) (k : Bytes) (x : ℕ)
    → AreBytes k
    → IsWord x
    → half_tail m k x ≡ add32 x (word (padded m k) 0)
unfolding half_tail add32 shl32
half_tail-word m k x h w = ground (arith, h 0, h 1, h 2, h 3)

tail_halves-half_tail :
    (n : ℕ) (k : Bytes) (r : Regs)
    → n ≤ 12
    → tail_halves n k r
      ≡ (half_tail n k r.0, half_tail (n - 4) (skip 4 k) r.1, half_tail (n - 8) (skip 8 k) r.2)
unfolding tail_halves half_tail
tail_halves-half_tail n k (a, b, c) le = ground arith

word-padded :
    (m n : ℕ) (k : Bytes)
    → word (padded (n - m) (skip m k)) 0
      ≡ padded n k m
        + padded n k (m + 1) * 2 ^ 8
        + padded n k (m + 2) * 2 ^ 16
        + padded n k (m + 3) * 2 ^ 24
word-padded m n k = ground arith

pub tail_halves-words :
    (n : ℕ) (k : Bytes) (r : Regs)
    → AreBytes k
    → IsWords r
    → n ≤ 12
    → tail_halves n k r ≡ add_words (padded n k) r
unfolding add_words
tail_halves-words n k (a, b, c) h (p, q, s) le =
    tail_halves-half_tail n k (a, b, c) le
    ∙ regs_eq (half_tail-word n k a h p)
        (half_tail-word (n - 4) (skip 4 k) b (λ i. h (4 + i)) q ∙ ap (add32 b) (word-padded 4 n k))
        (half_tail-word (n - 8) (skip 8 k) c (λ i. h (8 + i)) s ∙ ap (add32 c) (word-padded 8 n k))

pub add_words-IsWords : (k : Bytes) (r : Regs) → IsWords (add_words k r)
unfolding add_words add32
add_words-IsWords k (a, b, c) = omega arith
