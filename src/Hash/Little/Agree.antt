-- ===== src/Hash/Little/Agree.antt =====
-- The three branches of the little-endian `hash` compute one function of the key's bytes.
use memcached4chaos.Base.{
  ℕ, zero, suc, ◌+◌, ◌-◌, ◌≤◌, ◌<◌, ◌≡◌, refl, sym, ap, ◌∙◌, arith, ltb, ◌==◌, bit_and, Bool-cases,
  ltb→lt, not_ltb→le, inl, inr,
}
use memcached4chaos.Word.{IsWord}
use memcached4chaos.Hash.Mixing.{Regs, IsWords, mix, mix-IsWords, finalmix-IsWord}
use memcached4chaos.Hash.Mem.{
  Bytes, AreBytes, skip, padded, skip-padded, padded_congr, initial, initial-IsWord, blocks,
}
use memcached4chaos.Hash.Little.{
  add_words, add_halves, add_bytes, tail_words, tail_halves, tail_bytes, finish, hash,
}
use memcached4chaos.Hash.Little.Tails.{
  add_bytes-words, add_halves-words, add_words-IsWords, tail_bytes-words, tail_words-words,
  tail_halves-words,
}

-- The reference: the key is padded with zeros to whole blocks of three little-endian words; each
-- block is added to the registers, and all but the last are followed by `mix`.
pub reference_from : ℕ → Bytes → ℕ → Regs → ℕ
reference_from = blocks (λ k r. mix (add_words k r)) (finish λ _. add_words)

pub reference : Bytes → (length initval : ℕ) → ℕ
unfolding reference_from
reference k length initval =
    let s = initial length initval in reference_from length (padded length k) length (s, s, s)

-- A branch that adds the same words as the reference, block by block and at the end.
module _ (add : Bytes → Regs → Regs) (tail : ℕ → Bytes → Regs → Regs)
    (same_block : (k : Bytes) (r : Regs) → AreBytes k → add k r ≡ add_words k r)
    (same_tail : (n : ℕ) (k : Bytes) (r : Regs)
      → AreBytes k
      → IsWords r
      → n ≤ 12
      → tail n k r ≡ add_words (padded n k) r) where
  finish-padded :
      (n : ℕ) (k : Bytes) (r : Regs)
      → AreBytes k
      → IsWords r
      → n ≤ 12
      → finish tail n k r ≡ finish (λ _. add_words) n (padded n k) r
  unfolding finish
  finish-padded n k r h w le = rw (same_tail n k r h w le)

  add_padded : (n : ℕ) (k : Bytes) (r : Regs) → 12 < n → add_words k r ≡ add_words (padded n k) r
  unfolding add_words
  add_padded n k (a, b, c) lt = ground arith

  blocks-padded :
      (f n : ℕ) (k : Bytes) (r : Regs)
      → AreBytes k
      → IsWords r
      → n ≤ f
      → blocks (λ k r. mix (add k r)) (finish tail) f k n r ≡ reference_from f (padded n k) n r
  unfolding blocks reference_from
  blocks-padded zero n k r h w le = finish-padded n k r h w (omega arith)
  blocks-padded (suc f) n k r h w le = elim (Bool-cases (ltb 12 n)) [
    | inl more ↦
        let lt = ltb→lt 12 n more in
        let kept = mix-IsWords (add_words k r) (add_words-IsWords k r) in
        rw (more, same_block k r h, skip-padded n k lt, ← add_padded n k r lt)
          (blocks-padded f (n - 12) (skip 12 k) (mix (add_words k r)) (λ i. h (12 + i)) kept
            (omega arith))
    | inr done ↦ rw done (finish-padded n k r h w (not_ltb→le 12 n done))
  ]

-- The hash is the reference, however the key is aligned.
pub hash-reference :
    (address : ℕ) (k : Bytes) (n v : ℕ) → AreBytes k → hash address k n v ≡ reference k n v
unfolding hash reference
hash-reference address k n v h =
    let s = initial-IsWord n v in
    let r = initial n v in
    let words =
      blocks-padded add_words tail_words (λ k r _. refl) tail_words-words n n k (r, r, r) h
        (s, s, s) (omega arith) in
    let halves =
      blocks-padded add_halves tail_halves add_halves-words tail_halves-words n n k (r, r, r) h
        (s, s, s) (omega arith) in
    let bytes =
      blocks-padded add_bytes tail_bytes add_bytes-words (λ n k r b w _. tail_bytes-words n k r b w)
        n n k (r, r, r) h (s, s, s) (omega arith) in
    elim (Bool-cases (bit_and address 3 == 0)) [
      | inl e ↦ rw e words
      | inr e ↦ elim (Bool-cases (bit_and address 1 == 0)) [
        | inl e' ↦ rw (e, e') halves
        | inr e' ↦ rw (e, e') bytes
      ]
    ]

-- Two copies of a key have one hash: neither the alignment of the pointer nor what stands in
-- memory behind the key changes it.
pub hash_congr :
    (address address' : ℕ) (k k' : Bytes) (n v : ℕ)
    → AreBytes k
    → AreBytes k'
    → ((i : ℕ) → i < n → k i ≡ k' i)
    → hash address k n v ≡ hash address' k' n v
unfolding reference
hash_congr address address' k k' n v h h' same =
    hash-reference address k n v h
    ∙ ap (λ p. let s = initial n v in reference_from n p n (s, s, s)) (padded_congr n k k' same)
    ∙ sym (hash-reference address' k' n v h')

finish-IsWord : (n : ℕ) (k : Bytes) (r : Regs) → IsWords r → IsWord (finish (λ _. add_words) n k r)
unfolding finish
finish-IsWord n k r w = elim (Bool-cases (n == 0)) [
  | inl e ↦ rw e w.2
  | inr e ↦ rw e (finalmix-IsWord (add_words k r) (add_words-IsWords k r))
]

reference-IsWord : (f n : ℕ) (k : Bytes) (r : Regs) → IsWords r → IsWord (reference_from f k n r)
unfolding reference_from blocks
reference-IsWord zero n k r w = finish-IsWord n k r w
reference-IsWord (suc f) n k r w =
    let kept = mix-IsWords (add_words k r) (add_words-IsWords k r) in
    ground (
      arith,
      reference-IsWord f (n - 12) (skip 12 k) (mix (add_words k r)) kept,
      finish-IsWord n k r w,
    )

-- The hash is a 32-bit word.
hash-IsWord : (address : ℕ) (k : Bytes) (n v : ℕ) → AreBytes k → IsWord (hash address k n v)
unfolding reference
hash-IsWord address k n v h =
    let s = initial-IsWord n v in
    rw (hash-reference address k n v h)
      (reference-IsWord n n (padded n k) (initial n v, initial n v, initial n v) (s, s, s))
