-- ===== src/Hash/Big/Long.antt =====
-- Keys of 13 to 23 bytes: the big-endian byte-wise loop counts twice and misses its end.
use memcached4chaos.Base.{
  ℕ, zero, suc, ◌*◌, ◌^◌, ◌≤◌, ◌<◌, ◌≡◌, refl, arith, none, bit_and, ◌==◌, false, lt→ltb,
}
use memcached4chaos.Hash.Mixing.{Regs}
use memcached4chaos.Hash.Mem.{Bytes}
use memcached4chaos.Hash.Big.{less_12, blocks_bytes_big, hash_big}

-- Above 24 rounds' worth the loop does not end in that many rounds.
runs_on :
    (f n : ℕ) (k : Bytes) (r : Regs) → 24 * f < n → n < 2 ^ 64 → blocks_bytes_big f k n r ≡ none
unfolding blocks_bytes_big
runs_on zero k n r lt top = refl
runs_on (suc f) n k r lt top =
    rw (lt→ltb 12 n (omega arith)) (runs_on f (less_12 (less_12 n)) _ _ (omega arith) (omega arith))

-- On a key of 13 to 23 bytes that is not 4-aligned the length wraps below zero in the first round:
-- the loop, whose reads move on by 24 bytes a round, has not ended after 2 ^ 59 rounds.
pub hash_big-overrun :
    (f address : ℕ) (k : Bytes) (n v : ℕ)
    → (bit_and address 3 == 0) ≡ false
    → 12 < n
    → n < 24
    → f ≤ 2 ^ 59
    → hash_big f address k n v ≡ none
unfolding hash_big blocks_bytes_big
hash_big-overrun zero address k n v skew lo hi few = rw skew
hash_big-overrun (suc f) address k n v skew lo hi few =
    rw (skew, lt→ltb 12 n lo) (runs_on f (less_12 (less_12 n)) _ _ (omega arith) (omega arith))
