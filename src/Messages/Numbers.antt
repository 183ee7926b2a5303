-- ===== src/Messages/Numbers.antt =====
-- Numbers in memory: their bytes, lowest first, and reading them back.
use memcached4chaos.Base.{ℕ, ◌+◌, ◌^◌, ◌<◌, ◌≤◌, ◌⊎◌, ◌≡◌, arith}
use memcached4chaos.System.{Ptr}
use memcached4chaos.Hash.Mem.{Bytes, skip, word}
use memcached4chaos.Messages.{byte_of, size_at}

-- Two ranges of memory do not overlap.
abbrev pub Apart : Ptr → ℕ → Ptr → ℕ → Type 0
Apart a n b m = (a + n ≤ b) ⊎ (b + m ≤ a)

-- Memory from byte i on holds the first w bytes of n.
abbrev pub Shows : Bytes → ℕ → ℕ → ℕ → Type 0
Shows k i w n = (j : ℕ) → j < w → k (i + j) ≡ byte_of n j

pub word-Shows : (k : Bytes) (i n : ℕ) → n < 2 ^ 32 → Shows k i 4 n → word (skip i k) 0 ≡ n
word-Shows k i n small h =
    omega (arith, h 0 (omega arith), h 1 (omega arith), h 2 (omega arith), h 3 (omega arith))

pub size_at-Shows : (k : Bytes) (i n : ℕ) → n < 2 ^ 64 → Shows k i 8 n → size_at k i ≡ n
unfolding size_at
size_at-Shows k i n small h = omega (
  arith,
  h 0 (omega arith),
  h 1 (omega arith),
  h 2 (omega arith),
  h 3 (omega arith),
  h 4 (omega arith),
  h 5 (omega arith),
  h 6 (omega arith),
  h 7 (omega arith),
)
