-- ===== src/Tests/Hashing.antt =====
-- hash.c on concrete keys.
use memcached4chaos.Base.{ℕ, ◌+◌, ◌%◌, ◌≡◌, refl, arith, ltb, if◌then◌else◌, none}
use memcached4chaos.Hash.Mixing.{mix, unmix, unmix-mix}
use memcached4chaos.Hash.Mem.{Bytes, AreBytes}
use memcached4chaos.Hash.Little.{hash}
use memcached4chaos.Hash.Little.Agree.{hash_congr}
use memcached4chaos.Hash.Big.{hash_big}
use memcached4chaos.Hash.Big.Long.{hash_big-overrun}

abbrev letters : Bytes
letters i = 97 + i % 26

abbrev letters_only : ℕ → Bytes
letters_only n i = if ltb i n then 97 + i % 26 else 0

letters-AreBytes : AreBytes letters
letters-AreBytes i = omega arith

letters_only-AreBytes : (n : ℕ) → AreBytes (letters_only n)
letters_only-AreBytes n i = ground arith

hash_congr_example : hash 4096 letters 15 0 ≡ hash 4097 (letters_only 15) 15 0
hash_congr_example =
    hash_congr 4096 4097 letters (letters_only 15) 15 0 letters-AreBytes (letters_only-AreBytes 15)
      (λ i h. ground arith)

unmix-mix_example : unmix (mix (1, 2, 3)) ≡ (1, 2, 3)
unmix-mix_example = unmix-mix (1, 2, 3) (omega arith, omega arith, omega arith)

hash_big-overrun_example : hash_big 100 4097 letters 13 0 ≡ none
hash_big-overrun_example =
    hash_big-overrun 100 4097 letters 13 0 refl (omega arith) (omega arith) (omega arith)
