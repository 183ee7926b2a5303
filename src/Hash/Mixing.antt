-- ===== src/Hash/Mixing.antt =====
-- The macros `mix` and `finalmix` of cache/hash.h: they keep words, and `mix` can be undone.
use memcached4chaos.Base.{ℕ, ◌≡◌, refl, bit_xor}
use memcached4chaos.Base.Bits.{bit_xor-cancel}
use memcached4chaos.Word.{
  add32, sub32, rot, IsWord, add32-IsWord, sub32-IsWord, xor-IsWord, rot-IsWord, sub32-add32,
  add32-sub32,
}

-- uint32_t a,b,c
abbrev pub Regs : Type 0
Regs = ℕ × ℕ × ℕ

abbrev pub IsWords : Regs → Type 0
IsWords r = IsWord r.0 × IsWord r.1 × IsWord r.2

unfoldable pub mix : Regs → Regs
mix (a, b, c) =
    let a = bit_xor (sub32 a c) (rot c 4) in
    let c = add32 c b in
    let b = bit_xor (sub32 b a) (rot a 6) in
    let a = add32 a c in
    let c = bit_xor (sub32 c b) (rot b 8) in
    let b = add32 b a in
    let a = bit_xor (sub32 a c) (rot c 16) in
    let c = add32 c b in
    let b = bit_xor (sub32 b a) (rot a 19) in
    let a = add32 a c in let c = bit_xor (sub32 c b) (rot b 4) in let b = add32 b a in (a, b, c)

unfoldable pub finalmix : Regs → Regs
finalmix (a, b, c) =
    let c = sub32 (bit_xor c b) (rot b 14) in
    let a = sub32 (bit_xor a c) (rot c 11) in
    let b = sub32 (bit_xor b a) (rot a 25) in
    let c = sub32 (bit_xor c b) (rot b 16) in
    let a = sub32 (bit_xor a c) (rot c 4) in
    let b = sub32 (bit_xor b a) (rot a 14) in let c = sub32 (bit_xor c b) (rot b 24) in (a, b, c)

-- The six lines of `mix` are one line, `x -= z; x ^= rot(z, k); z += y`, on registers that turn.
turn : ℕ → Regs → Regs
turn k (x, y, z) = (y, add32 z y, bit_xor (sub32 x z) (rot z k))

unturn : ℕ → Regs → Regs
unturn k (y, z, x) = let z = sub32 z y in (add32 (bit_xor x (rot z k)) z, y, z)

turn-IsWords : (k : ℕ) (r : Regs) → IsWords r → IsWords (turn k r)
unfolding turn
turn-IsWords k (x, y, z) (p, q, s) =
    (q, add32-IsWord z y, xor-IsWord _ _ (sub32-IsWord x z) (rot-IsWord z k s))

unturn-turn : (k : ℕ) (r : Regs) → IsWords r → unturn k (turn k r) ≡ r
unfolding turn unturn
unturn-turn k (x, y, z) (p, q, s) = rw (sub32-add32 z y s q, bit_xor-cancel, add32-sub32 x z p s)

turns : Regs → Regs
turns r = turn 4 (turn 19 (turn 16 (turn 8 (turn 6 (turn 4 r)))))

mix-turns : (r : Regs) → mix r ≡ turns r
unfolding mix turns turn
mix-turns (a, b, c) = refl

-- The lines of `mix` backwards.
pub unmix : Regs → Regs
unmix r = unturn 4 (unturn 6 (unturn 8 (unturn 16 (unturn 19 (unturn 4 r)))))

-- `mix` leaves words: no register ever exceeds 32 bits.
pub mix-IsWords : (r : Regs) → IsWords r → IsWords (mix r)
unfolding turns
mix-IsWords r w = rw mix-turns (search (turn-IsWords, w) depth 7)

-- `mix` is reversible on 32-bit words: the three registers can be recovered from what it leaves in them.
pub unmix-mix : (r : Regs) → IsWords r → unmix (mix r) ≡ r
unfolding unmix turns
unmix-mix r w =
    let w1 = turn-IsWords 4 r w in
    let w2 = turn-IsWords 6 _ w1 in
    let w3 = turn-IsWords 8 _ w2 in
    let w4 = turn-IsWords 16 _ w3 in
    let w5 = turn-IsWords 19 _ w4 in
    rw (
      mix-turns,
      unturn-turn 4 _ w5,
      unturn-turn 19 _ w4,
      unturn-turn 16 _ w3,
      unturn-turn 8 _ w2,
      unturn-turn 6 _ w1,
      unturn-turn 4 r w,
    )

pub finalmix-IsWord : (r : Regs) → IsWords r → IsWord (finalmix r).2
unfolding finalmix
finalmix-IsWord (a, b, c) w = sub32-IsWord _ _
