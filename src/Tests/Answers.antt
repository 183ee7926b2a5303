-- ===== src/Tests/Answers.antt =====
-- A request for the key "b" at a worker whose buffers stand at 20000 and 30000, and
-- whose cache is empty.
use memcached4chaos.Base.{ℕ, ◌≢◌, ◌≡◌, refl, arith, ◌==◌, if◌then◌else◌, some, true, false, inl}
use memcached4chaos.System.{null}
use memcached4chaos.Hash.Mem.{Bytes, skip}
use memcached4chaos.Assoc.{assoc_find, find_from, home, read}
use memcached4chaos.Messages.{read_request, size_at}
use memcached4chaos.DataCache.Results.{Finds}
use memcached4chaos.Server.{Session, strlen, worker_turn}
use memcached4chaos.Server.Get.{Answers, key, worker_turn-stale}
use memcached4chaos.Tests.Machine.{machine}
use memcached4chaos.Tests.Cache.{empty_lists}

-- the request that was received at 1000, and the value of an earlier one
abbrev memory : Bytes
memory a =
    if a == 1000
    then 2
    else if a == 1008
    then 1
    else if a == 1024
    then 98
    else if a == 20000
    then 7
    else if a == 20001
    then 8
    else 0

abbrev padding : Bytes
padding _ = 0

abbrev session : Session
session = record {
  pcachebuffer = 20000;
  preplybuffer = 30000;
  mem = memory;
  byte_used = 2;
  num_req = 0;
  closeall = false;
}

get_code : (read_request memory 26 1000).op ≡ 2
unfolding read_request size_at
get_code = refl

key_at : (read_request memory 26 1000).key ≡ 1024
unfolding read_request size_at
key_at = refl

has_key : (read_request memory 26 1000).key ≢ null
has_key = rw key_at (λ e. absurd (omega arith))

one_byte : strlen 5 (skip (read_request memory 26 1000).key memory) ≡ some 1
unfolding strlen
one_byte = rw key_at refl

missing :
    Finds 5 empty_lists
      (key 5 ⦃env = machine⦄ padding 0 26 1000 session 1 get_code has_key one_byte
        (λ e. absurd (omega arith)))
      null
unfolding assoc_find find_from home read
missing = refl

worker_turn-stale_example :
    (w' : Session) × (size : ℕ) × (worker_turn 5 ⦃env = machine⦄ padding 0 26 1000 session
        empty_lists
      ≡ some ((w', size), empty_lists))
    × Answers w' size 2 2 true (skip 20000 memory)
worker_turn-stale_example =
    worker_turn-stale 5 ⦃env = machine⦄ padding 0 26 1000 session 1 get_code has_key one_byte
      (λ e. absurd (omega arith)) empty_lists missing (omega arith) (inl (omega arith))
