-- ===== src/Tests/Clients.antt =====
-- A client that asks a worker for the value of "b", and one that stops it. The requests are built at
-- 100 and received at 1000; the worker's buffers stand at 20000 and 30000.
use memcached4chaos.Base.{
  ℕ, ◌+◌, ◌-◌, ◌≡◌, refl, ap, arith, ◌==◌, if◌then◌else◌, List, [], ◌∷◌, some, true, false, inl,
}
use memcached4chaos.System.{Ptr, update, copy_in}
use memcached4chaos.Hash.Mem.{Bytes, AreBytes, skip}
use memcached4chaos.Hash.Little.{hash}
use memcached4chaos.Hash.Mixing.{finalmix}
use memcached4chaos.Word.{sub32, add32, rot}
use memcached4chaos.Lru.Monad.{LruLists}
use memcached4chaos.Lru.State.{IsCache}
use memcached4chaos.Messages.{write_request, req_header}
use memcached4chaos.DataCache.Lookup.{IsKeyOf}
use memcached4chaos.Server.{Session, worker_turn}
use memcached4chaos.Server.Get.{Answers}
use memcached4chaos.Client.{Buffers, worker_request, terminator}
use memcached4chaos.Client.Ask.{worker_request-Answers}
use memcached4chaos.Client.Sent.{HasKey, Received, key_of}
use memcached4chaos.Client.RoundTrip.{worker_turn-worker_request}
use memcached4chaos.DataCache.RoundTrip.{MayRequest, HasRoom}
use memcached4chaos.Lru.Calls
use memcached4chaos.Client.Stop.{terminator-ends}
use memcached4chaos.Tests.Machine.{machine}
use memcached4chaos.Tests.Table.{chains, items, b_hash}
use memcached4chaos.Tests.Whole.{
  whole, queue, whole-IsCache, holds_item, short, free_chunk, counts, only_item,
}

abbrev padding : Bytes
padding _ = 7

-- memory in which byte 1000 + i is the byte 100 + i of another
abbrev moved : Bytes → Bytes
moved mem a = mem (a - 900)

moved_lem : (mem : Bytes) (i : ℕ) → moved mem (1000 + i) ≡ mem (100 + i)
moved_lem mem i = let e : 1000 + i - 900 ≡ 100 + i = omega arith in ap mem e

abbrev session : Bytes → Session
session sent = record {
  pcachebuffer = 20000;
  preplybuffer = 30000;
  mem = moved sent;
  byte_used = 0;
  num_req = 0;
  closeall = false;
}

abbrev client : Buffers
client = record {
  key = 10;
  value = 50;
  buffer = 100;
  mem = λ a. if a == 10 then 98 else if a == 50 then 7 else 0;
  keylen = 1;
  valuelen = 7;
}

abbrev request : Bytes
request = (worker_request padding 1 client).1

copy_in-AreBytes :
    (at n : ℕ) (source mem : Bytes)
    → AreBytes source
    → AreBytes mem
    → AreBytes (copy_in at n source mem)
copy_in-AreBytes at n source mem b b' a = ground (arith, b (a - at), b' a)

update-AreBytes : (mem : Bytes) (at : ℕ) → AreBytes mem → AreBytes (update mem at 0)
unfolding update
update-AreBytes mem at b a = ground (arith, b a)

header-AreBytes : (op nkey nbytes : ℕ) → AreBytes (req_header padding op nkey nbytes)
unfolding req_header
header-AreBytes op nkey nbytes a = ground arith

client-AreBytes : AreBytes client.mem
client-AreBytes a = ground arith

copy_in-AreBytes_self :
    (at n k : ℕ) (mem : Bytes) → AreBytes mem → AreBytes (copy_in at n (skip k mem) mem)
copy_in-AreBytes_self at n k mem b = copy_in-AreBytes at n (skip k mem) mem (λ i. b (k + i)) b

-- what stands in the buffer before the data
abbrev head : ℕ → ℕ → Bytes
head op nbytes =
    let mem = copy_in 100 24 (req_header padding op 1 nbytes) client.mem in
    update (copy_in 124 1 (skip 10 mem) mem) 125 0

head-AreBytes : (op nbytes : ℕ) → AreBytes (head op nbytes)
head-AreBytes op nbytes =
    let mem = copy_in 100 24 (req_header padding op 1 nbytes) client.mem in
    update-AreBytes (copy_in 124 1 (skip 10 mem) mem) 125 (
      copy_in-AreBytes_self 124 1 10 mem (
        copy_in-AreBytes 100 24 (req_header padding op 1 nbytes) client.mem
          (header-AreBytes op 1 nbytes) client-AreBytes))

request-AreBytes : AreBytes request
unfolding worker_request write_request
request-AreBytes = head-AreBytes 2 0

request-Received : Received (worker_request padding 1 client) client (session request) 1000
request-Received = record {
  copied = λ i h. moved_lem request i;
  bytes = λ a. request-AreBytes (a - 900);
}

client-HasKey : HasKey client
client-HasKey = record {
  some_key = omega arith;
  short = omega arith;
  chars = λ i h. ground arith;
  key_apart = inl (omega arith);
  value_apart = inl (omega arith);
}

is_key : IsKeyOf (key_of client) 1000 (items 1000)
unfolding hash finalmix sub32 add32 rot
is_key = record {
  hashed = refl;
  body_bytes = λ i. omega arith;
  key_bytes = λ i. ground arith;
  size = refl;
  same = λ j h. ground arith;
}

worker_request-Answers_example :
    (s' : LruLists) × (queue' : ℕ → List Ptr) × (w' : Session) × (size : ℕ) × (worker_turn 5
        ⦃env = machine⦄ padding 0
        (worker_request padding 1 client).0.totbytes
        1000
        (session request)
        whole
      ≡ some ((w', size), s'))
    × IsCache s' chains queue'
    × Answers w' size 2 7 true (λ i. 98)
worker_request-Answers_example =
    worker_request-Answers 5 ⦃env = machine⦄ padding 0 padding 1 client (λ e. absurd (omega arith))
      client-HasKey (omega arith) (session request) 1000 request-Received
      (λ e. absurd (omega arith)) whole chains queue 1000 whole-IsCache holds_item
      (omega (arith, short b_hash)) is_key (omega arith) (inl (omega arith))

abbrev first_request : Bytes
first_request = (worker_request padding 0 client).1

first_request-AreBytes : AreBytes first_request
unfolding worker_request write_request
first_request-AreBytes = copy_in-AreBytes_self 126 7 50 (head 1 7) (head-AreBytes 1 7)

first-Received : Received (worker_request padding 0 client) client (session first_request) 1000
first-Received = record {
  copied = λ i h. moved_lem first_request i;
  bytes = λ a. first_request-AreBytes (a - 900);
}

may_request : MayRequest whole (key_of client) 7 (skip 50 client.mem) 2000
may_request = record {
  short = omega arith;
  size_small = omega arith;
  size_int = omega arith;
  key_bytes = λ i. ground arith;
  value_bytes = λ i. ground arith;
  chunk_bytes = λ i. omega arith;
}

room : HasRoom 5 whole chains (key_of client)
room = record {
  sizes = λ x i e. rw (only_item x i) refl;
  counts = counts;
  enough = short (Calls.key_hash (key_of client));
}

worker_turn-worker_request_example :
    (s' : LruLists) × (s'' : LruLists) × (w' : Session) × (size : ℕ) × (v' : Session) × (size' : ℕ)
    × (worker_turn 5 ⦃env = machine⦄ padding 0
          (worker_request padding 0 client).0.totbytes
          1000
          (session first_request)
          whole
        ≡ some ((w', size), s'))
    × Answers w' size 1 0 true (skip 50 client.mem)
    × (worker_turn 5 ⦃env = machine⦄ padding 0
          (worker_request padding 1 client).0.totbytes
          1000
          (session request)
          s'
        ≡ some ((v', size'), s''))
    × Answers v' size' 2 7 true (skip 50 client.mem)
worker_turn-worker_request_example =
    worker_turn-worker_request 5 ⦃env = machine⦄ padding 0 padding client (session first_request)
      1000 client-HasKey (omega arith) first-Received padding 1 client (session request) 1000
      (λ e. absurd (omega arith)) client-HasKey (refl, λ i. ground arith, λ j h. refl)
      request-Received (λ e. absurd (omega arith)) (inl (omega arith)) whole chains queue 2000
      (3000 ∷ 3096 ∷ []) whole-IsCache free_chunk may_request room

abbrev last_request : Bytes
last_request = (terminator padding (λ _. 3) 100).1

terminator-ends_example :
    (w' : Session) × (size : ℕ) × (worker_turn 5 ⦃env = machine⦄ padding 0
        (terminator padding (λ _. 3) 100).0.totbytes
        1000
        (session last_request)
        whole
      ≡ some ((w', size), whole))
    × (w'.closeall ≡ true)
    × Answers w' size 0 0 true (λ _. 3)
terminator-ends_example =
    terminator-ends 5 ⦃env = machine⦄ padding 0 padding (λ _. 3) 100 (session last_request) 1000
      (λ i h. moved_lem last_request i) whole
