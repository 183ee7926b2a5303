-- ===== src/Tests/Sending.antt =====
-- A request that stores the two bytes at 50 under the key at 10, and a reply with these bytes. Both
-- are built at 100 and read at 1000.
use memcached4chaos.Base.{ℕ, ◌+◌, ◌-◌, ◌≡◌, ◌<◌, refl, ap, arith, ◌==◌, if◌then◌else◌, true, inl}
use memcached4chaos.System.{null}
use memcached4chaos.Hash.Mem.{Bytes}
use memcached4chaos.Messages.{read_request, write_request, read_reply, write_reply}
use memcached4chaos.Messages.Request.{read-write_request, read_request-no_key}
use memcached4chaos.Messages.Reply.{read-write_reply}

abbrev padding : Bytes
padding _ = 7

abbrev memory : Bytes
memory a = if a == 10 then 97 else if a == 50 then 98 else 99

-- memory in which byte 1000 + i is the byte 100 + i of another
abbrev moved : Bytes → Bytes
moved mem a = mem (a - 900)

moved_lem : (mem : Bytes) (i : ℕ) → moved mem (1000 + i) ≡ mem (100 + i)
moved_lem mem i = let e : 1000 + i - 900 ≡ 100 + i = omega arith in ap mem e

abbrev request : Bytes
request = (write_request padding memory 100 10 2 50 2 1).1

read-write_request_example :
    let r =
      read_request (moved request) (write_request padding memory 100 10 2 50 2 1).0.totbytes 1000 in
    (r.op ≡ 1)
    × (r.nkey ≡ 2)
    × (r.nbytes ≡ 2)
    × ((i : ℕ) → i < 2 → moved request (r.key + i) ≡ memory (10 + i))
    × (0 < 2 → moved request (r.key + 2) ≡ 0)
    × ((i : ℕ) → i < 2 → moved request (r.value + i) ≡ memory (50 + i))
read-write_request_example =
    read-write_request padding memory 100 10 2 50 2 1 (inl (omega arith)) (inl (omega arith))
      (moved request) 1000 (λ i h. moved_lem request i) (omega arith) (omega arith) (omega arith)
      (inl (omega arith))

abbrev no_key : Bytes
no_key = (write_request padding memory 100 10 0 50 2 1).1

read_request-no_key_example :
    ((write_request padding memory 100 10 0 50 2 1).0.value ≡ 100 + 25)
    × ((read_request
          (moved no_key)
          (write_request padding memory 100 10 0 50 2 1).0.totbytes
          1000).value
        ≡ null + 1)
read_request-no_key_example =
    read_request-no_key padding memory 100 10 0 50 2 1 (inl (omega arith)) (inl (omega arith))
      (moved no_key) 1000 (λ i h. moved_lem no_key i) refl (omega arith) (omega arith)

abbrev reply : Bytes
reply = (write_reply padding memory 100 50 2 2 true).1

read-write_reply_example :
    let r = read_reply (moved reply) (write_reply padding memory 100 50 2 2 true).0.totbytes 1000 in
    (r.op ≡ 2)
    × (r.valret ≡ true)
    × (r.nbytes ≡ 2)
    × ((i : ℕ) → i < 2 → moved reply (r.value + i) ≡ memory (50 + i))
read-write_reply_example =
    read-write_reply padding memory 100 50 2 2 true (inl (λ e. absurd (omega arith)))
      (inl (omega arith)) (moved reply) 1000 (λ i h. moved_lem reply i) (omega arith) (omega arith)
