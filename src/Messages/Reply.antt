-- ===== src/Messages/Reply.antt =====
-- A reply that is written, sent and read elsewhere.
use memcached4chaos.Base.{ℕ, ◌+◌, ◌^◌, ◌<◌, ◌≡◌, ◌≢◌, ◌⊎◌, Bool, arith}
use memcached4chaos.System.{Ptr, null}
use memcached4chaos.Hash.Mem.{Bytes, skip}
use memcached4chaos.Messages.{DataReplied, rep_header, read_reply, write_reply}
use memcached4chaos.Messages.Numbers.{Shows, Apart, word-Shows, size_at-Shows}

module _ (padding mem : Bytes) (dest value : Ptr) (nbytes op : ℕ) (valret : Bool)
    (held : (value ≢ null) ⊎ (nbytes ≡ 0))
    (value_apart : Apart value nbytes dest (16 + nbytes)) where
  abbrev pub message : DataReplied × Bytes
  message = write_reply padding mem dest value nbytes op valret

  written_header : (i : ℕ) → i < 16 → message.1 (dest + i) ≡ rep_header padding op valret nbytes i
  unfolding write_reply
  written_header i h = ground arith

  written_value : (i : ℕ) → i < nbytes → message.1 (dest + 16 + i) ≡ mem (value + i)
  unfolding write_reply
  written_value i h = ground arith

  -- A copy of the message at another place.
  module _ (received : Bytes) (at : Ptr)
      (copied : (i : ℕ) → i < message.0.totbytes → received (at + i) ≡ message.1 (dest + i)) where
    received_header : (i : ℕ) → i < 16 → received (at + i) ≡ rep_header padding op valret nbytes i
    unfolding write_reply
    received_header i h = ground (arith, copied i, written_header i)

    received_op : Shows (skip at received) 0 4 op
    unfolding rep_header
    received_op j h = ground (arith, received_header (0 + j))

    received_nbytes : Shows (skip at received) 8 8 nbytes
    unfolding rep_header
    received_nbytes j h = ground (arith, received_header (8 + j))

    -- Reading a copy of a reply gives what was written: the operation, its result and the value.
    pub read-write_reply :
        op < 2 ^ 32
        → nbytes < 2 ^ 64
        → let r = read_reply received message.0.totbytes at in
          (r.op ≡ op)
          × (r.valret ≡ valret)
          × (r.nbytes ≡ nbytes)
          × ((i : ℕ) → i < nbytes → received (r.value + i) ≡ mem (value + i))
    unfolding read_reply write_reply rep_header
    read-write_reply ok_op ok_nbytes =
        let e1 = size_at-Shows (skip at received) 8 nbytes ok_nbytes received_nbytes in
        (
          word-Shows (skip at received) 0 op ok_op received_op,
          ground (arith, received_header 4),
          e1,
          λ i h. ground (arith, e1, copied (16 + i), written_value i),
        )
