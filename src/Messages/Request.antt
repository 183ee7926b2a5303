-- ===== src/Messages/Request.antt =====
-- A request that is written, sent and read elsewhere.
use memcached4chaos.Base.{ℕ, ◌+◌, ◌^◌, ◌<◌, ◌≡◌, ◌⊎◌, arith}
use memcached4chaos.System.{Ptr, null, update}
use memcached4chaos.Hash.Mem.{Bytes, skip}
use memcached4chaos.Messages.{DataRequested, req_header, read_request, write_request}
use memcached4chaos.Messages.Numbers.{Shows, Apart, word-Shows, size_at-Shows}

module _ (padding mem : Bytes) (dest key : Ptr) (nkey : ℕ) (value : Ptr) (nbytes op : ℕ)
    (key_apart : Apart key nkey dest (25 + nkey + nbytes))
    (value_apart : Apart value nbytes dest (25 + nkey + nbytes)) where
  abbrev pub message : DataRequested × Bytes
  message = write_request padding mem dest key nkey value nbytes op

  written_size : message.0.totbytes ≡ 25 + nkey + nbytes
  unfolding write_request
  written_size = ground arith

  written_header : (i : ℕ) → i < 24 → message.1 (dest + i) ≡ req_header padding op nkey nbytes i
  unfolding write_request update
  written_header i h = ground arith

  written_key : (i : ℕ) → i < nkey → message.1 (dest + 24 + i) ≡ mem (key + i)
  unfolding write_request update
  written_key i h = ground arith

  written_end : message.1 (dest + 24 + nkey) ≡ 0
  unfolding write_request update
  written_end = ground arith

  written_value : (i : ℕ) → i < nbytes → message.1 (dest + 25 + nkey + i) ≡ mem (value + i)
  unfolding write_request update
  written_value i h = ground arith

  -- A copy of the message at another place.
  module _ (received : Bytes) (at : Ptr)
      (copied : (i : ℕ) → i < message.0.totbytes → received (at + i) ≡ message.1 (dest + i)) where
    received_op : Shows (skip at received) 0 4 op
    unfolding req_header
    received_op j h = ground (arith, written_size, copied (0 + j), written_header (0 + j))

    received_nkey : Shows (skip at received) 8 8 nkey
    unfolding req_header
    received_nkey j h = ground (arith, written_size, copied (8 + j), written_header (8 + j))

    received_nbytes : Shows (skip at received) 16 8 nbytes
    unfolding req_header
    received_nbytes j h = ground (arith, written_size, copied (16 + j), written_header (16 + j))

    -- Reading a copy of a request gives what was written.
    pub read-write_request :
        op < 2 ^ 32
        → nkey < 2 ^ 64
        → nbytes < 2 ^ 64
        → (0 < nkey) ⊎ (nbytes ≡ 0)
        → let r = read_request received message.0.totbytes at in
          (r.op ≡ op)
          × (r.nkey ≡ nkey)
          × (r.nbytes ≡ nbytes)
          × ((i : ℕ) → i < nkey → received (r.key + i) ≡ mem (key + i))
          × (0 < nkey → received (r.key + nkey) ≡ 0)
          × ((i : ℕ) → i < nbytes → received (r.value + i) ≡ mem (value + i))
    unfolding read_request
    read-write_request ok_op ok_nkey ok_nbytes keyed =
        let e0 = word-Shows (skip at received) 0 op ok_op received_op in
        let e1 = size_at-Shows (skip at received) 8 nkey ok_nkey received_nkey in
        let e2 = size_at-Shows (skip at received) 16 nbytes ok_nbytes received_nbytes in
        (
          e0,
          e1,
          e2,
          λ i h. ground (arith, e1, written_size, copied (24 + i), written_key i),
          λ h. ground (arith, e1, written_size, copied (24 + nkey), written_end),
          λ i h. ground (arith, e1, e2, written_size, copied (25 + nkey + i), written_value i),
        )

    -- A request with data and no key: the writer puts the data behind the terminator, and the
    -- reader takes NULL + 1 for their address.
    pub read_request-no_key :
        nkey ≡ 0
        → 0 < nbytes
        → nbytes < 2 ^ 64
        → (message.0.value ≡ dest + 25)
          × ((read_request received message.0.totbytes at).value ≡ null + 1)
    unfolding read_request write_request
    read_request-no_key no_key some_value ok_nbytes =
        let e1 = size_at-Shows (skip at received) 8 nkey (omega arith) received_nkey in
        let e2 = size_at-Shows (skip at received) 16 nbytes ok_nbytes received_nbytes in
        (ground arith, ground (arith, e1, e2))
