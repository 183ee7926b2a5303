-- ===== src/Client.antt =====
-- client-server/zmqclient.cpp: the messages that a client sends. The sockets are outside: a message is
-- the bytes that are handed to send, as they stand in the client's buffer.
pub mod Sent
pub mod Strings
pub mod Ask
pub mod Stop
pub mod RoundTrip
use memcached4chaos.Base.{ℕ, ◌+◌, ◌==◌, if◌then◌else◌, Option, none, some, List, [], ◌∷◌}
use memcached4chaos.System.{Ptr, null, update}
use memcached4chaos.Hash.Mem.{Bytes, skip}
use memcached4chaos.Messages.{
  DataRequested, write_request, code_op_shut_down, code_op_set_key_value, code_op_get_value_by_key,
}
use memcached4chaos.Server.{strlen}

-- strcpy of a literal, given as its characters
unfoldable pub strcpy : Ptr → List ℕ → Bytes → Bytes
strcpy to [] mem = update mem to 0
strcpy to (c ∷ text) mem = strcpy (to + 1) text (update mem to c)

-- "giorgio" and "mastrota"
abbrev pub giorgio : List ℕ
giorgio = 103 ∷ 105 ∷ 111 ∷ 114 ∷ 103 ∷ 105 ∷ 111 ∷ []

abbrev pub mastrota : List ℕ
mastrota = 109 ∷ 97 ∷ 115 ∷ 116 ∷ 114 ∷ 111 ∷ 116 ∷ 97 ∷ []

-- The variables of zmqClient::worker: where its arrays stand, and what they hold.
pub record Buffers : Type 0 where
  pub key : Ptr
  pub value : Ptr
  pub buffer : Ptr
  pub mem : Bytes
  pub keylen : ℕ
  pub valuelen : ℕ

-- What worker does before its loop.
unfoldable pub new_buffers : (fuel : ℕ) → (key value buffer : Ptr) → Bytes → Option Buffers
new_buffers fuel key value buffer mem =
    let keyed = strcpy key giorgio mem in
    let filled = strcpy value mastrota keyed in
    elim (strlen fuel (skip key keyed)) [
      | none ↦ none
      | some keylen ↦ elim (strlen fuel (skip value filled)) [
        | none ↦ none
        | some valuelen ↦ some (record {
          key = key;
          value = value;
          buffer = buffer;
          mem = filled;
          keylen = keylen;
          valuelen = valuelen;
        })
      ]
    ]

-- The request of a turn of its loop: the first client sets the value, the others get it.
unfoldable pub worker_request : (padding : Bytes) → (nsocket : ℕ) → Buffers → DataRequested × Bytes
worker_request padding nsocket c =
    if nsocket == 0
    then write_request padding c.mem c.buffer c.key c.keylen c.value c.valuelen
        code_op_set_key_value
    else write_request padding c.mem c.buffer c.key c.keylen null 0 code_op_get_value_by_key

-- The request of zmqClient::stop, in its buffer.
unfoldable pub terminator : (padding mem : Bytes) → (buffer : Ptr) → DataRequested × Bytes
terminator padding mem buffer = write_request padding mem buffer null 0 null 0 code_op_shut_down
