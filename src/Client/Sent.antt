-- ===== src/Client/Sent.antt =====
-- A client's request as the worker that receives a copy of it reads it.
use memcached4chaos.Base.{
  ℕ, zero, suc, ◌+◌, ◌^◌, ◌<◌, ◌≤◌, ◌≡◌, ◌≢◌, refl, sym, ◌∙◌, arith, false, ap, inl, inr, some,
  ◌==◌,
}
use memcached4chaos.System.{Ptr, null}
use memcached4chaos.Hash.Mem.{Bytes, AreBytes, skip}
use memcached4chaos.Lru.Items.{CString}
use memcached4chaos.DataCache.Written.{SameString}
use memcached4chaos.Messages.{
  DataRequested, read_request, write_request, code_op_set_key_value, code_op_get_value_by_key,
}
use memcached4chaos.Messages.Numbers.{Apart}
use memcached4chaos.Messages.Request.{read-write_request}
use memcached4chaos.Server.{Session, strlen}
use memcached4chaos.Client.{Buffers, worker_request}

-- strlen finds the first null byte.
pub strlen_lem :
    (n fuel : ℕ) (k : Bytes)
    → n < fuel
    → ((i : ℕ) → i < n → k i ≢ 0)
    → k n ≡ 0
    → strlen fuel k ≡ some n
unfolding strlen
strlen_lem n zero k enough chars end = absurd (omega arith)
strlen_lem zero (suc fuel) k enough chars end = rw end refl
strlen_lem (suc n) (suc fuel) k enough chars end =
    let behind : 1 + n ≡ suc n = omega arith in
    let more =
      strlen_lem n fuel (skip 1 k) (omega arith) (λ i h. chars (1 + i) (omega arith))
        (ap k behind ∙ end) in
    let first : (k 0 == 0) ≡ false = ground (arith, chars 0 (omega arith)) in
    rw (first, more) (ap some (omega arith))

-- The client's key is a string of its memory, and its key and value are apart from its buffer.
pub record HasKey (c : Buffers) : Type 0 where
  pub some_key : 0 < c.keylen
  pub short : c.keylen < 2 ^ 64
  pub chars : (i : ℕ) → i < c.keylen → c.mem (c.key + i) ≢ 0
  pub key_apart : Apart c.key c.keylen c.buffer (25 + c.keylen + c.valuelen)
  pub value_apart : Apart c.value c.valuelen c.buffer (25 + c.keylen + c.valuelen)

abbrev pub key_of : Buffers → CString
key_of c = record { address = c.key; bytes = skip c.key c.mem; len = c.keylen }

-- A worker has a copy of a message that stands in a client's buffer.
pub record Received (message : DataRequested × Bytes) (c : Buffers) (w : Session) (at : Ptr)
    : Type 0 where
  pub copied : (i : ℕ) → i < message.0.totbytes → w.mem (at + i) ≡ message.1 (c.buffer + i)
  pub bytes : AreBytes w.mem

-- the key of a request that a worker has read, with its length
abbrev pub read_key : Session → DataRequested → ℕ → CString
read_key w req len = record { address = req.key; bytes = skip req.key w.mem; len = len }

-- The request that a worker has read is the one that the client meant.
pub record Reads (c : Buffers) (w : Session) (req : DataRequested) (value : Ptr) (nbytes op : ℕ)
    : Type 0 where
  pub same_op : req.op ≡ op
  pub same_nbytes : req.nbytes ≡ nbytes
  pub some_key : req.key ≢ null
  pub same_key : SameString (key_of c) (read_key w req c.keylen)
  pub ends : (fuel : ℕ) → c.keylen < fuel → strlen fuel (skip req.key w.mem) ≡ some c.keylen
  pub same_value : (i : ℕ) → i < nbytes → w.mem (req.value + i) ≡ c.mem (value + i)

read_request-some_key :
    (mem : Bytes) (totbytes : ℕ) (at : Ptr)
    → 0 < (read_request mem totbytes at).nkey
    → (read_request mem totbytes at).key ≢ null
unfolding read_request
read_request-some_key mem totbytes at h = ground arith

-- It is so for a request with the client's key that the worker has received.
write_request-Reads :
    (padding : Bytes) (c : Buffers) (value : Ptr) (nbytes op : ℕ)
    → HasKey c
    → nbytes ≤ c.valuelen
    → Apart value nbytes c.buffer (25 + c.keylen + nbytes)
    → op < 2 ^ 32
    → nbytes < 2 ^ 64
    → (w : Session) (at : Ptr)
    → let message = write_request padding c.mem c.buffer c.key c.keylen value nbytes op in
      Received message c w at → Reads c w (read_request w.mem message.0.totbytes at) value nbytes op
write_request-Reads padding c value nbytes op has_key fewer value_apart ok_op ok_nbytes w at
      received =
    let key_apart : Apart c.key c.keylen c.buffer (25 + c.keylen + nbytes) =
      elim has_key.key_apart [ inl h ↦ inl h | inr h ↦ inr (omega arith) ] in
    let (op_read, nkey_read, nbytes_read, key, end, bytes_read) =
      read-write_request padding c.mem c.buffer c.key c.keylen value nbytes op key_apart value_apart
        w.mem at received.copied ok_op has_key.short ok_nbytes (inl has_key.some_key) in
    record {
      same_op = op_read;
      same_nbytes = nbytes_read;
      some_key = read_request-some_key w.mem _ at (omega (arith, nkey_read, has_key.some_key));
      same_key = (refl, λ i. received.bytes _, key);
      ends = λ fuel enough.
          strlen_lem c.keylen fuel _ enough (λ i h e. has_key.chars i h (sym (key i h) ∙ e))
            (end has_key.some_key);
      same_value = bytes_read;
    }

-- It is so for the request of the first client, and for that of any other.
pub set_request-Reads :
    (padding : Bytes) (c : Buffers)
    → HasKey c
    → c.valuelen < 2 ^ 64
    → (w : Session) (at : Ptr) → Received (worker_request padding 0 c) c w at
    → Reads c w
        (read_request w.mem (worker_request padding 0 c).0.totbytes at)
        c.value
        c.valuelen
        code_op_set_key_value
unfolding worker_request
set_request-Reads padding c has_key short w at received =
    write_request-Reads padding c c.value c.valuelen code_op_set_key_value has_key (omega arith)
      has_key.value_apart (omega arith) short w at received

pub get_request-Reads :
    (padding : Bytes) (nsocket : ℕ) (c : Buffers)
    → nsocket ≢ 0
    → HasKey c
    → (w : Session) (at : Ptr) → Received (worker_request padding nsocket c) c w at
    → Reads c w
        (read_request w.mem (worker_request padding nsocket c).0.totbytes at)
        null
        0
        code_op_get_value_by_key
unfolding worker_request
get_request-Reads padding nsocket c other has_key w at received =
    let asked : (nsocket == 0) ≡ false = ground arith in
    let received' = rw asked at received in
    rw asked (
      write_request-Reads padding c null 0 code_op_get_value_by_key has_key (omega arith)
        (inl (omega arith)) (omega arith) (omega arith) w at received')
