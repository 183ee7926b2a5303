-- ===== src/Messages.antt =====
-- client-server/reqrep.hpp: requests and replies, built in a buffer and read from one. Memory is
-- the byte at each address; the buffers, the key and the data stand in it.
pub mod Numbers
pub mod Request
pub mod Reply
use memcached4chaos.Base.{
  ℕ, ◌+◌, ◌-◌, ◌*◌, ◌/◌, ◌%◌, ◌^◌, Bool, not, ◌&&◌, ltb, ◌==◌, if◌then◌else◌,
}
use memcached4chaos.System.{Ptr, null, update, copy_in}
use memcached4chaos.Hash.Mem.{Bytes, skip, word}

-- opt_t
abbrev pub code_op_shut_down : ℕ
code_op_shut_down = 0

abbrev pub code_op_set_key_value : ℕ
code_op_set_key_value = 1

abbrev pub code_op_get_value_by_key : ℕ
code_op_get_value_by_key = 2

abbrev pub code_op_delete_by_key : ℕ
code_op_delete_by_key = 3

-- the i-th byte of a number in memory, and the size_t that stands at byte i
abbrev pub byte_of : ℕ → ℕ → ℕ
byte_of n i = n / 2 ^ (8 * i) % 256

unfoldable pub size_at : Bytes → ℕ → ℕ
size_at k i = word (skip i k) 0 + word (skip i k) 1 * 2 ^ 32

-- class datarequested, with its header's three fields
pub record DataRequested : Type 0 where
  pub op : ℕ
  pub nkey : ℕ
  pub nbytes : ℕ
  pub totbytes : ℕ
  pub serialized : Ptr
  pub key : Ptr
  pub value : Ptr

-- sizeof(struct req_header): op, 4 bytes of padding, nkey, nbytes
abbrev pub sizeof_req_header : ℕ
sizeof_req_header = 24

unfoldable pub req_header : (padding : Bytes) → (op nkey nbytes : ℕ) → Bytes
req_header padding op nkey nbytes i =
    if ltb i 4
    then byte_of op i
    else if ltb i 8
    then padding i
    else if ltb i 16
    then byte_of nkey (i - 8)
    else byte_of nbytes (i - 16)

-- datarequested(size_t totbytes, void *serialized)
unfoldable pub read_request : Bytes → (totbytes : ℕ) → Ptr → DataRequested
unfolding size_at
read_request mem totbytes serialized =
    let header = skip serialized mem in
    let nkey = size_at header 8 in
    let nbytes = size_at header 16 in
    let key = if ltb 0 nkey then serialized + sizeof_req_header else null in
    record {
      op = word header 0;
      nkey = nkey;
      nbytes = nbytes;
      totbytes = totbytes;
      serialized = serialized;
      key = key;
      value = if ltb 0 nbytes then key + nkey + 1 else null;
    }

-- datarequested(void *dest, char *key, size_t nkey, void *data, size_t nbytes, opt_t op), and what
-- it leaves in memory; `padding` is what the padding of the header holds
unfoldable pub write_request :
    (padding mem : Bytes) (dest key : Ptr) (nkey : ℕ) (value : Ptr) (nbytes op : ℕ)
    → DataRequested × Bytes
write_request padding mem dest key nkey value nbytes op =
    let offset = sizeof_req_header in
    let mem = copy_in dest offset (req_header padding op nkey nbytes) mem in
    let mem = if ltb 0 nkey then copy_in (dest + offset) nkey (skip key mem) mem else mem in
    let key = if ltb 0 nkey then dest + offset else null in
    let offset = if ltb 0 nkey then offset + nkey else offset in
    let mem = update mem (dest + offset) 0 in
    let offset = offset + 1 in
    let mem = if ltb 0 nbytes then copy_in (dest + offset) nbytes (skip value mem) mem else mem in
    (
      record {
        op = op;
        nkey = nkey;
        nbytes = nbytes;
        totbytes = offset + nbytes;
        serialized = dest;
        key = key;
        value = if ltb 0 nbytes then dest + offset else null;
      },
      mem,
    )

-- class datareplied, with its header's three fields
pub record DataReplied : Type 0 where
  pub op : ℕ
  pub valret : Bool
  pub nbytes : ℕ
  pub totbytes : ℕ
  pub serialized : Ptr
  pub value : Ptr

-- sizeof(struct rep_header): op, valret, 3 bytes of padding, nbytes
abbrev pub sizeof_rep_header : ℕ
sizeof_rep_header = 16

unfoldable pub rep_header : (padding : Bytes) → (op : ℕ) → (valret : Bool) → (nbytes : ℕ) → Bytes
rep_header padding op valret nbytes i =
    if ltb i 4
    then byte_of op i
    else if i == 4
    then (if valret then 1 else 0)
    else if ltb i 8
    then padding i
    else byte_of nbytes (i - 8)

-- datareplied(size_t totbytes, void *serialized)
unfoldable pub read_reply : Bytes → (totbytes : ℕ) → Ptr → DataReplied
unfolding size_at
read_reply mem totbytes serialized =
    let header = skip serialized mem in
    let nbytes = size_at header 8 in
    record {
      op = word header 0;
      valret = not (header 4 == 0);
      nbytes = nbytes;
      totbytes = totbytes;
      serialized = serialized;
      value = if ltb 0 nbytes then serialized + sizeof_rep_header else null;
    }

-- datareplied(void *dest, void *data, size_t nbytes, opt_t op, bool valret)
unfoldable pub write_reply :
    (padding mem : Bytes) (dest value : Ptr) (nbytes op : ℕ) (valret : Bool) → DataReplied × Bytes
write_reply padding mem dest value nbytes op valret =
    let mem = copy_in dest sizeof_rep_header (rep_header padding op valret nbytes) mem in
    let held = ltb 0 nbytes && not (value == null) in
    (
      record {
        op = op;
        valret = valret;
        nbytes = nbytes;
        totbytes = sizeof_rep_header + nbytes;
        serialized = dest;
        value = if held then dest + sizeof_rep_header else null;
      },
      if held then copy_in (dest + sizeof_rep_header) nbytes (skip value mem) mem else mem,
    )
