-- ===== src/Server.antt =====
-- client-server/zmqserver.cpp: what a worker does with a message. Memory is the byte at each address;
-- the sockets are outside, so a message is given as it stands in memory after recv, and the answer is
-- the bytes that are handed to send. The worker tests a variable `success` that nothing declares: it
-- is a parameter.
pub mod Get
pub mod Set
use memcached4chaos.Base.{
  ℕ, zero, suc, ◌+◌, ◌-◌, ◌%◌, ◌^◌, Bool, true, false, leb, ltb, ◌&&◌, ◌==◌, if◌then◌else◌, Option,
  none, some, List, [], ◌∷◌,
}
use memcached4chaos.System.{sign_extend, Ptr, null, Env, copy_in}
use memcached4chaos.Hash.Mem.{Bytes, skip}
use memcached4chaos.Lru.Monad.{LruLists, Cmd, pure, ◌>>=◌}
use memcached4chaos.Lru.Items.{CString}
use memcached4chaos.DataCache
use memcached4chaos.Messages.{
  DataRequested, DataReplied, read_request, write_reply, code_op_shut_down, code_op_set_key_value,
  code_op_get_value_by_key, code_op_delete_by_key,
}

-- strlen; `none`: no null byte within the fuel
unfoldable pub strlen : ℕ → Bytes → Option ℕ
strlen zero k = none
strlen (suc fuel) k =
    let rest : Option ℕ = elim (strlen fuel (skip 1 k)) [ none ↦ none | some n ↦ some (n + 1) ] in
    if k 0 == 0 then some 0 else rest

-- The worker's variables that outlive a turn, and where its two buffers stand.
pub record Session : Type 0 where
  pub pcachebuffer : Ptr
  pub preplybuffer : Ptr
  pub mem : Bytes
  pub byte_used : ℕ
  pub num_req : ℕ
  pub closeall : Bool

-- rep = new datareplied(preplybuffer, …), and the size of the answer
unfoldable pub reply :
    (padding : Bytes) → Session → (value : Ptr) → (nbytes op : ℕ) → Bool → Session × ℕ
reply padding w value nbytes op valret =
    let (rep, mem) = write_reply padding w.mem w.preplybuffer value nbytes op valret in
    (record w { mem = mem; num_req = (w.num_req + 1) % 2 ^ 64 }, rep.totbytes)

module _ (fuel : ℕ) ⦃env : Env⦄ (padding : Bytes) (success : ℕ) where
  -- the key of a request, as DataCache sees it; `none`: also for a request without one, since
  -- strlen(NULL) is not defined
  unfoldable pub request_key : Bytes → DataRequested → Cmd CString
  request_key mem req s = if req.key == null then none else elim (strlen fuel (skip req.key mem)) [
    | none ↦ none
    | some n ↦ some (record { address = req.key; bytes = skip req.key mem; len = n }, s)
  ]

  -- CODE_OP_GET_VALUE_BY_KEY
  unfoldable pub serve_get : Session → DataRequested → Cmd (Session × ℕ)
  serve_get w req = do
    key ← request_key w.mem req
    got ← DataCache.get_item fuel key w.byte_used (skip w.pcachebuffer w.mem)
    let (_, byte_used, buffer) = got
    let w = record w {
      byte_used = byte_used;
      mem = λ a. if leb w.pcachebuffer a then buffer (a - w.pcachebuffer) else w.mem a;
    }
    pure (
        reply padding w w.pcachebuffer (sign_extend byte_used) code_op_get_value_by_key
          (success == 0))

  -- CODE_OP_SET_KEY_VALUE
  unfoldable pub serve_set : Session → DataRequested → Cmd (Session × ℕ)
  serve_set w req = do
    key ← request_key w.mem req
    _ ← DataCache.store_item fuel key (skip req.value w.mem) (req.nbytes % 2 ^ 32)
    pure (reply padding w null 0 code_op_set_key_value (success == 0))

  -- CODE_OP_DELETE_BY_KEY
  unfoldable pub serve_delete : Session → DataRequested → Cmd (Session × ℕ)
  serve_delete w req = do
    key ← request_key w.mem req
    _ ← DataCache.delete_item fuel key
    pure (reply padding w null 0 code_op_delete_by_key (success == 0))

  -- One turn: a message of `totbytes` bytes at `at`, and the size of the answer at preplybuffer.
  -- `none`: also where the operation has none of the four codes, and rep is NULL or deleted.
  unfoldable pub worker_turn : (totbytes : ℕ) → Ptr → Session → Cmd (Session × ℕ)
  worker_turn totbytes at w =
      let req = read_request w.mem totbytes at in
      if req.op == code_op_get_value_by_key
      then serve_get w req
      else if req.op == code_op_set_key_value
      then serve_set w req
      else if req.op == code_op_delete_by_key
      then serve_delete w req
      else if req.op == code_op_shut_down
      then pure (reply padding (record w { closeall = true }) null 0 code_op_shut_down true)
      else (λ s. none)
