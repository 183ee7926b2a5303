-- ===== src/Server/Get.antt =====
-- A request for a value: what the worker answers, and what the client reads.
use memcached4chaos.Base.{
  false, ℕ, ◌+◌, ◌-◌, ◌^◌, ◌<◌, ◌≡◌, ◌≢◌, ◌∙◌, refl, arith, Bool, true, leb, inl, List, length,
  some, ◌==◌, if◌then◌else◌,
}
use memcached4chaos.System.{sign_extend, Ptr, null, Env, copy_in}
use memcached4chaos.Hash.Mem.{Bytes, skip}
use memcached4chaos.Assoc.{home}
use memcached4chaos.Assoc.Find.{Chains, Stored}
use memcached4chaos.Lru.Monad.{LruLists, ◌>>=◌}
use memcached4chaos.Lru.Items.{CString}
use memcached4chaos.Lru.State.{IsCache}
use memcached4chaos.DataCache.{get_item}
use memcached4chaos.DataCache.Results.{Finds, get_item-absent}
use memcached4chaos.DataCache.Lookup.{IsKeyOf, get_item-stored}
use memcached4chaos.Messages.{read_request, read_reply, code_op_get_value_by_key}
use memcached4chaos.Messages.Numbers.{Apart}
use memcached4chaos.Messages.Reply.{read-write_reply}
use memcached4chaos.Server.{Session, reply, strlen, request_key, serve_get, worker_turn}

-- The client has a copy of the answer, and reads a value in it: `nbytes` bytes, those of `value`.
abbrev pub Answers : Session → (size op nbytes : ℕ) → Bool → Bytes → Type 0
Answers w size op nbytes valret value =
    (received : Bytes) (to : Ptr)
    → ((i : ℕ) → i < size → received (to + i) ≡ w.mem (w.preplybuffer + i))
    → let r = read_reply received size to in
      (r.op ≡ op)
      × (r.valret ≡ valret)
      × (r.nbytes ≡ nbytes)
      × ((i : ℕ) → i < nbytes → received (r.value + i) ≡ value i)

-- A worker's session in which getItem has left `n` and `buffer`.
abbrev pub after_get : Session → ℕ → Bytes → Session
after_get w n buffer = record w {
  byte_used = n;
  mem = λ a. if leb w.pcachebuffer a then buffer (a - w.pcachebuffer) else w.mem a;
}

-- The client reads the value that getItem has left.
pub reply-Answers :
    (padding : Bytes) (w : Session) (n op : ℕ) (valret : Bool) (buffer value : Bytes)
    → w.pcachebuffer ≢ null
    → n < 2 ^ 31
    → op < 2 ^ 32
    → Apart w.pcachebuffer n w.preplybuffer (16 + n)
    → ((i : ℕ) → i < n → buffer i ≡ value i)
    → let (w', size) =
        reply padding (after_get w n buffer) w.pcachebuffer (sign_extend n) op valret in
      Answers w' size op n valret value
unfolding reply
reply-Answers padding w n op valret buffer value some_buffer small ok_op apart same received to
      copied =
    let whole : sign_extend n ≡ n = ground arith in
    let copied' = rw whole at copied in
    let (e_op, e_valret, e_nbytes, bytes) =
      read-write_reply padding (after_get w n buffer).mem w.preplybuffer w.pcachebuffer n op valret
        (inl some_buffer) apart received to copied' ok_op (omega arith) in
    rw whole (e_op, e_valret, e_nbytes, λ i h. bytes i h ∙ ground (arith, same i h))

module _ (fuel : ℕ) ⦃env : Env⦄ (padding : Bytes) (success totbytes : ℕ) (at : Ptr) (w : Session)
    (len : ℕ) (is_get : (read_request w.mem totbytes at).op ≡ code_op_get_value_by_key)
    (some_key : (read_request w.mem totbytes at).key ≢ null)
    (ends : strlen fuel (skip (read_request w.mem totbytes at).key w.mem) ≡ some len)
    (some_buffer : w.pcachebuffer ≢ null) where
  -- the key of the request
  abbrev pub key : CString
  key = record {
    address = (read_request w.mem totbytes at).key;
    bytes = skip (read_request w.mem totbytes at).key w.mem;
    len = len;
  }

  -- The turn is getItem and the answer.
  pub get-run :
      (s s' : LruLists) (ret n : ℕ) (buffer : Bytes)
      → get_item fuel key w.byte_used (skip w.pcachebuffer w.mem) s ≡ some ((ret, n, buffer), s')
      → worker_turn fuel padding success totbytes at w s
        ≡ some (
          reply padding
              (after_get w n buffer)
              w.pcachebuffer
              (sign_extend n)
              code_op_get_value_by_key
              (success == 0),
          s',
        )
  unfolding worker_turn serve_get request_key
  get-run s s' ret n buffer got =
      let asked : ((read_request w.mem totbytes at).op == code_op_get_value_by_key) ≡ true =
        ground arith in
      let keyed : ((read_request w.mem totbytes at).key == null) ≡ false = ground arith in
      rw (worker_turn, serve_get, request_key, ◌>>=◌, asked, keyed, ends, got) refl

  -- Under the key of an item of the cache the worker answers with the item's value, and the cache
  -- is kept.
  pub worker_turn-Answers :
      (s : LruLists) (chains : Chains) (queue : ℕ → List Ptr) (it : Ptr)
      → IsCache s chains queue
      → Stored s.assoc chains it
      → length (chains (home s.assoc (s.slabs.heap it).hv)) < fuel
      → IsKeyOf key it (s.slabs.heap it)
      → (s.slabs.heap it).nbytes < 2 ^ 31
      → Apart w.pcachebuffer (s.slabs.heap it).nbytes w.preplybuffer (16 + (s.slabs.heap it).nbytes)
      → (s' : LruLists) × (queue' : ℕ → List Ptr) × (w' : Session) × (size : ℕ) × (worker_turn fuel
            padding success totbytes at w s
          ≡ some ((w', size), s'))
        × IsCache s' chains queue'
        × Answers w' size code_op_get_value_by_key
            (s.slabs.heap it).nbytes
            (success == 0)
            (skip (s.slabs.heap it).nkey (s.slabs.heap it).body)
  worker_turn-Answers s chains queue it k i enough o small apart =
      let j = s.slabs.heap it in
      let (s', queue', got, cache, _, _, _) =
        get_item-stored fuel s chains queue k it i enough key w.byte_used
          (skip w.pcachebuffer w.mem) o in
      let buffer = copy_in 0 j.nbytes (skip j.nkey j.body) (skip w.pcachebuffer w.mem) in
      let (w', size) =
        reply padding (after_get w j.nbytes buffer) w.pcachebuffer (sign_extend j.nbytes)
          code_op_get_value_by_key (success == 0) in
      (
        s',
        queue',
        w',
        size,
        get-run s s' 0 j.nbytes buffer got,
        cache,
        reply-Answers padding w j.nbytes code_op_get_value_by_key (success == 0) buffer
            (skip j.nkey j.body) some_buffer small (omega arith) apart (λ i h. ground arith),
      )

  -- A request with a key that the cache does not have is answered with what the worker's buffer holds
  -- from an earlier request, as many bytes as that one had.
  pub worker_turn-stale :
      (s : LruLists)
      → Finds fuel s key null
      → w.byte_used < 2 ^ 31
      → Apart w.pcachebuffer w.byte_used w.preplybuffer (16 + w.byte_used)
      → (w' : Session) × (size : ℕ) × (worker_turn fuel padding success totbytes at w s
          ≡ some ((w', size), s))
        × Answers w' size code_op_get_value_by_key w.byte_used
            (success == 0)
            (skip w.pcachebuffer w.mem)
  worker_turn-stale s missing small apart =
      let buffer = skip w.pcachebuffer w.mem in
      let (w', size) =
        reply padding (after_get w w.byte_used buffer) w.pcachebuffer (sign_extend w.byte_used)
          code_op_get_value_by_key (success == 0) in
      (
        w',
        size,
        get-run s s _ w.byte_used buffer (get_item-absent fuel key w.byte_used buffer s missing),
        reply-Answers padding w w.byte_used code_op_get_value_by_key (success == 0) buffer buffer
            some_buffer small (omega arith) apart (λ i h. refl),
      )
