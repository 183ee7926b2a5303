-- ===== src/Client/RoundTrip.antt =====
-- The first client stores its value, and another asks for it.
use memcached4chaos.Base.{ℕ, ◌+◌, ◌%◌, ◌^◌, ◌<◌, ◌≡◌, ◌≢◌, sym, ◌∙◌, arith, List, some, ◌==◌}
use memcached4chaos.System.{sign_extend, Ptr, null, Env}
use memcached4chaos.Hash.Mem.{Bytes, AreBytes, skip}
use memcached4chaos.Hash.Little.Agree.{hash_congr}
use memcached4chaos.Assoc.Find.{Chains}
use memcached4chaos.Lru.Monad.{LruLists}
use memcached4chaos.Lru.Items.{CString}
use memcached4chaos.Lru.Calls
use memcached4chaos.Lru.State.{IsCache}
use memcached4chaos.Lru.Alloc.{class_of, HasChunk}
use memcached4chaos.DataCache.Written.{SameString}
use memcached4chaos.DataCache.RoundTrip.{MayRequest, HasRoom, get_item-store_item}
use memcached4chaos.Messages.{read_request, code_op_get_value_by_key, code_op_set_key_value}
use memcached4chaos.Messages.Numbers.{Apart}
use memcached4chaos.Server.{Session, reply, worker_turn}
use memcached4chaos.Server.Get.{Answers, after_get, get-run, reply-Answers}
use memcached4chaos.Server.Set.{set-run, reply-Answers_empty}
use memcached4chaos.Client.{Buffers, worker_request}
use memcached4chaos.Client.Sent.{
  HasKey, Received, key_of, read_key, set_request-Reads, get_request-Reads,
}

-- Room under a key is room under another copy of it.
HasRoom-same :
    (fuel : ℕ) (s : LruLists) (chains : Chains) (key key' : CString)
    → AreBytes key.bytes
    → SameString key key'
    → HasRoom fuel s chains key
    → HasRoom fuel s chains key'
unfolding Calls.key_hash
HasRoom-same fuel s chains key key' bytes (size, bytes', same) room =
    let hashes : Calls.key_hash key' ≡ Calls.key_hash key =
      rw size
        (hash_congr key'.address key.address key'.bytes key.bytes key.len 0 bytes' bytes same) in
    record {
      sizes = λ x i e. room.sizes x i (e ∙ hashes) ∙ sym size;
      counts = room.counts;
      enough = rw hashes room.enough;
    }

module _ (fuel : ℕ) ⦃env : Env⦄ (padding : Bytes) (success : ℕ) where
  -- The first client's request to store its value comes to a worker whose cache is sound and has
  -- room for it; then the request of another client with the same key comes to a worker. Both turns
  -- succeed, each client reads whether `success` was 0, and the second one reads the value.
  pub worker_turn-worker_request :
      (padding' : Bytes) (setter : Buffers) (w : Session) (at : Ptr)
      → HasKey setter
      → setter.keylen < fuel
      → Received (worker_request padding' 0 setter) setter w at
      → (padding'' : Bytes) (nsocket : ℕ) (asker : Buffers) (v : Session) (at' : Ptr) → nsocket ≢ 0
      → HasKey asker
      → SameString (key_of setter) (key_of asker)
      → Received (worker_request padding'' nsocket asker) asker v at'
      → v.pcachebuffer ≢ null
      → Apart v.pcachebuffer setter.valuelen v.preplybuffer (16 + setter.valuelen)
      → (s : LruLists) (chains : Chains) (queue : ℕ → List Ptr) (it : Ptr) (rest : List Ptr)
      → IsCache s chains queue
      → HasChunk s chains (class_of s (key_of setter) setter.valuelen) it rest
      → MayRequest s (key_of setter) setter.valuelen (skip setter.value setter.mem) it
      → HasRoom fuel s chains (key_of setter)
      → (s' : LruLists) × (s'' : LruLists) × (w' : Session) × (size : ℕ) × (v' : Session)
        × (size' : ℕ) × (worker_turn fuel padding success
              (worker_request padding' 0 setter).0.totbytes
              at
              w
              s
            ≡ some ((w', size), s'))
        × Answers w' size code_op_set_key_value 0 (success == 0) (skip setter.value setter.mem)
        × (worker_turn fuel padding success
              (worker_request padding'' nsocket asker).0.totbytes
              at'
              v
              s'
            ≡ some ((v', size'), s''))
        × Answers v' size' code_op_get_value_by_key setter.valuelen
            (success == 0)
            (skip setter.value setter.mem)
  worker_turn-worker_request padding' setter w at has_key enough received padding'' nsocket asker v
        at' other has_key' same received' some_buffer apart s chains queue it rest cache chunk may
        room =
      let totbytes = (worker_request padding' 0 setter).0.totbytes in
      let req = read_request w.mem totbytes at in
      let reads =
        set_request-Reads padding' setter has_key (omega (arith, may.size_int)) w at received in
      let totbytes' = (worker_request padding'' nsocket asker).0.totbytes in
      let req' = read_request v.mem totbytes' at' in
      let reads' = get_request-Reads padding'' nsocket asker other has_key' v at' received' in
      let key = read_key w req setter.keylen in
      let key' = read_key v req' asker.keylen in
      let may' : MayRequest s key setter.valuelen (skip req.value w.mem) it = record {
        short = may.short;
        size_small = may.size_small;
        size_int = may.size_int;
        key_bytes = λ i. received.bytes _;
        value_bytes = λ i. received.bytes _;
        chunk_bytes = may.chunk_bytes;
      } in
      let room' =
        HasRoom-same fuel s chains (key_of setter) key may.key_bytes reads.same_key room in
      let keys : SameString key key' = (
        same.0,
        λ i. received'.bytes _,
        λ j h.
            reads'.same_key.2 j (omega (arith, same.0)) ∙ same.2 j h ∙ sym (reads.same_key.2 j h),
      ) in
      let (s', s'', buffer, stored, got, value) =
        get_item-store_item fuel key key' (skip req.value w.mem) (skip v.pcachebuffer v.mem)
          setter.valuelen v.byte_used s chains queue it rest cache chunk may' room' keys in
      let whole : req.nbytes % 2 ^ 32 ≡ setter.valuelen =
        omega (arith, reads.same_nbytes, may.size_int) in
      let (w', size) = reply padding w null 0 code_op_set_key_value (success == 0) in
      let (v', size') =
        reply padding (after_get v setter.valuelen buffer) v.pcachebuffer
          (sign_extend setter.valuelen) code_op_get_value_by_key (success == 0) in
      (
        s',
        s'',
        w',
        size,
        v',
        size',
        set-run fuel padding success totbytes at w setter.keylen reads.same_op reads.some_key
            (reads.ends fuel enough) s s' 0 (rw whole stored),
        reply-Answers_empty padding w code_op_set_key_value (success == 0)
            (skip setter.value setter.mem) (omega arith),
        get-run fuel padding success totbytes' at' v asker.keylen reads'.same_op reads'.some_key
            (reads'.ends fuel (omega (arith, same.0))) some_buffer s' s'' 0 setter.valuelen buffer
            got,
        reply-Answers padding v setter.valuelen code_op_get_value_by_key (success == 0) buffer
            (skip setter.value setter.mem) some_buffer may.size_int (omega arith) apart
            (λ i h. value i h ∙ reads.same_value i h),
      )
