-- ===== src/Client/Ask.antt =====
-- A client's request for a value, from its buffer to the answer that it reads.
use memcached4chaos.Base.{ℕ, ◌+◌, ◌^◌, ◌<◌, ◌≡◌, ◌≢◌, ◌∙◌, arith, List, length, some, ◌==◌}
use memcached4chaos.System.{Ptr, null, Env}
use memcached4chaos.Hash.Mem.{Bytes, skip}
use memcached4chaos.Assoc.{home}
use memcached4chaos.Assoc.Find.{Chains, Stored}
use memcached4chaos.Lru.Monad.{LruLists}
use memcached4chaos.Lru.State.{IsCache}
use memcached4chaos.DataCache.Lookup.{IsKeyOf}
use memcached4chaos.Messages.{read_request, code_op_get_value_by_key}
use memcached4chaos.Messages.Numbers.{Apart}
use memcached4chaos.Server.{Session, worker_turn}
use memcached4chaos.Server.Get.{Answers, worker_turn-Answers}
use memcached4chaos.Client.{Buffers, worker_request}
use memcached4chaos.Client.Sent.{HasKey, Received, key_of, read_key, get_request-Reads}

-- A client other than the first asks for the value of its key, and a worker receives a copy of the
-- request: under the key of an item of a sound cache, whose value fits into the worker's two buffers
-- apart from each other, the answer is the item's value, and the cache stays sound.
pub worker_request-Answers :
    (fuel : ℕ) ⦃env : Env⦄ (padding : Bytes) (success : ℕ) (padding' : Bytes) (nsocket : ℕ)
    (c : Buffers)
    → nsocket ≢ 0
    → HasKey c
    → c.keylen < fuel
    → (w : Session) (at : Ptr) → Received (worker_request padding' nsocket c) c w at
    → w.pcachebuffer ≢ null
    → (s : LruLists) (chains : Chains) (queue : ℕ → List Ptr) (it : Ptr) → IsCache s chains queue
    → Stored s.assoc chains it
    → length (chains (home s.assoc (s.slabs.heap it).hv)) < fuel
    → IsKeyOf (key_of c) it (s.slabs.heap it)
    → (s.slabs.heap it).nbytes < 2 ^ 31
    → Apart w.pcachebuffer (s.slabs.heap it).nbytes w.preplybuffer (16 + (s.slabs.heap it).nbytes)
    → (s' : LruLists) × (queue' : ℕ → List Ptr) × (w' : Session) × (size : ℕ) × (worker_turn fuel
          padding success
          (worker_request padding' nsocket c).0.totbytes
          at
          w
          s
        ≡ some ((w', size), s'))
      × IsCache s' chains queue'
      × Answers w' size code_op_get_value_by_key
          (s.slabs.heap it).nbytes
          (success == 0)
          (skip (s.slabs.heap it).nkey (s.slabs.heap it).body)
worker_request-Answers fuel padding success padding' nsocket c other has_key enough w at received
      some_buffer s chains queue it cache stored enough' o small apart =
    let totbytes = (worker_request padding' nsocket c).0.totbytes in
    let req = read_request w.mem totbytes at in
    let reads = get_request-Reads padding' nsocket c other has_key w at received in
    let (_, bytes, same) = reads.same_key in
    let is_key : IsKeyOf (read_key w req c.keylen) it (s.slabs.heap it) = record {
      hashed = o.hashed;
      body_bytes = o.body_bytes;
      key_bytes = bytes;
      size = o.size;
      same = λ j h. same j (omega (arith, o.size)) ∙ o.same j h;
    } in
    worker_turn-Answers fuel padding success totbytes at w c.keylen reads.same_op reads.some_key
      (reads.ends fuel enough) some_buffer s chains queue it cache stored enough' is_key small apart
