-- ===== src/Client/Stop.antt =====
-- What the request of zmqClient::stop does to the worker that receives it.
use memcached4chaos.Base.{ℕ, ◌+◌, ◌<◌, ◌≡◌, refl, arith, true, inl, inr, some}
use memcached4chaos.System.{Ptr, null, Env}
use memcached4chaos.Hash.Mem.{Bytes}
use memcached4chaos.Lru.Monad.{LruLists}
use memcached4chaos.Messages.{code_op_shut_down}
use memcached4chaos.Messages.Request.{read-write_request}
use memcached4chaos.Server.{Session, reply, worker_turn}
use memcached4chaos.Server.Get.{Answers}
use memcached4chaos.Server.Set.{reply-Answers_empty}
use memcached4chaos.Client.{terminator}

-- A worker that receives a copy of the request of stop leaves its loop after this turn, does not
-- touch the cache, and its answer says that it succeeded.
pub terminator-ends :
    (fuel : ℕ) ⦃env : Env⦄ (padding : Bytes) (success : ℕ) (padding' mem : Bytes) (buffer : Ptr)
    (w : Session) (at : Ptr)
    → let (message, sent) = terminator padding' mem buffer in
      ((i : ℕ) → i < message.totbytes → w.mem (at + i) ≡ sent (buffer + i))
      → (s : LruLists)
      → (w' : Session) × (size : ℕ) × (worker_turn fuel padding success message.totbytes at w s
          ≡ some ((w', size), s))
        × (w'.closeall ≡ true)
        × Answers w' size code_op_shut_down 0 true mem
unfolding terminator worker_turn reply
terminator-ends fuel padding success padding' mem buffer w at copied s =
    let (op, _, _, _, _, _) =
      read-write_request padding' mem buffer null 0 null 0 code_op_shut_down (inl (omega arith))
        (inl (omega arith)) w.mem at copied (omega arith) (omega arith) (omega arith) (inr refl) in
    let closing : Session = record w { closeall = true } in
    let (w', size) = reply padding closing null 0 code_op_shut_down true in
    (
      w',
      size,
      rw op refl,
      refl,
      reply-Answers_empty padding closing code_op_shut_down true mem (omega arith),
    )
