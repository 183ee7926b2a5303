-- ===== src/Server/Set.antt =====
-- A request to store a value, and the answers that have none.
use memcached4chaos.Base.{
  false, ◌≢◌, ℕ, ◌%◌, ◌^◌, ◌<◌, ◌≡◌, refl, arith, Bool, inl, inr, some, ◌==◌,
}
use memcached4chaos.System.{Ptr, null, Env}
use memcached4chaos.Hash.Mem.{Bytes, skip}
use memcached4chaos.Lru.Monad.{LruLists, ◌>>=◌}
use memcached4chaos.Lru.Items.{CString}
use memcached4chaos.DataCache.{store_item}
use memcached4chaos.Messages.{read_request, code_op_set_key_value}
use memcached4chaos.Messages.Reply.{read-write_reply}
use memcached4chaos.Server.{Session, reply, strlen, request_key, serve_set, worker_turn}
use memcached4chaos.Server.Get.{Answers}

-- The client reads the operation and its result.
pub reply-Answers_empty :
    (padding : Bytes) (w : Session) (op : ℕ) (valret : Bool) (value : Bytes)
    → op < 2 ^ 32
    → let (w', size) = reply padding w null 0 op valret in Answers w' size op 0 valret value
unfolding reply
reply-Answers_empty padding w op valret value ok_op received to copied =
    let (e_op, e_valret, e_nbytes, _) =
      read-write_reply padding w.mem w.preplybuffer null 0 op valret (inr refl) (inl (omega arith))
        received to copied ok_op (omega arith) in
    (e_op, e_valret, e_nbytes, λ i h. absurd (omega arith))

module _ (fuel : ℕ) ⦃env : Env⦄ (padding : Bytes) (success totbytes : ℕ) (at : Ptr) (w : Session)
    (len : ℕ) (is_set : (read_request w.mem totbytes at).op ≡ code_op_set_key_value)
    (some_key : (read_request w.mem totbytes at).key ≢ null)
    (ends : strlen fuel (skip (read_request w.mem totbytes at).key w.mem) ≡ some len) where
  -- The turn is storeItem and the answer.
  pub set-run :
      (s s' : LruLists) (ret : ℕ)
      → let req = read_request w.mem totbytes at in
        let key : CString = record { address = req.key; bytes = skip req.key w.mem; len = len } in
        store_item fuel key (skip req.value w.mem) (req.nbytes % 2 ^ 32) s ≡ some (ret, s')
        → worker_turn fuel padding success totbytes at w s
          ≡ some (reply padding w null 0 code_op_set_key_value (success == 0), s')
  unfolding worker_turn serve_set request_key
  set-run s s' ret stored =
      let keyed : ((read_request w.mem totbytes at).key == null) ≡ false = ground arith in
      rw (worker_turn, serve_set, request_key, ◌>>=◌, is_set, keyed, ends, stored) refl
