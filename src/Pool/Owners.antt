-- ===== src/Pool/Owners.antt =====
-- Who has each slot: one of the two queues, one worker or one caller.
use memcached4chaos.Base.{
  ℕ, ◌≡◌, arith, true, false, ◌⊎◌, List, [], ◌∷◌, ◌++◌, Option, none, some, has, AreDistinct,
  has-append, AreDistinct-append,
}
use memcached4chaos.System.{update}
use memcached4chaos.Pool.{
  Worker, polling, testing, asleep, empty_handed, holding, ran, cleared, finished, Caller, outside,
  wanting, waiting, given, filled, awake, called,
}

pub data Owner : Type 0 where
  in_free : Owner
  in_tasks : Owner
  by_worker : ℕ → Owner
  by_caller : ℕ → Owner

abbrev pub worker_slot : Worker → Option ℕ
worker_slot polling = none
worker_slot testing = none
worker_slot asleep = none
worker_slot empty_handed = none
worker_slot (holding t) = some t
worker_slot (ran t) = some t
worker_slot (cleared t) = some t
worker_slot finished = none

abbrev pub caller_slot : Caller → Option ℕ
caller_slot outside = none
caller_slot (wanting j) = none
caller_slot (waiting j) = none
caller_slot (given t j) = some t
caller_slot (filled t j) = some t

-- Every slot that stands somewhere has its owner there.
pub record Owned (owner : ℕ → Owner) (free tasks : List ℕ) (workers : ℕ → Worker)
    (callers : ℕ → Caller) : Type 0 where
  pub free_owner : (t : ℕ) → has t free ≡ true → owner t ≡ in_free
  pub tasks_owner : (t : ℕ) → has t tasks ≡ true → owner t ≡ in_tasks
  pub free_distinct : AreDistinct free
  pub tasks_distinct : AreDistinct tasks
  pub worker_owner : (i t : ℕ) → worker_slot (workers i) ≡ some t → owner t ≡ by_worker i
  pub caller_owner : (i t : ℕ) → caller_slot (callers i) ≡ some t → owner t ≡ by_caller i

module _ (owner : ℕ → Owner) (free tasks : List ℕ) (workers : ℕ → Worker) (callers : ℕ → Caller)
    (o : Owned owner free tasks workers callers) where
  -- A worker or a caller that keeps its slot or has none changes no owner.
  pub keep_worker :
      (i : ℕ) (w : Worker)
      → (worker_slot w ≡ worker_slot (workers i)) ⊎ (worker_slot w ≡ none)
      → Owned owner free tasks (update workers i w) callers
  unfolding update
  keep_worker i w same = record {
    free_owner = o.free_owner;
    tasks_owner = o.tasks_owner;
    free_distinct = o.free_distinct;
    tasks_distinct = o.tasks_distinct;
    worker_owner = λ j t e. ground (arith, o.worker_owner j t);
    caller_owner = o.caller_owner;
  }

  pub keep_caller :
      (i : ℕ) (c : Caller)
      → (caller_slot c ≡ caller_slot (callers i)) ⊎ (caller_slot c ≡ none)
      → Owned owner free tasks workers (update callers i c)
  unfolding update
  keep_caller i c same = record {
    free_owner = o.free_owner;
    tasks_owner = o.tasks_owner;
    free_distinct = o.free_distinct;
    tasks_distinct = o.tasks_distinct;
    worker_owner = o.worker_owner;
    caller_owner = λ j t e. ground (arith, o.caller_owner j t);
  }

  pub awake-Owned : Owned owner free tasks (λ i. awake (workers i)) callers
  awake-Owned = record {
    free_owner = o.free_owner;
    tasks_owner = o.tasks_owner;
    free_distinct = o.free_distinct;
    tasks_distinct = o.tasks_distinct;
    worker_owner = λ j t e. o.worker_owner j t (ground arith);
    caller_owner = o.caller_owner;
  }

  pub called-Owned : Owned owner free tasks workers (λ i. called (callers i))
  called-Owned = record {
    free_owner = o.free_owner;
    tasks_owner = o.tasks_owner;
    free_distinct = o.free_distinct;
    tasks_distinct = o.tasks_distinct;
    worker_owner = o.worker_owner;
    caller_owner = λ j t e. o.caller_owner j t (ground arith);
  }

  -- The slot of a worker or a caller stands in no queue.
  pub worker_apart :
      (i t : ℕ) → worker_slot (workers i) ≡ some t → (has t free ≡ false) × (has t tasks ≡ false)
  worker_apart i t e = (
    ground (arith, o.worker_owner i t, o.free_owner t),
    ground (arith, o.worker_owner i t, o.tasks_owner t),
  )

  pub caller_apart :
      (i t : ℕ) → caller_slot (callers i) ≡ some t → (has t free ≡ false) × (has t tasks ≡ false)
  caller_apart i t e = (
    ground (arith, o.caller_owner i t, o.free_owner t),
    ground (arith, o.caller_owner i t, o.tasks_owner t),
  )

  -- A slot goes from a worker to free_tasks_queue, and from a caller to tasks_queue.
  pub release-Owned :
      (i slot : ℕ) (w : Worker)
      → worker_slot (workers i) ≡ some slot
      → worker_slot w ≡ none
      → Owned (update owner slot in_free) (free ++ slot ∷ []) tasks (update workers i w) callers
  unfolding update
  release-Owned i slot w had none_now = record {
    free_owner = λ t e. ground (arith, has-append t free (slot ∷ []), o.free_owner t);
    tasks_owner = λ t e. ground (arith, o.tasks_owner t, (worker_apart i slot had).1);
    free_distinct = AreDistinct-append free slot o.free_distinct (worker_apart i slot had).0;
    tasks_distinct = o.tasks_distinct;
    worker_owner = λ j t e. ground (arith, o.worker_owner j t, o.worker_owner i slot);
    caller_owner = λ j t e. ground (arith, o.caller_owner j t, o.worker_owner i slot);
  }

  pub push-Owned :
      (i slot : ℕ) (c : Caller)
      → caller_slot (callers i) ≡ some slot
      → caller_slot c ≡ none
      → Owned (update owner slot in_tasks) free (tasks ++ slot ∷ []) workers (update callers i c)
  unfolding update
  push-Owned i slot c had none_now = record {
    free_owner = λ t e. ground (arith, o.free_owner t, (caller_apart i slot had).0);
    tasks_owner = λ t e. ground (arith, has-append t tasks (slot ∷ []), o.tasks_owner t);
    free_distinct = o.free_distinct;
    tasks_distinct = AreDistinct-append tasks slot o.tasks_distinct (caller_apart i slot had).1;
    worker_owner = λ j t e. ground (arith, o.worker_owner j t, o.caller_owner i slot);
    caller_owner = λ j t e. ground (arith, o.caller_owner j t, o.caller_owner i slot);
  }

-- A slot goes from free_tasks_queue to a caller, and from tasks_queue to a worker.
pub take-Owned :
    (owner : ℕ → Owner) (slot : ℕ) (rest tasks : List ℕ) (workers : ℕ → Worker)
    (callers : ℕ → Caller) (i : ℕ) (c : Caller)
    → Owned owner (slot ∷ rest) tasks workers callers
    → caller_slot c ≡ some slot
    → Owned (update owner slot (by_caller i)) rest tasks workers (update callers i c)
unfolding update
take-Owned owner slot rest tasks workers callers i c o has_slot =
    let here : owner slot ≡ in_free = o.free_owner slot (ground arith) in
    record {
      free_owner = λ t e. ground (arith, o.free_owner t, o.free_distinct);
      tasks_owner = λ t e. ground (arith, o.tasks_owner t);
      free_distinct = o.free_distinct.1;
      tasks_distinct = o.tasks_distinct;
      worker_owner = λ j t e. ground (arith, o.worker_owner j t);
      caller_owner = λ j t e. ground (arith, o.caller_owner j t);
    }

pub get-Owned :
    (owner : ℕ → Owner) (slot : ℕ) (free rest : List ℕ) (workers : ℕ → Worker)
    (callers : ℕ → Caller) (i : ℕ) (w : Worker)
    → Owned owner free (slot ∷ rest) workers callers
    → worker_slot w ≡ some slot
    → Owned (update owner slot (by_worker i)) free rest (update workers i w) callers
unfolding update
get-Owned owner slot free rest workers callers i w o has_slot =
    let here : owner slot ≡ in_tasks = o.tasks_owner slot (ground arith) in
    record {
      free_owner = λ t e. ground (arith, o.free_owner t);
      tasks_owner = λ t e. ground (arith, o.tasks_owner t, o.tasks_distinct);
      free_distinct = o.free_distinct;
      tasks_distinct = o.tasks_distinct.1;
      worker_owner = λ j t e. ground (arith, o.worker_owner j t);
      caller_owner = λ j t e. ground (arith, o.caller_owner j t);
    }
