-- ===== src/Pool/Wakeups.antt =====
-- No wake-up is lost: nobody sleeps while there is something to do.
use memcached4chaos.Base.{
  ℕ, ◌≡◌, ◌≢◌, refl, arith, true, false, Bool-cases, inl, inr, List, [], ◌∷◌, ◌++◌, length, ◌==◌,
  if◌then◌else◌,
}
use memcached4chaos.System.{update}
use memcached4chaos.Pool.{
  Task, no_task, Pool, Worker, polling, testing, asleep, empty_handed, ran, cleared, finished,
  Caller, wanting, waiting, filled, wake_workers, take_slot, fill_slot, push_task, get_task_to_do,
  release_slot, new_pool, Step, call, take, fill, push, poll, test, quit, run, skip, clear, release,
  stir, stir_caller, stop, wake, Reach, start, next,
}

-- A worker sleeps only while no task is queued and the destructor has not woken it, a caller only
-- while no slot is free; an empty-handed worker, or one at its end,
-- has been told to stop.
pub record IsAwake (p : Pool) : Type 0 where
  pub worker_sleeps : (i : ℕ) → p.workers i ≡ asleep → p.tasks_queue ≡ []
  pub caller_waits : (i : ℕ) (t : Task) → p.callers i ≡ waiting t → p.free_tasks_queue ≡ []
  pub stopped : (i : ℕ) → p.workers i ≡ empty_handed → p.stop_flag ≡ true
  pub ended : (i : ℕ) → p.workers i ≡ finished → p.stop_flag ≡ true
  pub woken_stopped : p.woken ≡ true → p.stop_flag ≡ true
  pub woken : (i : ℕ) → p.woken ≡ true → p.workers i ≢ asleep

take_slot-IsAwake :
    (free : List ℕ) (i : ℕ) (t : Task) (p : Pool)
    → p.free_tasks_queue ≡ free
    → IsAwake p
    → IsAwake (take_slot free i t p)
unfolding take_slot update
take_slot-IsAwake [] i t p e a = record {
  worker_sleeps = a.worker_sleeps;
  caller_waits = λ j u w. e;
  stopped = a.stopped;
  ended = a.ended;
  woken_stopped = a.woken_stopped;
  woken = a.woken;
}
take_slot-IsAwake (slot ∷ rest) i t p e a = record {
  worker_sleeps = a.worker_sleeps;
  caller_waits = λ j u w. ground (arith, a.caller_waits j u);
  stopped = a.stopped;
  ended = a.ended;
  woken_stopped = a.woken_stopped;
  woken = a.woken;
}

get_task-IsAwake :
    (tasks : List ℕ) (i : ℕ) (p : Pool)
    → p.tasks_queue ≡ tasks
    → IsAwake p
    → IsAwake (get_task_to_do tasks i p)
unfolding get_task_to_do update
get_task-IsAwake [] i p e a = record {
  worker_sleeps = λ j s. e;
  caller_waits = a.caller_waits;
  stopped = λ j s. ground (arith, a.stopped j);
  ended = λ j s. ground (arith, a.ended j);
  woken_stopped = a.woken_stopped;
  woken = λ j w s. ground (arith, a.woken j, a.woken_stopped);
}
get_task-IsAwake (slot ∷ rest) i p e a = elim (Bool-cases p.stop_flag) [
  | inl f ↦ rw f (record {
    worker_sleeps = λ j s. ground (arith, a.worker_sleeps j);
    caller_waits = a.caller_waits;
    stopped = λ j s. refl;
    ended = λ j s. refl;
    woken_stopped = λ w. refl;
    woken = λ j w s. ground (arith, a.woken j);
  })
  | inr f ↦ rw f (record {
    worker_sleeps = λ j s. ground (arith, a.worker_sleeps j);
    caller_waits = a.caller_waits;
    stopped = λ j s. ground (arith, a.stopped j);
    ended = λ j s. ground (arith, a.ended j);
    woken_stopped = λ w. ground (arith, a.woken_stopped);
    woken = λ j w s. ground (arith, a.woken j);
  })
]

slots-IsAwake : (slots : ℕ → Task) (p : Pool) → IsAwake p → IsAwake (record p { slots = slots })
slots-IsAwake slots p a = record {
  worker_sleeps = a.worker_sleeps;
  caller_waits = a.caller_waits;
  stopped = a.stopped;
  ended = a.ended;
  woken_stopped = a.woken_stopped;
  woken = a.woken;
}

module _ (p : Pool) (a : IsAwake p) where
  -- A worker or a caller that is not put to sleep.
  worker-IsAwake :
      (i : ℕ) (w : Worker)
      → w ≢ asleep
      → (w ≡ empty_handed → p.stop_flag ≡ true)
      → (w ≡ finished → p.stop_flag ≡ true)
      → IsAwake (record p { workers = update p.workers i w })
  unfolding update
  worker-IsAwake i w up told over = record {
    worker_sleeps = λ j s. ground (arith, a.worker_sleeps j);
    caller_waits = a.caller_waits;
    stopped = λ j s. ground (arith, a.stopped j);
    ended = λ j s. ground (arith, a.ended j);
    woken_stopped = a.woken_stopped;
    woken = λ j k s. ground (arith, a.woken j);
  }

  caller-IsAwake :
      (i : ℕ) (c : Caller)
      → ((t : Task) → c ≢ waiting t)
      → IsAwake (record p { callers = update p.callers i c })
  unfolding update
  caller-IsAwake i c up = record {
    worker_sleeps = a.worker_sleeps;
    caller_waits = λ j t s. ground (arith, a.caller_waits j t, up t);
    stopped = a.stopped;
    ended = a.ended;
    woken_stopped = a.woken_stopped;
    woken = a.woken;
  }

  push_task-IsAwake : (i slot : ℕ) (t : Task) → IsAwake (push_task i slot t p)
  unfolding push_task update
  push_task-IsAwake i slot t = elim (Bool-cases (length (p.tasks_queue ++ slot ∷ []) == 1)) [
    | inl one ↦ rw one (record {
      worker_sleeps = λ j s. ground (arith, a.worker_sleeps j);
      caller_waits = λ j t s. ground (arith, a.caller_waits j t);
      stopped = λ j s. ground (arith, a.stopped j);
      ended = λ j s. ground (arith, a.ended j);
      woken_stopped = a.woken_stopped;
      woken = λ j k s. ground (arith, a.woken j);
    })
    | inr more ↦ rw more (record {
      worker_sleeps = λ j s.
          let none_queued : p.tasks_queue ≡ [] = a.worker_sleeps j s in
          let one : (length ([] ++ slot ∷ []) == 1) ≡ false = rw none_queued at more in (cc);
      caller_waits = λ j t s. ground (arith, a.caller_waits j t);
      stopped = a.stopped;
      ended = a.ended;
      woken_stopped = a.woken_stopped;
      woken = a.woken;
    })
  ]

  release_slot-IsAwake : (i slot : ℕ) → IsAwake (release_slot i slot p)
  unfolding release_slot update
  release_slot-IsAwake i slot = elim (Bool-cases (length (p.free_tasks_queue ++ slot ∷ []) == 1)) [
    | inl one ↦ rw one (record {
      worker_sleeps = λ j s. ground (arith, a.worker_sleeps j);
      caller_waits = λ j t s. ground (arith, a.caller_waits j t);
      stopped = λ j s. ground (arith, a.stopped j);
      ended = λ j s. ground (arith, a.ended j);
      woken_stopped = a.woken_stopped;
      woken = λ j k s. ground (arith, a.woken j);
    })
    | inr more ↦ rw more (record {
      worker_sleeps = λ j s. ground (arith, a.worker_sleeps j);
      caller_waits = λ j t s.
          let none_free : p.free_tasks_queue ≡ [] = a.caller_waits j t s in
          let one : (length ([] ++ slot ∷ []) == 1) ≡ false = rw none_free at more in (cc);
      stopped = λ j s. ground (arith, a.stopped j);
      ended = λ j s. ground (arith, a.ended j);
      woken_stopped = a.woken_stopped;
      woken = λ j k s. ground (arith, a.woken j);
    })
  ]

  wake-IsAwake : p.stop_flag ≡ true → IsAwake (record (wake_workers p) { woken = true })
  wake-IsAwake s = record {
    worker_sleeps = λ j t. ground (arith, a.worker_sleeps j);
    caller_waits = a.caller_waits;
    stopped = λ j t. s;
    ended = λ j t. s;
    woken_stopped = λ w. s;
    woken = λ j w t. ground arith;
  }

Step-IsAwake : {p q : Pool} → Step p q → IsAwake p → IsAwake q
unfolding fill_slot
Step-IsAwake {p} (call i t e) a = caller-IsAwake p a i (wanting t) (λ u. cc)
Step-IsAwake {p} (take i t e) a = take_slot-IsAwake p.free_tasks_queue i t p refl a
Step-IsAwake {p} (fill i slot t e) a =
    let b = slots-IsAwake (update p.slots slot t) p a in
    caller-IsAwake (record p { slots = update p.slots slot t }) b i (filled slot t) (λ u. cc)
Step-IsAwake {p} (push i slot t e) a = push_task-IsAwake p a i slot t
Step-IsAwake {p} (poll i lt e) a =
    worker-IsAwake p a i (if p.stop_flag then empty_handed else testing) (ground arith)
      (ground arith) (ground arith)
Step-IsAwake {p} (test i lt e) a = get_task-IsAwake p.tasks_queue i p refl a
Step-IsAwake {p} (quit i lt e s) a = worker-IsAwake p a i finished (cc) (cc) (λ e. s)
Step-IsAwake {p} (run i slot lt e r) a = worker-IsAwake p a i (ran slot) (cc) (cc) (cc)
Step-IsAwake {p} (skip i slot lt e r) a = worker-IsAwake p a i polling (cc) (cc) (cc)
Step-IsAwake {p} (clear i slot lt e) a =
    let b = slots-IsAwake (update p.slots slot no_task) p a in
    worker-IsAwake (record p { slots = update p.slots slot no_task }) b i (cleared slot) (cc) (cc)
      (cc)
Step-IsAwake {p} (release i slot lt e) a = release_slot-IsAwake p a i slot
Step-IsAwake {p} (stir i e) a = worker-IsAwake p a i testing (cc) (cc) (cc)
Step-IsAwake {p} (stir_caller i t e) a = caller-IsAwake p a i (wanting t) (λ u. cc)
Step-IsAwake stop a = record {
  worker_sleeps = a.worker_sleeps;
  caller_waits = a.caller_waits;
  stopped = λ j s. refl;
  ended = λ j s. refl;
  woken_stopped = λ w. refl;
  woken = a.woken;
}
Step-IsAwake {p} (wake s) a = wake-IsAwake p a s

-- In every state that the pool can reach nobody has missed a wake-up: a worker sleeps only while no
-- task is queued and the destructor has not yet woken the workers, a caller waits only while no
-- slot is free, and a worker is without a task, or at its end, only after the pool
-- was told to stop.
pub Reach-IsAwake : {size n : ℕ} {p : Pool} → Reach size n p → IsAwake p
unfolding new_pool
Reach-IsAwake start = record {
  worker_sleeps = λ i e. refl;
  caller_waits = λ i t e. cc;
  stopped = λ i e. cc;
  ended = λ i e. cc;
  woken_stopped = λ w. cc;
  woken = λ i w e. cc;
}
Reach-IsAwake (next r s) = Step-IsAwake s (Reach-IsAwake r)
