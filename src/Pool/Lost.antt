-- ===== src/Pool/Lost.antt =====
-- A task without a routine: the worker that takes it never gives its slot back.
use memcached4chaos.Base.{
  ℕ, ◌<◌, ◌≡◌, ◌≢◌, refl, arith, false, List, [], ◌∷◌, has, has-append, some, inl, if◌then◌else◌,
}
use mathlib.Core.Path.{subst}
use memcached4chaos.System.{update}
use memcached4chaos.Pool.{
  Task, Pool, Worker, Caller, polling, testing, empty_handed, holding, ran, cleared, finished,
  wanting, given, filled, set_worker, set_caller, take_slot, fill_slot, push_task, get_task_to_do,
  release_slot, Step, call, take, fill, push, poll, test, quit, run, skip, clear, release, stir,
  stir_caller, stop, wake, Reach,
}
use memcached4chaos.Pool.Owners.{worker_slot, caller_slot}
use memcached4chaos.Pool.Exclusive.{slot_of_one}

-- Any number of steps.
pub data Steps (p : Pool) : Pool → Type 0 where
  none_yet : Steps p p
  one_more : {q r : Pool} → Steps p q → Step q r → Steps p r

-- A slot stands in no queue, and nobody has it.
pub record IsLost (t : ℕ) (p : Pool) : Type 0 where
  pub free : has t p.free_tasks_queue ≡ false
  pub tasks : has t p.tasks_queue ≡ false
  pub workers : (i : ℕ) → worker_slot (p.workers i) ≢ some t
  pub callers : (i : ℕ) → caller_slot (p.callers i) ≢ some t

module _ (t : ℕ) (p : Pool) (l : IsLost t p) where
  set_worker-IsLost : (i : ℕ) (w : Worker) → worker_slot w ≢ some t → IsLost t (set_worker i w p)
  unfolding update
  set_worker-IsLost i w ne = record {
    free = l.free;
    tasks = l.tasks;
    workers = λ j f. ground (arith, l.workers j);
    callers = l.callers;
  }

  set_caller-IsLost : (i : ℕ) (c : Caller) → caller_slot c ≢ some t → IsLost t (set_caller i c p)
  unfolding update
  set_caller-IsLost i c ne = record {
    free = l.free;
    tasks = l.tasks;
    workers = l.workers;
    callers = λ j f. ground (arith, l.callers j);
  }

  take_slot-IsLost :
      (free : List ℕ) (i : ℕ) (job : Task)
      → p.free_tasks_queue ≡ free
      → IsLost t (take_slot free i job p)
  unfolding take_slot update
  take_slot-IsLost [] i job e = record {
    free = l.free;
    tasks = l.tasks;
    workers = l.workers;
    callers = λ j f. ground (arith, l.callers j);
  }
  take_slot-IsLost (slot ∷ rest) i job e =
      let away : has t (slot ∷ rest) ≡ false = subst (λ xs. has t xs ≡ false) e l.free in
      record {
        free = ground arith;
        tasks = l.tasks;
        workers = l.workers;
        callers = λ j f. ground (arith, l.callers j);
      }

  fill_slot-IsLost :
      (i slot : ℕ) (job : Task) → p.callers i ≡ given slot job → IsLost t (fill_slot i slot job p)
  unfolding fill_slot update
  fill_slot-IsLost i slot job e = record {
    free = l.free;
    tasks = l.tasks;
    workers = l.workers;
    callers = λ j f. ground (arith, l.callers j, l.callers i);
  }

  push_task-IsLost :
      (i slot : ℕ) (u : Task) → p.callers i ≡ filled slot u → IsLost t (push_task i slot u p)
  unfolding push_task update
  push_task-IsLost i slot u e = record {
    free = ground (arith, l.free);
    tasks = ground (arith, l.tasks, has-append t p.tasks_queue (slot ∷ []), l.callers i);
    workers = λ j f. ground (arith, l.workers j);
    callers = λ j f. ground (arith, l.callers j);
  }

  get_task-IsLost :
      (tasks : List ℕ) (i : ℕ) → p.tasks_queue ≡ tasks → IsLost t (get_task_to_do tasks i p)
  unfolding get_task_to_do update
  get_task-IsLost [] i e = record {
    free = l.free;
    tasks = l.tasks;
    workers = λ j f. ground (arith, l.workers j);
    callers = l.callers;
  }
  get_task-IsLost (slot ∷ rest) i e =
      let away : has t (slot ∷ rest) ≡ false = subst (λ xs. has t xs ≡ false) e l.tasks in
      record {
        free = ground (arith, l.free);
        tasks = ground (arith, l.tasks);
        workers = λ j f. ground (arith, l.workers j);
        callers = λ j f. ground (arith, l.callers j);
      }

  release_slot-IsLost : (i slot : ℕ) → p.workers i ≡ cleared slot → IsLost t (release_slot i slot p)
  unfolding release_slot update
  release_slot-IsLost i slot e = record {
    free = ground (arith, l.free, has-append t p.free_tasks_queue (slot ∷ []), l.workers i);
    tasks = ground (arith, l.tasks);
    workers = λ j f. ground (arith, l.workers j);
    callers = λ j f. ground (arith, l.callers j);
  }

Step-IsLost : {t : ℕ} {p q : Pool} → Step p q → IsLost t p → IsLost t q
Step-IsLost {t} {p} (call i job e) l = set_caller-IsLost t p l i (wanting job) (cc)
Step-IsLost {t} {p} (take i job e) l = take_slot-IsLost t p l p.free_tasks_queue i job refl
Step-IsLost {t} {p} (fill i slot job e) l = fill_slot-IsLost t p l i slot job e
Step-IsLost {t} {p} (push i slot u e) l = push_task-IsLost t p l i slot u e
Step-IsLost {t} {p} (poll i lt e) l =
    set_worker-IsLost t p l i (if p.stop_flag then empty_handed else testing) (ground arith)
Step-IsLost {t} {p} (test i lt e) l = get_task-IsLost t p l p.tasks_queue i refl
Step-IsLost {t} {p} (quit i lt e s) l = set_worker-IsLost t p l i finished (cc)
Step-IsLost {t} {p} (run i slot lt e f) l =
    set_worker-IsLost t p l i (ran slot) (ground (arith, l.workers i))
Step-IsLost {t} {p} (skip i slot lt e f) l = set_worker-IsLost t p l i polling (cc)
Step-IsLost {t} {p} (clear i slot lt e) l =
    let m = set_worker-IsLost t p l i (cleared slot) (ground (arith, l.workers i)) in
    record { free = m.free; tasks = m.tasks; workers = m.workers; callers = m.callers }
Step-IsLost {t} {p} (release i slot lt e) l = release_slot-IsLost t p l i slot e
Step-IsLost {t} {p} (stir i e) l = set_worker-IsLost t p l i testing (cc)
Step-IsLost {t} {p} (stir_caller i job e) l = set_caller-IsLost t p l i (wanting job) (cc)
Step-IsLost stop l = record {
  free = l.free;
  tasks = l.tasks;
  workers = l.workers;
  callers = l.callers;
}
Step-IsLost (wake s) l = record {
  free = l.free;
  tasks = l.tasks;
  workers = λ i e. l.workers i (ground arith);
  callers = l.callers;
}

Steps-IsLost : {t : ℕ} {p q : Pool} → Steps p q → IsLost t p → IsLost t q
Steps-IsLost none_yet l = l
Steps-IsLost (one_more r s) l = Step-IsLost s (Steps-IsLost r l)

-- A worker that has taken a task without a routine goes on to the next task, and the slot is lost
-- for good: from then on it stands in no queue and nobody has it, whatever the threads do.
pub skip-IsLost :
    {size n : ℕ} {p : Pool}
    → Reach size n p
    → (i slot : ℕ) → i < p.nthreads
    → p.workers i ≡ holding slot
    → (p.slots slot).routine ≡ 0
    → Step p (set_worker i polling p)
      × ((q : Pool) → Steps (set_worker i polling p) q → IsLost slot q)
unfolding update
skip-IsLost {p} r i slot lt at no_routine =
    let (one_worker, _, no_caller, no_queue) = slot_of_one r in
    let mine : worker_slot (p.workers i) ≡ some slot = rw at refl in
    let (free, tasks) = no_queue i slot (inl mine) in
    (
      skip i slot lt at no_routine,
      λ q steps. Steps-IsLost steps (record {
        free = free;
        tasks = tasks;
        workers = λ j f. ground (arith, one_worker j i slot);
        callers = λ j. no_caller i j slot mine;
      }),
    )
