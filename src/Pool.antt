-- ===== src/Pool.antt =====
-- local/threadpool.hpp and local/threadpool.cpp: class threadpool, as steps of its threads. What a
-- thread does under a mutex is one step, since no other thread reads or writes the same data
-- meanwhile; a thread that waits on a condition variable sleeps until a broadcast.
pub mod Owners
pub mod Exclusive
pub mod History
pub mod Wakeups
pub mod Progress
pub mod Lost
use memcached4chaos.Base.{
  ℕ, zero, suc, ◌+◌, ◌<◌, ◌≡◌, ◌≢◌, Bool, true, false, List, [], ◌∷◌, ◌++◌, length, ◌==◌,
  if◌then◌else◌,
}
use memcached4chaos.System.{update}

-- struct threadpool_task; 0 is NULL
pub record Task : Type 0 where
  pub routine : ℕ
  pub argument : ℕ

abbrev pub no_task : Task
no_task = record { routine = 0; argument = 0 }

abbrev pub queue_size : ℕ
queue_size = 10000

-- Where a worker stands: before the first test of stop_flag in get_task_to_do, in the loop there,
-- asleep in it, with NULL or a task from it, after the routine, after init_task, and at the end.
pub data Worker : Type 0 where
  polling : Worker
  testing : Worker
  asleep : Worker
  empty_handed : Worker
  holding : (slot : ℕ) → Worker
  ran : (slot : ℕ) → Worker
  cleared : (slot : ℕ) → Worker
  finished : Worker

-- Where a caller of add_task stands: outside, in the loop, asleep in it, with a free slot, and with
-- the slot filled; its task is the one that add_task was called with.
pub data Caller : Type 0 where
  outside : Caller
  wanting : Task → Caller
  waiting : Task → Caller
  given : (slot : ℕ) → Task → Caller
  filled : (slot : ℕ) → Task → Caller

-- class threadpool, its threads, and what has happened so far: `woken` says that the destructor is
-- past its broadcast, `submitted` lists the tasks that add_task was called with, as their slots are
-- put into tasks_queue, and `started` what stood in the slots taken out of it, the first first.
pub record Pool : Type 0 where
  pub slots : ℕ → Task
  pub free_tasks_queue : List ℕ
  pub tasks_queue : List ℕ
  pub nthreads : ℕ
  pub stop_flag : Bool
  pub workers : ℕ → Worker
  pub callers : ℕ → Caller
  pub woken : Bool
  pub submitted : List Task
  pub started : List Task

abbrev pub set_worker : ℕ → Worker → Pool → Pool
set_worker i w p = record p { workers = update p.workers i w }

abbrev pub set_caller : ℕ → Caller → Pool → Pool
set_caller i c p = record p { callers = update p.callers i c }

-- pthread_cond_broadcast on `cond` and on `free_tasks_cond`
abbrev pub awake : Worker → Worker
awake asleep = testing
awake w = w

abbrev pub called : Caller → Caller
called (waiting t) = wanting t
called c = c

abbrev pub wake_workers : Pool → Pool
wake_workers p = record p { workers = λ i. awake (p.workers i) }

abbrev pub wake_callers : Pool → Pool
wake_callers p = record p { callers = λ i. called (p.callers i) }

-- the slots 0, 1, …, n - 1
unfoldable pub slots_from : ℕ → ℕ → List ℕ
slots_from i zero = []
slots_from i (suc n) = i ∷ slots_from (i + 1) n

-- threadpool::threadpool, with `size` slots, where nothing it asks of the system fails
unfoldable pub new_pool : (size nthreads : ℕ) → Pool
new_pool size nthreads = record {
  slots = λ _. no_task;
  free_tasks_queue = slots_from 0 size;
  tasks_queue = [];
  nthreads = nthreads;
  stop_flag = false;
  workers = λ _. polling;
  callers = λ _. outside;
  woken = false;
  submitted = [];
  started = [];
}

-- add_task, first part: a slot off free_tasks_queue, or sleep
unfoldable pub take_slot : List ℕ → ℕ → Task → Pool → Pool
take_slot [] i t p = set_caller i (waiting t) p
take_slot (slot ∷ rest) i t p = set_caller i (given slot t) (record p { free_tasks_queue = rest })

-- newtask->routine = routine; newtask->data = data;
unfoldable pub fill_slot : ℕ → ℕ → Task → Pool → Pool
fill_slot i slot t p = set_caller i (filled slot t) (record p { slots = update p.slots slot t })

-- add_task, last part: the slot onto tasks_queue, and a broadcast if it is the only one there
unfoldable pub push_task : ℕ → ℕ → Task → Pool → Pool
push_task i slot t p =
    let queue = p.tasks_queue ++ (slot ∷ []) in
    let q =
      set_caller i outside
        (record p { tasks_queue = queue; submitted = p.submitted ++ (t ∷ []) }) in
    if length queue == 1 then wake_workers q else q

-- get_task_to_do, the loop and what follows it: stop, sleep, or take a task
unfoldable pub get_task_to_do : List ℕ → ℕ → Pool → Pool
get_task_to_do [] i p = set_worker i (if p.stop_flag then empty_handed else asleep) p
get_task_to_do (slot ∷ rest) i p =
    if p.stop_flag
    then set_worker i empty_handed p
    else set_worker i (holding slot)
        (record p { tasks_queue = rest; started = p.started ++ (p.slots slot ∷ []) })

-- worker_routine, the release: the slot onto free_tasks_queue, and a broadcast if it is the only one
unfoldable pub release_slot : ℕ → ℕ → Pool → Pool
release_slot i slot p =
    let queue = p.free_tasks_queue ++ (slot ∷ []) in
    let q = set_worker i polling (record p { free_tasks_queue = queue }) in
    if length queue == 1 then wake_callers q else q

-- One step of one thread. The destructor takes `stop` and `wake`; after `wake` it joins the workers.
pub data Step (p : Pool) : Pool → Type 0 where
  call : (i : ℕ) (t : Task) → p.callers i ≡ outside → Step p (set_caller i (wanting t) p)
  take : (i : ℕ) (t : Task) → p.callers i ≡ wanting t → Step p (take_slot p.free_tasks_queue i t p)
  fill : (i slot : ℕ) (t : Task) → p.callers i ≡ given slot t → Step p (fill_slot i slot t p)
  push : (i slot : ℕ) (t : Task) → p.callers i ≡ filled slot t → Step p (push_task i slot t p)
  poll :
      (i : ℕ)
      → i < p.nthreads
      → p.workers i ≡ polling
      → Step p (set_worker i (if p.stop_flag then empty_handed else testing) p)
  test :
      (i : ℕ) → i < p.nthreads → p.workers i ≡ testing → Step p (get_task_to_do p.tasks_queue i p)
  quit :
      (i : ℕ)
      → i < p.nthreads
      → p.workers i ≡ empty_handed
      → p.stop_flag ≡ true
      → Step p (set_worker i finished p)
  run :
      (i slot : ℕ)
      → i < p.nthreads
      → p.workers i ≡ holding slot
      → (p.slots slot).routine ≢ 0
      → Step p (set_worker i (ran slot) p)
  skip :
      (i slot : ℕ)
      → i < p.nthreads
      → p.workers i ≡ holding slot
      → (p.slots slot).routine ≡ 0
      → Step p (set_worker i polling p)
  clear :
      (i slot : ℕ)
      → i < p.nthreads
      → p.workers i ≡ ran slot
      → Step p (set_worker i (cleared slot) (record p { slots = update p.slots slot no_task }))
  release :
      (i slot : ℕ) → i < p.nthreads → p.workers i ≡ cleared slot → Step p (release_slot i slot p)
  -- a wait that ends for no reason, as POSIX allows
  stir : (i : ℕ) → p.workers i ≡ asleep → Step p (set_worker i testing p)
  stir_caller : (i : ℕ) (t : Task) → p.callers i ≡ waiting t → Step p (set_caller i (wanting t) p)
  stop : Step p (record p { stop_flag = true })
  wake : p.stop_flag ≡ true → Step p (record (wake_workers p) { woken = true })

pub data Reach (size nthreads : ℕ) : Pool → Type 0 where
  start : Reach size nthreads (new_pool size nthreads)
  next : {p q : Pool} → Reach size nthreads p → Step p q → Reach size nthreads q
