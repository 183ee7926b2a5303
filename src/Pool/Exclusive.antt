-- ===== src/Pool/Exclusive.antt =====
-- A slot has one owner in every state that the pool can reach.
use memcached4chaos.Base.{
  ℕ, zero, suc, ◌+◌, ◌≤◌, ◌≡◌, ◌≢◌, refl, sym, ap, arith, true, false, Bool-cases, inl, inr, ◌⊎◌,
  List, [], ◌∷◌, ◌++◌, length, ◌==◌, if◌then◌else◌, some, has, AreDistinct,
}
use memcached4chaos.System.{update}
use memcached4chaos.Pool.{
  Task, Pool, polling, testing, asleep, empty_handed, holding, ran, cleared, finished, outside,
  wanting, waiting, given, filled, take_slot, fill_slot, push_task, get_task_to_do, release_slot,
  slots_from, new_pool, Step, call, take, fill, push, poll, test, quit, run, skip, clear, release,
  stir, stir_caller, stop, wake, Reach, start, next,
}
use memcached4chaos.Pool.Owners.{
  Owner, in_free, in_tasks, by_worker, by_caller, Owned, worker_slot, caller_slot, keep_worker,
  keep_caller, awake-Owned, called-Owned, release-Owned, push-Owned, take-Owned, get-Owned,
  worker_apart, caller_apart,
}

abbrev pub HasOwners : Pool → Type 0
HasOwners p = (owner : ℕ → Owner) × Owned owner p.free_tasks_queue p.tasks_queue p.workers p.callers

take_slot-HasOwners :
    (free : List ℕ) (i : ℕ) (t : Task) (p : Pool)
    → p.free_tasks_queue ≡ free
    → HasOwners p
    → HasOwners (take_slot free i t p)
unfolding take_slot
take_slot-HasOwners [] i t p e (owner, o) =
    (owner, keep_caller owner _ _ _ _ o i (waiting t) (inr refl))
take_slot-HasOwners (slot ∷ rest) i t p e (owner, o) = (
  update owner slot (by_caller i),
  take-Owned owner slot rest p.tasks_queue p.workers p.callers i (given slot t) (rw e at o) refl,
)

get_task-HasOwners :
    (tasks : List ℕ) (i : ℕ) (p : Pool)
    → p.tasks_queue ≡ tasks
    → HasOwners p
    → HasOwners (get_task_to_do tasks i p)
unfolding get_task_to_do
get_task-HasOwners [] i p e (owner, o) = (
  owner,
  keep_worker owner _ _ _ _ o i (if p.stop_flag then empty_handed else asleep) (inr (ground arith)),
)
get_task-HasOwners (slot ∷ rest) i p e (owner, o) = elim (Bool-cases p.stop_flag) [
  | inl s ↦ rw s (owner, keep_worker owner _ _ _ _ o i empty_handed (inr refl))
  | inr s ↦ rw s (
    update owner slot (by_worker i),
    get-Owned owner slot p.free_tasks_queue rest p.workers p.callers i (holding slot) (rw e at o)
        refl,
  )
]

push_task-HasOwners :
    (i slot : ℕ) (t : Task) (p : Pool)
    → p.callers i ≡ filled slot t
    → HasOwners p
    → HasOwners (push_task i slot t p)
unfolding push_task
push_task-HasOwners i slot t p e (owner, o) =
    let pushed = push-Owned owner _ _ _ _ o i slot outside (ap caller_slot e) refl in
    elim (Bool-cases (length (p.tasks_queue ++ slot ∷ []) == 1)) [
      | inl one ↦ rw one (update owner slot in_tasks, awake-Owned _ _ _ _ _ pushed)
      | inr more ↦ rw more (update owner slot in_tasks, pushed)
    ]

release_slot-HasOwners :
    (i slot : ℕ) (p : Pool)
    → p.workers i ≡ cleared slot
    → HasOwners p
    → HasOwners (release_slot i slot p)
unfolding release_slot
release_slot-HasOwners i slot p e (owner, o) =
    let released = release-Owned owner _ _ _ _ o i slot polling (ap worker_slot e) refl in
    elim (Bool-cases (length (p.free_tasks_queue ++ slot ∷ []) == 1)) [
      | inl one ↦ rw one (update owner slot in_free, called-Owned _ _ _ _ _ released)
      | inr more ↦ rw more (update owner slot in_free, released)
    ]

-- Every step leaves each slot with one owner.
Step-HasOwners : {p q : Pool} → Step p q → HasOwners p → HasOwners q
unfolding fill_slot
Step-HasOwners {p} (call i t e) (owner, o) =
    (owner, keep_caller owner _ _ _ _ o i (wanting t) (inr refl))
Step-HasOwners {p} (take i t e) o = take_slot-HasOwners p.free_tasks_queue i t p refl o
Step-HasOwners {p} (fill i slot t e) (owner, o) =
    (owner, keep_caller owner _ _ _ _ o i (filled slot t) (inl (sym (ap caller_slot e))))
Step-HasOwners {p} (push i slot t e) o = push_task-HasOwners i slot t p e o
Step-HasOwners {p} (poll i lt e) (owner, o) = (
  owner,
  keep_worker owner _ _ _ _ o i (if p.stop_flag then empty_handed else testing)
      (inr (ground arith)),
)
Step-HasOwners {p} (test i lt e) o = get_task-HasOwners p.tasks_queue i p refl o
Step-HasOwners (quit i lt e s) (owner, o) =
    (owner, keep_worker owner _ _ _ _ o i finished (inr refl))
Step-HasOwners (run i slot lt e r) (owner, o) =
    (owner, keep_worker owner _ _ _ _ o i (ran slot) (inl (sym (ap worker_slot e))))
Step-HasOwners (skip i slot lt e r) (owner, o) =
    (owner, keep_worker owner _ _ _ _ o i polling (inr refl))
Step-HasOwners (clear i slot lt e) (owner, o) =
    (owner, keep_worker owner _ _ _ _ o i (cleared slot) (inl (sym (ap worker_slot e))))
Step-HasOwners {p} (release i slot lt e) o = release_slot-HasOwners i slot p e o
Step-HasOwners (stir i e) (owner, o) = (owner, keep_worker owner _ _ _ _ o i testing (inr refl))
Step-HasOwners (stir_caller i t e) (owner, o) =
    (owner, keep_caller owner _ _ _ _ o i (wanting t) (inr refl))
Step-HasOwners stop o = o
Step-HasOwners (wake s) (owner, o) = (owner, awake-Owned _ _ _ _ _ o)

has-slots_from : (x i n : ℕ) → has x (slots_from i n) ≡ true → i ≤ x
unfolding slots_from
has-slots_from x i zero h = cc
has-slots_from x i (suc n) h = ground (arith, has-slots_from x (i + 1) n)

slots_from-AreDistinct : (i n : ℕ) → AreDistinct (slots_from i n)
unfolding slots_from
slots_from-AreDistinct i zero = tt
slots_from-AreDistinct i (suc n) =
    (ground (arith, has-slots_from i (i + 1) n), slots_from-AreDistinct (i + 1) n)

new_pool-HasOwners : (size n : ℕ) → HasOwners (new_pool size n)
unfolding new_pool
new_pool-HasOwners size n = (
  λ _. in_free,
  record {
    free_owner = λ t h. refl;
    tasks_owner = λ t h. cc;
    free_distinct = slots_from-AreDistinct 0 size;
    tasks_distinct = tt;
    worker_owner = λ i t e. cc;
    caller_owner = λ i t e. cc;
  },
)

pub Reach-HasOwners : {size n : ℕ} {p : Pool} → Reach size n p → HasOwners p
Reach-HasOwners {size} {n} start = new_pool-HasOwners size n
Reach-HasOwners (next r s) = Step-HasOwners s (Reach-HasOwners r)

-- Two workers never have the same slot, and neither have two callers, or a worker and a caller; a
-- slot that a worker or a caller has stands in neither queue.
pub slot_of_one :
    {size n : ℕ} {p : Pool}
    → Reach size n p
    → ((i j t : ℕ)
        → worker_slot (p.workers i) ≡ some t
        → worker_slot (p.workers j) ≡ some t
        → i ≡ j)
      × ((i j t : ℕ)
          → caller_slot (p.callers i) ≡ some t
          → caller_slot (p.callers j) ≡ some t
          → i ≡ j)
      × ((i j t : ℕ) → worker_slot (p.workers i) ≡ some t → caller_slot (p.callers j) ≢ some t)
      × ((i t : ℕ)
          → (worker_slot (p.workers i) ≡ some t) ⊎ (caller_slot (p.callers i) ≡ some t)
          → (has t p.free_tasks_queue ≡ false) × (has t p.tasks_queue ≡ false))
slot_of_one {p} r =
    let (owner, o) = Reach-HasOwners r in
    (
      λ i j t e f. ground (arith, o.worker_owner i t, o.worker_owner j t),
      λ i j t e f. ground (arith, o.caller_owner i t, o.caller_owner j t),
      λ i j t e f. ground (arith, o.worker_owner i t, o.caller_owner j t),
      λ i t e. elim e [
        | inl w ↦ worker_apart owner _ _ _ _ o i t w
        | inr c ↦ caller_apart owner _ _ _ _ o i t c
      ],
    )
