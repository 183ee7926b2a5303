-- ===== src/Tests/Threads.antt =====
-- A pool of two slots and one worker, whose caller 0 has submitted a task.
use memcached4chaos.Base.{
  ℕ, ◌≡◌, ◌≢◌, ◌<◌, [], ◌⊎◌, refl, arith, if◌then◌else◌, some, has, false, inl,
}
use memcached4chaos.Pool.{
  Pool, Task, no_task, Step, poll, test, set_worker, get_task_to_do, polling, testing, holding,
  empty_handed, Reach, start, next, call, take, fill, push, new_pool, set_caller, take_slot,
  fill_slot, push_task, outside, wanting, given, filled, finished, slots_from,
}
use memcached4chaos.System.{update}
use memcached4chaos.Pool.Owners.{worker_slot, caller_slot}
use memcached4chaos.Pool.Exclusive.{slot_of_one}
use memcached4chaos.Pool.History.{InOrder, submitted-InOrder}
use memcached4chaos.Pool.Wakeups.{IsAwake, Reach-IsAwake}
use memcached4chaos.Pool.Progress.{GoesOn, worker-GoesOn}
use memcached4chaos.Pool.Lost.{Steps, IsLost, skip-IsLost}

abbrev job : Task
job = record { routine = 17; argument = 42 }

-- the states of the pool while caller 0 submits a task
abbrev called_once : Task → Pool
called_once t = set_caller 0 (wanting t) (new_pool 2 1)

abbrev with_slot : Task → Pool
with_slot t = take_slot (called_once t).free_tasks_queue 0 t (called_once t)

abbrev with_task : Task → Pool
with_task t = fill_slot 0 0 t (with_slot t)

abbrev submitted : Task → Pool
submitted t = push_task 0 0 t (with_task t)

abbrev submitted_one : Pool
submitted_one = submitted job

outside_first : (new_pool 2 1).callers 0 ≡ outside
unfolding new_pool
outside_first = refl

at_wanting : (t : Task) → (called_once t).callers 0 ≡ wanting t
unfolding update
at_wanting t = refl

at_given : (t : Task) → (with_slot t).callers 0 ≡ given 0 t
unfolding new_pool take_slot slots_from update
at_given t = refl

at_filled : (t : Task) → (with_task t).callers 0 ≡ filled 0 t
unfolding fill_slot update
at_filled t = refl

submitted-Reach : (t : Task) → Reach 2 1 (submitted t)
submitted-Reach t =
    next
      (next (next (next start (call 0 t outside_first)) (take 0 t (at_wanting t)))
        (fill 0 0 t (at_given t)))
      (push 0 0 t (at_filled t))

reached : Reach 2 1 submitted_one
reached = submitted-Reach job

slot_of_one_example :
    ((i j t : ℕ)
      → worker_slot (submitted_one.workers i) ≡ some t
      → worker_slot (submitted_one.workers j) ≡ some t
      → i ≡ j)
    × ((i j t : ℕ)
        → caller_slot (submitted_one.callers i) ≡ some t
        → caller_slot (submitted_one.callers j) ≡ some t
        → i ≡ j)
    × ((i j t : ℕ)
        → worker_slot (submitted_one.workers i) ≡ some t
        → caller_slot (submitted_one.callers j) ≢ some t)
    × ((i t : ℕ)
        → (worker_slot (submitted_one.workers i) ≡ some t)
          ⊎ (caller_slot (submitted_one.callers i) ≡ some t)
        → (has t submitted_one.free_tasks_queue ≡ false)
          × (has t submitted_one.tasks_queue ≡ false))
slot_of_one_example = slot_of_one reached

submitted-InOrder_example : InOrder submitted_one
submitted-InOrder_example = submitted-InOrder reached

Reach-IsAwake_example : IsAwake submitted_one
Reach-IsAwake_example = Reach-IsAwake reached

queued : (submitted_one.stop_flag ≡ false) × (submitted_one.tasks_queue ≢ [])
unfolding new_pool take_slot slots_from fill_slot push_task update
queued = (refl, ground arith)

one_worker : 0 < submitted_one.nthreads
unfolding new_pool take_slot slots_from fill_slot push_task update
one_worker = omega arith

at_work : submitted_one.workers 0 ≢ finished
unfolding new_pool take_slot slots_from fill_slot push_task update
at_work = ground arith

worker-GoesOn_example : GoesOn 0 submitted_one
worker-GoesOn_example = worker-GoesOn reached 0 one_worker (inl queued) at_work

-- the worker takes a task without a routine
abbrev looking : Pool
looking =
    let p = submitted no_task in set_worker 0 (if p.stop_flag then empty_handed else testing) p

abbrev taken : Pool
taken = get_task_to_do looking.tasks_queue 0 looking

at_polling : (submitted no_task).workers 0 ≡ polling
unfolding new_pool take_slot slots_from fill_slot push_task update
at_polling = refl

at_testing : looking.workers 0 ≡ testing
unfolding new_pool take_slot slots_from fill_slot push_task update
at_testing = refl

at_holding : taken.workers 0 ≡ holding 0
unfolding new_pool take_slot slots_from fill_slot push_task get_task_to_do update
at_holding = refl

threads : ((submitted no_task).nthreads ≡ 1) × (looking.nthreads ≡ 1) × (taken.nthreads ≡ 1)
unfolding new_pool take_slot slots_from fill_slot push_task get_task_to_do update
threads = (refl, refl, refl)

no_routine : (taken.slots 0).routine ≡ 0
unfolding new_pool take_slot slots_from fill_slot push_task get_task_to_do update
no_routine = refl

taken-Reach : Reach 2 1 taken
taken-Reach =
    next (next (submitted-Reach no_task) (poll 0 (omega (arith, threads.0)) at_polling))
      (test 0 (omega (arith, threads.1)) at_testing)

skip-IsLost_example :
    Step taken (set_worker 0 polling taken)
    × ((q : Pool) → Steps (set_worker 0 polling taken) q → IsLost 0 q)
skip-IsLost_example = skip-IsLost taken-Reach 0 0 (omega (arith, threads.2)) at_holding no_routine
