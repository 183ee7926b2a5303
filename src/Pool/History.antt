-- ===== src/Pool/History.antt =====
-- The tasks that add_task was called with are taken to be run in their order, each once and unchanged.
use memcached4chaos.Base.{
  ℕ, ◌≡◌, refl, sym, ap, ◌∙◌, arith, false, Bool-cases, inl, inr, List, [], ◌∷◌, ◌++◌, map, length,
  ◌==◌, has,
}
use mathlib.Core.List.{append_assoc, map-append}
use memcached4chaos.System.{update}
use memcached4chaos.Pool.{
  Task, no_task, Pool, filled, take_slot, fill_slot, push_task, get_task_to_do, release_slot,
  new_pool, Step, call, take, fill, push, poll, test, quit, run, skip, clear, release, stir,
  stir_caller, stop, wake, Reach, start, next,
}
use memcached4chaos.Pool.Owners.{worker_slot, caller_slot, worker_apart, caller_apart}
use memcached4chaos.Pool.Exclusive.{HasOwners, Reach-HasOwners}

-- What was submitted is what was started and what is queued.
abbrev pub InOrder : Pool → Type 0
InOrder p = p.submitted ≡ p.started ++ map p.slots p.tasks_queue

-- A slot that a caller has filled holds the caller's task.
abbrev IsFilled : Pool → Type 0
IsFilled p = (i slot : ℕ) (t : Task) → p.callers i ≡ filled slot t → p.slots slot ≡ t

take_slot-IsFilled :
    (free : List ℕ) (i : ℕ) (t : Task) (p : Pool) → IsFilled p → IsFilled (take_slot free i t p)
unfolding take_slot update
take_slot-IsFilled [] i t p f j slot u e = ground (arith, f j slot u)
take_slot-IsFilled (x ∷ rest) i t p f j slot u e = ground (arith, f j slot u)

get_task-IsFilled :
    (tasks : List ℕ) (i : ℕ) (p : Pool) → IsFilled p → IsFilled (get_task_to_do tasks i p)
unfolding get_task_to_do
get_task-IsFilled [] i p f = f
get_task-IsFilled (x ∷ rest) i p f = λ j slot u e. ground (arith, f j slot u)

push_task-IsFilled :
    (i slot : ℕ) (t : Task) (p : Pool) → IsFilled p → IsFilled (push_task i slot t p)
unfolding push_task update
push_task-IsFilled i slot t p f j slot' u e = ground (arith, f j slot' u)

release_slot-IsFilled : (i slot : ℕ) (p : Pool) → IsFilled p → IsFilled (release_slot i slot p)
unfolding release_slot
release_slot-IsFilled i slot p f j slot' u e = ground (arith, f j slot' u)

Step-IsFilled : {p q : Pool} → Step p q → HasOwners p → IsFilled p → IsFilled q
unfolding fill_slot update
Step-IsFilled (call i t e) h f = λ j slot u d. ground (arith, f j slot u)
Step-IsFilled {p} (take i t e) h f = take_slot-IsFilled p.free_tasks_queue i t p f
Step-IsFilled {p} (fill i slot t e) (owner, o) f =
    λ j slot' u d. ground (arith, f j slot' u, o.caller_owner i slot, o.caller_owner j slot')
Step-IsFilled {p} (push i slot t e) h f = push_task-IsFilled i slot t p f
Step-IsFilled (poll i lt e) h f = f
Step-IsFilled {p} (test i lt e) h f = get_task-IsFilled p.tasks_queue i p f
Step-IsFilled (quit i lt e s) h f = f
Step-IsFilled (run i slot lt e r) h f = f
Step-IsFilled (skip i slot lt e r) h f = f
Step-IsFilled {p} (clear i slot lt e) (owner, o) f =
    λ j slot' u d. ground (arith, f j slot' u, o.worker_owner i slot, o.caller_owner j slot')
Step-IsFilled {p} (release i slot lt e) h f = release_slot-IsFilled i slot p f
Step-IsFilled (stir i e) h f = f
Step-IsFilled (stir_caller i t e) h f = λ j slot u d. ground (arith, f j slot u)
Step-IsFilled stop h f = f
Step-IsFilled (wake s) h f = f

Reach-IsFilled : {size n : ℕ} {p : Pool} → Reach size n p → IsFilled p
unfolding new_pool
Reach-IsFilled start = λ i slot t e. cc
Reach-IsFilled (next r s) = Step-IsFilled s (Reach-HasOwners r) (Reach-IsFilled r)

map-update :
    (f : ℕ → Task) (slot : ℕ) (t : Task) (xs : List ℕ)
    → has slot xs ≡ false
    → map (update f slot t) xs ≡ map f xs
unfolding update
map-update f slot t [] away = refl
map-update f slot t (x ∷ xs) away = ground (arith, map-update f slot t xs)

take_slot-InOrder :
    (free : List ℕ) (i : ℕ) (t : Task) (p : Pool) → InOrder p → InOrder (take_slot free i t p)
unfolding take_slot
take_slot-InOrder [] i t p o = o
take_slot-InOrder (slot ∷ rest) i t p o = o

get_task-InOrder :
    (tasks : List ℕ) (i : ℕ) (p : Pool)
    → p.tasks_queue ≡ tasks
    → InOrder p
    → InOrder (get_task_to_do tasks i p)
unfolding get_task_to_do
get_task-InOrder [] i p e o = o
get_task-InOrder (slot ∷ rest) i p e o = elim (Bool-cases p.stop_flag) [
  | inl s ↦ rw s o
  | inr s ↦ rw s (o ∙ rw e (sym (append_assoc p.started (p.slots slot ∷ []) (map p.slots rest))))
]

push_task-InOrder :
    (i slot : ℕ) (t : Task) (p : Pool)
    → p.slots slot ≡ t
    → InOrder p
    → InOrder (push_task i slot t p)
unfolding push_task
push_task-InOrder i slot t p e o =
    let pushed : p.submitted ++ t ∷ [] ≡ p.started ++ map p.slots (p.tasks_queue ++ slot ∷ []) =
      simp (o, ← e, map-append, append_assoc) in
    elim (Bool-cases (length (p.tasks_queue ++ slot ∷ []) == 1)) [
      | inl one ↦ rw one pushed
      | inr more ↦ rw more pushed
    ]

release_slot-InOrder : (i slot : ℕ) (p : Pool) → InOrder p → InOrder (release_slot i slot p)
unfolding release_slot
release_slot-InOrder i slot p o =
    elim (Bool-cases (length (p.free_tasks_queue ++ slot ∷ []) == 1)) [
      | inl one ↦ rw one o
      | inr more ↦ rw more o
    ]

Step-InOrder : {p q : Pool} → Step p q → HasOwners p → IsFilled p → InOrder p → InOrder q
unfolding fill_slot
Step-InOrder (call i t e) h f o = o
Step-InOrder {p} (take i t e) h f o = take_slot-InOrder p.free_tasks_queue i t p o
Step-InOrder {p} (fill i slot t e) (owner, h) f o =
    let away = (caller_apart owner _ _ _ _ h i slot (ap caller_slot e)).1 in
    o ∙ ap (λ l. p.started ++ l) (sym (map-update p.slots slot t p.tasks_queue away))
Step-InOrder {p} (push i slot t e) h f o = push_task-InOrder i slot t p (f i slot t e) o
Step-InOrder (poll i lt e) h f o = o
Step-InOrder {p} (test i lt e) h f o = get_task-InOrder p.tasks_queue i p refl o
Step-InOrder (quit i lt e s) h f o = o
Step-InOrder (run i slot lt e r) h f o = o
Step-InOrder (skip i slot lt e r) h f o = o
Step-InOrder {p} (clear i slot lt e) (owner, h) f o =
    let away = (worker_apart owner _ _ _ _ h i slot (ap worker_slot e)).1 in
    o ∙ ap (λ l. p.started ++ l) (sym (map-update p.slots slot no_task p.tasks_queue away))
Step-InOrder {p} (release i slot lt e) h f o = release_slot-InOrder i slot p o
Step-InOrder (stir i e) h f o = o
Step-InOrder (stir_caller i t e) h f o = o
Step-InOrder stop h f o = o
Step-InOrder (wake s) h f o = o

-- In every state that the pool can reach, the tasks that add_task was called with, as far as they
-- were put into the queue, are those taken out of it so far followed by those that it holds: none is
-- lost, doubled, changed or overtaken.
pub submitted-InOrder : {size n : ℕ} {p : Pool} → Reach size n p → InOrder p
unfolding new_pool
submitted-InOrder start = refl
submitted-InOrder (next r s) =
    Step-InOrder s (Reach-HasOwners r) (Reach-IsFilled r) (submitted-InOrder r)
