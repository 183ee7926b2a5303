-- ===== src/Pool/Progress.antt =====
-- No deadlock: a worker can go on while there are tasks, and once it has been woken to stop.
use memcached4chaos.Base.{
  ℕ, ◌<◌, ◌≡◌, ◌≢◌, ◌⊎◌, refl, arith, true, false, inl, inr, List, [], ◌∷◌, if◌then◌else◌, sym, ◌∙◌,
}
use native.Mathlib.Decide.{ℕ_discrete}
use memcached4chaos.System.{update, update_self}
use memcached4chaos.Pool.{
  Pool, Worker, polling, testing, asleep, empty_handed, holding, ran, cleared, finished,
  get_task_to_do, release_slot, Step, poll, test, quit, run, skip, clear, release, Reach,
}
use memcached4chaos.Pool.Wakeups.{IsAwake, Reach-IsAwake}

-- Worker i is awake, and has a step to another place than sleep.
abbrev pub GoesOn : ℕ → Pool → Type 0
GoesOn i p =
    (p.workers i ≢ asleep)
    × (q : Pool) × Step p q
    × (q.workers i ≢ p.workers i)
    × (q.workers i ≢ asleep)

set_worker-moves :
    (i : ℕ) (p : Pool) (v w : Worker)
    → p.workers i ≡ v
    → v ≢ w
    → w ≢ asleep
    → (update p.workers i w i ≢ p.workers i) × (update p.workers i w i ≢ asleep)
set_worker-moves i p v w at ne up =
    let here = update_self p.workers i w in
    (λ e. ne (sym at ∙ sym e ∙ here), λ e. up (sym here ∙ e))

get_task-moves :
    (i : ℕ) (p : Pool) (tasks : List ℕ)
    → p.workers i ≡ testing
    → (p.stop_flag ≡ true) ⊎ (tasks ≢ [])
    → let q = get_task_to_do tasks i p in (q.workers i ≢ p.workers i) × (q.workers i ≢ asleep)
unfolding get_task_to_do update
get_task-moves i p [] at (inl s) = (ground arith, ground arith)
get_task-moves i p [] at (inr ne) = absurd (ne refl)
get_task-moves i p (slot ∷ rest) at why = (ground arith, ground arith)

release_slot-moves :
    (i slot : ℕ) (p : Pool)
    → p.workers i ≡ cleared slot
    → let q = release_slot i slot p in (q.workers i ≢ p.workers i) × (q.workers i ≢ asleep)
unfolding release_slot update
release_slot-moves i slot p at = (ground arith, ground arith)

goes_on :
    (i : ℕ) (p : Pool) (w : Worker)
    → p.workers i ≡ w
    → i < p.nthreads
    → IsAwake p
    → ((p.stop_flag ≡ false) × (p.tasks_queue ≢ [])) ⊎ (p.woken ≡ true)
    → w ≢ finished
    → GoesOn i p
goes_on i p polling at lt a why live =
    let (m, n) =
      set_worker-moves i p polling (if p.stop_flag then empty_handed else testing) at (ground arith)
        (ground arith) in
    (λ u. cc, _, poll i lt at, m, n)
goes_on i p testing at lt a why live =
    let (m, n) =
      get_task-moves i p p.tasks_queue at
        (elim why [ inl (s, ne) ↦ inr ne | inr k ↦ inl (a.woken_stopped k) ]) in
    (λ u. cc, _, test i lt at, m, n)
goes_on i p asleep at lt a why live = elim why [
  | inl (s, ne) ↦ absurd (ne (a.worker_sleeps i at))
  | inr k ↦ absurd (a.woken i k at)
]
goes_on i p empty_handed at lt a why live =
    let (m, n) = set_worker-moves i p empty_handed finished at (cc) (cc) in
    (λ u. cc, _, quit i lt at (a.stopped i at), m, n)
goes_on i p (holding slot) at lt a why live = elim (ℕ_discrete (p.slots slot).routine 0) [
  | yes e ↦
      let (m, n) = set_worker-moves i p (holding slot) polling at (cc) (cc) in
      (λ u. cc, _, skip i slot lt at e, m, n)
  | no e ↦
      let (m, n) = set_worker-moves i p (holding slot) (ran slot) at (cc) (cc) in
      (λ u. cc, _, run i slot lt at e, m, n)
]
goes_on i p (ran slot) at lt a why live =
    let (m, n) = set_worker-moves i p (ran slot) (cleared slot) at (cc) (cc) in
    (λ u. cc, _, clear i slot lt at, m, n)
goes_on i p (cleared slot) at lt a why live =
    let (m, n) = release_slot-moves i slot p at in (λ u. cc, _, release i slot lt at, m, n)
goes_on i p finished at lt a why live = absurd (live refl)

-- No worker is stuck: in every state that the pool can reach, while tasks are queued and nobody has
-- told the pool to stop, and again once the destructor has woken the workers, each worker that is
-- not at its end is awake and has a step of its own to another place than sleep.
pub worker-GoesOn :
    {size n : ℕ} {p : Pool}
    → Reach size n p
    → (i : ℕ) → i < p.nthreads
    → ((p.stop_flag ≡ false) × (p.tasks_queue ≢ [])) ⊎ (p.woken ≡ true)
    → p.workers i ≢ finished
    → GoesOn i p
worker-GoesOn {p} r i lt why live = goes_on i p (p.workers i) refl lt (Reach-IsAwake r) why live
