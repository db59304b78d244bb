-- ===== src/Scheduler/Invariant.antt =====
-- What holds of the scheduler on a machine with one core, between two entries into the kernel, and
-- that every operation of modules/round-robin keeps it.
use sophon_rpi_cross.Base.{
  ℕ, ◌≡◌, ◌≢◌, inl, inr, false, Option, none, some, List, ◌∷◌, done, update, count, arith,
  Option-cases,
}
use sophon_rpi_cross.Kernel.{
  RunState, ready, running, State, Task, Kernel, disable, with_sched, run_state_of,
}
use sophon_rpi_cross.Scheduler.{unit_time_slice, schedule, run_next}

-- How often a task must stand in the queue.
abbrev pub times_queued : Option RunState → ℕ
times_queued none = 0
times_queued (some ready) = 1
times_queued (some _) = 0

-- The queue of core 0 holds each `Ready` task once and nothing else; the current task exists; no
-- other task is `Running`.
pub record Inv (k : Kernel) : Type 0 where
  pub queued : (t : ℕ) → count t (k.per_core_task_queue 0) ≡ times_queued (run_state_of (k.tasks t))
  pub current_known : (t : ℕ) → k.current_task 0 ≡ some t → k.tasks t ≢ none
  pub only_current : (t : ℕ) → run_state_of (k.tasks t) ≡ some running → k.current_task 0 ≡ some t

abbrev pub sched_of : Option Task → Option State
sched_of none = none
sched_of (some t) = some t.sched

-- Task `t` has the core: it is current, it is `Running`, and it has one unit of time.
pub record Runs (t : ℕ) (k : Kernel) : Type 0 where
  pub is_current : k.current_task 0 ≡ some t
  pub has_slice :
      sched_of (k.tasks t)
      ≡ some (record { run_state = running; time_slice_units = unit_time_slice })

-- The head of the queue is taken and made current.
abbrev pub switched : ℕ → List ℕ → Kernel → Kernel
switched h rest k = record k {
  per_core_task_queue = update k.per_core_task_queue 0 rest;
  tasks = update k.tasks h (
      with_sched (λ s. record { run_state = running; time_slice_units = unit_time_slice })
        (k.tasks h));
  current_task = update k.current_task 0 (some h);
}

pub run_next_lem :
    (k : Kernel) (h : ℕ) (rest : List ℕ)
    → k.interrupts 0 ≡ false
    → k.per_core_task_queue 0 ≡ h ∷ rest
    → run_state_of (k.tasks h) ≡ some ready
    → run_next 0 k ≡ done (h, switched h rest k)
unfolding run_next
run_next_lem k h rest off q r = ground arith

pub switched-Inv :
    (k : Kernel) (h : ℕ) (rest : List ℕ)
    → Inv k
    → ((t : ℕ) → run_state_of (k.tasks t) ≢ some running)
    → k.per_core_task_queue 0 ≡ h ∷ rest
    → Inv (switched h rest k)
switched-Inv k h rest v idle q = record {
  queued = λ t. ground (arith, v.queued t, q);
  current_known = λ t e. ground (arith, v.queued h);
  only_current = λ t e. ground (arith, idle t);
}

pub head_is_ready :
    (k : Kernel) (h : ℕ) (rest : List ℕ)
    → Inv k
    → k.per_core_task_queue 0 ≡ h ∷ rest
    → run_state_of (k.tasks h) ≡ some ready
head_is_ready k h rest v q = ground (arith, v.queued h, q)

pub disable-Inv : (k : Kernel) → Inv k → Inv (disable 0 k)
disable-Inv k v = record {
  queued = v.queued;
  current_known = v.current_known;
  only_current = v.only_current;
}

-- Where no task is `Running`, `schedule` takes the head of the queue.
pub schedule_switches :
    (k : Kernel) (h : ℕ) (rest : List ℕ)
    → Inv k
    → ((t : ℕ) → run_state_of (k.tasks t) ≢ some running)
    → k.per_core_task_queue 0 ≡ h ∷ rest
    → schedule 0 k ≡ done (h, switched h rest (disable 0 k))
unfolding schedule
schedule_switches k h rest v idle q = elim (Option-cases (k.current_task 0)) [
  | inl e ↦ ground (arith, e, run_next_lem (disable 0 k) h rest, head_is_ready k h rest v q)
  | inr (c, e) ↦ ground (
    arith,
    e,
    idle c,
    v.current_known c e,
    run_next_lem (disable 0 k) h rest,
    head_is_ready k h rest v q,
  )
]

-- Where the current task is `Running`, `schedule` goes on with it.
pub schedule_goes_on :
    (k : Kernel) (c : ℕ)
    → k.current_task 0 ≡ some c
    → run_state_of (k.tasks c) ≡ some running
    → schedule 0 k ≡ done (c, disable 0 k)
unfolding schedule
schedule_goes_on k c e r = ground arith

pub switched-Runs :
    (k : Kernel) (h : ℕ) (rest : List ℕ)
    → run_state_of (k.tasks h) ≡ some ready
    → Runs h (switched h rest k)
switched-Runs k h rest r = record { is_current = ground arith; has_slice = ground arith }
