-- ===== src/Scheduler/Blocking.antt =====
-- `sleep`, `wake_up`, `register_new_task` and `remove_task` of modules/round-robin, on one core.
use sophon_rpi_cross.Base.{
  ℕ, ◌≡◌, refl, ◌≢◌, Bool, false, Option, none, some, List, [], ◌∷◌, ◌++◌, done, panic, explicit,
  unwrap_none, if◌then◌else◌, count, count-append, arith, Bool-cases, inl, inr,
}
use sophon_rpi_cross.Kernel.{
  RunState, ready, running, sleeping, is_sleeping, Task, Kernel, disable, enable, is_enabled,
  store_sched, run_state_of,
}
use sophon_rpi_cross.Scheduler.{
  schedule, run_next, sleep, wake_up, register_new_task, push, set_run_state,
}
use sophon_rpi_cross.Scheduler.Invariant.{
  Inv, Runs, sched_of, times_queued, switched, schedule_switches, switched-Runs, switched-Inv,
  head_is_ready, disable-Inv,
}

-- What `sleep` does before it calls `schedule`.
abbrev pub asleep : ℕ → Kernel → Kernel
asleep c k = store_sched c (set_run_state sleeping) (if is_enabled 0 k then disable 0 k else k)

asleep-Inv : (k : Kernel) (c : ℕ) → Inv k → Runs c k → Inv (asleep c k)
asleep-Inv k c v r = record {
  queued = λ t. ground (arith, v.queued t, v.only_current t, r.is_current, r.has_slice);
  current_known = λ t e. ground (arith, v.current_known t);
  only_current = λ t e. ground (arith, v.only_current t);
}

asleep-idle :
    (k : Kernel) (c : ℕ)
    → Inv k
    → Runs c k
    → (t : ℕ) → run_state_of ((asleep c k).tasks t) ≢ some running
asleep-idle k c v r t e = ground (arith, v.only_current t, r.is_current)

-- The kernel after `sleep`.
abbrev pub slept : ℕ → ℕ → List ℕ → Kernel → Kernel
slept c h rest k = switched h rest (disable 0 (asleep c k))

asleep-queue :
    (k : Kernel) (c h : ℕ) (rest : List ℕ)
    → k.per_core_task_queue 0 ≡ h ∷ rest
    → (asleep c k).per_core_task_queue 0 ≡ h ∷ rest
asleep-queue k c h rest q = ground arith

pub sleep_lem :
    (k : Kernel) (c h : ℕ) (rest : List ℕ)
    → Inv k
    → Runs c k
    → k.per_core_task_queue 0 ≡ h ∷ rest
    → sleep 0 k ≡ done (h, slept c h rest k)
unfolding sleep
sleep_lem k c h rest v r q = ground (
  arith,
  r.is_current,
  r.has_slice,
  schedule_switches (asleep c k) h rest (asleep-Inv k c v r) (asleep-idle k c v r)
      (asleep-queue k c h rest q),
)

pub slept-Inv :
    (k : Kernel) (c h : ℕ) (rest : List ℕ)
    → Inv k
    → Runs c k
    → k.per_core_task_queue 0 ≡ h ∷ rest
    → Inv (slept c h rest k)
slept-Inv k c h rest v r q =
    switched-Inv (disable 0 (asleep c k)) h rest (disable-Inv (asleep c k) (asleep-Inv k c v r))
      (asleep-idle k c v r) (asleep-queue k c h rest q)

pub slept-Runs :
    (k : Kernel) (c h : ℕ) (rest : List ℕ)
    → Inv k
    → Runs c k
    → k.per_core_task_queue 0 ≡ h ∷ rest
    → Runs h (slept c h rest k)
slept-Runs k c h rest v r q =
    switched-Runs (disable 0 (asleep c k)) h rest
      (head_is_ready (asleep c k) h rest (asleep-Inv k c v r) (asleep-queue k c h rest q))

-- Where another task is ready, `sleep` puts the current task to sleep and hands the core to the task
-- that has been ready longest, which then has one unit of time; the invariant holds again.
pub sleep_hands_over :
    (k : Kernel) (c h : ℕ) (rest : List ℕ)
    → Inv k
    → Runs c k
    → k.per_core_task_queue 0 ≡ h ∷ rest
    → (k' : Kernel) × (sleep 0 k ≡ done (h, k'))
      × Inv k'
      × Runs h k'
      × (k'.per_core_task_queue 0 ≡ rest)
      × (run_state_of (k'.tasks c) ≡ some sleeping)
sleep_hands_over k c h rest v r q = (
  slept c h rest k,
  sleep_lem k c h rest v r q,
  slept-Inv k c h rest v r q,
  slept-Runs k c h rest v r q,
  refl,
  ground (arith, v.queued c, r.has_slice, q),
)

-- With no other task ready, `sleep` panics: the scheduler relies on an idle task.
pub sleep_alone :
    (k : Kernel) (c : ℕ) → Runs c k → k.per_core_task_queue 0 ≡ [] → sleep 0 k ≡ panic explicit
unfolding sleep schedule run_next
sleep_alone k c r q = ground (arith, r.is_current, r.has_slice)

abbrev pub asleep_state : Option RunState → Bool
asleep_state none = false
asleep_state (some r) = is_sleeping r

-- What `wake_up` does under its guard.
abbrev pub woken : ℕ → Kernel → Kernel
woken t k =
    if asleep_state (run_state_of (k.tasks t))
    then push t (store_sched t (set_run_state ready) k)
    else k

abbrev pub guarded : (Kernel → Kernel) → Kernel → Kernel
guarded f k = if is_enabled 0 k then enable 0 (f (disable 0 k)) else f k

woken-Inv : (k : Kernel) (t : ℕ) → Inv k → Inv (woken t k)
unfolding push
woken-Inv k t v = record {
  queued = λ u. ground (arith, v.queued u, count-append u (k.per_core_task_queue 0) (t ∷ []));
  current_known = λ u e. ground (arith, v.current_known u);
  only_current = λ u e. ground (arith, v.only_current u);
}

enable-Inv : (k : Kernel) → Inv k → Inv (enable 0 k)
enable-Inv k v = record {
  queued = v.queued;
  current_known = v.current_known;
  only_current = v.only_current;
}

pub guarded-woken-Inv : (k : Kernel) (t : ℕ) → Inv k → Inv (guarded (woken t) k)
guarded-woken-Inv k t v = elim (Bool-cases (is_enabled 0 k)) [
  | inl e ↦ rw e (enable-Inv _ (woken-Inv (disable 0 k) t (disable-Inv k v)))
  | inr e ↦ rw e (woken-Inv k t v)
]

-- Waking a task that exists never panics and keeps the invariant. A sleeping task becomes ready
-- and is queued behind the others; a task that is ready or runs is left as it was, so it is not
-- queued twice. All other tasks, the processes, the interrupt mask and the current task are as before.
pub wake_up_keeps :
    (k : Kernel) (t : ℕ) (task : Task)
    → Inv k
    → k.tasks t ≡ some task
    → (k' : Kernel) × (wake_up 0 t k ≡ done k')
      × Inv k'
      × (k'.per_core_task_queue 0 ≡ (
          if is_sleeping task.sched.run_state
          then k.per_core_task_queue 0 ++ t ∷ []
          else k.per_core_task_queue 0))
      × (k'.tasks t
          ≡ some (
              if is_sleeping task.sched.run_state
              then record task { sched = set_run_state ready task.sched }
              else task))
      × ((u : ℕ) → u ≢ t → k'.tasks u ≡ k.tasks u)
      × (k'.procs ≡ k.procs)
      × (k'.current_task 0 ≡ k.current_task 0)
      × (k'.interrupts 0 ≡ k.interrupts 0)
unfolding wake_up push
wake_up_keeps k t task v e = (
  guarded (woken t) k,
  ground arith,
  guarded-woken-Inv k t v,
  ground arith,
  ground arith,
  λ u ne. ground arith,
  ground arith,
  ground arith,
  ground arith,
)

-- Waking a task that is not in `TASKS` panics.
pub wake_up_unknown : (k : Kernel) (t : ℕ) → k.tasks t ≡ none → wake_up 0 t k ≡ panic unwrap_none
unfolding wake_up
wake_up_unknown k t e = ground arith

-- The state just after `Task::create`, before `register_new_task`: the new task is `Ready` and is the
-- only such task that is not queued.
pub record Created (t : ℕ) (k : Kernel) : Type 0 where
  pub is_new : sched_of (k.tasks t) ≡ some (record { run_state = ready; time_slice_units = 0 })
  pub not_queued : count t (k.per_core_task_queue 0) ≡ 0
  pub others_queued :
      (u : ℕ) → u ≢ t → count u (k.per_core_task_queue 0) ≡ times_queued (run_state_of (k.tasks u))
  pub current_known : (u : ℕ) → k.current_task 0 ≡ some u → k.tasks u ≢ none
  pub only_current : (u : ℕ) → run_state_of (k.tasks u) ≡ some running → k.current_task 0 ≡ some u

pushed-Inv : (k : Kernel) (t : ℕ) → Created t k → Inv (push t k)
unfolding push
pushed-Inv k t c = record {
  queued = λ u. ground (
    arith,
    c.others_queued u,
    c.is_new,
    c.not_queued,
    count-append u (k.per_core_task_queue 0) (t ∷ []),
  );
  current_known = λ u e. c.current_known u e;
  only_current = λ u e. c.only_current u e;
}

disable-Created : (k : Kernel) (t : ℕ) → Created t k → Created t (disable 0 k)
disable-Created k t c = record {
  is_new = c.is_new;
  not_queued = c.not_queued;
  others_queued = c.others_queued;
  current_known = c.current_known;
  only_current = c.only_current;
}

pub guarded-push-Inv : (k : Kernel) (t : ℕ) → Created t k → Inv (guarded (push t) k)
guarded-push-Inv k t c = elim (Bool-cases (is_enabled 0 k)) [
  | inl e ↦ rw e (enable-Inv _ (pushed-Inv (disable 0 k) t (disable-Created k t c)))
  | inr e ↦ rw e (pushed-Inv k t c)
]

pub register_new_task_lem :
    (k : Kernel) (t : ℕ) → Created t k → register_new_task 0 t k ≡ done (guarded (push t) k)
unfolding register_new_task
register_new_task_lem k t c = ground (arith, c.is_new)

-- Registering a task that was just created queues it behind the others, and the invariant holds.
pub register_new_task-Inv :
    (k : Kernel) (t : ℕ)
    → Created t k
    → (k' : Kernel) × (register_new_task 0 t k ≡ done k')
      × Inv k'
      × (k'.per_core_task_queue 0 ≡ k.per_core_task_queue 0 ++ t ∷ [])
      × (k'.tasks ≡ k.tasks)
unfolding register_new_task
register_new_task-Inv k t c = (
  guarded (push t) k,
  ground (arith, c.is_new),
  guarded-push-Inv k t c,
  unfold push in ground arith,
  unfold push in ground arith,
)
