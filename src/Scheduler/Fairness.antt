-- ===== src/Scheduler/Fairness.antt =====
-- The timer on one core: `timer_tick` of modules/round-robin against a rotation of the waiting tasks.
use sophon_rpi_cross.Base.{
  ℕ, zero, suc, ◌≡◌, refl, subst, ◌∙◌, ◌≢◌, false, some, List, [], ◌∷◌, ◌++◌, Outcome, done, ◌>>=◌,
  count-append, arith, get_elem?,
}
use sophon_rpi_cross.Kernel.{ready, running, Kernel, disable, store_sched, run_state_of}
use sophon_rpi_cross.Scheduler.{
  schedule, push, set_run_state, enqueue_current_task_as_ready, timer_tick,
}
use sophon_rpi_cross.Scheduler.Invariant.{
  Inv, Runs, switched, schedule_switches, switched-Runs, switched-Inv, head_is_ready, disable-Inv,
}

-- What a client of the scheduler sees: the task that has the core, and the tasks that wait for it.
pub record RoundRobin : Type 0 where
  pub running_task : ℕ
  pub waiting : List ℕ

-- The first of the waiting tasks, or the same task again if none waits.
abbrev pub head_of : List ℕ → ℕ → ℕ
head_of [] c = c
head_of (h ∷ rest) c = h

abbrev pub rest_of : List ℕ → ℕ → List ℕ
rest_of [] c = []
rest_of (h ∷ rest) c = rest ++ c ∷ []

-- One unit of time passes.
abbrev pub rotate : RoundRobin → RoundRobin
rotate r = record {
  running_task = head_of r.waiting r.running_task;
  waiting = rest_of r.waiting r.running_task;
}

-- `k` shows `r`.
pub record Shows (k : Kernel) (r : RoundRobin) : Type 0 where
  pub inv : Inv k
  pub runs : Runs r.running_task k
  pub waits : k.per_core_task_queue 0 ≡ r.waiting

-- What a tick does before it calls `schedule`, with interrupts off.
abbrev requeued : ℕ → Kernel → Kernel
requeued c k = push c (
    store_sched c (set_run_state ready)
      (store_sched c (λ s. record { run_state = s.run_state; time_slice_units = 0 }) k))

requeued-Inv : (k : Kernel) (c : ℕ) → Inv k → Runs c k → Inv (requeued c k)
unfolding push
requeued-Inv k c v r = record {
  queued = λ t. ground (
    arith,
    v.queued t,
    v.only_current t,
    r.is_current,
    r.has_slice,
    count-append t (k.per_core_task_queue 0) (c ∷ []),
  );
  current_known = λ t e. ground (arith, v.current_known t);
  only_current = λ t e. ground (arith, v.only_current t);
}

requeued-idle :
    (k : Kernel) (c : ℕ)
    → Inv k
    → Runs c k
    → (t : ℕ) → run_state_of ((requeued c k).tasks t) ≢ some running
unfolding push
requeued-idle k c v r t e = ground (arith, v.only_current t, r.is_current)

timer_tick_lem :
    (k : Kernel) (c : ℕ)
    → k.interrupts 0 ≡ false
    → Runs c k
    → timer_tick 0 k ≡ schedule 0 (requeued c k)
unfolding timer_tick enqueue_current_task_as_ready
timer_tick_lem k c off r = ground (arith, r.is_current, r.has_slice)

requeued-queue :
    (k : Kernel) (c : ℕ) (q : List ℕ)
    → k.per_core_task_queue 0 ≡ q
    → (requeued c k).per_core_task_queue 0 ≡ head_of q c ∷ rest_of q c
unfolding push
requeued-queue k c [] e = ground (arith, e)
requeued-queue k c (h ∷ rest) e = ground (arith, e)

-- The kernel after a tick.
abbrev ticked : RoundRobin → Kernel → Kernel
ticked r k =
    switched (rotate r).running_task (rotate r).waiting (disable 0 (requeued r.running_task k))

-- A timer interrupt is one rotation: the task that had the core goes behind the waiting tasks, the
-- first of them gets the core for one unit of time, the interrupts stay off, and nothing panics.
pub timer_tick-rotates :
    (k : Kernel) (r : RoundRobin)
    → Shows k r
    → k.interrupts 0 ≡ false
    → (k' : Kernel) × (timer_tick 0 k ≡ done ((rotate r).running_task, k'))
      × Shows k' (rotate r)
      × (k'.interrupts 0 ≡ false)
timer_tick-rotates k r s off =
    let c = r.running_task in
    let h = (rotate r).running_task in
    let rest = (rotate r).waiting in
    let a = requeued c k in
    let av = requeued-Inv k c s.inv s.runs in
    let idle = requeued-idle k c s.inv s.runs in
    let aq = requeued-queue k c r.waiting s.waits in
    (
      ticked r k,
      timer_tick_lem k c off s.runs ∙ schedule_switches a h rest av idle aq,
      record {
        inv = switched-Inv (disable 0 a) h rest (disable-Inv a av) idle aq;
        runs = switched-Runs (disable 0 a) h rest (head_is_ready a h rest av aq);
        waits = refl;
      },
      refl,
    )

-- `n` timer interrupts in a row, each taken with interrupts masked.
pub run_ticks : ℕ → ℕ → Kernel → Outcome (ℕ × Kernel)
run_ticks zero c k = done (c, k)
run_ticks (suc n) c k = do (c', k') ← timer_tick 0 (disable 0 k); run_ticks n c' k'

pub rotations : ℕ → RoundRobin → RoundRobin
rotations zero r = r
rotations (suc n) r = rotations n (rotate r)

disable-Shows : (k : Kernel) (r : RoundRobin) → Shows k r → Shows (disable 0 k) r
disable-Shows k r s = record {
  inv = disable-Inv k s.inv;
  runs = record { is_current = s.runs.is_current; has_slice = s.runs.has_slice };
  waits = s.waits;
}

-- Any number of timer interrupts is that number of rotations.
pub run_ticks-rotations :
    (n : ℕ) (k : Kernel) (r : RoundRobin)
    → Shows k r
    → (k' : Kernel) × (run_ticks n r.running_task k ≡ done ((rotations n r).running_task, k'))
      × Shows k' (rotations n r)
unfolding run_ticks rotations
run_ticks-rotations zero k r s = (k, refl, s)
run_ticks-rotations (suc n) k r s =
    let (k₁, e₁, s₁, _) = timer_tick-rotates (disable 0 k) r (disable-Shows k r s) refl in
    let (k₂, e₂, s₂) = run_ticks-rotations n k₁ (rotate r) s₁ in (k₂, rw e₁ e₂, s₂)

-- In the specification a waiting task moves up by one place with each rotation.
rotations-serves :
    (i : ℕ) (r : RoundRobin) (t : ℕ)
    → get_elem? r.waiting i ≡ some t
    → (rotations (suc i) r).running_task ≡ t
unfolding rotations
rotations-serves i r t e = go i r.waiting r.running_task e
  where
    get_elem?-append :
        (xs : List ℕ) (j : ℕ) (c : ℕ)
        → get_elem? xs j ≡ some t
        → get_elem? (xs ++ c ∷ []) j ≡ some t
    get_elem?-append [] j c h = cc
    get_elem?-append (x ∷ xs) zero c h = h
    get_elem?-append (x ∷ xs) (suc j) c h = get_elem?-append xs j c h

    go :
        (j : ℕ) (q : List ℕ) (c : ℕ)
        → get_elem? q j ≡ some t
        → (rotations j (rotate (record { running_task = c; waiting = q }))).running_task ≡ t
    go zero [] c h = cc
    go zero (x ∷ xs) c h = cc
    go (suc j) [] c h = cc
    go (suc j) (x ∷ xs) c h = go j (xs ++ c ∷ []) x (get_elem?-append xs j c h)

-- No task starves: the one at place `i` of the queue has the core after `i + 1` timer interrupts
-- with nothing else between them, whatever the other tasks are.
pub waiting_task_has_turn :
    (i : ℕ) (k : Kernel) (r : RoundRobin) (t : ℕ)
    → Shows k r
    → get_elem? r.waiting i ≡ some t
    → (k' : Kernel) × (run_ticks (suc i) r.running_task k ≡ done (t, k')) × Runs t k'
waiting_task_has_turn i k r t s e =
    let (k', run_eq, s') = run_ticks-rotations (suc i) k r s in
    let served = rotations-serves i r t e in
    (k', rw served at run_eq, subst (λ u. Runs u k') served s'.runs)
