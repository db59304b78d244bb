-- ===== src/Proc/Exit/Tasks.antt =====
-- `Task::exit` of modules/pm/src/task.rs, on one core.
use sophon_rpi_cross.Base.{
  ℕ, ◌<◌, ◌≡◌, ◌≢◌, false, none, some, List, [], ◌∷◌, done, update, without, count, arith,
}
use sophon_rpi_cross.Kernel.{ready, sleeping, Monitor, Task, Process, Kernel, run_state_of}
use sophon_rpi_cross.Scheduler.{remove_task}
use sophon_rpi_cross.Scheduler.Invariant.{Inv, Runs}
use sophon_rpi_cross.Proc.{exit_task, set_task_live, remove_thread, dead}
use sophon_rpi_cross.Proc.Waking.{AllKnown, wake_all_lem}

-- The kernel with task `id` gone.
abbrev gone : ℕ → Kernel → Kernel
gone id k = record k { tasks = update k.tasks id none; current_task = update k.current_task 0 none }

gone-Inv : (k : Kernel) (id : ℕ) → Inv k → Runs id k → Inv (gone id k)
gone-Inv k id v r = record {
  queued = λ t. ground (arith, v.queued t, r.has_slice);
  current_known = λ t e. ground arith;
  only_current = λ t e. ground (arith, v.only_current t, r.is_current);
}

set_live-Inv :
    (k : Kernel) (id : ℕ) (m : Monitor)
    → Inv k
    → Inv (record k { tasks = update k.tasks id (set_task_live m (k.tasks id)) })
set_live-Inv k id m v = record {
  queued = λ t. ground (arith, v.queued t);
  current_known = λ t e. ground (arith, v.current_known t);
  only_current = λ t e. ground (arith, v.only_current t);
}

set_live-known :
    (ts : List ℕ) (k : Kernel) (id : ℕ) (m : Monitor)
    → AllKnown ts k
    → AllKnown ts (record k { tasks = update k.tasks id (set_task_live m (k.tasks id)) })
set_live-known [] k id m a = tt
set_live-known (t ∷ ts) k id m a = (λ e. ground (arith, a.0), set_live-known ts k id m a.1)

-- A task that exits is gone from `TASKS` and from its process, the core has no current task, every
-- task that waited for it is ready, and the invariant holds: nothing of it stays behind in the queue.
pub exit_task-Inv :
    (k : Kernel) (id : ℕ) (task : Task) (p : Process)
    → Inv k
    → Runs id k
    → k.interrupts 0 ≡ false
    → k.tasks id ≡ some task
    → k.procs task.proc ≡ some p
    → AllKnown task.live.waiters k
    → (k' : Kernel) × (exit_task 0 id k ≡ done k')
      × Inv k'
      × (k'.tasks id ≡ none)
      × (k'.current_task 0 ≡ none)
      × (k'.procs task.proc ≡ some (record p { threads = without id p.threads }))
      × ((u : ℕ)
          → u ≢ id
          → 0 < count u task.live.waiters
          → run_state_of (k.tasks u) ≡ some sleeping
          → run_state_of (k'.tasks u) ≡ some ready)
unfolding exit_task remove_task
exit_task-Inv k id task p v r off e pe known =
    let k₁ = record k { tasks = update k.tasks id (set_task_live dead (k.tasks id)) } in
    let v₁ = set_live-Inv k id dead v in
    let known₁ = set_live-known task.live.waiters k id dead known in
    let (k₂, e₂, v₂, s₂, st₂, more₂, runs₂) = wake_all_lem task.live.waiters k₁ v₁ known₁ in
    let r₁ : Runs id k₁ = record {
      is_current = r.is_current;
      has_slice = ground (arith, r.has_slice);
    } in
    let r₂ = runs₂ id r₁ in
    let k₃ = record k₂ {
      procs = update k₂.procs task.proc (remove_thread id (k₂.procs task.proc));
    } in
    let g = gone-Inv k₂ id v₂ r₂ in
    (
      gone id k₃,
      ground (arith, e₂, r₂.is_current, r₂.has_slice, s₂.procs_same, s₂.mask_same, off),
      record { queued = g.queued; current_known = g.current_known; only_current = g.only_current },
      ground arith,
      ground arith,
      ground (arith, s₂.procs_same),
      λ u n w s. ground (arith, st₂ u),
    )
