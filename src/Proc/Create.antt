-- ===== src/Proc/Create.antt =====
-- `Process::create` and `Proc::spawn_task` of modules/pm/src/proc.rs, on one core.
use sophon_rpi_cross.Base.{
  ℕ, ◌+◌, ◌≤◌, ◌≡◌, ◌≢◌, Option, none, some, [], ◌∷◌, ◌++◌, done, panic, update, if◌then◌else◌,
  arith, Panic,
}
use sophon_rpi_cross.Kernel.{ready, Process, Kernel, disable, enable, is_enabled, run_state_of}
use sophon_rpi_cross.Scheduler.{new_state, push}
use sophon_rpi_cross.Scheduler.Invariant.{Inv}
use sophon_rpi_cross.Scheduler.Blocking.{Created, guarded, register_new_task_lem, guarded-push-Inv}
use sophon_rpi_cross.Proc.{create, new_monitor}

-- Ids from the counters on are not in use.
pub record Fresh (k : Kernel) : Type 0 where
  pub tasks_fresh : (t : ℕ) → k.task_id_count ≤ t → k.tasks t ≡ none
  pub procs_fresh : (i : ℕ) → k.proc_counter ≤ i → k.procs i ≡ none

-- The kernel with a new task `t` of process `id`, and the processes `procs`, before the task is
-- registered.
abbrev with_task : ℕ → ℕ → (ℕ → Option Process) → ℕ → Kernel → Kernel
with_task t id procs next k = record k {
  tasks = update k.tasks t (some (record { proc = id; live = new_monitor; sched = new_state }));
  task_id_count = t + 1;
  procs = procs;
  proc_counter = next;
}

with_task-Created :
    (k : Kernel) (t id next : ℕ) (procs : ℕ → Option Process)
    → Inv k
    → k.tasks t ≡ none
    → Created t (with_task t id procs next k)
with_task-Created k t id next procs v unused = record {
  is_new = ground arith;
  not_queued = ground (arith, v.queued t);
  others_queued = λ u n. ground (arith, v.queued u);
  current_known = λ u e. ground (arith, v.current_known u);
  only_current = λ u e. ground (arith, v.only_current u);
}

abbrev pub new_process : ℕ → Process
new_process t = record { threads = t ∷ []; live = new_monitor; locks = []; cvars = [] }

abbrev masked : Kernel → Kernel
masked k = if is_enabled 0 k then disable 0 k else k

abbrev unmasked : Kernel → Kernel → Kernel
unmasked k k' = if is_enabled 0 k then enable 0 k' else k'

Inv-unmasked : (k k' : Kernel) → Inv k' → Inv (unmasked k k')
Inv-unmasked k k' v = record {
  queued = λ t. ground (arith, v.queued t);
  current_known = λ t e. ground (arith, v.current_known t);
  only_current = λ t e. ground (arith, v.only_current t);
}

Inv-masked : (k : Kernel) → Inv k → Inv (masked k)
Inv-masked k v = record {
  queued = λ t. ground (arith, v.queued t);
  current_known = λ t e. ground (arith, v.current_known t);
  only_current = λ t e. ground (arith, v.only_current t);
}

-- Creating a process gives it the next id and one thread, with the next task id, that is ready and
-- queued behind the others. The other tasks and processes are as before, the counters have moved on
-- past both ids, and the invariants hold.
pub create-Inv :
    (k : Kernel)
    → Inv k
    → Fresh k
    → (k' : Kernel) × (create 0 (done tt) k ≡ done (k.proc_counter, k'))
      × Inv k'
      × Fresh k'
      × (k'.procs k.proc_counter ≡ some (new_process k.task_id_count))
      × (run_state_of (k'.tasks k.task_id_count) ≡ some ready)
      × (k'.per_core_task_queue 0 ≡ k.per_core_task_queue 0 ++ k.task_id_count ∷ [])
      × ((i : ℕ) → i ≢ k.proc_counter → k'.procs i ≡ k.procs i)
      × ((t : ℕ) → t ≢ k.task_id_count → k'.tasks t ≡ k.tasks t)
unfolding create push
create-Inv k v f =
    let id = k.proc_counter in
    let t = k.task_id_count in
    let k₀ = masked k in
    let procs = update k.procs id (some (new_process t)) in
    let k₁ = with_task t id procs (id + 1) k₀ in
    let c₁ : Created t k₁ =
      with_task-Created k₀ t id (id + 1) procs (Inv-masked k v) (ground (arith, f.tasks_fresh t)) in
    let k₂ = guarded (push t) k₁ in
    let k₃ = unmasked k k₂ in
    (
      k₃,
      ground (arith, register_new_task_lem k₁ t c₁),
      Inv-unmasked k k₂ (guarded-push-Inv k₁ t c₁),
      record {
        tasks_fresh = λ u h. ground (arith, f.tasks_fresh u);
        procs_fresh = λ i h. ground (arith, f.procs_fresh i);
      },
      ground arith,
      ground arith,
      ground arith,
      λ i n. ground arith,
      λ u n. ground arith,
    )

-- If the VFS cannot open the terminal, no process is made.
create_vfs_panics : (k : Kernel) (p : Panic) → create 0 (panic p) k ≡ panic p
unfolding create
create_vfs_panics k p = ground arith
