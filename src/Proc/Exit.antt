-- ===== src/Proc/Exit.antt =====
-- `Process::exit` of modules/pm/src/proc.rs, on one core, and what `schedule` does afterwards.
pub mod Tasks
pub mod Threads
use sophon_rpi_cross.Base.{
  ℕ, ◌+◌, ◌<◌, ◌≤◌, ◌≡◌, refl, ap, sym, ◌∙◌, ◌≢◌, Bool, true, false, Option, none, some, List, [],
  ◌∷◌, ◌++◌, Outcome, done, panic, unwrap_none, ◌>>=◌, update, without, if◌then◌else◌, ◌==◌, ltb,
  count, count-append, arith, Option-cases, Bool-cases, inl, inr,
}
use sophon_rpi_cross.Kernel.{
  RunState, ready, running, sleeping, State, Monitor, Task, Process, Kernel, disable, enable,
  is_enabled, run_state_of,
}
use sophon_rpi_cross.Scheduler.{schedule, run_next, remove_task, forget}
use sophon_rpi_cross.Scheduler.Invariant.{Inv, Runs, disable-Inv, sched_of, times_queued}
use sophon_rpi_cross.Proc.{
  exit_task, exit_proc, exit_masked, wake_all, remove_threads, current_task, set_task_live,
  set_proc_live, remove_thread, dead,
}
use sophon_rpi_cross.Proc.Waking.{AllKnown, SameBut, woken_state, wake_all_lem, rest_of_task}
use sophon_rpi_cross.Proc.Exit.Threads.{
  forget_all, forget_all-none, forget_all-some, remove_threads_lem, AllKnown-same, AllKnown-tasks,
}

-- What must hold of a process that exits: its threads are distinct and exist, and so do the tasks
-- that wait for it, none of which is its own thread.
pub record CanExit (id : ℕ) (p : Process) (k : Kernel) : Type 0 where
  pub is_proc : k.procs id ≡ some p
  pub threads_known : AllKnown p.threads k
  pub distinct : (u : ℕ) → count u p.threads ≤ 1
  pub waiters_known : AllKnown p.live.waiters k
  pub outside : (u : ℕ) → 0 < count u p.live.waiters → count u p.threads ≡ 0

-- What `exit_proc` leaves, whatever its threads are doing.
pub record Exited (id : ℕ) (p : Process) (k k' : Kernel) : Type 0 where
  pub proc_gone : k'.procs id ≡ none
  pub threads_gone : (u : ℕ) → 0 < count u p.threads → k'.tasks u ≡ none
  pub others :
      (u : ℕ)
      → count u p.threads ≡ 0
      → run_state_of (k'.tasks u)
        ≡ woken_state (ltb 0 (count u p.live.waiters)) (run_state_of (k.tasks u))
  pub queue_grows : (more : List ℕ) × (k'.per_core_task_queue 0 ≡ k.per_core_task_queue 0 ++ more)
  pub core_left : k'.current_task 0 ≡ forget_all p.threads (k.current_task 0)
  pub mask_same : k'.interrupts 0 ≡ k.interrupts 0
  pub each_queued :
      (u : ℕ)
      → count u (k'.per_core_task_queue 0)
        ≡ times_queued (woken_state (ltb 0 (count u p.live.waiters)) (run_state_of (k.tasks u)))

proc_marked : ℕ → Kernel → Kernel
proc_marked id k = record k { procs = update k.procs id (set_proc_live dead (k.procs id)) }

proc_marked-Inv : (k : Kernel) (id : ℕ) → Inv k → Inv (proc_marked id k)
unfolding proc_marked
proc_marked-Inv k id v = record {
  queued = v.queued;
  current_known = v.current_known;
  only_current = v.only_current;
}

module _ (k k₂ k₃ : Kernel) (id : ℕ) (p : Process)
    (st₂ : (u : ℕ)
      → run_state_of (k₂.tasks u)
        ≡ woken_state (ltb 0 (count u p.live.waiters)) (run_state_of (k.tasks u)))
    (v₂ : Inv k₂) (cur₂ : k₂.current_task ≡ k.current_task) (more : List ℕ)
    (q₂ : k₂.per_core_task_queue 0 ≡ k.per_core_task_queue 0 ++ more)
    (t₃ : (u : ℕ) → k₃.tasks u ≡ (if ltb 0 (count u p.threads) then none else k₂.tasks u))
    (c₃ : k₃.current_task 0 ≡ forget_all p.threads (k₂.current_task 0))
    (q₃ : k₃.per_core_task_queue ≡ k₂.per_core_task_queue)
    (mask₃ : k₃.interrupts 0 ≡ k.interrupts 0) where
  parts-Exited : Exited id p k (record k₃ { procs = update k₃.procs id none })
  parts-Exited = record {
    proc_gone = ground arith;
    threads_gone = λ u h. ground (arith, t₃ u);
    others = λ u h. ground (arith, t₃ u, st₂ u);
    queue_grows = (more, ground arith);
    core_left = c₃ ∙ ap (λ (f : ℕ → Option ℕ). forget_all p.threads (f 0)) cur₂;
    mask_same = mask₃;
    each_queued = λ u. rw q₃ (v₂.queued u ∙ ap times_queued (st₂ u));
  }

proc_marked-masked : (k : Kernel) (id : ℕ) → (proc_marked id k).interrupts ≡ k.interrupts
unfolding proc_marked
proc_marked-masked k id = refl

exit_masked_parts :
    (k k₂ k₃ : Kernel) (id : ℕ) (p : Process)
    → k.procs id ≡ some p
    → wake_all 0 p.live.waiters (proc_marked id k) ≡ done k₂
    → remove_threads 0 p.threads k₂ ≡ done k₃
    → exit_masked 0 id k ≡ done (record k₃ { procs = update k₃.procs id none })
unfolding exit_masked proc_marked
exit_masked_parts k k₂ k₃ id p e e₂ e₃ = ground arith

exit_masked_lem :
    (k : Kernel) (id : ℕ) (p : Process)
    → Inv k
    → CanExit id p k
    → k.interrupts 0 ≡ false
    → (k' : Kernel) × (exit_masked 0 id k ≡ done k') × Exited id p k k'
unfolding proc_marked
exit_masked_lem k id p v x off =
    let k₁ = proc_marked id k in
    let known = λ (ts : List ℕ). AllKnown-tasks ts k k₁ refl in
    let (k₂, e₂, v₂, s₂, st₂, more₂, _) =
      wake_all_lem p.live.waiters k₁ (proc_marked-Inv k id v)
        (known p.live.waiters x.waiters_known) in
    let (k₃, e₃, t₃, c₃, q₃, i₃, p₃) =
      remove_threads_lem p.threads k₂ (s₂.mask_same ∙ off)
        (AllKnown-same p.threads k₁ k₂ s₂ (known p.threads x.threads_known)) x.distinct in
    (
      record k₃ { procs = update k₃.procs id none },
      exit_masked_parts k k₂ k₃ id p x.is_proc e₂ e₃,
      parts-Exited k k₂ k₃ id p st₂ v₂ s₂.current_same more₂.0 more₂.1 t₃ c₃ q₃ (i₃ ∙ sym off),
    )

unmasked-Exited :
    (id : ℕ) (p : Process) (k k' : Kernel)
    → is_enabled 0 k ≡ true
    → Exited id p (disable 0 k) k'
    → Exited id p k (enable 0 k')
unmasked-Exited id p k k' on y = record {
  proc_gone = y.proc_gone;
  threads_gone = y.threads_gone;
  others = y.others;
  queue_grows = y.queue_grows;
  core_left = y.core_left;
  mask_same = ground arith;
  each_queued = y.each_queued;
}

disable-CanExit : (id : ℕ) (p : Process) (k : Kernel) → CanExit id p k → CanExit id p (disable 0 k)
disable-CanExit id p k x = record {
  is_proc = x.is_proc;
  threads_known = AllKnown-tasks p.threads k (disable 0 k) refl x.threads_known;
  distinct = x.distinct;
  waiters_known = AllKnown-tasks p.live.waiters k (disable 0 k) refl x.waiters_known;
  outside = x.outside;
}

-- `exit_proc` does not panic, and this is what it leaves.
pub exit_proc_lem :
    (k : Kernel) (id : ℕ) (p : Process)
    → Inv k
    → CanExit id p k
    → (k' : Kernel) × (exit_proc 0 id k ≡ done k') × Exited id p k k'
unfolding exit_proc
exit_proc_lem k id p v x = elim (Bool-cases (is_enabled 0 k)) [
  | inl on ↦
      let (k', e, y) =
        exit_masked_lem (disable 0 k) id p (disable-Inv k v) (disable-CanExit id p k x) refl in
      (enable 0 k', ground (arith, e), unmasked-Exited id p k k' on y)
  | inr off ↦ let (k', e, y) = exit_masked_lem k id p v x off in (k', ground (arith, e), y)
]

-- The exit of a process that is in `PROCS`, with threads that are distinct and in `TASKS`, none of
-- them ready (as when the caller is its only thread), and for which only tasks wait that are in
-- `TASKS` and no threads of it: it goes through, the process and its threads are gone, the tasks that
-- waited for it are ready, and the invariant holds: the queue names living tasks only.
pub exit_proc-Inv :
    (k : Kernel) (id : ℕ) (p : Process)
    → Inv k
    → CanExit id p k
    → ((u : ℕ) → 0 < count u p.threads → run_state_of (k.tasks u) ≢ some ready)
    → (k' : Kernel) × (exit_proc 0 id k ≡ done k') × Exited id p k k' × Inv k'
exit_proc-Inv k id p v x idle =
    let (k', e, y) = exit_proc_lem k id p v x in
    (
      k',
      e,
      y,
      record {
        queued =
            λ u. ground (arith, y.each_queued u, y.others u, y.threads_gone u, idle u, x.outside u);
        current_known = λ u h. elim (Option-cases (k.current_task 0)) [
          | inl n ↦ cc (h, y.core_left, n, forget_all-none p.threads)
          | inr (c, n) ↦ λ e. ground (
            arith,
            h,
            y.core_left,
            n,
            e,
            forget_all-some p.threads c,
            v.current_known c n,
            y.others c,
          )
        ];
        only_current = λ u h. ground (
          arith,
          h,
          y.core_left,
          y.others u,
          y.threads_gone u,
          v.only_current u,
          forget_all-some p.threads u,
        );
      },
    )

-- When the current task makes its process exit and the task at the head of the queue is a thread
-- of the same process, the exit goes through and leaves that thread's id at the head of the queue,
-- though the thread is no longer in `TASKS` and no task has the core; `schedule`, which the system
-- call makes next, panics on it. The threads of the process are distinct and in `TASKS`, and so are
-- the tasks that wait for it, none of which is a thread of it.
pub exit_with_ready_thread :
    (k : Kernel) (id c h : ℕ) (rest : List ℕ) (p : Process)
    → Inv k
    → CanExit id p k
    → k.current_task 0 ≡ some c
    → 0 < count c p.threads
    → k.per_core_task_queue 0 ≡ h ∷ rest
    → 0 < count h p.threads
    → (k' : Kernel) × (more : List ℕ) × (exit_proc 0 id k ≡ done k')
      × (k'.per_core_task_queue 0 ≡ h ∷ rest ++ more)
      × (k'.tasks h ≡ none)
      × (k'.current_task 0 ≡ none)
      × (schedule 0 k' ≡ panic unwrap_none)
unfolding schedule run_next
exit_with_ready_thread k id c h rest p v x cur cin q hin =
    let (k', e, y) = exit_proc_lem k id p v x in
    let queue : k'.per_core_task_queue 0 ≡ h ∷ rest ++ y.queue_grows.0 =
      ground (arith, y.queue_grows.1, q) in
    let idle : k'.current_task 0 ≡ none =
      ground (arith, y.core_left, cur, forget_all-some p.threads c) in
    let gone = y.threads_gone h hin in
    (k', y.queue_grows.0, e, queue, gone, idle, ground (arith, queue, idle, gone))
