-- ===== src/Proc/Examples.antt =====
-- A core with tasks, processes and locks, and the theorems of modules/pm at it.
use sophon_rpi_cross.Base.{
  ℕ, ◌≡◌, ◌≢◌, refl, true, false, Option, none, some, List, [], ◌∷◌, ◌++◌, done, panic, unwrap_none,
  if◌then◌else◌, ◌==◌, arith, ltb, count, ◌<◌,
}
use sophon_rpi_cross.Kernel.{
  ready, running, sleeping, Task, Process, Kernel, RawMutex, RawCondvar, run_state_of,
}
use sophon_rpi_cross.Scheduler.{schedule}
use sophon_rpi_cross.Scheduler.Invariant.{Inv, Runs}
use sophon_rpi_cross.Scheduler.Examples.{task_in}
use sophon_rpi_cross.Proc.{create, exit_task, exit_proc}
use sophon_rpi_cross.Proc.Create.{Fresh, create-Inv, new_process}
use sophon_rpi_cross.Proc.Exit.{CanExit, Exited, exit_proc-Inv, exit_with_ready_thread}
use sophon_rpi_cross.Proc.Exit.Tasks.{exit_task-Inv}
use sophon_rpi_cross.Proc.Locks.{sleeps, lock, unlock, notify_all, new_mutex}
use sophon_rpi_cross.Proc.Locks.Invariant.{
  LockInv, mutex_waiters, condvar_waiters, unlock_wakes, notify_all_wakes,
}
use sophon_rpi_cross.Proc.Locks.Contention.{lock_held}
use sophon_rpi_cross.Proc.Calls.{mutex_destroy, returns}
use sophon_rpi_cross.Proc.Calls.Foreign.{
  KeepsForeign, mutex_removed, mutex_destroy-removed, calls_keep_foreign,
}

abbrev owner : Process
owner = record {
  threads = 1 ∷ 2 ∷ [];
  live = record { value = true; waiters = [] };
  locks = 64 ∷ [];
  cvars = [];
}

abbrev other : Process
other = record {
  threads = 3 ∷ 4 ∷ 5 ∷ [];
  live = record { value = true; waiters = [] };
  locks = [];
  cvars = [];
}

abbrev sixty_four : RawMutex
sixty_four = record { is_locked = true; waiters = 4 ∷ [] }

abbrev eighty : RawCondvar
eighty = record { waiters = 5 ∷ [] }

abbrev tasks : ℕ → Option Task
tasks t =
    if t == 1
    then some (task_in running 1)
    else if t == 2
    then some (task_in ready 0)
    else if t == 3
    then some (task_in ready 0)
    else if t == 4
    then some (task_in sleeping 1)
    else if t == 5
    then some (task_in sleeping 1)
    else none

-- Task 1 runs and holds the mutex at 64, for which task 4 waits; task 5 waits on the condition
-- variable at 80; tasks 2 and 3 are ready. The mutex at 96 is free.
abbrev locking : Kernel
locking = record {
  current_task = λ core. if core == 0 then some 1 else none;
  per_core_task_queue = λ core. if core == 0 then 2 ∷ 3 ∷ [] else [];
  tasks = tasks;
  procs = λ p. if p == 1 then some owner else if p == 2 then some other else none;
  mutexes = λ m. if m == 64 then some sixty_four else if m == 96 then some new_mutex else none;
  condvars = λ c. if c == 80 then some eighty else none;
  interrupts = λ core. false;
  task_id_count = 6;
  proc_counter = 3;
}

locking-Inv : Inv locking
locking-Inv = record {
  queued = λ t. ground arith;
  current_known = λ t e. ground arith;
  only_current = λ t e. ground arith;
}

locking-Runs : Runs 1 locking
locking-Runs = record { is_current = refl; has_slice = refl }

locking-LockInv : LockInv locking
locking-LockInv = record {
  asleep = λ m t h. ground arith;
  held = λ m t h. ground arith;
  one_mutex = λ m n t h h'. ground arith;
  cv_asleep = λ c t h. ground arith;
  one_condvar = λ c d t h h'. ground arith;
  apart = λ m c t h. ground arith;
}

locking-Fresh : Fresh locking
locking-Fresh = record { tasks_fresh = λ t h. ground arith; procs_fresh = λ i h. ground arith }

unlock_wakes_example :
    (k' : Kernel) × (unlock 0 64 locking ≡ done k')
    × Inv k'
    × LockInv k'
    × (k'.mutexes 64 ≡ some new_mutex)
    × ((u : ℕ)
        → run_state_of (k'.tasks u)
          ≡ (if ltb 0 (count u (4 ∷ [])) then some ready else run_state_of (tasks u)))
    × (k'.current_task ≡ locking.current_task)
    × (k'.condvars ≡ locking.condvars)
    × ((more : List ℕ) × (k'.per_core_task_queue 0 ≡ (2 ∷ 3 ∷ []) ++ more))
    × (k'.interrupts 0 ≡ locking.interrupts 0)
    × ((u : ℕ) → Runs u locking → Runs u k')
unlock_wakes_example = unlock_wakes locking 64 sixty_four locking-Inv locking-LockInv refl

notify_all_wakes_example :
    (k' : Kernel) × (notify_all 0 80 locking ≡ done k')
    × Inv k'
    × LockInv k'
    × (condvar_waiters (k'.condvars 80) ≡ [])
    × ((u : ℕ)
        → run_state_of (k'.tasks u)
          ≡ (if ltb 0 (count u (5 ∷ [])) then some ready else run_state_of (tasks u)))
notify_all_wakes_example = notify_all_wakes locking 80 eighty locking-Inv locking-LockInv refl

lock_held_example :
    (k' : Kernel) × (lock 0 64 locking ≡ done (sleeps 2 k'))
    × Inv k'
    × LockInv k'
    × Runs 2 k'
    × (mutex_waiters (k'.mutexes 64) ≡ 4 ∷ 1 ∷ [])
    × (run_state_of (k'.tasks 1) ≡ some sleeping)
lock_held_example =
    lock_held locking 64 1 2 sixty_four (3 ∷ []) locking-Inv locking-LockInv locking-Runs refl refl
      refl

-- The same, with interrupts on.
abbrev locking_enabled : Kernel
locking_enabled = record locking { interrupts = λ core. true }

create-Inv_example :
    (k' : Kernel) × (create 0 (done tt) locking ≡ done (3, k'))
    × Inv k'
    × Fresh k'
    × (k'.procs 3 ≡ some (new_process 6))
    × (run_state_of (k'.tasks 6) ≡ some ready)
    × (k'.per_core_task_queue 0 ≡ 2 ∷ 3 ∷ 6 ∷ [])
    × ((i : ℕ) → i ≢ 3 → k'.procs i ≡ locking.procs i)
    × ((t : ℕ) → t ≢ 6 → k'.tasks t ≡ tasks t)
create-Inv_example = create-Inv locking locking-Inv locking-Fresh

owner-CanExit : CanExit 1 owner locking
owner-CanExit = record {
  is_proc = refl;
  threads_known = (λ e. cc, (λ e. cc, tt));
  distinct = λ u. ground arith;
  waiters_known = tt;
  outside = λ u h. ground arith;
}

-- Task 2 of the process is ready when task 1 makes the process exit.
exit_with_ready_thread_example :
    (k' : Kernel) × (more : List ℕ) × (exit_proc 0 1 locking ≡ done k')
    × (k'.per_core_task_queue 0 ≡ 2 ∷ 3 ∷ more)
    × (k'.tasks 2 ≡ none)
    × (k'.current_task 0 ≡ none)
    × (schedule 0 k' ≡ panic unwrap_none)
exit_with_ready_thread_example =
    exit_with_ready_thread locking 1 1 2 (3 ∷ []) owner locking-Inv owner-CanExit refl (omega arith)
      refl (omega arith)

exit_task-Inv_example :
    (k' : Kernel) × (exit_task 0 1 locking ≡ done k')
    × Inv k'
    × (k'.tasks 1 ≡ none)
    × (k'.current_task 0 ≡ none)
    × (k'.procs 1 ≡ some (record owner { threads = 2 ∷ [] }))
    × ((u : ℕ)
        → u ≢ 1
        → 0 < count u []
        → run_state_of (tasks u) ≡ some sleeping
        → run_state_of (k'.tasks u) ≡ some ready)
exit_task-Inv_example =
    exit_task-Inv locking 1 (task_in running 1) owner locking-Inv locking-Runs refl refl refl tt

-- Process 1 destroys its mutex at 64.
calls_keep_foreign_example : KeepsForeign 1 owner locking (mutex_removed 64 1 owner locking)
calls_keep_foreign_example =
    calls_keep_foreign 0 0 1 (mutex_destroy 64) locking (task_in running 1) owner
      (returns 0 (mutex_removed 64 1 owner locking)) refl refl refl
      (mutex_destroy-removed 0 0 64 1 locking (task_in running 1) owner refl refl refl)

abbrev single : Process
single = record {
  threads = 1 ∷ [];
  live = record { value = true; waiters = 4 ∷ [] };
  locks = [];
  cvars = [];
}

-- Task 1, which runs, is the only thread of process 1, for which task 4 waits.
abbrev leaving : Kernel
leaving = record locking {
  procs = λ p. if p == 1 then some single else if p == 2 then some other else none;
}

leaving-Inv : Inv leaving
leaving-Inv = record {
  queued = λ t. ground arith;
  current_known = λ t e. ground arith;
  only_current = λ t e. ground arith;
}

single-CanExit : CanExit 1 single leaving
single-CanExit = record {
  is_proc = refl;
  threads_known = (λ e. cc, tt);
  distinct = λ u. ground arith;
  waiters_known = (λ e. cc, tt);
  outside = λ u h. ground arith;
}

exit_proc-Inv_example :
    (k' : Kernel) × (exit_proc 0 1 leaving ≡ done k') × Exited 1 single leaving k' × Inv k'
exit_proc-Inv_example =
    exit_proc-Inv leaving 1 single leaving-Inv single-CanExit (λ u h e. ground arith)
