-- ===== src/Scheduler/Examples.antt =====
-- A core with three tasks, and the theorems of the scheduler at it.
use sophon_rpi_cross.Base.{
  ℕ, ◌≡◌, ◌≢◌, refl, true, false, none, some, [], ◌∷◌, done, if◌then◌else◌, ◌==◌, arith,
}
use sophon_rpi_cross.Kernel.{RunState, ready, running, sleeping, Task, Kernel, run_state_of}
use sophon_rpi_cross.Scheduler.{sleep, wake_up, timer_tick}
use sophon_rpi_cross.Scheduler.Invariant.{Inv, Runs}
use sophon_rpi_cross.Scheduler.Blocking.{sleep_hands_over, wake_up_keeps}
use sophon_rpi_cross.Scheduler.Fairness.{
  Shows, run_ticks, timer_tick-rotates, waiting_task_has_turn,
}

abbrev pub task_in : RunState → ℕ → Task
task_in r units = record {
  proc = 1;
  live = record { value = true; waiters = [] };
  sched = record { run_state = r; time_slice_units = units };
}

-- Task 1 runs, 2 and 3 wait for the core, 4 sleeps.
abbrev pub busy : Kernel
busy = record {
  current_task = λ core. if core == 0 then some 1 else none;
  per_core_task_queue = λ core. if core == 0 then 2 ∷ 3 ∷ [] else [];
  tasks = λ t.
      if t == 1
      then some (task_in running 1)
      else if t == 2
      then some (task_in ready 0)
      else if t == 3
      then some (task_in ready 0)
      else if t == 4
      then some (task_in sleeping 1)
      else none;
  procs = λ p. none;
  mutexes = λ m. none;
  condvars = λ c. none;
  interrupts = λ core. false;
  task_id_count = 5;
  proc_counter = 2;
}

busy-Inv : Inv busy
busy-Inv = record {
  queued = λ t. ground arith;
  current_known = λ t e. ground arith;
  only_current = λ t e. ground arith;
}

busy-Runs : Runs 1 busy
busy-Runs = record { is_current = refl; has_slice = refl }

busy-Shows : Shows busy (record { running_task = 1; waiting = 2 ∷ 3 ∷ [] })
busy-Shows = record { inv = busy-Inv; runs = busy-Runs; waits = refl }

waiting_task_has_turn_example : (k' : Kernel) × (run_ticks 2 1 busy ≡ done (3, k')) × Runs 3 k'
waiting_task_has_turn_example =
    waiting_task_has_turn 1 busy (record { running_task = 1; waiting = 2 ∷ 3 ∷ [] }) 3 busy-Shows
      refl

timer_tick-rotates_example :
    (k' : Kernel) × (timer_tick 0 busy ≡ done (2, k'))
    × Shows k' (record { running_task = 2; waiting = 3 ∷ 1 ∷ [] })
    × (k'.interrupts 0 ≡ false)
timer_tick-rotates_example =
    timer_tick-rotates busy (record { running_task = 1; waiting = 2 ∷ 3 ∷ [] }) busy-Shows refl

sleep_hands_over_example :
    (k' : Kernel) × (sleep 0 busy ≡ done (2, k'))
    × Inv k'
    × Runs 2 k'
    × (k'.per_core_task_queue 0 ≡ 3 ∷ [])
    × (run_state_of (k'.tasks 1) ≡ some sleeping)
sleep_hands_over_example = sleep_hands_over busy 1 2 (3 ∷ []) busy-Inv busy-Runs refl

wake_up_keeps_example :
    (k' : Kernel) × (wake_up 0 4 busy ≡ done k')
    × Inv k'
    × (k'.per_core_task_queue 0 ≡ 2 ∷ 3 ∷ 4 ∷ [])
    × (k'.tasks 4 ≡ some (task_in ready 1))
    × ((u : ℕ) → u ≢ 4 → k'.tasks u ≡ busy.tasks u)
    × (k'.procs ≡ busy.procs)
    × (k'.current_task 0 ≡ some 1)
    × (k'.interrupts 0 ≡ false)
wake_up_keeps_example = wake_up_keeps busy 4 (task_in sleeping 1) busy-Inv refl
