-- ===== src/Scheduler.antt =====
-- modules/round-robin/src/lib.rs: the round-robin scheduler. `core` is what `SERVICE.current_core()`
-- returns; the functions that never return hand back the task whose user code runs next.
pub mod Invariant
pub mod Blocking
pub mod Fairness
pub mod Examples
use sophon_rpi_cross.Base.{
  ℕ, ◌-◌, Bool, true, false, not, Option, none, some, List, [], ◌∷◌, ◌++◌, Outcome, done, panic,
  explicit, ◌>>=◌, ◌>>◌, assert, unwrap, update, if◌then◌else◌, ◌==◌,
}
use sophon_rpi_cross.Kernel.{
  RunState, ready, running, sleeping, is_ready, is_running, is_sleeping, State, Task, Kernel,
  disable, is_enabled, uninterruptible, store_sched,
}

abbrev pub unit_time_slice : ℕ
unit_time_slice = 1

-- `State::new`, which is what `new_state` boxes.
abbrev pub new_state : State
new_state = record { run_state = ready; time_slice_units = 0 }

unfoldable pub get_current_task_id : ℕ → Kernel → Option ℕ
get_current_task_id core k = k.current_task core

unfoldable pub set_current_task_id : ℕ → ℕ → Kernel → Kernel
set_current_task_id core id k = record k { current_task = update k.current_task core (some id) }

-- `pop` is that of the queue of this core.
unfoldable pub get_next_schedulable_task : ℕ → Kernel → Outcome (ℕ × Kernel)
get_next_schedulable_task core k = do
  assert (not (is_enabled core k))
  elim (k.per_core_task_queue core) [
    | [] ↦ panic explicit
    | t ∷ rest ↦ done (t, record k { per_core_task_queue = update k.per_core_task_queue core rest })
  ]

unfoldable pub get_state : ℕ → Kernel → Outcome State
get_state t k = do task ← unwrap (k.tasks t); done task.sched

-- `push` is always onto the queue of core 0.
unfoldable pub push : ℕ → Kernel → Kernel
push t k = record k {
  per_core_task_queue = update k.per_core_task_queue 0 (k.per_core_task_queue 0 ++ t ∷ []);
}

abbrev pub set_run_state : RunState → State → State
set_run_state r s = record s { run_state = r }

unfoldable pub enqueue_current_task_as_ready : ℕ → Kernel → Outcome Kernel
unfolding get_current_task_id get_state push
enqueue_current_task_as_ready core k = do
  assert (not (is_enabled core k))
  t ← unwrap (get_current_task_id core k)
  state ← get_state t k
  assert (not (is_ready state.run_state))
  done (push t (store_sched t (set_run_state ready) k))

unfoldable pub register_new_task : ℕ → ℕ → Kernel → Outcome Kernel
unfolding get_state push uninterruptible
register_new_task core t = uninterruptible core λ k. do
  state ← get_state t k
  if is_ready state.run_state
      then (do assert (not (is_enabled core k)); done (push t k))
      else done k

abbrev pub forget : ℕ → Option ℕ → Option ℕ
forget t none = none
forget t (some c) = if c == t then none else some c

unfoldable pub remove_task : ℕ → ℕ → Kernel → Outcome Kernel
remove_task core t k = do
  assert (not (is_enabled core k))
  done (record k { current_task = update k.current_task core (forget t (k.current_task core)) })

-- Whether the current task of the core, if it has one, can go on.
unfoldable pub current_is_running : Option ℕ → Kernel → Outcome Bool
unfolding get_state
current_is_running none k = done false
current_is_running (some t) k = do state ← get_state t k; done (is_running state.run_state)

unfoldable pub run_next : ℕ → Kernel → Outcome (ℕ × Kernel)
unfolding get_next_schedulable_task get_state set_current_task_id
run_next core k = do
  (t, k') ← get_next_schedulable_task core k
  state ← get_state t k'
  assert (is_ready state.run_state)
  let k'' =
      store_sched t (λ s. record { run_state = running; time_slice_units = unit_time_slice }) k'
  done (t, set_current_task_id core t k'')

unfoldable pub schedule : ℕ → Kernel → Outcome (ℕ × Kernel)
unfolding get_current_task_id current_is_running
schedule core k₀ = do
  let k = disable core k₀
  goes_on ← current_is_running (get_current_task_id core k) k
  if goes_on then (do t ← unwrap (get_current_task_id core k); done (t, k)) else run_next core k

-- The guard is not dropped: `schedule` does not return.
unfoldable pub sleep : ℕ → Kernel → Outcome (ℕ × Kernel)
unfolding get_current_task_id get_state
sleep core k₀ = do
  let k = if is_enabled core k₀ then disable core k₀ else k₀
  t ← unwrap (get_current_task_id core k)
  state ← get_state t k
  assert (is_running state.run_state)
  schedule core (store_sched t (set_run_state sleeping) k)

unfoldable pub wake_up : ℕ → ℕ → Kernel → Outcome Kernel
unfolding get_state push uninterruptible
wake_up core t = uninterruptible core λ k. do
  state ← get_state t k
  if is_sleeping state.run_state
      then done (push t (store_sched t (set_run_state ready) k))
      else done k

unfoldable pub timer_tick : ℕ → Kernel → Outcome (ℕ × Kernel)
unfolding get_current_task_id get_state
timer_tick core k = do
  assert (not (is_enabled core k))
  t ← unwrap (get_current_task_id core k)
  state ← get_state t k
  if state.time_slice_units == 0 then panic explicit else do
    assert (is_running state.run_state)
    let k' = store_sched t (λ s. record s { time_slice_units = s.time_slice_units - 1 }) k
    if state.time_slice_units == 1
        then (do k'' ← enqueue_current_task_as_ready core k'; schedule core k'')
        else done (t, k')
