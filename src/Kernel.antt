-- ===== src/Kernel.antt =====
-- The state that the scheduler (modules/round-robin) and the process manager (modules/pm) share, and
-- the interrupt mask of libs/interrupt. A task is known by its id (libs/proc): `TASKS` and `PROCS`
-- map ids to what the modules keep of them.
use sophon_rpi_cross.Base.{
  ℕ, Bool, true, false, Option, none, some, List, Outcome, done, ◌>>=◌, update, if◌then◌else◌,
}

-- libs/sched
pub data RunState : Type 0 where
  ready running sleeping : RunState

abbrev pub is_ready : RunState → Bool
is_ready ready = true
is_ready _ = false

abbrev pub is_running : RunState → Bool
is_running running = true
is_running _ = false

abbrev pub is_sleeping : RunState → Bool
is_sleeping sleeping = true
is_sleeping _ = false

-- `State` of modules/round-robin: what the scheduler keeps in each task.
pub record State : Type 0 where
  pub run_state : RunState
  pub time_slice_units : ℕ

-- `RawMutex` and `RawCondvar` of modules/pm.
pub record RawMutex : Type 0 where
  pub is_locked : Bool
  pub waiters : List ℕ

pub record RawCondvar : Type 0 where
  pub waiters : List ℕ

-- `Monitor<bool>` of libs/sync, as the field `live` uses it: the value, and the tasks that sleep in
-- `wait` until it is changed.
pub record Monitor : Type 0 where
  pub value : Bool
  pub waiters : List ℕ

-- `Task` of modules/pm. Its context and its code are opaque to both modules.
pub record Task : Type 0 where
  pub proc : ℕ
  pub live : Monitor
  pub sched : State

-- `Process` of modules/pm: `locks` and `cvars` hold the addresses of what the process created.
pub record Process : Type 0 where
  pub threads : List ℕ
  pub live : Monitor
  pub locks : List ℕ
  pub cvars : List ℕ

-- `current_task`, `per_core_task_queue` and the interrupt mask have a slot for each core. A mutex and
-- a condition variable live in the kernel heap, at the address that names them.
pub record Kernel : Type 0 where
  pub current_task : ℕ → Option ℕ
  pub per_core_task_queue : ℕ → List ℕ
  pub tasks : ℕ → Option Task
  pub procs : ℕ → Option Process
  pub mutexes : ℕ → Option RawMutex
  pub condvars : ℕ → Option RawCondvar
  pub interrupts : ℕ → Bool
  pub task_id_count : ℕ
  pub proc_counter : ℕ

-- libs/interrupt
abbrev pub disable : ℕ → Kernel → Kernel
disable core k = record k { interrupts = update k.interrupts core false }

abbrev pub enable : ℕ → Kernel → Kernel
enable core k = record k { interrupts = update k.interrupts core true }

abbrev pub is_enabled : ℕ → Kernel → Bool
is_enabled core k = k.interrupts core

-- The guard of `uninterruptible` is dropped at the end of `body`.
unfoldable pub uninterruptible : ℕ → (Kernel → Outcome Kernel) → Kernel → Outcome Kernel
uninterruptible core body k = do
  k' ← body (if is_enabled core k then disable core k else k)
  done (if is_enabled core k then enable core k' else k')

-- A store into the scheduler state of a task that is in `TASKS`.
abbrev pub with_sched : (State → State) → Option Task → Option Task
with_sched f none = none
with_sched f (some t) = some (record t { sched = f t.sched })

abbrev pub store_sched : ℕ → (State → State) → Kernel → Kernel
store_sched t f k = record k { tasks = update k.tasks t (with_sched f (k.tasks t)) }

-- The run state of a task, if there is such a task.
abbrev pub run_state_of : Option Task → Option RunState
run_state_of none = none
run_state_of (some t) = some t.sched.run_state
