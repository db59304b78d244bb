-- ===== src/Proc.antt =====
-- modules/pm: tasks (task.rs), processes (proc.rs) and their ids. Every function is called on a core.
pub mod Waking
pub mod Create
pub mod Locks
pub mod Calls
pub mod Exit
mod Examples
use sophon_rpi_cross.Base.{
  ℕ, ◌+◌, Bool, true, false, not, Option, none, some, List, [], ◌∷◌, ◌++◌, Outcome, done, panic,
  ◌>>=◌, ◌>>◌, assert, unwrap, update, without, ◌==◌, if◌then◌else◌,
}
use sophon_rpi_cross.Kernel.{Monitor, Task, Process, Kernel, is_enabled, uninterruptible}
use sophon_rpi_cross.Scheduler.{
  new_state, get_current_task_id, register_new_task, remove_task, wake_up,
}

-- `Task::by_id`
unfoldable pub task_by_id : ℕ → Kernel → Option Task
task_by_id id k = k.tasks id

-- `Process::by_id`
unfoldable pub proc_by_id : ℕ → Kernel → Option Process
proc_by_id id k = k.procs id

-- `Task::current`: the id and the task.
unfoldable pub current_task : ℕ → Kernel → Option (ℕ × Task)
unfolding get_current_task_id task_by_id
current_task core k = elim (get_current_task_id core k) [
  | none ↦ none
  | some t ↦ elim (task_by_id t k) [ none ↦ none | some task ↦ some (t, task) ]
]

-- `Process::current`. `upgrade().unwrap()` panics where the process is gone.
unfoldable pub current_proc : ℕ → Kernel → Outcome (Option (ℕ × Process))
unfolding current_task proc_by_id
current_proc core k = elim (current_task core k) [
  | none ↦ done none
  | some (t, task) ↦ (do p ← unwrap (proc_by_id task.proc k); done (some (task.proc, p)))
]

abbrev pub new_monitor : Monitor
new_monitor = record { value = true; waiters = [] }

-- `Task::create`: the id is that of the counter.
unfoldable pub create_task : ℕ → Kernel → ℕ × Kernel
create_task proc k =
    let id = k.task_id_count in
    let task : Task = record { proc = proc; live = new_monitor; sched = new_state } in
    (id, record k { tasks = update k.tasks id (some task); task_id_count = id + 1 })

abbrev pub add_thread : ℕ → Option Process → Option Process
add_thread t none = none
add_thread t (some p) = some (record p { threads = p.threads ++ t ∷ [] })

-- `Process::create`. `registered` is what the call of `SERVICE.vfs().register_process` does.
unfoldable pub create : ℕ → Outcome (Unit {0}) → Kernel → Outcome (ℕ × Kernel)
unfolding create_task
create core registered k₀ = do
  let k =
      if is_enabled core k₀ then record k₀ { interrupts = update k₀.interrupts core false } else k₀
  let id = k.proc_counter
  let k₁ = record k { proc_counter = id + 1 }
  registered
  let (t, k₂) = create_task id k₁
  let p : Process = record { threads = t ∷ []; live = new_monitor; locks = []; cvars = [] }
  let k₃ = record k₂ { procs = update k₂.procs id (some p) }
  k₄ ← register_new_task core t k₃
  done (
    id,
    (if is_enabled core k₀ then record k₄ { interrupts = update k₄.interrupts core true } else k₄),
  )

-- `Proc::spawn_task`
unfoldable pub spawn_task : ℕ → ℕ → Kernel → Outcome Kernel
unfolding create_task uninterruptible
spawn_task core proc = uninterruptible core λ k. do
  let (t, k₁) = create_task proc k
  let k₂ = record k₁ { procs = update k₁.procs proc (add_thread t (k₁.procs proc)) }
  register_new_task core t k₂

-- `for t in waiters { SERVICE.scheduler().wake_up(*t) }`
unfoldable pub wake_all : ℕ → List ℕ → Kernel → Outcome Kernel
wake_all core [] k = done k
wake_all core (t ∷ ts) k = do k' ← wake_up core t k; wake_all core ts k'

-- The monitor after `*live = false` and `notify_all`, which clears its waiters.
abbrev pub dead : Monitor
dead = record { value = false; waiters = [] }

abbrev pub remove_thread : ℕ → Option Process → Option Process
remove_thread t none = none
remove_thread t (some p) = some (record p { threads = without t p.threads })

abbrev pub set_task_live : Monitor → Option Task → Option Task
set_task_live m none = none
set_task_live m (some t) = some (record t { live = m })

abbrev pub set_proc_live : Monitor → Option Process → Option Process
set_proc_live m none = none
set_proc_live m (some p) = some (record p { live = m })

-- `Task::exit`, of the task `id`.
unfoldable pub exit_task : ℕ → ℕ → Kernel → Outcome Kernel
unfolding current_task
exit_task core id k = do
  assert (not (is_enabled core k))
  task ← unwrap (k.tasks id)
  (c, _) ← unwrap (current_task core k)
  assert (id == c)
  k₁ ←
      wake_all core task.live.waiters
        (record k { tasks = update k.tasks id (set_task_live dead (k.tasks id)) })
  _ ← unwrap (k₁.procs task.proc)
  let k₂ = record k₁ { procs = update k₁.procs task.proc (remove_thread id (k₁.procs task.proc)) }
  (c', _) ← unwrap (current_task core k₂)
  k₃ ← remove_task core c' k₂
  _ ← unwrap (k₃.tasks id)
  done (record k₃ { tasks = update k₃.tasks id none })

-- The loop of `Process::exit` over the threads.
unfoldable pub remove_threads : ℕ → List ℕ → Kernel → Outcome Kernel
remove_threads core [] k = done k
remove_threads core (t ∷ ts) k = do
  _ ← unwrap (k.tasks t)
  k' ← remove_task core t (record k { tasks = update k.tasks t none })
  remove_threads core ts k'

-- `Process::exit`, of the process `id`, under its guard. `deregister_process` of the VFS does nothing.
unfoldable pub exit_masked : ℕ → ℕ → Kernel → Outcome Kernel
exit_masked core id k = do
  proc ← unwrap (k.procs id)
  k₁ ←
      wake_all core proc.live.waiters
        (record k { procs = update k.procs id (set_proc_live dead (k.procs id)) })
  k₂ ← remove_threads core proc.threads k₁
  done (record k₂ { procs = update k₂.procs id none })

unfoldable pub exit_proc : ℕ → ℕ → Kernel → Outcome Kernel
unfolding uninterruptible
exit_proc core id = uninterruptible core (exit_masked core id)
