-- ===== src/Modules/Examples.antt =====
-- Module calls at concrete tables of modules.
use sophon_rpi_cross.Base.{
  ℕ, ◌≡◌, refl, Bool, true, false, none, some, [], ◌∷◌, Outcome, done, ◌>>=◌, Bool-cases, inl, inr,
  arith,
}
use sophon_rpi_cross.Base.Text.{Text, text, text_eq}
use sophon_rpi_cross.Kernel.{Kernel, Task, Process, running, is_enabled}
use sophon_rpi_cross.Proc.Calls.{ProcRequest, handle_module_call}
use sophon_rpi_cross.Proc.Locks.{new_mutex}
use sophon_rpi_cross.Requests.{RawModuleRequest, as_buf}
use sophon_rpi_cross.Modules.{
  System, Reply, returns, Handler, Registry, id_of, register, raw_module_call, masked, drop_guard,
  this_core,
}
use sophon_rpi_cross.Modules.Syscalls.{Syscall, Args, user_pm_call}
use sophon_rpi_cross.Modules.Registering.{Numbered, register_lem}
use sophon_rpi_cross.Modules.Processes.{of_reply, pm_handler, user_call, pm_call_arrives}
use sophon_rpi_cross.Modules.Sync.{RawMutex, goes_on, raw_mutex_new, raw_mutex_drop}
use sophon_rpi_cross.Modules.Sync.Lifetime.{Answers, raw_mutex_drop-raw_mutex_new}

abbrev nothing_known : System Unit
nothing_known = record {
  kernel = record {
    current_task = λ c. none;
    per_core_task_queue = λ c. [];
    tasks = λ t. none;
    procs = λ p. none;
    mutexes = λ m. none;
    condvars = λ c. none;
    interrupts = λ c. true;
    task_id_count = 0;
    proc_counter = 0;
  };
  rest = tt;
}

-- A handler that returns the number of the request.
abbrev echo : Handler Unit
echo privileged request w = done (returns (some request.id) w)

-- One module, "vfs".
abbrev one_module : Registry Unit
one_module = record {
  modules = λ id. some (record { name = text "vfs"; call = some echo });
  names = (text "vfs", 0) ∷ [];
}

one_module-Numbered : Numbered one_module
one_module-Numbered = record {
  below = λ name id e. elim (Bool-cases (text_eq (text "vfs") name)) [
    | inl y ↦ ground (arith, e, y)
    | inr n ↦ absurd (ground (arith, e, n))
  ];
  few = omega arith;
  present = λ id lt. (_, refl);
}

register_lem_example :
    (r' : Registry Unit) × (register (text "pm") (some echo) one_module ≡ done r')
    × Numbered r'
    × ((privileged : Bool) (request : RawModuleRequest) (w : System Unit)
        → raw_module_call r' (text "pm") privileged (as_buf request) w ≡ (do
          reply ← echo privileged request (masked w)
          done (drop_guard (is_enabled this_core w.kernel) reply)))
    × ((other : Text) (id : ℕ) (privileged : Bool) (request : RawModuleRequest) (w : System Unit)
        → id_of other one_module.names ≡ some id
        → raw_module_call r' other privileged (as_buf request) w
          ≡ raw_module_call one_module other privileged (as_buf request) w)
register_lem_example =
    register_lem (text "pm") echo one_module one_module-Numbered refl (omega arith)

-- The heap puts new locks at 64, and the text at every address is "pm".
abbrev heap : Kernel → ℕ
heap k = 64

abbrev texts : ℕ → Text
texts address = text "pm"

abbrev unsupported : Syscall → Args → System Unit → Outcome (Reply Unit)
unsupported call args w = done (returns none w)

pm_call_arrives_example :
    (r' : Registry Unit) × (register (text "pm") (some (pm_handler heap)) one_module ≡ done r')
    × ((request : ProcRequest) (w : System Unit)
        → user_call r' texts unsupported (user_pm_call 0x1000 request) w ≡ (do
          reply ←
              handle_module_call this_core false (heap (masked w).kernel) request (masked w).kernel
          done (drop_guard (is_enabled this_core w.kernel) (of_reply (masked w) reply))))
pm_call_arrives_example =
    pm_call_arrives heap (text "pm") one_module texts unsupported 0x1000 one_module-Numbered refl
      (omega arith) refl

-- The process manager at "pm", and task 7 of process 3, which owns the lock at 32 already.
abbrev pm_only : Registry Unit
pm_only = record {
  modules = λ id. some (record { name = text "pm"; call = some (pm_handler heap) });
  names = (text "pm", 0) ∷ [];
}

pm_only-Answers : Answers heap (texts 0x1000) pm_only
pm_only-Answers = record { id = 0; known = refl; room = omega arith; own = refl }

abbrev task_7 : Task
task_7 = record {
  proc = 3;
  live = record { value = true; waiters = [] };
  sched = record { run_state = running; time_slice_units = 10 };
}

abbrev process_3 : Process
process_3 = record {
  threads = 7 ∷ [];
  live = record { value = true; waiters = [] };
  locks = 32 ∷ [];
  cvars = [];
}

abbrev one_process : System Unit
one_process = record {
  kernel = record nothing_known.kernel {
    current_task = λ c. some 7;
    tasks = λ t. some task_7;
    procs = λ p. some process_3;
  };
  rest = tt;
}

raw_mutex_drop-raw_mutex_new_example :
    (lock : RawMutex) × (w₁ : System Unit) × (w₂ : System Unit) × (raw_mutex_new pm_only texts
        unsupported 0x1000 one_process
      ≡ done (goes_on lock w₁))
    × (lock.raw ≡ 64)
    × (w₁.kernel.mutexes lock.raw ≡ some new_mutex)
    × (raw_mutex_drop pm_only texts unsupported 0x1000 lock w₁ ≡ done (goes_on tt w₂))
    × ((m : ℕ) → w₂.kernel.mutexes m ≡ one_process.kernel.mutexes m)
    × ((i : ℕ) → w₂.kernel.procs i ≡ one_process.kernel.procs i)
raw_mutex_drop-raw_mutex_new_example =
    raw_mutex_drop-raw_mutex_new heap pm_only texts unsupported 0x1000 pm_only-Answers one_process 7
      task_7 process_3 refl refl refl refl refl
