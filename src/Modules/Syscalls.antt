-- ===== src/Modules/Syscalls.antt =====
-- sophon/src/task/syscall.rs: the dispatch of system calls, and the stubs of libs/syscall/src/syscall.rs
-- that user programs make them with.
use sophon_rpi_cross.Base.{
  ℕ, Bool, none, some, List, [], ◌∷◌, Outcome, done, ◌>>=◌, ◌>>◌, assert, unwrap, leb, length,
  get_elem?,
}
use sophon_rpi_cross.Base.Text.{Text}
use sophon_rpi_cross.Kernel.{Kernel}
use sophon_rpi_cross.Scheduler.{sleep, schedule}
use sophon_rpi_cross.Proc.{current_proc, current_task, exit_proc, exit_task}
use sophon_rpi_cross.Proc.Calls.{ProcRequest}
use sophon_rpi_cross.Requests.{RawModuleRequest, as_buf, proc_as_raw}
use sophon_rpi_cross.Modules.{
  System, Reply, returns, switches, Registry, raw_module_call, this_core,
}

pub data Syscall : Type 0 where
  log module_call wait sbrk exec exit thread_exit halt : Syscall

-- `syscall as usize`
abbrev pub number : Syscall → ℕ
number log = 0
number module_call = 1
number wait = 2
number sbrk = 3
number exec = 4
number exit = 5
number thread_exit = 6
number halt = 7

-- The five words of a system call.
pub record Args : Type 0 where
  pub a : ℕ
  pub b : ℕ
  pub c : ℕ
  pub d : ℕ
  pub e : ℕ

abbrev pub switched : {A : Type 0} → System A → ℕ × Kernel → Reply A
switched w r = switches r.0 (record w { kernel = r.1 })

module _ {A : Type 0} where
  -- `exit`
  unfoldable pub exit_call : System A → Outcome (Reply A)
  exit_call w = do
    p ← current_proc this_core w.kernel
    (id, _) ← unwrap p
    k ← exit_proc this_core id w.kernel
    r ← schedule this_core k
    done (switched w r)

  -- `thread_exit`
  unfoldable pub thread_exit_call : System A → Outcome (Reply A)
  thread_exit_call w = do
    (id, _) ← unwrap (current_task this_core w.kernel)
    k ← exit_task this_core id w.kernel
    r ← schedule this_core k
    done (switched w r)

  -- `SCHEDULER.sleep()`
  unfoldable pub wait_call : System A → Outcome (Reply A)
  wait_call w = do r ← sleep this_core w.kernel; done (switched w r)

  -- `handle_syscall`: `str_at` is the `&str` at an address of the caller's memory. `others` does
  -- `sbrk`, `exec` and `halt`.
  unfoldable pub handle_syscall :
      Registry A
      → (ℕ → Text)
      → (Syscall → Args → System A → Outcome (Reply A))
      → Bool
      → Syscall
      → Args
      → System A
      → Outcome (Reply A)
  handle_syscall r str_at others privileged log args w = done (returns (some 0) w)
  handle_syscall r str_at others privileged module_call args w =
      raw_module_call r (str_at args.a) privileged (args.b ∷ args.c ∷ args.d ∷ args.e ∷ []) w
  handle_syscall r str_at others privileged wait args w = wait_call w
  handle_syscall r str_at others privileged exit args w = exit_call w
  handle_syscall r str_at others privileged thread_exit args w = thread_exit_call w
  handle_syscall r str_at others privileged call args w = others call args w

-- `args.get(i).cloned().unwrap_or(0)`
abbrev pub arg : List ℕ → ℕ → ℕ
arg args i = elim (get_elem? args i) [ none ↦ 0 | some x ↦ x ]

-- `syscall`, up to the instruction `svc`: the words in the registers.
unfoldable pub registers : List ℕ → Outcome Args
registers args = do
  assert (leb (length args) 6)
  done (record { a = arg args 0; b = arg args 1; c = arg args 2; d = arg args 3; e = arg args 4 })

-- `module_call` of a user program, with the address of the module's name.
unfoldable pub user_module_call : ℕ → RawModuleRequest → Outcome (Syscall × Args)
unfolding registers as_buf
user_module_call name request = do
  args ← registers (name ∷ as_buf request)
  done (module_call, args)

-- The stubs `mutex_create` to `condvar_destory`, with the address of the name "pm".
unfoldable pub user_pm_call : ℕ → ProcRequest → Outcome (Syscall × Args)
unfolding user_module_call proc_as_raw
user_pm_call name request = user_module_call name (proc_as_raw request)
