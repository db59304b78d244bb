-- ===== src/Modules/Processes.antt =====
-- System calls of user programs to the process manager, from the stub to the handler: libs/syscall,
-- sophon/src/task/syscall.rs, sophon/src/modules, libs/kernel-module and modules/pm.
use sophon_rpi_cross.Base.{
  ℕ, ◌<◌, ◌≡◌, refl, ap, ◌∙◌, Bool, false, none, some, Outcome, done, panic, unwrap_none, ◌>>=◌,
  length,
}
use sophon_rpi_cross.Base.Text.{Text}
use sophon_rpi_cross.Kernel.{Kernel, is_enabled}
use sophon_rpi_cross.Proc.Calls.{ProcRequest, handle_module_call}
use sophon_rpi_cross.Proc.Calls
use sophon_rpi_cross.Requests.{RawModuleRequest, proc_as_raw, proc_from_raw, as_buf, from_buf}
use sophon_rpi_cross.Requests.RoundTrip.{proc_from_raw-proc_as_raw}
use sophon_rpi_cross.Modules.{
  System, Reply, returns, switches, Handler, Registry, id_of, max_modules, this_core,
  raw_module_call, masked, drop_guard, register,
}
use sophon_rpi_cross.Modules.Syscalls.{
  Syscall, Args, handle_syscall, user_module_call, user_pm_call, registers,
}
use sophon_rpi_cross.Modules.Registering.{Numbered, register_lem, call_unknown}

decoded : (request : ProcRequest) → proc_from_raw (proc_as_raw request) ≡ done request
unfolding from_buf as_buf
decoded request = proc_from_raw-proc_as_raw request

pub bind_done :
    {X Y Z : Type 0} (m : Outcome X) (g : X → Y) (h : Y → Z)
    → ((m >>= λ x. done (g x)) >>= λ y. done (h y)) ≡ (m >>= λ x. done (h (g x)))
bind_done (done x) g h = refl
bind_done (panic p) g h = refl

module _ {A : Type 0} where
  abbrev pub of_reply : System A → Calls.Reply → Reply A
  of_reply w (Calls.returns n k) = returns (some n) (record w { kernel = k })
  of_reply w (Calls.switches t k) = switches t (record w { kernel = k })

  -- `HandlerImpl::handle` of the process manager: `fresh` is where the kernel's heap puts a new lock.
  unfoldable pub pm_handler : (Kernel → ℕ) → Handler A
  pm_handler fresh privileged raw w = do
    request ← proc_from_raw raw
    reply ← handle_module_call this_core privileged (fresh w.kernel) request w.kernel
    done (of_reply w reply)

  -- The system call that a stub makes, as the kernel takes it: from user mode, so not privileged.
  unfoldable pub user_call :
      Registry A
      → (ℕ → Text)
      → (Syscall → Args → System A → Outcome (Reply A))
      → Outcome (Syscall × Args)
      → System A
      → Outcome (Reply A)
  user_call r str_at others stub w = do
    (call, args) ← stub
    handle_syscall r str_at others false call args w

  pub user_call-module :
      (r : Registry A) (str_at : ℕ → Text) (others : Syscall → Args → System A → Outcome (Reply A))
      (name : ℕ) (request : RawModuleRequest) (w : System A)
      → user_call r str_at others (user_module_call name request) w
        ≡ raw_module_call r (str_at name) false (as_buf request) w
  unfolding user_call user_module_call registers handle_syscall as_buf
  user_call-module r str_at others name request w = refl

  -- A user program that calls a module of a name that is not registered panics the kernel.
  pub unknown_module_panics :
      (r : Registry A) (str_at : ℕ → Text) (others : Syscall → Args → System A → Outcome (Reply A))
      (name : ℕ) (request : RawModuleRequest) (w : System A)
      → id_of (str_at name) r.names ≡ none
      → user_call r str_at others (user_module_call name request) w ≡ panic unwrap_none
  unknown_module_panics r str_at others name request w unknown =
      user_call-module r str_at others name request w
      ∙ call_unknown r (str_at name) false (as_buf request) w unknown

  pub pm_handler-proc_as_raw :
      (fresh : Kernel → ℕ) (privileged : Bool) (request : ProcRequest) (w : System A)
      → pm_handler fresh privileged (proc_as_raw request) w ≡ (do
        reply ← handle_module_call this_core privileged (fresh w.kernel) request w.kernel
        done (of_reply w reply))
  unfolding pm_handler
  pm_handler-proc_as_raw fresh privileged request w = rw (decoded request) refl

  -- Once the process manager has been registered under a name that was not in use, a system call of a
  -- user program to that name, on any request, is a call of its handler with that same request, not
  -- privileged and with interrupts off; what the handler leaves is what the program gets, with the
  -- interrupt mask from before where the call returns.
  pub pm_call_arrives :
      (fresh : Kernel → ℕ) (pm : Text) (r : Registry A) (str_at : ℕ → Text)
      (others : Syscall → Args → System A → Outcome (Reply A)) (name : ℕ)
      → Numbered r
      → id_of pm r.names ≡ none
      → length r.names < max_modules
      → str_at name ≡ pm
      → (r' : Registry A) × (register pm (some (pm_handler fresh)) r ≡ done r')
        × ((request : ProcRequest) (w : System A)
            → user_call r' str_at others (user_pm_call name request) w ≡ (do
              reply ←
                  handle_module_call this_core false
                    (fresh (masked w).kernel)
                    request
                    (masked w).kernel
              done (drop_guard (is_enabled this_core w.kernel) (of_reply (masked w) reply))))
  unfolding user_pm_call
  pm_call_arrives fresh pm r str_at others name num unused room at =
      let (r', e, num', arrives, _) = register_lem pm (pm_handler fresh) r num unused room in
      (
        r',
        e,
        λ request w.
            user_call-module r' str_at others name (proc_as_raw request) w
            ∙ ap (λ t. raw_module_call r' t false (as_buf (proc_as_raw request)) w) at
            ∙ arrives false (proc_as_raw request) w
            ∙ ap (λ o. o >>= λ reply. done (drop_guard (is_enabled this_core w.kernel) reply))
                (pm_handler-proc_as_raw fresh false request (masked w))
            ∙ bind_done
                (handle_module_call this_core false (fresh (masked w).kernel) request
                  (masked w).kernel)
                (of_reply (masked w)) (drop_guard (is_enabled this_core w.kernel)),
      )
