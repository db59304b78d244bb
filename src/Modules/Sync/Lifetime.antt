-- ===== src/Modules/Sync/Lifetime.antt =====
-- What the locks of libs/sync leave behind in the kernel.
use sophon_rpi_cross.Base.{
  ℕ, sym, ◌<◌, ◌≡◌, refl, ap, ◌∙◌, false, none, some, Option, List, [], ◌∷◌, ◌++◌, Outcome, done,
  ◌>>=◌, count, count-append, without, Bool-cases, inl, inr, arith, if◌then◌else◌, update,
  update_self,
}
use sophon_rpi_cross.Base.Text.{Text}
use sophon_rpi_cross.Kernel.{Kernel, Task, Process, is_enabled, enable}
use sophon_rpi_cross.Proc.Calls.{
  ProcRequest, handle_module_call, mutex_create, mutex_destroy, put_proc, free_mutex, create_own,
  destroy_own, without-append_self,
}
use sophon_rpi_cross.Proc.Calls
use sophon_rpi_cross.Proc.Locks.{put_mutex, new_mutex}
use sophon_rpi_cross.Requests.{proc_as_raw}
use sophon_rpi_cross.Modules.{
  System, Reply, Registry, id_of, max_modules, this_core, masked, drop_guard,
}
use sophon_rpi_cross.Modules.Syscalls.{Syscall, Args, user_pm_call}
use sophon_rpi_cross.Modules.Registering.{call_known}
use sophon_rpi_cross.Modules.Processes.{
  of_reply, pm_handler, user_call, user_call-module, pm_handler-proc_as_raw, bind_done,
}
use sophon_rpi_cross.Modules.Sync.{
  goes_on, RawMutex, call, pointer, with_value, raw_mutex_new, raw_mutex_drop,
}

at_point : {X Y : Type 0} {f g : X → Y} → f ≡ g → (x : X) → f x ≡ g x
at_point e x = ap (λ f. f x) e

-- A store that puts back what was there before the last one.
put_back :
    {X : Type 0} (f g : ℕ → X) (a : ℕ) (v u : X)
    → ((j : ℕ) → g j ≡ update f a v j)
    → f a ≡ u
    → (j : ℕ) → update g a u j ≡ f j
put_back f g a v u stored before j = ground (arith, stored j, before)

count-append_self : (a : ℕ) (xs : List ℕ) → 0 < count a (xs ++ a ∷ [])
count-append_self a xs = ground (arith, count-append a xs (a ∷ []))

-- The process manager answers the calls to this name.
pub record Answers {A : Type 0} (fresh : Kernel → ℕ) (t : Text) (r : Registry A) : Type 0 where
  pub id : ℕ
  pub known : id_of t r.names ≡ some id
  pub room : id < max_modules
  pub own : r.modules id ≡ some (record { name = t; call = some (pm_handler fresh) })

module _ {A : Type 0} where
  -- The system once the call has left `k` to it, with the interrupt mask from before.
  abbrev after : System A → Kernel → System A
  after w k =
      if is_enabled this_core w.kernel
      then record (masked w) { kernel = enable this_core k }
      else record (masked w) { kernel = k }

  masked_kernel :
      (w : System A)
      → ((masked w).kernel.current_task ≡ w.kernel.current_task)
        × ((masked w).kernel.tasks ≡ w.kernel.tasks)
        × ((masked w).kernel.procs ≡ w.kernel.procs)
        × ((masked w).kernel.mutexes ≡ w.kernel.mutexes)
  masked_kernel w = elim (Bool-cases (is_enabled this_core w.kernel)) [
    | inl y ↦ rw y (refl, refl, refl, refl)
    | inr n ↦ rw n (refl, refl, refl, refl)
  ]

  after_kernel :
      (w : System A) (k : Kernel)
      → ((after w k).kernel.current_task ≡ k.current_task)
        × ((after w k).kernel.tasks ≡ k.tasks)
        × ((after w k).kernel.procs ≡ k.procs)
        × ((after w k).kernel.mutexes ≡ k.mutexes)
  after_kernel w k = elim (Bool-cases (is_enabled this_core w.kernel)) [
    | inl y ↦ rw y (refl, refl, refl, refl)
    | inr n ↦ rw n (refl, refl, refl, refl)
  ]

  module _ (fresh : Kernel → ℕ) (r : Registry A) (str_at : ℕ → Text)
      (others : Syscall → Args → System A → Outcome (Reply A)) (pm : ℕ)
      (answers : Answers fresh (str_at pm) r) where
    user_call-handle_module_call :
        (request : ProcRequest) (w : System A)
        → user_call r str_at others (user_pm_call pm request) w ≡ (do
          reply ←
              handle_module_call this_core false (fresh (masked w).kernel) request (masked w).kernel
          done (drop_guard (is_enabled this_core w.kernel) (of_reply (masked w) reply)))
    unfolding user_pm_call
    user_call-handle_module_call request w =
        user_call-module r str_at others pm (proc_as_raw request) w
        ∙ call_known r (str_at pm) answers.id false (proc_as_raw request) w answers.known
            answers.room
        ∙ rw answers.own refl
        ∙ ap (λ o. o >>= λ reply. done (drop_guard (is_enabled this_core w.kernel) reply))
            (pm_handler-proc_as_raw fresh false request (masked w))
        ∙ bind_done
            (handle_module_call this_core false (fresh (masked w).kernel) request (masked w).kernel)
            (of_reply (masked w)) (drop_guard (is_enabled this_core w.kernel))

    call_returns :
        {X : Type 0} (request : ProcRequest) (f : Option ℕ → X) (w : System A) (n : ℕ) (k : Kernel)
        → handle_module_call this_core false (fresh (masked w).kernel) request (masked w).kernel
          ≡ done (Calls.returns n k)
        → call r str_at others pm request f w ≡ done (goes_on (f (some n)) (after w k))
    call_returns request f w n k h =
        ap (λ o. o >>= λ reply. done (with_value f reply))
          (user_call-handle_module_call request w
            ∙ ap
                (λ o. o >>= λ reply.
                  done (drop_guard (is_enabled this_core w.kernel) (of_reply (masked w) reply)))
                h)

    -- A user program that makes a lock of libs/sync and drops it, by system calls to the process
    -- manager, with interrupts on or off: both calls come back, the lock is the address that the
    -- kernel's heap gave, it is free in between, and after the drop the mutexes, and what each process
    -- owns, are as before. The address is not in use, and the process does not already list it.
    pub raw_mutex_drop-raw_mutex_new :
        (w : System A) (t : ℕ) (task : Task) (p : Process)
        → w.kernel.current_task this_core ≡ some t
        → w.kernel.tasks t ≡ some task
        → w.kernel.procs task.proc ≡ some p
        → w.kernel.mutexes (fresh (masked w).kernel) ≡ none
        → count (fresh (masked w).kernel) p.locks ≡ 0
        → (lock : RawMutex) × (w₁ : System A) × (w₂ : System A) × (raw_mutex_new r str_at others pm
              w
            ≡ done (goes_on lock w₁))
          × (lock.raw ≡ fresh (masked w).kernel)
          × (w₁.kernel.mutexes lock.raw ≡ some new_mutex)
          × (raw_mutex_drop r str_at others pm lock w₁ ≡ done (goes_on tt w₂))
          × ((m : ℕ) → w₂.kernel.mutexes m ≡ w.kernel.mutexes m)
          × ((i : ℕ) → w₂.kernel.procs i ≡ w.kernel.procs i)
    unfolding raw_mutex_new raw_mutex_drop
    raw_mutex_drop-raw_mutex_new w t task p c e pe unused unowned =
        let a = fresh (masked w).kernel in
        let mine = record p { locks = p.locks ++ a ∷ [] } in
        let k₁ = put_proc task.proc mine (put_mutex a new_mutex (masked w).kernel) in
        let w₁ = after w k₁ in
        let k₂ =
          free_mutex a (
            put_proc task.proc (record mine { locks = without a mine.locks }) (masked w₁).kernel) in
        let (mc, mt, mp, mm) = masked_kernel w in
        let (ac, at, ap₁, am) = after_kernel w k₁ in
        let (nc, nt, np, nm) = masked_kernel w₁ in
        let (_, _, bp, bm) = after_kernel w₁ k₂ in
        (
          record { raw = a },
          w₁,
          after w₁ k₂,
          call_returns mutex_create (λ v. record { raw = pointer v }) w a k₁
              (create_own this_core a t (masked w).kernel task p (at_point mc this_core ∙ c)
                (at_point mt t ∙ e) (at_point mp task.proc ∙ pe)),
          refl,
          at_point am a ∙ update_self (masked w).kernel.mutexes a (some new_mutex),
          call_returns (mutex_destroy a) (λ v. tt) w₁ 0 k₂
              (destroy_own this_core a (fresh (masked w₁).kernel) t (masked w₁).kernel task mine
                (at_point nc this_core ∙ at_point ac this_core ∙ at_point mc this_core ∙ c)
                (at_point nt t ∙ at_point at t ∙ at_point mt t ∙ e)
                (at_point np task.proc
                  ∙ at_point ap₁ task.proc
                  ∙ update_self (masked w).kernel.procs task.proc (some mine))
                (count-append_self a p.locks)),
          λ m.
              at_point bm m
              ∙ put_back w.kernel.mutexes (masked w₁).kernel.mutexes a (some new_mutex) none
                  (λ j. at_point nm j ∙ at_point am j ∙ ap (λ f. update f a (some new_mutex) j) mm)
                  unused m,
          λ i.
              at_point bp i
              ∙ put_back w.kernel.procs (masked w₁).kernel.procs task.proc (some mine)
                  (some (record mine { locks = without a mine.locks }))
                  (λ j.
                    at_point np j ∙ at_point ap₁ j ∙ ap (λ f. update f task.proc (some mine) j) mp)
                  (pe
                    ∙ ap (λ ls. some (record p { locks = ls }))
                        (sym (without-append_self a p.locks unowned)))
                  i,
        )
