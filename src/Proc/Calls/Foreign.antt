-- ===== src/Proc/Calls/Foreign.antt =====
-- What the calls of a process do to the locks of others: modules/pm/src/lib.rs and locks.rs.
use sophon_rpi_cross.Base.{
  ℕ, ◌≡◌, ◌≢◌, sym, without, ltb, ap, ◌∙◌, false, Option, none, some, [], ◌∷◌, ◌++◌, done, subst,
  count, arith, >>=-eq-done, if◌then◌else◌,
}
use sophon_rpi_cross.Kernel.{Task, Process, Kernel}
use sophon_rpi_cross.Proc.Locks.{
  Round, acquired, sleeps, put_mutex, put_condvar, new_mutex, new_condvar, lock, unlock, wait,
  notify_all,
}
use sophon_rpi_cross.Proc.Calls.{
  ProcRequest, mutex_create, mutex_lock, mutex_unlock, mutex_destroy, condvar_create, condvar_wait,
  condvar_notify_all, condvar_destroy, Reply, returns, switches, of_round, handle_module_call,
  put_proc, create_own, free_mutex, free_condvar,
}
use sophon_rpi_cross.Proc.Calls.Rescheduling.{done_injective}
use sophon_rpi_cross.Proc.Calls.Kept.{
  Kept, round_kernel, lock-Kept, unlock-Kept, wait-Kept, notify_all-Kept,
}

abbrev pub reply_kernel : Reply → Kernel
reply_kernel (returns n k) = k
reply_kernel (switches t k) = k

round_reply :
    {k : Kernel} (r : Round) → Kept k (round_kernel r) → Kept k (reply_kernel (of_round r))
round_reply (acquired k') h = h
round_reply (sleeps t k') h = h

-- What a call of process `id`, which is `p` before, leaves of what is not its own.
pub record KeepsForeign (id : ℕ) (p : Process) (k k' : Kernel) : Type 0 where
  pub mutexes_kept : (m : ℕ) → count m p.locks ≡ 0 → k.mutexes m ≢ none → k'.mutexes m ≢ none
  pub condvars_kept : (c : ℕ) → count c p.cvars ≡ 0 → k.condvars c ≢ none → k'.condvars c ≢ none
  pub procs_same : (i : ℕ) → i ≢ id → k'.procs i ≡ k.procs i

Kept-KeepsForeign : (id : ℕ) (p : Process) (k k' : Kernel) → Kept k k' → KeepsForeign id p k k'
Kept-KeepsForeign id p k k' h = record {
  mutexes_kept = λ m _. h.mutexes_kept m;
  condvars_kept = λ c _. h.condvars_kept c;
  procs_same = λ i _. ap (λ (f : ℕ → Option Process). f i) h.procs_same;
}

abbrev mutex_added : ℕ → ℕ → Process → Kernel → Kernel
mutex_added address id p k =
    put_proc id (record p { locks = p.locks ++ address ∷ [] }) (put_mutex address new_mutex k)

mutex_added-KeepsForeign :
    (address id : ℕ) (p : Process) (k : Kernel) → KeepsForeign id p k (mutex_added address id p k)
mutex_added-KeepsForeign address id p k = record {
  mutexes_kept = λ m own h e. ground (arith, h);
  condvars_kept = λ m own h. h;
  procs_same = λ i ne. ground (arith, ne);
}

abbrev pub mutex_removed : ℕ → ℕ → Process → Kernel → Kernel
mutex_removed x id p k =
    let k' = put_proc id (record p { locks = without x p.locks }) k in
    if ltb 0 (count x p.locks) then free_mutex x k' else k'

mutex_removed-KeepsForeign :
    (x id : ℕ) (p : Process) (k : Kernel) → KeepsForeign id p k (mutex_removed x id p k)
mutex_removed-KeepsForeign x id p k = record {
  mutexes_kept = λ m own h e. ground (arith, h, own);
  condvars_kept = λ m own h e. ground (arith, h);
  procs_same = λ i ne. ground (arith, ne);
}

pub mutex_destroy-removed :
    (core address x t : ℕ) (k : Kernel) (task : Task) (p : Process)
    → k.current_task core ≡ some t
    → k.tasks t ≡ some task
    → k.procs task.proc ≡ some p
    → handle_module_call core false address (mutex_destroy x) k
      ≡ done (returns 0 (mutex_removed x task.proc p k))
unfolding handle_module_call
mutex_destroy-removed core address x t k task p c e pe = ground arith

abbrev condvar_added : ℕ → ℕ → Process → Kernel → Kernel
condvar_added address id p k =
    put_proc id (record p { cvars = p.cvars ++ address ∷ [] }) (put_condvar address new_condvar k)

condvar_added-KeepsForeign :
    (address id : ℕ) (p : Process) (k : Kernel) → KeepsForeign id p k (condvar_added address id p k)
condvar_added-KeepsForeign address id p k = record {
  condvars_kept = λ m own h e. ground (arith, h);
  mutexes_kept = λ m own h. h;
  procs_same = λ i ne. ground (arith, ne);
}

condvar_create-added :
    (core address t : ℕ) (k : Kernel) (task : Task) (p : Process)
    → k.current_task core ≡ some t
    → k.tasks t ≡ some task
    → k.procs task.proc ≡ some p
    → handle_module_call core false address condvar_create k
      ≡ done (returns address (condvar_added address task.proc p k))
unfolding handle_module_call
condvar_create-added core address t k task p c e pe = ground arith

abbrev condvar_removed : ℕ → ℕ → Process → Kernel → Kernel
condvar_removed x id p k =
    let k' = put_proc id (record p { cvars = without x p.cvars }) k in
    if ltb 0 (count x p.cvars) then free_condvar x k' else k'

condvar_removed-KeepsForeign :
    (x id : ℕ) (p : Process) (k : Kernel) → KeepsForeign id p k (condvar_removed x id p k)
condvar_removed-KeepsForeign x id p k = record {
  condvars_kept = λ m own h e. ground (arith, h, own);
  mutexes_kept = λ m own h e. ground (arith, h);
  procs_same = λ i ne. ground (arith, ne);
}

condvar_destroy-removed :
    (core address x t : ℕ) (k : Kernel) (task : Task) (p : Process)
    → k.current_task core ≡ some t
    → k.tasks t ≡ some task
    → k.procs task.proc ≡ some p
    → handle_module_call core false address (condvar_destroy x) k
      ≡ done (returns 0 (condvar_removed x task.proc p k))
unfolding handle_module_call
condvar_destroy-removed core address x t k task p c e pe = ground arith

-- No call of a user process, whatever it asks for, frees a mutex or a condition variable that the
-- process has not created (or has destroyed already), or changes another process, if the call returns
-- or hands the core on.
pub calls_keep_foreign :
    (core address t : ℕ) (request : ProcRequest) (k : Kernel) (task : Task) (p : Process)
    (reply : Reply)
    → k.current_task core ≡ some t
    → k.tasks t ≡ some task
    → k.procs task.proc ≡ some p
    → handle_module_call core false address request k ≡ done reply
    → KeepsForeign task.proc p k (reply_kernel reply)
unfolding handle_module_call
calls_keep_foreign core address t mutex_create k task p reply c e pe h =
    subst (λ (r : Reply). KeepsForeign task.proc p k (reply_kernel r))
      (done_injective (sym (create_own core address t k task p c e pe) ∙ h))
      (mutex_added-KeepsForeign address task.proc p k)
calls_keep_foreign core address t (mutex_lock m) k task p reply c e pe h =
    let (r, e₁, h₁) = >>=-eq-done (lock core m k) _ h in
    Kept-KeepsForeign task.proc p k (reply_kernel reply) (
      subst (λ (r : Reply). Kept k (reply_kernel r)) (done_injective h₁)
        (round_reply r (lock-Kept core m k r e₁)))
calls_keep_foreign core address t (mutex_unlock m) k task p reply c e pe h =
    let (k', e₁, h₁) = >>=-eq-done (unlock core m k) _ h in
    Kept-KeepsForeign task.proc p k (reply_kernel reply) (
      subst (λ (r : Reply). Kept k (reply_kernel r)) (done_injective h₁)
        (unlock-Kept core m k k' e₁))
calls_keep_foreign core address t (mutex_destroy m) k task p reply c e pe h =
    subst (λ (r : Reply). KeepsForeign task.proc p k (reply_kernel r))
      (done_injective (sym (mutex_destroy-removed core address m t k task p c e pe) ∙ h))
      (mutex_removed-KeepsForeign m task.proc p k)
calls_keep_foreign core address t condvar_create k task p reply c e pe h =
    subst (λ (r : Reply). KeepsForeign task.proc p k (reply_kernel r))
      (done_injective (sym (condvar_create-added core address t k task p c e pe) ∙ h))
      (condvar_added-KeepsForeign address task.proc p k)
calls_keep_foreign core address t (condvar_wait cv m) k task p reply c e pe h =
    let (found, e₁, h₁) = >>=-eq-done (wait core cv m k) _ h in
    Kept-KeepsForeign task.proc p k (reply_kernel reply) (
      subst (λ (r : Reply). Kept k (reply_kernel r)) (done_injective h₁)
        (wait-Kept core cv m found.0 k found.1 e₁))
calls_keep_foreign core address t (condvar_notify_all cv) k task p reply c e pe h =
    let (k', e₁, h₁) = >>=-eq-done (notify_all core cv k) _ h in
    Kept-KeepsForeign task.proc p k (reply_kernel reply) (
      subst (λ (r : Reply). Kept k (reply_kernel r)) (done_injective h₁)
        (notify_all-Kept core cv k k' e₁))
calls_keep_foreign core address t (condvar_destroy cv) k task p reply c e pe h =
    subst (λ (r : Reply). KeepsForeign task.proc p k (reply_kernel r))
      (done_injective (sym (condvar_destroy-removed core address cv t k task p c e pe) ∙ h))
      (condvar_removed-KeepsForeign cv task.proc p k)
