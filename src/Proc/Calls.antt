-- ===== src/Proc/Calls.antt =====
-- `handle_module_call` of modules/pm/src/lib.rs, with `ProcRequest` of libs/syscall. A call that
-- sleeps hands the core to another task; the caller goes on with the rounds of `lock`.
pub mod Rescheduling
pub mod Kept
pub mod Foreign
use sophon_rpi_cross.Base.{
  ℕ, ◌<◌, ◌≡◌, refl, Bool, false, none, some, List, [], ◌∷◌, ◌++◌, Outcome, done, ◌>>=◌, unwrap,
  update, without, if◌then◌else◌, ltb, count, count-append, arith,
}
use sophon_rpi_cross.Kernel.{Task, Process, Kernel}
use sophon_rpi_cross.Proc.{current_proc}
use sophon_rpi_cross.Proc.Locks.{
  Round, acquired, sleeps, lock, unlock, wait, notify_all, put_mutex, put_condvar, new_mutex,
  new_condvar,
}

pub data ProcRequest : Type 0 where
  mutex_create condvar_create : ProcRequest
  mutex_lock mutex_unlock mutex_destroy condvar_notify_all condvar_destroy : ℕ → ProcRequest
  condvar_wait : ℕ → ℕ → ProcRequest

-- The call returns a number to its caller, or the core goes to another task.
pub data Reply : Type 0 where
  returns : ℕ → Kernel → Reply
  switches : ℕ → Kernel → Reply

abbrev pub of_round : Round → Reply
of_round (acquired k) = returns 0 k
of_round (sleeps next k) = switches next k

-- The process that makes the call.
abbrev caller : ℕ → Kernel → Outcome (ℕ × Process)
caller core k = do p ← current_proc core k; unwrap p

abbrev pub put_proc : ℕ → Process → Kernel → Kernel
put_proc id p k = record k { procs = update k.procs id (some p) }

abbrev pub free_mutex : ℕ → Kernel → Kernel
free_mutex m k = record k { mutexes = update k.mutexes m none }

abbrev pub free_condvar : ℕ → Kernel → Kernel
free_condvar c k = record k { condvars = update k.condvars c none }

-- `address` is where the allocator puts the new mutex or condition variable.
unfoldable pub handle_module_call : ℕ → Bool → ℕ → ProcRequest → Kernel → Outcome Reply
unfolding current_proc
handle_module_call core privileged address mutex_create k = do
  let k' = put_mutex address new_mutex k
  if privileged then done (returns address k') else (do
    (id, p) ← caller core k'
    done (returns address (put_proc id (record p { locks = p.locks ++ address ∷ [] }) k')))
handle_module_call core privileged address (mutex_lock m) k = do
  r ← lock core m k
  done (of_round r)
handle_module_call core privileged address (mutex_unlock m) k = do
  k' ← unlock core m k
  done (returns 0 k')
handle_module_call core privileged address (mutex_destroy m) k = do
  (id, p) ← caller core k
  let k' = put_proc id (record p { locks = without m p.locks }) k
  done (returns 0 (if ltb 0 (count m p.locks) then free_mutex m k' else k'))
handle_module_call core privileged address condvar_create k = do
  let k' = put_condvar address new_condvar k
  if privileged then done (returns address k') else (do
    (id, p) ← caller core k'
    done (returns address (put_proc id (record p { cvars = p.cvars ++ address ∷ [] }) k')))
handle_module_call core privileged address (condvar_wait c m) k = do
  (next, k') ← wait core c m k
  done (switches next k')
handle_module_call core privileged address (condvar_notify_all c) k = do
  k' ← notify_all core c k
  done (returns 0 k')
handle_module_call core privileged address (condvar_destroy c) k = do
  (id, p) ← caller core k
  let k' = put_proc id (record p { cvars = without c p.cvars }) k
  done (returns 0 (if ltb 0 (count c p.cvars) then free_condvar c k' else k'))

pub without-append_self : (a : ℕ) (xs : List ℕ) → count a xs ≡ 0 → without a (xs ++ a ∷ []) ≡ xs
without-append_self a [] h = ground arith
without-append_self a (x ∷ xs) h = ground (arith, without-append_self a xs)

-- A user process that makes a mutex and destroys it leaves no trace: the mutexes, and what each
-- process owns, are as before, if the allocator hands out an address that is not in use and that
-- the process does not already list.
pub destroy-create :
    (core a b t : ℕ) (k : Kernel) (task : Task) (p : Process)
    → k.current_task core ≡ some t
    → k.tasks t ≡ some task
    → k.procs task.proc ≡ some p
    → k.mutexes a ≡ none
    → count a p.locks ≡ 0
    → (k₁ : Kernel) × (k₂ : Kernel) × (handle_module_call core false a mutex_create k
        ≡ done (returns a k₁))
      × (k₁.mutexes a ≡ some new_mutex)
      × (handle_module_call core false b (mutex_destroy a) k₁ ≡ done (returns 0 k₂))
      × ((m : ℕ) → k₂.mutexes m ≡ k.mutexes m)
      × ((i : ℕ) → k₂.procs i ≡ k.procs i)
unfolding handle_module_call
destroy-create core a b t k task p c e pe fresh unowned =
    let id = task.proc in
    let k₁ = put_proc id (record p { locks = p.locks ++ a ∷ [] }) (put_mutex a new_mutex k) in
    let k₂ = free_mutex a (put_proc id (record p { locks = p.locks }) k₁) in
    let back = without-append_self a p.locks unowned in
    (
      k₁,
      k₂,
      ground arith,
      ground arith,
      ground (arith, back, count-append a p.locks (a ∷ [])),
      λ m. ground arith,
      λ i. ground arith,
    )

-- What `MutexCreate` and `MutexDestroy` of a process do to the kernel.
pub create_own :
    (core a t : ℕ) (k : Kernel) (task : Task) (p : Process)
    → k.current_task core ≡ some t
    → k.tasks t ≡ some task
    → k.procs task.proc ≡ some p
    → handle_module_call core false a mutex_create k
      ≡ done (
          returns a
            (put_proc task.proc (record p { locks = p.locks ++ a ∷ [] }) (put_mutex a new_mutex k)))
unfolding handle_module_call
create_own core a t k task p c e pe = ground arith

pub destroy_own :
    (core m b t : ℕ) (k : Kernel) (task : Task) (p : Process)
    → k.current_task core ≡ some t
    → k.tasks t ≡ some task
    → k.procs task.proc ≡ some p
    → 0 < count m p.locks
    → handle_module_call core false b (mutex_destroy m) k
      ≡ done
          (returns 0 (free_mutex m (put_proc task.proc (record p { locks = without m p.locks }) k)))
unfolding handle_module_call
destroy_own core m b t k task p c e pe owned = ground (arith, owned)
