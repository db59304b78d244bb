-- ===== src/Proc/Locks/Contention.antt =====
-- `lock` and `wait` of modules/pm/src/locks.rs, where they sleep and where they do not.
use sophon_rpi_cross.Base.{
  ℕ, ◌≡◌, refl, ◌≢◌, true, false, some, List, [], ◌∷◌, ◌++◌, done, count-append, arith,
}
use sophon_rpi_cross.Kernel.{sleeping, RawMutex, RawCondvar, Kernel, run_state_of}
use sophon_rpi_cross.Scheduler.Invariant.{Inv, Runs}
use sophon_rpi_cross.Scheduler.Blocking.{slept, sleep_lem, slept-Inv, slept-Runs}
use sophon_rpi_cross.Proc.Locks.{acquired, sleeps, lock, put_mutex, put_condvar}
use sophon_rpi_cross.Proc.Locks.Invariant.{
  LockInv, mutex_waiters, masked, unmasked, Inv-like, LockInv-like,
}

-- The kernel with `t` among the waiters of `m`.
abbrev queued_on : ℕ → RawMutex → ℕ → Kernel → Kernel
queued_on m mutex t k = put_mutex m (record mutex { waiters = mutex.waiters ++ t ∷ [] }) k

queued_on-LockInv :
    (k : Kernel) (m t h : ℕ) (mutex : RawMutex) (rest : List ℕ)
    → Inv k
    → LockInv k
    → Runs t k
    → k.mutexes m ≡ some mutex
    → mutex.is_locked ≡ true
    → k.per_core_task_queue 0 ≡ h ∷ rest
    → LockInv (slept t h rest (queued_on m mutex t k))
queued_on-LockInv k m t h mutex rest v l r e held q = record {
  asleep = λ n u p.
      ground
        (arith, l.asleep n u, v.queued h, q, r.has_slice, count-append u mutex.waiters (t ∷ []));
  held = λ n u p. ground (arith, l.held n u);
  one_mutex = λ n n' u p p'. ground (
    arith,
    l.one_mutex n n' u,
    l.asleep n u,
    l.asleep n' u,
    r.has_slice,
    count-append u mutex.waiters (t ∷ []),
  );
  cv_asleep = λ c u p. ground (arith, l.cv_asleep c u, v.queued h, q, r.has_slice);
  one_condvar = λ c d u p p'. ground (arith, l.one_condvar c d u);
  apart = λ n c u p.
      ground
        (arith, l.apart n c u, l.cv_asleep c u, r.has_slice, count-append u mutex.waiters (t ∷ []));
}

-- On a free mutex `lock` takes it at once: nobody sleeps, nobody is woken, and only the flag of that
-- mutex changes.
pub lock_free :
    (k : Kernel) (m t : ℕ) (mutex : RawMutex)
    → k.current_task 0 ≡ some t
    → k.mutexes m ≡ some mutex
    → mutex.is_locked ≡ false
    → (k' : Kernel) × (lock 0 m k ≡ done (acquired k'))
      × (k'.mutexes m ≡ some (record mutex { is_locked = true }))
      × ((n : ℕ) → n ≢ m → k'.mutexes n ≡ k.mutexes n)
      × (k'.tasks ≡ k.tasks)
      × (k'.interrupts 0 ≡ k.interrupts 0)
unfolding lock
lock_free k m t mutex c e free = (
  unmasked k (put_mutex m (record mutex { is_locked = true }) (masked k)),
  ground arith,
  ground arith,
  λ n h. ground arith,
  ground arith,
  ground arith,
)

-- On a mutex that is held `lock` does not take it: the caller joins the waiters and sleeps, the core
-- goes to the task that has been ready longest, and both invariants hold.
pub lock_held :
    (k : Kernel) (m t h : ℕ) (mutex : RawMutex) (rest : List ℕ)
    → Inv k
    → LockInv k
    → Runs t k
    → k.mutexes m ≡ some mutex
    → mutex.is_locked ≡ true
    → k.per_core_task_queue 0 ≡ h ∷ rest
    → (k' : Kernel) × (lock 0 m k ≡ done (sleeps h k'))
      × Inv k'
      × LockInv k'
      × Runs h k'
      × (mutex_waiters (k'.mutexes m) ≡ mutex.waiters ++ t ∷ [])
      × (run_state_of (k'.tasks t) ≡ some sleeping)
unfolding lock
lock_held k m t h mutex rest v l r e held q =
    let k₀ = masked k in
    let v₀ = Inv-like k k₀ v (ground arith) (ground arith) (ground arith) in
    let k₁ = queued_on m mutex t k₀ in
    let v₁ = Inv-like k₀ k₁ v₀ refl refl refl in
    let r₀ : Runs t k₀ = record {
      is_current = ground (arith, r.is_current);
      has_slice = ground (arith, r.has_slice);
    } in
    let r₁ : Runs t k₁ = record { is_current = r₀.is_current; has_slice = r₀.has_slice } in
    let q₁ : k₁.per_core_task_queue 0 ≡ h ∷ rest = ground (arith, q) in
    (
      slept t h rest k₁,
      ground (arith, sleep_lem k₁ t h rest v₁ r₁ q₁, r.is_current),
      slept-Inv k₁ t h rest v₁ r₁ q₁,
      queued_on-LockInv k₀ m t h mutex rest v₀
          (LockInv-like k k₀ l (ground arith) (ground arith) (ground arith)) r₀ (ground (arith, e))
          held q₁,
      slept-Runs k₁ t h rest v₁ r₁ q₁,
      ground arith,
      ground (arith, v.queued t, r.has_slice, q),
    )

-- The kernel with `t` among the waiters of condition variable `c`.
abbrev waiting_on : ℕ → RawCondvar → ℕ → Kernel → Kernel
waiting_on c cvar t k = put_condvar c (record cvar { waiters = cvar.waiters ++ t ∷ [] }) k
