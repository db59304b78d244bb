-- ===== src/Proc/Locks/Invariant.antt =====
-- What holds of the mutexes and the condition variables of modules/pm together with the scheduler.
use sophon_rpi_cross.Base.{
  ℕ, ◌<◌, ◌≡◌, Bool, true, false, Option, none, some, List, [], ◌∷◌, ◌++◌, done, if◌then◌else◌,
  ◌==◌, ltb, count, arith,
}
use sophon_rpi_cross.Kernel.{
  ready, sleeping, RawMutex, RawCondvar, Kernel, disable, enable, is_enabled, run_state_of,
}
use sophon_rpi_cross.Scheduler.Invariant.{Inv, Runs}
use sophon_rpi_cross.Proc.Waking.{AllKnown, woken_state, wake_all_lem}
use sophon_rpi_cross.Proc.Locks.{unlock, notify_all, put_mutex, put_condvar}

abbrev pub mutex_waiters : Option RawMutex → List ℕ
mutex_waiters none = []
mutex_waiters (some r) = r.waiters

abbrev pub locked : Option RawMutex → Bool
locked none = false
locked (some r) = r.is_locked

abbrev pub condvar_waiters : Option RawCondvar → List ℕ
condvar_waiters none = []
condvar_waiters (some r) = r.waiters

-- Each waiter sleeps, at one place only, and nobody waits for a mutex that is free.
pub record LockInv (k : Kernel) : Type 0 where
  pub asleep :
      (m t : ℕ)
      → 0 < count t (mutex_waiters (k.mutexes m))
      → run_state_of (k.tasks t) ≡ some sleeping
  pub held : (m t : ℕ) → 0 < count t (mutex_waiters (k.mutexes m)) → locked (k.mutexes m) ≡ true
  pub one_mutex :
      (m n t : ℕ)
      → 0 < count t (mutex_waiters (k.mutexes m))
      → 0 < count t (mutex_waiters (k.mutexes n))
      → m ≡ n
  pub cv_asleep :
      (c t : ℕ)
      → 0 < count t (condvar_waiters (k.condvars c))
      → run_state_of (k.tasks t) ≡ some sleeping
  pub one_condvar :
      (c d t : ℕ)
      → 0 < count t (condvar_waiters (k.condvars c))
      → 0 < count t (condvar_waiters (k.condvars d))
      → c ≡ d
  pub apart :
      (m c t : ℕ)
      → 0 < count t (mutex_waiters (k.mutexes m))
      → count t (condvar_waiters (k.condvars c)) ≡ 0

-- Sleeping tasks exist.
pub known_of_asleep :
    (ts : List ℕ) (k : Kernel)
    → ((t : ℕ) → 0 < count t ts → run_state_of (k.tasks t) ≡ some sleeping)
    → AllKnown ts k
known_of_asleep [] k h = tt
known_of_asleep (t ∷ ts) k h =
    (λ e. ground (arith, h t), known_of_asleep ts k (λ u p. h u (ground arith)))

abbrev empty_mutex : RawMutex
empty_mutex = record { is_locked = false; waiters = [] }

-- Waking all the waiters of mutex `m` and emptying its list.
unlocked-LockInv :
    (k k' : Kernel) (m : ℕ)
    → LockInv k
    → ((n : ℕ) → k'.mutexes n ≡ (if m == n then some empty_mutex else k.mutexes n))
    → ((c : ℕ) → k'.condvars c ≡ k.condvars c)
    → ((u : ℕ)
        → run_state_of (k'.tasks u)
          ≡ woken_state (ltb 0 (count u (mutex_waiters (k.mutexes m)))) (run_state_of (k.tasks u)))
    → LockInv k'
unlocked-LockInv k k' m v em ec er = record {
  asleep = λ n t h. ground (arith, em n, er t, v.asleep n t, v.one_mutex m n t);
  held = λ n t h. ground (arith, em n, v.held n t);
  one_mutex = λ n n' t h h'. ground (arith, em n, em n', v.one_mutex n n' t);
  cv_asleep = λ c t h. ground (arith, ec c, er t, v.cv_asleep c t, v.apart m c t);
  one_condvar = λ c d t h h'. ground (arith, ec c, ec d, v.one_condvar c d t);
  apart = λ n c t h. ground (arith, em n, ec c, v.apart n c t);
}

empty_condvar : Option RawCondvar
empty_condvar = some (record { waiters = [] })

-- The same for a condition variable.
notified-LockInv :
    (k k' : Kernel) (c : ℕ)
    → LockInv k
    → ((n : ℕ) → k'.mutexes n ≡ k.mutexes n)
    → ((d : ℕ) → k'.condvars d ≡ (if c == d then empty_condvar else k.condvars d))
    → ((u : ℕ)
        → run_state_of (k'.tasks u)
          ≡ woken_state
              (ltb 0 (count u (condvar_waiters (k.condvars c))))
              (run_state_of (k.tasks u)))
    → LockInv k'
unfolding empty_condvar
notified-LockInv k k' c v em ec er = record {
  asleep = λ n t h. ground (arith, em n, er t, v.asleep n t, v.apart n c t);
  held = λ n t h. ground (arith, em n, v.held n t);
  one_mutex = λ n n' t h h'. ground (arith, em n, em n', v.one_mutex n n' t);
  cv_asleep = λ d t h. ground (arith, ec d, er t, v.cv_asleep d t, v.one_condvar c d t);
  one_condvar = λ d d' t h h'. ground (arith, ec d, ec d', v.one_condvar d d' t);
  apart = λ n d t h. ground (arith, em n, ec d, v.apart n d t);
}

abbrev pub masked : Kernel → Kernel
masked k = if is_enabled 0 k then disable 0 k else k

abbrev pub unmasked : Kernel → Kernel → Kernel
unmasked k k' = if is_enabled 0 k then enable 0 k' else k'

-- The invariant does not speak of the interrupt mask, nor of the mutexes.
pub Inv-like :
    (k k' : Kernel)
    → Inv k
    → k'.per_core_task_queue ≡ k.per_core_task_queue
    → k'.tasks ≡ k.tasks
    → k'.current_task ≡ k.current_task
    → Inv k'
Inv-like k k' v q t c = record {
  queued = λ u. rw (q, t) (v.queued u);
  current_known = λ u e. rw t (v.current_known u (rw c at e));
  only_current = λ u e. rw c (v.only_current u (rw t at e));
}

pub LockInv-like :
    (k k' : Kernel)
    → LockInv k
    → k'.mutexes ≡ k.mutexes
    → k'.condvars ≡ k.condvars
    → k'.tasks ≡ k.tasks
    → LockInv k'
LockInv-like k k' l m c t = record {
  asleep = λ n u p. rw t (l.asleep n u (rw m at p));
  held = λ n u p. rw m (l.held n u (rw m at p));
  one_mutex = λ n n' u p p'. l.one_mutex n n' u (rw m at p) (rw m at p');
  cv_asleep = λ d u p. rw t (l.cv_asleep d u (rw c at p));
  one_condvar = λ d d' u p p'. l.one_condvar d d' u (rw c at p) (rw c at p');
  apart = λ n d u p. rw c (l.apart n d u (rw m at p));
}

-- `unlock` never panics on a mutex that exists. It leaves the mutex free with nobody waiting, makes
-- every task that waited for it ready, wakes nobody else, both invariants hold again, and the
-- interrupt mask is as before.
pub unlock_wakes :
    (k : Kernel) (m : ℕ) (mutex : RawMutex)
    → Inv k
    → LockInv k
    → k.mutexes m ≡ some mutex
    → (k' : Kernel) × (unlock 0 m k ≡ done k')
      × Inv k'
      × LockInv k'
      × (k'.mutexes m ≡ some (record { is_locked = false; waiters = [] }))
      × ((u : ℕ)
          → run_state_of (k'.tasks u)
            ≡ (if ltb 0 (count u mutex.waiters) then some ready else run_state_of (k.tasks u)))
      × (k'.current_task ≡ k.current_task)
      × (k'.condvars ≡ k.condvars)
      × ((more : List ℕ) × (k'.per_core_task_queue 0 ≡ k.per_core_task_queue 0 ++ more))
      × (k'.interrupts 0 ≡ k.interrupts 0)
      × ((u : ℕ) → Runs u k → Runs u k')
unfolding unlock
unlock_wakes k m mutex v l e =
    let k₁ = put_mutex m (record mutex { is_locked = false }) (masked k) in
    let v₁ = Inv-like k k₁ v (ground arith) (ground arith) (ground arith) in
    let known = known_of_asleep mutex.waiters k₁ (λ t h. ground (arith, l.asleep m t)) in
    let (k₂, e₂, v₂, s₂, r₂, more₂, runs₂) = wake_all_lem mutex.waiters k₁ v₁ known in
    let k₃ = unmasked k (put_mutex m empty_mutex k₂) in
    (
      k₃,
      ground (arith, e₂),
      Inv-like k₂ k₃ v₂ (ground arith) (ground arith) (ground arith),
      unlocked-LockInv k k₃ m l (λ n. ground (arith, s₂.mutexes_same))
          (λ c. ground (arith, s₂.condvars_same)) (λ u. ground (arith, r₂ u)),
      ground arith,
      λ u. ground (arith, r₂ u, l.asleep m u),
      ground (arith, s₂.current_same),
      ground (arith, s₂.condvars_same),
      (more₂.0, ground (arith, more₂.1)),
      ground (arith, s₂.mask_same),
      λ u r.
          let r₁ : Runs u k₁ = record {
            is_current = ground (arith, r.is_current);
            has_slice = ground (arith, r.has_slice);
          } in
          let r₂' = runs₂ u r₁ in
          record {
            is_current = ground (arith, r₂'.is_current);
            has_slice = ground (arith, r₂'.has_slice);
          },
    )

-- `notify_all` never panics on a condition variable that exists. Nobody waits on it afterwards, every
-- task that did is ready, nobody else is woken, and both invariants hold again.
pub notify_all_wakes :
    (k : Kernel) (c : ℕ) (cvar : RawCondvar)
    → Inv k
    → LockInv k
    → k.condvars c ≡ some cvar
    → (k' : Kernel) × (notify_all 0 c k ≡ done k')
      × Inv k'
      × LockInv k'
      × (condvar_waiters (k'.condvars c) ≡ [])
      × ((u : ℕ)
          → run_state_of (k'.tasks u)
            ≡ (if ltb 0 (count u cvar.waiters) then some ready else run_state_of (k.tasks u)))
unfolding notify_all empty_condvar
notify_all_wakes k c cvar v l e =
    let k₁ = masked k in
    let v₁ = Inv-like k k₁ v (ground arith) (ground arith) (ground arith) in
    let known = known_of_asleep cvar.waiters k₁ (λ t h. ground (arith, l.cv_asleep c t)) in
    let (k₂, e₂, v₂, s₂, r₂, more₂, runs₂) = wake_all_lem cvar.waiters k₁ v₁ known in
    let k₃ = unmasked k (put_condvar c (record { waiters = [] }) k₂) in
    (
      k₃,
      ground (arith, e₂),
      Inv-like k₂ k₃ v₂ (ground arith) (ground arith) (ground arith),
      notified-LockInv k k₃ c l (λ n. ground (arith, s₂.mutexes_same))
          (λ d. ground (arith, s₂.condvars_same)) (λ u. ground (arith, r₂ u)),
      ground arith,
      λ u. ground (arith, r₂ u, l.cv_asleep c u),
    )
