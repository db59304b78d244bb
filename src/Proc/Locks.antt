-- ===== src/Proc/Locks.antt =====
-- modules/pm/src/locks.rs: the kernel's mutexes and condition variables. Interrupts are masked for
-- the whole of each function, so that between two sleeps nothing else runs on the core.
pub mod Invariant
pub mod Contention
use sophon_rpi_cross.Base.{
  ℕ, Bool, true, false, Option, none, some, List, [], ◌∷◌, ◌++◌, Outcome, done, ◌>>=◌, unwrap,
  update, if◌then◌else◌,
}
use sophon_rpi_cross.Kernel.{
  RawMutex, RawCondvar, Kernel, disable, enable, is_enabled, uninterruptible,
}
use sophon_rpi_cross.Scheduler.{get_current_task_id, sleep}
use sophon_rpi_cross.Proc.{wake_all}

abbrev pub new_mutex : RawMutex
new_mutex = record { is_locked = false; waiters = [] }

abbrev pub new_condvar : RawCondvar
new_condvar = record { waiters = [] }

-- A store into the mutex or the condition variable at an address.
abbrev pub put_mutex : ℕ → RawMutex → Kernel → Kernel
put_mutex m r k = record k { mutexes = update k.mutexes m (some r) }

abbrev pub put_condvar : ℕ → RawCondvar → Kernel → Kernel
put_condvar c r k = record k { condvars = update k.condvars c (some r) }

-- A round of the loop of `lock` ends with the mutex taken, or with the caller asleep and the core
-- handed to another task. Once it is woken and has the core again, the caller does the next round.
pub data Round : Type 0 where
  acquired : Kernel → Round
  sleeps : ℕ → Kernel → Round

-- One round, by task `t`. `enabled` is what the guard remembers of the interrupt mask.
unfoldable pub lock_round : ℕ → ℕ → ℕ → Bool → Kernel → Outcome Round
lock_round core m t enabled k = do
  mutex ← unwrap (k.mutexes m)
  if mutex.is_locked
      then (do
        (next, k') ← sleep core (put_mutex m (record mutex { waiters = mutex.waiters ++ t ∷ [] }) k)
        done (sleeps next k'))
      else (let k' = put_mutex m (record mutex { is_locked = true }) k in
          done (acquired (if enabled then enable core k' else k')))

unfoldable pub lock : ℕ → ℕ → Kernel → Outcome Round
unfolding lock_round get_current_task_id
lock core m k = do
  let k₁ = if is_enabled core k then disable core k else k
  t ← unwrap (get_current_task_id core k₁)
  lock_round core m t (is_enabled core k) k₁

unfoldable pub unlock : ℕ → ℕ → Kernel → Outcome Kernel
unfolding uninterruptible
unlock core m = uninterruptible core λ k. do
  mutex ← unwrap (k.mutexes m)
  k' ← wake_all core mutex.waiters (put_mutex m (record mutex { is_locked = false }) k)
  done (put_mutex m (record { is_locked = false; waiters = [] }) k')

-- `RawCondvar::wait` before `syscall::wait`: the mutex is released and the caller is a waiter.
unfoldable pub release_for_wait : ℕ → ℕ → ℕ → Kernel → Outcome Kernel
unfolding unlock get_current_task_id
release_for_wait core c m k = do
  let k₁ = if is_enabled core k then disable core k else k
  cvar ← unwrap (k₁.condvars c)
  t ← unwrap (get_current_task_id core k₁)
  k₂ ← unlock core m k₁
  done (put_condvar c (record { waiters = cvar.waiters ++ t ∷ [] }) k₂)

-- `RawCondvar::wait` with `syscall::wait`, in which the caller sleeps. Once it is woken it does the
-- rounds of `lock`.
unfoldable pub wait : ℕ → ℕ → ℕ → Kernel → Outcome (ℕ × Kernel)
unfolding release_for_wait
wait core c m k = do k' ← release_for_wait core c m k; sleep core k'

unfoldable pub notify_all : ℕ → ℕ → Kernel → Outcome Kernel
unfolding uninterruptible
notify_all core c = uninterruptible core λ k. do
  cvar ← unwrap (k.condvars c)
  k' ← wake_all core cvar.waiters k
  done (put_condvar c (record { waiters = [] }) k')
