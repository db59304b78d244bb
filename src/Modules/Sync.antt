-- ===== src/Modules/Sync.antt =====
-- libs/sync/src/lib.rs: the locks of user programs, over the system calls to the process manager. The
-- data that a lock protects is kept in it.
pub mod Lifetime
use sophon_rpi_cross.Base.{ℕ, ◌-◌, ◌^◌, Option, none, some, Outcome, done, panic, ◌>>=◌}
use sophon_rpi_cross.Base.Text.{Text}
use sophon_rpi_cross.Proc.Calls.{
  ProcRequest, mutex_create, mutex_lock, mutex_unlock, mutex_destroy, condvar_create, condvar_wait,
  condvar_notify_all, condvar_destroy,
}
use sophon_rpi_cross.Modules.{System, Reply, returns, switches, Registry}
use sophon_rpi_cross.Modules.Syscalls.{Syscall, Args, user_pm_call}
use sophon_rpi_cross.Modules.Processes.{user_call}

pub record RawMutex : Type 0 where
  pub raw : ℕ

pub record RawCondvar : Type 0 where
  pub raw : ℕ

pub record RawMonitor : Type 0 where
  pub lock : RawMutex
  pub cond : RawCondvar

pub record Monitor (T : Type 0) : Type 0 where
  pub raw : RawMonitor
  pub value : T

-- `MonitorGuard`, `MutexGuard`: what is locked.
pub record MonitorGuard (T : Type 0) : Type 0 where
  pub monitor : Monitor T

pub record Mutex (T : Type 0) : Type 0 where
  pub lock : RawMutex
  pub value : T

pub record MutexGuard (T : Type 0) : Type 0 where
  pub mutex : Mutex T

pub record Condvar : Type 0 where
  pub raw : RawCondvar

-- The program goes on with a value, or its task is not the current one any more.
pub data Ran (A X : Type 0) : Type 0 where
  goes_on : X → System A → Ran A X
  leaves : ℕ → System A → Ran A X

-- `r as _`: -1 is the last word.
abbrev pub pointer : Option ℕ → ℕ
pointer none = 2 ^ 64 - 1
pointer (some a) = a

module _ {A : Type 0} where
  abbrev pub with_value : {X : Type 0} → (Option ℕ → X) → Reply A → Ran A X
  with_value f (returns v w) = goes_on (f v) w
  with_value f (switches t w) = leaves t w

  abbrev pub then :
      {X Y : Type 0} → Ran A X → (X → System A → Outcome (Ran A Y)) → Outcome (Ran A Y)
  then (goes_on x w) f = f x w
  then (leaves t w) f = done (leaves t w)

module _ {A : Type 0} (r : Registry A) (str_at : ℕ → Text)
    (others : Syscall → Args → System A → Outcome (Reply A)) (pm : ℕ) where
  -- A stub of libs/syscall; what it returns is made a value of `X`.
  abbrev pub call : {X : Type 0} → ProcRequest → (Option ℕ → X) → System A → Outcome (Ran A X)
  call request f w = do
    reply ← user_call r str_at others (user_pm_call pm request) w
    done (with_value f reply)

  -- `RawMutex`
  unfoldable pub raw_mutex_new : System A → Outcome (Ran A RawMutex)
  raw_mutex_new = call mutex_create λ v. record { raw = pointer v }

  unfoldable pub raw_mutex_lock : RawMutex → System A → Outcome (Ran A Unit)
  raw_mutex_lock m = call (mutex_lock m.raw) λ v. tt

  unfoldable pub raw_mutex_unlock : RawMutex → System A → Outcome (Ran A Unit)
  raw_mutex_unlock m = call (mutex_unlock m.raw) λ v. tt

  unfoldable pub raw_mutex_drop : RawMutex → System A → Outcome (Ran A Unit)
  raw_mutex_drop m = call (mutex_destroy m.raw) λ v. tt

  -- `RawCondvar`
  unfoldable pub raw_condvar_new : System A → Outcome (Ran A RawCondvar)
  raw_condvar_new = call condvar_create λ v. record { raw = pointer v }

  unfoldable pub raw_condvar_wait : RawCondvar → RawMutex → System A → Outcome (Ran A Unit)
  raw_condvar_wait c m = call (condvar_wait c.raw m.raw) λ v. tt

  unfoldable pub raw_condvar_notify_all : RawCondvar → System A → Outcome (Ran A Unit)
  raw_condvar_notify_all c = call (condvar_notify_all c.raw) λ v. tt

  unfoldable pub raw_condvar_drop : RawCondvar → System A → Outcome (Ran A Unit)
  raw_condvar_drop c = call (condvar_destroy c.raw) λ v. tt

  -- `RawMonitor`
  unfoldable pub raw_monitor_new : System A → Outcome (Ran A RawMonitor)
  unfolding raw_mutex_new raw_condvar_new
  raw_monitor_new w = do
    m ← raw_mutex_new w
    then m λ lock w₁. do
      c ← raw_condvar_new w₁
      then c λ cond w₂. done (goes_on (record { lock = lock; cond = cond }) w₂)

  -- Its fields are dropped in their order.
  unfoldable pub raw_monitor_drop : RawMonitor → System A → Outcome (Ran A Unit)
  unfolding raw_mutex_drop raw_condvar_drop
  raw_monitor_drop m w = do l ← raw_mutex_drop m.lock w; then l λ u w₁. raw_condvar_drop m.cond w₁

  -- `Monitor`
  unfoldable pub monitor_new : {T : Type 0} → T → System A → Outcome (Ran A (Monitor T))
  unfolding raw_monitor_new
  monitor_new value w = do
    m ← raw_monitor_new w
    then m λ raw w₁. done (goes_on (record { raw = raw; value = value }) w₁)

  unfoldable pub monitor_lock :
      {T : Type 0} → Monitor T → System A → Outcome (Ran A (MonitorGuard T))
  monitor_lock m = call (mutex_lock m.raw.lock.raw) λ v. record { monitor = m }

  unfoldable pub monitor_wait :
      {T : Type 0} → Monitor T → MonitorGuard T → System A → Outcome (Ran A (MonitorGuard T))
  monitor_wait m guard = call (condvar_wait m.raw.cond.raw m.raw.lock.raw) λ v. guard

  unfoldable pub monitor_notify_all : {T : Type 0} → Monitor T → System A → Outcome (Ran A Unit)
  monitor_notify_all m = call (condvar_notify_all m.raw.cond.raw) λ v. tt

  -- `Drop for MonitorGuard`
  unfoldable pub monitor_guard_drop :
      {T : Type 0} → MonitorGuard T → System A → Outcome (Ran A (Monitor T))
  monitor_guard_drop guard = call (mutex_unlock guard.monitor.raw.lock.raw) λ v. guard.monitor

  -- `Mutex`
  unfoldable pub mutex_new : {T : Type 0} → T → System A → Outcome (Ran A (Mutex T))
  mutex_new value =
      call mutex_create λ v. record { lock = record { raw = pointer v }; value = value }

  unfoldable pub mutex_lock_guard :
      {T : Type 0} → Mutex T → System A → Outcome (Ran A (MutexGuard T))
  mutex_lock_guard m = call (mutex_lock m.lock.raw) λ v. record { mutex = m }

  -- `Drop for MutexGuard`
  unfoldable pub mutex_guard_drop :
      {T : Type 0} → MutexGuard T → System A → Outcome (Ran A (Mutex T))
  mutex_guard_drop guard = call (mutex_unlock guard.mutex.lock.raw) λ v. guard.mutex

  -- `Condvar`
  unfoldable pub condvar_new : System A → Outcome (Ran A Condvar)
  condvar_new = call condvar_create λ v. record { raw = record { raw = pointer v } }

  unfoldable pub condvar_wait_guard :
      {T : Type 0} → Condvar → MutexGuard T → System A → Outcome (Ran A (MutexGuard T))
  condvar_wait_guard c guard = call (condvar_wait c.raw.raw guard.mutex.lock.raw) λ v. guard

  -- `notify_all` takes the variable itself, which is dropped at its end.
  unfoldable pub condvar_notify : Condvar → System A → Outcome (Ran A Unit)
  unfolding raw_condvar_notify_all raw_condvar_drop
  condvar_notify c w = do
    n ← raw_condvar_notify_all c.raw w
    then n λ u w₁. raw_condvar_drop c.raw w₁

-- `Deref` and `DerefMut` of the guards: the data, and a store to it.
abbrev pub monitor_data : {T : Type 0} → MonitorGuard T → T
monitor_data guard = guard.monitor.value

abbrev pub monitor_store : {T : Type 0} → T → MonitorGuard T → MonitorGuard T
monitor_store x guard = record { monitor = record guard.monitor { value = x } }

abbrev pub mutex_data : {T : Type 0} → MutexGuard T → T
mutex_data guard = guard.mutex.value

abbrev pub mutex_store : {T : Type 0} → T → MutexGuard T → MutexGuard T
mutex_store x guard = record { mutex = record guard.mutex { value = x } }
