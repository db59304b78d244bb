-- ===== src/Proc/Calls/Kept.antt =====
-- What the functions of modules/pm/src/locks.rs leave of the locks: none is gone.
use sophon_rpi_cross.Base.{
  ℕ, ◌≡◌, ◌≢◌, refl, ◌∙◌, Bool, true, false, none, [], ◌∷◌, ◌++◌, unwrap, Outcome, done, subst,
  ◌>>=◌, arith, >>=-eq-done, if◌then◌else◌,
}
use sophon_rpi_cross.Kernel.{
  RawMutex, RawCondvar, Kernel, is_enabled, disable, enable, uninterruptible,
}
use sophon_rpi_cross.Scheduler.{sleep}
use sophon_rpi_cross.Proc.{wake_all}
use sophon_rpi_cross.Proc.Locks.{
  Round, acquired, sleeps, lock_round, put_mutex, put_condvar, lock, unlock, wait, release_for_wait,
  notify_all,
}
use sophon_rpi_cross.Proc.Calls.Rescheduling.{
  SameLocks, done_injective, wake_all-SameLocks, sleep-SameLocks,
}

-- No mutex and no condition variable is gone, and the processes are the same.
pub record Kept (k k' : Kernel) : Type 0 where
  pub procs_same : k'.procs ≡ k.procs
  pub mutexes_kept : (m : ℕ) → k.mutexes m ≢ none → k'.mutexes m ≢ none
  pub condvars_kept : (c : ℕ) → k.condvars c ≢ none → k'.condvars c ≢ none

Kept-trans : {k₁ k₂ k₃ : Kernel} → Kept k₁ k₂ → Kept k₂ k₃ → Kept k₁ k₃
Kept-trans a b = record {
  procs_same = b.procs_same ∙ a.procs_same;
  mutexes_kept = λ m h. b.mutexes_kept m (a.mutexes_kept m h);
  condvars_kept = λ c h. b.condvars_kept c (a.condvars_kept c h);
}

SameLocks-Kept : {k k' : Kernel} → SameLocks k k' → Kept k k'
SameLocks-Kept s = record {
  procs_same = s.procs_same;
  mutexes_kept = λ m h. rw s.mutexes_same h;
  condvars_kept = λ c h. rw s.condvars_same h;
}

put_mutex-Kept : (k : Kernel) (m : ℕ) (r : RawMutex) → Kept k (put_mutex m r k)
put_mutex-Kept k m r = record {
  procs_same = refl;
  mutexes_kept = λ n h e. ground (arith, h);
  condvars_kept = λ c h. h;
}

put_condvar-Kept : (k : Kernel) (c : ℕ) (r : RawCondvar) → Kept k (put_condvar c r k)
put_condvar-Kept k c r = record {
  procs_same = refl;
  mutexes_kept = λ m h. h;
  condvars_kept = λ d h e. ground (arith, h);
}

masked-Kept : (core : ℕ) (k : Kernel) → Kept k (if is_enabled core k then disable core k else k)
masked-Kept core k = record {
  procs_same = ground arith;
  mutexes_kept = λ m h e. ground (arith, h);
  condvars_kept = λ c h e. ground (arith, h);
}

unmasked-Kept : (on : Bool) (core : ℕ) (k : Kernel) → Kept k (if on then enable core k else k)
unmasked-Kept on core k = record {
  procs_same = ground arith;
  mutexes_kept = λ m h e. ground (arith, h);
  condvars_kept = λ c h e. ground (arith, h);
}

-- What is true of the body of `uninterruptible` is true of the whole.
uninterruptible-Kept :
    (core : ℕ) (body : Kernel → Outcome Kernel) (k k' : Kernel)
    → ((a b : Kernel) → body a ≡ done b → Kept a b)
    → uninterruptible core body k ≡ done k'
    → Kept k k'
unfolding uninterruptible
uninterruptible-Kept core body k k' keeps h =
    let a = if is_enabled core k then disable core k else k in
    let (b, e, e') =
      >>=-eq-done (body a) (λ b. done (if is_enabled core k then enable core b else b)) h in
    Kept-trans (masked-Kept core k) (
      Kept-trans (keeps a b e)
        (subst (Kept b) (done_injective e') (unmasked-Kept (is_enabled core k) core b)))

abbrev unlock_body : ℕ → ℕ → Kernel → Outcome Kernel
unlock_body core m k = do
  mutex ← unwrap (k.mutexes m)
  k' ← wake_all core mutex.waiters (put_mutex m (record mutex { is_locked = false }) k)
  done (put_mutex m (record { is_locked = false; waiters = [] }) k')

unlock_body-Kept : (core m : ℕ) (a b : Kernel) → unlock_body core m a ≡ done b → Kept a b
unlock_body-Kept core m a b h =
    let (mutex, _, h₁) = >>=-eq-done (unwrap (a.mutexes m)) _ h in
    let opened = put_mutex m (record mutex { is_locked = false }) a in
    let (k', e, h₂) = >>=-eq-done (wake_all core mutex.waiters opened) _ h₁ in
    Kept-trans (put_mutex-Kept a m (record mutex { is_locked = false })) (
      Kept-trans (SameLocks-Kept (wake_all-SameLocks core mutex.waiters opened k' e)) (
        subst (Kept k') (done_injective h₂)
          (put_mutex-Kept k' m (record { is_locked = false; waiters = [] }))))

pub unlock-Kept : (core m : ℕ) (k k' : Kernel) → unlock core m k ≡ done k' → Kept k k'
unfolding unlock
unlock-Kept core m k k' =
    uninterruptible-Kept core (unlock_body core m) k k' (unlock_body-Kept core m)

abbrev notify_body : ℕ → ℕ → Kernel → Outcome Kernel
notify_body core c k = do
  cvar ← unwrap (k.condvars c)
  k' ← wake_all core cvar.waiters k
  done (put_condvar c (record { waiters = [] }) k')

notify_body-Kept : (core c : ℕ) (a b : Kernel) → notify_body core c a ≡ done b → Kept a b
notify_body-Kept core c a b h =
    let (cvar, _, h₁) = >>=-eq-done (unwrap (a.condvars c)) _ h in
    let (k', e, h₂) = >>=-eq-done (wake_all core cvar.waiters a) _ h₁ in
    Kept-trans (SameLocks-Kept (wake_all-SameLocks core cvar.waiters a k' e))
      (subst (Kept k') (done_injective h₂) (put_condvar-Kept k' c (record { waiters = [] })))

pub notify_all-Kept : (core c : ℕ) (k k' : Kernel) → notify_all core c k ≡ done k' → Kept k k'
unfolding notify_all
notify_all-Kept core c k k' =
    uninterruptible-Kept core (notify_body core c) k k' (notify_body-Kept core c)

abbrev pub round_kernel : Round → Kernel
round_kernel (acquired k) = k
round_kernel (sleeps t k) = k

-- The rest of a round of `lock`, for what its test gives.
rest_of_round-Kept :
    (core m t : ℕ) (on is_locked : Bool) (mutex : RawMutex) (k : Kernel) (r : Round)
    → (if is_locked
        then (do
          (next, k') ←
              sleep core (put_mutex m (record mutex { waiters = mutex.waiters ++ t ∷ [] }) k)
          done (sleeps next k'))
        else (let k' = put_mutex m (record mutex { is_locked = true }) k in
            done (acquired (if on then enable core k' else k'))))
      ≡ done r
    → Kept k (round_kernel r)
rest_of_round-Kept core m t on true mutex k r h =
    let queued = put_mutex m (record mutex { waiters = mutex.waiters ++ t ∷ [] }) k in
    let (found, e, h₁) = >>=-eq-done (sleep core queued) _ h in
    Kept-trans (put_mutex-Kept k m (record mutex { waiters = mutex.waiters ++ t ∷ [] })) (
      subst (λ (r : Round). Kept queued (round_kernel r)) (done_injective h₁)
        (SameLocks-Kept (sleep-SameLocks core found.0 queued found.1 e)))
rest_of_round-Kept core m t on false mutex k r h =
    let taken = put_mutex m (record mutex { is_locked = true }) k in
    Kept-trans (put_mutex-Kept k m (record mutex { is_locked = true })) (
      subst (λ (r : Round). Kept taken (round_kernel r)) (done_injective h)
        (unmasked-Kept on core taken))

lock_round-Kept :
    (core m t : ℕ) (on : Bool) (k : Kernel) (r : Round)
    → lock_round core m t on k ≡ done r
    → Kept k (round_kernel r)
unfolding lock_round
lock_round-Kept core m t on k r h =
    let (mutex, _, h₁) = >>=-eq-done (unwrap (k.mutexes m)) _ h in
    rest_of_round-Kept core m t on mutex.is_locked mutex k r h₁

pub lock-Kept :
    (core m : ℕ) (k : Kernel) (r : Round) → lock core m k ≡ done r → Kept k (round_kernel r)
unfolding lock
lock-Kept core m k r h =
    let a = if is_enabled core k then disable core k else k in
    let (t, _, h₁) = >>=-eq-done (unwrap (a.current_task core)) _ h in
    Kept-trans (masked-Kept core k) (lock_round-Kept core m t (is_enabled core k) a r h₁)

release_for_wait-Kept :
    (core c m : ℕ) (k k' : Kernel) → release_for_wait core c m k ≡ done k' → Kept k k'
unfolding release_for_wait
release_for_wait-Kept core c m k k' h =
    let a = if is_enabled core k then disable core k else k in
    let (cvar, _, h₁) = >>=-eq-done (unwrap (a.condvars c)) _ h in
    let (t, _, h₂) = >>=-eq-done (unwrap (a.current_task core)) _ h₁ in
    let (b, e, h₃) = >>=-eq-done (unlock core m a) _ h₂ in
    Kept-trans (masked-Kept core k) (
      Kept-trans (unlock-Kept core m a b e) (
        subst (Kept b) (done_injective h₃)
          (put_condvar-Kept b c (record { waiters = cvar.waiters ++ t ∷ [] }))))

pub wait-Kept : (core c m h : ℕ) (k k' : Kernel) → wait core c m k ≡ done (h, k') → Kept k k'
unfolding wait
wait-Kept core c m t k k' h =
    let (b, e, h₁) = >>=-eq-done (release_for_wait core c m k) _ h in
    Kept-trans (release_for_wait-Kept core c m k b e)
      (SameLocks-Kept (sleep-SameLocks core t b k' h₁))
