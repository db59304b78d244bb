-- ===== src/Proc/Calls/Rescheduling.antt =====
-- Waking and sleeping, in modules/round-robin/src/lib.rs, leave the locks and the processes alone.
use sophon_rpi_cross.Base.{
  ℕ, ◌≡◌, ◌∙◌, List, [], ◌∷◌, done, arith, Option-cases, inl, inr, >>=-eq-done, if◌then◌else◌,
}
use sophon_rpi_cross.Kernel.{Kernel, sleeping, is_enabled, disable, store_sched}
use sophon_rpi_cross.Scheduler.{set_run_state, wake_up, sleep, schedule, run_next}
use sophon_rpi_cross.Proc.{wake_all}

pub done_injective : {X : Type 0} {a b : X} → done a ≡ done b → a ≡ b
done_injective e = cc

-- The processes, their locks and condition variables are the same.
pub record SameLocks (k k' : Kernel) : Type 0 where
  pub procs_same : k'.procs ≡ k.procs
  pub mutexes_same : k'.mutexes ≡ k.mutexes
  pub condvars_same : k'.condvars ≡ k.condvars

SameLocks-trans : {k₁ k₂ k₃ : Kernel} → SameLocks k₁ k₂ → SameLocks k₂ k₃ → SameLocks k₁ k₃
SameLocks-trans a b = record {
  procs_same = b.procs_same ∙ a.procs_same;
  mutexes_same = b.mutexes_same ∙ a.mutexes_same;
  condvars_same = b.condvars_same ∙ a.condvars_same;
}

wake_up-SameLocks : (core t : ℕ) (k k' : Kernel) → wake_up core t k ≡ done k' → SameLocks k k'
unfolding wake_up
wake_up-SameLocks core t k k' h = elim (Option-cases (k.tasks t)) [
  | inl e ↦ absurd (ground (arith, h, e))
  | inr (task, e) ↦ record {
    procs_same = ground (arith, h, e);
    mutexes_same = ground (arith, h, e);
    condvars_same = ground (arith, h, e);
  }
]

pub wake_all-SameLocks :
    (core : ℕ) (ts : List ℕ) (k k' : Kernel) → wake_all core ts k ≡ done k' → SameLocks k k'
unfolding wake_all
wake_all-SameLocks core [] k k' h = record {
  procs_same = ground (arith, h);
  mutexes_same = ground (arith, h);
  condvars_same = ground (arith, h);
}
wake_all-SameLocks core (t ∷ ts) k k' h =
    let (k₁, e₁, e₂) = >>=-eq-done (wake_up core t k) (wake_all core ts) h in
    SameLocks-trans (wake_up-SameLocks core t k k₁ e₁) (wake_all-SameLocks core ts k₁ k' e₂)

run_next-SameLocks : (core t : ℕ) (k k' : Kernel) → run_next core k ≡ done (t, k') → SameLocks k k'
unfolding run_next
run_next-SameLocks core t k k' h = record {
  procs_same = ground (arith, h);
  mutexes_same = ground (arith, h);
  condvars_same = ground (arith, h);
}

schedule-SameLocks : (core t : ℕ) (k k' : Kernel) → schedule core k ≡ done (t, k') → SameLocks k k'
unfolding schedule
schedule-SameLocks core t k k' h = record {
  procs_same = ground (
    arith,
    h,
    λ (e : run_next core (disable core k) ≡ done (t, k')).
        (run_next-SameLocks core t (disable core k) k' e).procs_same,
  );
  mutexes_same = ground (
    arith,
    h,
    λ (e : run_next core (disable core k) ≡ done (t, k')).
        (run_next-SameLocks core t (disable core k) k' e).mutexes_same,
  );
  condvars_same = ground (
    arith,
    h,
    λ (e : run_next core (disable core k) ≡ done (t, k')).
        (run_next-SameLocks core t (disable core k) k' e).condvars_same,
  );
}

pub sleep-SameLocks : (core t : ℕ) (k k' : Kernel) → sleep core k ≡ done (t, k') → SameLocks k k'
unfolding sleep
sleep-SameLocks core t k k' h =
    let d = if is_enabled core k then disable core k else k in
    elim (Option-cases (k.current_task core)) [
      | inl e ↦ absurd (ground (arith, h, e))
      | inr (c, e) ↦
          let s =
            schedule-SameLocks core t (store_sched c (set_run_state sleeping) d) k'
              (ground (arith, h, e)) in
          record {
            procs_same = s.procs_same ∙ ground arith;
            mutexes_same = s.mutexes_same ∙ ground arith;
            condvars_same = s.condvars_same ∙ ground arith;
          }
    ]
