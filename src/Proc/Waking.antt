-- ===== src/Proc/Waking.antt =====
-- `for t in waiters { SERVICE.scheduler().wake_up(*t) }`, which ends every `unlock`, `notify_all` and
-- exit of modules/pm.
use sophon_rpi_cross.Base.{
  ℕ, ◌≡◌, refl, ◌∙◌, ◌≢◌, Bool, true, Option, none, some, List, [], ◌∷◌, ◌++◌, done, if◌then◌else◌,
  ◌==◌, ltb, count, arith, Option-cases, inl, inr,
}
use mathlib.Core.List.{append-nil, append_assoc}
use sophon_rpi_cross.Kernel.{RunState, ready, sleeping, Monitor, Task, Kernel, run_state_of}
use sophon_rpi_cross.Scheduler.{push, wake_up}
use sophon_rpi_cross.Scheduler.Invariant.{Inv, Runs}
use sophon_rpi_cross.Scheduler.Blocking.{guarded, woken, asleep_state, guarded-woken-Inv}
use sophon_rpi_cross.Proc.{wake_all}

-- Each of the tasks exists.
abbrev pub AllKnown : List ℕ → Kernel → Type 0
AllKnown [] k = Unit {0}
AllKnown (t ∷ ts) k = (k.tasks t ≢ none) × AllKnown ts k

-- The run state of a task after a wake-up.
abbrev pub woken_state : Bool → Option RunState → Option RunState
woken_state true (some sleeping) = some ready
woken_state _ r = r

-- What a task keeps when only its scheduler state is stored to.
abbrev pub rest_of_task : Option Task → Option (ℕ × Monitor)
rest_of_task none = none
rest_of_task (some t) = some (t.proc, t.live)

-- `k'` differs from `k` in the scheduler's part of the tasks and in the queue.
pub record SameBut (k k' : Kernel) : Type 0 where
  pub current_same : k'.current_task ≡ k.current_task
  pub mask_same : k'.interrupts 0 ≡ k.interrupts 0
  pub procs_same : k'.procs ≡ k.procs
  pub mutexes_same : k'.mutexes ≡ k.mutexes
  pub condvars_same : k'.condvars ≡ k.condvars
  pub tasks_same : (u : ℕ) → rest_of_task (k'.tasks u) ≡ rest_of_task (k.tasks u)

SameBut-trans : {k₁ k₂ k₃ : Kernel} → SameBut k₁ k₂ → SameBut k₂ k₃ → SameBut k₁ k₃
SameBut-trans a b = record {
  current_same = b.current_same ∙ a.current_same;
  mask_same = b.mask_same ∙ a.mask_same;
  procs_same = b.procs_same ∙ a.procs_same;
  mutexes_same = b.mutexes_same ∙ a.mutexes_same;
  condvars_same = b.condvars_same ∙ a.condvars_same;
  tasks_same = λ u. b.tasks_same u ∙ a.tasks_same u;
}

-- One wake-up.
pub wake_up_lem :
    (k : Kernel) (t : ℕ) → k.tasks t ≢ none → wake_up 0 t k ≡ done (guarded (woken t) k)
unfolding wake_up
wake_up_lem k t h = elim (Option-cases (k.tasks t)) [
  | inl e ↦ absurd (h e)
  | inr (task, e) ↦ ground (arith, e)
]

woken-SameBut : (k : Kernel) (t : ℕ) → SameBut k (guarded (woken t) k)
unfolding push
woken-SameBut k t = record {
  current_same = ground arith;
  mask_same = ground arith;
  procs_same = ground arith;
  mutexes_same = ground arith;
  condvars_same = ground arith;
  tasks_same = λ u. ground arith;
}

woken-state :
    (k : Kernel) (t u : ℕ)
    → run_state_of ((guarded (woken t) k).tasks u) ≡ woken_state (t == u) (run_state_of (k.tasks u))
unfolding push
woken-state k t u = ground arith

abbrev woken_more : ℕ → Kernel → List ℕ
woken_more t k = if asleep_state (run_state_of (k.tasks t)) then t ∷ [] else []

woken-queue :
    (k : Kernel) (t : ℕ)
    → (guarded (woken t) k).per_core_task_queue 0 ≡ k.per_core_task_queue 0 ++ woken_more t k
unfolding push
woken-queue k t = ground (arith, append-nil (k.per_core_task_queue 0))

woken-Runs : (k : Kernel) (t u : ℕ) → Runs u k → Runs u (guarded (woken t) k)
unfolding push
woken-Runs k t u r = record {
  is_current = ground (arith, r.is_current);
  has_slice = ground (arith, r.has_slice);
}

woken_state_twice :
    (a b : Bool) (r : Option RunState)
    → woken_state a (woken_state b r) ≡ woken_state (if b then true else a) r
woken_state_twice a b r = ground arith

known_of_same : (k k' : Kernel) (u : ℕ) → SameBut k k' → k.tasks u ≢ none → k'.tasks u ≢ none
known_of_same k k' u s h e = ground (arith, s.tasks_same u)

AllKnown-same : (ts : List ℕ) (k k' : Kernel) → SameBut k k' → AllKnown ts k → AllKnown ts k'
AllKnown-same [] k k' s h = tt
AllKnown-same (t ∷ ts) k k' s h = (known_of_same k k' t s h.0, AllKnown-same ts k k' s h.1)

-- Waking tasks that exist does not panic, keeps the invariant, makes ready exactly those of them that
-- sleep, and changes nothing but the scheduler's data.
pub wake_all_lem :
    (ts : List ℕ) (k : Kernel)
    → Inv k
    → AllKnown ts k
    → (k' : Kernel) × (wake_all 0 ts k ≡ done k')
      × Inv k'
      × SameBut k k'
      × ((u : ℕ)
          → run_state_of (k'.tasks u) ≡ woken_state (ltb 0 (count u ts)) (run_state_of (k.tasks u)))
      × ((more : List ℕ) × (k'.per_core_task_queue 0 ≡ k.per_core_task_queue 0 ++ more))
      × ((u : ℕ) → Runs u k → Runs u k')
unfolding wake_all
wake_all_lem [] k v a = (
  k,
  refl,
  v,
  record {
    current_same = refl;
    mask_same = refl;
    procs_same = refl;
    mutexes_same = refl;
    condvars_same = refl;
    tasks_same = λ u. refl;
  },
  λ u. ground arith,
  ([], rw append-nil),
  λ u r. r,
)
wake_all_lem (t ∷ ts) k v a =
    let k₁ = guarded (woken t) k in
    let s₁ = woken-SameBut k t in
    let (k₂, e₂, v₂, s₂, r₂, more₂, runs₂) =
      wake_all_lem ts k₁ (guarded-woken-Inv k t v) (AllKnown-same ts k k₁ s₁ a.1) in
    (
      k₂,
      rw (wake_up_lem k t a.0) e₂,
      v₂,
      SameBut-trans s₁ s₂,
      λ u. ground (arith, r₂ u, woken-state k t u),
      (
        woken_more t k ++ more₂.0,
        more₂.1 ∙ rw woken-queue (append_assoc (k.per_core_task_queue 0) _ _),
      ),
      λ u r. runs₂ u (woken-Runs k t u r),
    )
