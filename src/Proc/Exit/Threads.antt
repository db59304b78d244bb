-- ===== src/Proc/Exit/Threads.antt =====
-- The loop of `Process::exit` of modules/pm/src/proc.rs over the threads.
use sophon_rpi_cross.Base.{
  ℕ, ◌≤◌, ◌≡◌, refl, false, Option, none, some, List, [], ◌∷◌, done, update, if◌then◌else◌, ltb,
  count, arith, Option-cases,
}
use sophon_rpi_cross.Kernel.{Kernel}
use sophon_rpi_cross.Scheduler.{remove_task, forget}
use sophon_rpi_cross.Proc.{remove_threads}
use sophon_rpi_cross.Proc.Waking.{AllKnown, SameBut}

-- The loop of `Process::exit` over threads that are distinct and exist.
abbrev pub forget_all : List ℕ → Option ℕ → Option ℕ
forget_all [] o = o
forget_all (t ∷ ts) o = forget_all ts (forget t o)

pub forget_all-none : (ts : List ℕ) → forget_all ts none ≡ none
forget_all-none [] = refl
forget_all-none (t ∷ ts) = forget_all-none ts

pub forget_all-some :
    (ts : List ℕ) (c : ℕ) → forget_all ts (some c) ≡ (if ltb 0 (count c ts) then none else some c)
forget_all-some [] c = ground arith
forget_all-some (t ∷ ts) c = ground (arith, forget_all-some ts c, forget_all-none ts)

abbrev without_thread : ℕ → Kernel → Kernel
without_thread t k = record k {
  tasks = update k.tasks t none;
  current_task = update k.current_task 0 (forget t (k.current_task 0));
}

AllKnown-without :
    (t : ℕ) (ts : List ℕ) (k : Kernel)
    → count t ts ≡ 0
    → AllKnown ts k
    → AllKnown ts (without_thread t k)
AllKnown-without t [] k h a = tt
AllKnown-without t (u ∷ ts) k h a =
    (λ e. ground (arith, a.0), AllKnown-without t ts k (ground arith) a.1)

pub remove_threads_lem :
    (ts : List ℕ) (k : Kernel)
    → k.interrupts 0 ≡ false
    → AllKnown ts k
    → ((u : ℕ) → count u ts ≤ 1)
    → (k' : Kernel) × (remove_threads 0 ts k ≡ done k')
      × ((u : ℕ) → k'.tasks u ≡ (if ltb 0 (count u ts) then none else k.tasks u))
      × (k'.current_task 0 ≡ forget_all ts (k.current_task 0))
      × (k'.per_core_task_queue ≡ k.per_core_task_queue)
      × (k'.interrupts 0 ≡ false)
      × (k'.procs ≡ k.procs)
unfolding remove_threads remove_task
remove_threads_lem [] k off a d = (k, refl, λ u. ground arith, refl, refl, off, refl)
remove_threads_lem (t ∷ ts) k off a d =
    let k₁ = without_thread t k in
    let once : count t ts ≡ 0 = ground (arith, d t) in
    let (k₂, e₂, t₂, c₂, q₂, i₂, p₂) =
      remove_threads_lem ts k₁ off (AllKnown-without t ts k once a.1) (λ u. ground (arith, d u)) in
    (
      k₂,
      ground (arith, e₂, off, a.0, Option-cases (k.tasks t)),
      λ u. ground (arith, t₂ u),
      c₂,
      q₂,
      i₂,
      p₂,
    )

pub AllKnown-same : (ts : List ℕ) (k k' : Kernel) → SameBut k k' → AllKnown ts k → AllKnown ts k'
AllKnown-same [] k k' s a = tt
AllKnown-same (t ∷ ts) k k' s a =
    (λ e. ground (arith, a.0, s.tasks_same t), AllKnown-same ts k k' s a.1)

pub AllKnown-tasks :
    (ts : List ℕ) (k k' : Kernel) → k'.tasks ≡ k.tasks → AllKnown ts k → AllKnown ts k'
AllKnown-tasks [] k k' e a = tt
AllKnown-tasks (t ∷ ts) k k' e a = (rw e a.0, AllKnown-tasks ts k k' e a.1)
