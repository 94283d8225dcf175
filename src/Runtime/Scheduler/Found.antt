-- ===== src/Runtime/Scheduler/Found.antt =====
-- What `healthy` (apps/control-cloud/src/runtime/common.ts) finds.
use personal_cloud.Prelude.{
  ℕ, ◌≡◌, ◌⊎◌, refl, subst, Bool, true, false, Option, some, List, [], ◌∷◌, arith, Bool-cases, inl,
  inr,
}
use personal_cloud.Prelude.Outcome.{Result, ok, err}
use personal_cloud.Runtime.Scheduler.{
  running, Allocation, Stops, Scheduler, is_up, passes, after_checks, after_task, first_healthy,
  healthy_of, healthy,
}

-- One of the allocations.
abbrev pub IsOneOf : Allocation → List Allocation → Type 0
IsOneOf a [] = true ≡ false
IsOneOf a (b ∷ l) = (a ≡ b) ⊎ IsOneOf a l

-- The scheduler said that the task runs, and that all checks, of which there are some, succeed.
abbrev pub IsHealthy : Scheduler → Allocation → Type 0
IsHealthy p a =
    (a.is_stopping ≡ false)
    × (a.client_status ≡ running)
    × ((w : Stops) × ((p.task_running a.id w).0 ≡ ok true))
    × ((w : Stops) × ((cs : List Bool) × ((p.checks a.id w).0 ≡ ok cs) × (passes p cs ≡ true)))

module _ (p : Scheduler) (a : Allocation) where
  abbrev Found : Result (Option Allocation) × Stops → Type 0
  Found x = x.0 ≡ ok (some a)

  abbrev Later : (Stops → Result (Option Allocation) × Stops) → Type 0
  Later next = (w : Stops) × Found (next w)

  checked :
      (b : Allocation) (x : Result (List Bool) × Stops)
      (next : Stops → Result (Option Allocation) × Stops)
      → Found (after_checks p b x next)
      → ((b ≡ a) × ((cs : List Bool) × (x.0 ≡ ok cs) × (passes p cs ≡ true))) ⊎ Later next
  checked b (ok cs, w) next h = elim (Bool-cases (passes p cs)) [
    | inl e ↦ inl (ground arith, (cs, refl, e))
    | inr e ↦ inr (w, ground arith)
  ]
  checked b (err e, w) next h = absurd (cc)

  abbrev Task : Allocation → Result Bool × Stops → Type 0
  Task b x =
      (b ≡ a)
      × (x.0 ≡ ok true)
      × ((w : Stops) × ((cs : List Bool) × ((p.checks b.id w).0 ≡ ok cs) × (passes p cs ≡ true)))

  tasked :
      (b : Allocation) (x : Result Bool × Stops) (next : Stops → Result (Option Allocation) × Stops)
      → Found (after_task p b x next)
      → Task b x ⊎ Later next
  tasked b (ok true, w) next h = elim (checked b (p.checks b.id w) next h) [
    | inl (e, c) ↦ inl (e, refl, (w, c))
    | inr l ↦ inr l
  ]
  tasked b (ok false, w) next h = inr (w, h)
  tasked b (err e, w) next h = absurd (cc)

  up : (b : Allocation) → is_up p b ≡ true → (b.is_stopping ≡ false) × (b.client_status ≡ running)
  up b h = ground arith

  first_healthy-IsHealthy :
      (l : List Allocation) (w : Stops) → Found (first_healthy p l w) → IsOneOf a l × IsHealthy p a
  unfolding first_healthy
  first_healthy-IsHealthy [] w h = absurd (cc)
  first_healthy-IsHealthy (b ∷ l) w h =
      let further : Later (first_healthy p l) → IsOneOf a (b ∷ l) × IsHealthy p a =
        λ later. (let r = first_healthy-IsHealthy l later.0 later.1 in (inr r.0, r.1)) in
      elim (Bool-cases (is_up p b)) [
        | inl e ↦ elim (tasked b (p.task_running b.id w) (first_healthy p l) (ground arith)) [
          | inl (s, t, c) ↦
              let u = up b e in
              subst (λ (x : Allocation). IsOneOf x (b ∷ l) × IsHealthy p x) s
                (inl refl, (u.0, u.1, (w, t), c))
          | inr later ↦ further later
        ]
        | inr e ↦ further (w, ground arith)
      ]

  healthy_of-IsHealthy :
      (x : Result (List Allocation) × Stops)
      → Found (healthy_of p x)
      → (l : List Allocation) × (x.0 ≡ ok l) × IsOneOf a l × IsHealthy p a
  healthy_of-IsHealthy (ok l, w) h = let r = first_healthy-IsHealthy l w h in (l, refl, r.0, r.1)
  healthy_of-IsHealthy (err e, w) h = absurd (cc)

-- An allocation that `healthy` gives is one that the scheduler listed for the job, not to be stopped and
-- running; its task was reported as running, and its checks, at least one, as successful.
pub healthy-IsHealthy :
    (p : Scheduler) (job : ℕ) (w : Stops) (a : Allocation)
    → (healthy p job w).0 ≡ ok (some a)
    → (l : List Allocation) × ((p.allocations job w).0 ≡ ok l) × IsOneOf a l × IsHealthy p a
unfolding healthy
healthy-IsHealthy p job w a h = healthy_of-IsHealthy p a (p.allocations job w) h
