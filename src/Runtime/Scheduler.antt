-- ===== src/Runtime/Scheduler.antt =====
-- The scheduler's jobs: `ensureJob`, `stopJob`, `healthy` and `endpoint` of
-- apps/control-cloud/src/runtime/common.ts. What the scheduler answers is a parameter; at each request
-- the collection `runtime_stops` may change as well.
pub mod Stopped
pub mod Found
mod Examples
use personal_cloud.Prelude.{
  ℕ, Bool, true, false, not, ◌&&◌, ◌||◌, Option, none, some, List, [], ◌∷◌, ◌==◌, if◌then◌else◌,
  all, find,
}
use personal_cloud.Prelude.Outcome.{Error, http, pending, other, Result, ok, err}
use personal_cloud.Store.{get, put}

pub data Phase : Type 0 where
  stop observe done : Phase

-- A stop under way: the allocations that the job had before it was deleted.
pub record Operation : Type 0 where
  pub id : ℕ
  pub allocations : List ℕ
  pub phase : Phase

pub data ClientStatus : Type 0 where
  running pending_start ended : ClientStatus

pub record Allocation : Type 0 where
  pub id : ℕ
  pub is_stopping : Bool
  pub client_status : ClientStatus

pub record Address : Type 0 where
  pub allocation_id : ℕ
  pub has_address : Bool
  pub address : ℕ

abbrev pub Stops : Type 0
Stops = List Operation

abbrev pub Call : Type 0 → Type 0
Call A = Stops → Result A × Stops

pub record Scheduler : Type 0 where
  -- a job, with whether it is stopped
  pub job : ℕ → Call Bool
  pub register : ℕ → Call (Unit {0})
  pub allocations : ℕ → Call (List Allocation)
  pub purge : ℕ → Call (Unit {0})
  pub client_status : ℕ → Call ClientStatus
  pub task_running : ℕ → Call Bool
  pub checks : ℕ → Call (List Bool)
  pub addresses : ℕ → Call (List Address)

abbrev pub operation_id : Operation → ℕ
operation_id o = o.id

-- `code(error) === 404`
abbrev pub is_missing : Error → Bool
is_missing (http status message) = status == 404
is_missing pending = false
is_missing other = false

abbrev pub is_live : ClientStatus → Bool
is_live running = true
is_live pending_start = true
is_live ended = false

abbrev pub ids_of : List Allocation → List ℕ
ids_of [] = []
ids_of (a ∷ l) = a.id ∷ ids_of l

module _ (p : Scheduler) where
  -- `ensureJob`
  abbrev pub ensure_after : ℕ → Result Bool × Stops → Result (Unit {0}) × Stops
  ensure_after job (ok stopped, w) = if stopped then p.register job w else (ok tt, w)
  ensure_after job (err e, w) = if is_missing e then p.register job w else (err e, w)

  unfoldable pub ensure_job : ℕ → Call (Unit {0})
  ensure_job job w = ensure_after job (p.job job w)

  -- One round of the loop over the captured allocations; the error of a live one is the pending one.
  abbrev pub seen : Result ClientStatus × Stops → Call (Unit {0}) → Result (Unit {0}) × Stops
  seen (ok status, w) next = if is_live status then (err pending, w) else next w
  seen (err e, w) next = if is_missing e then next w else (err e, w)

  unfoldable pub observe_all : List ℕ → Call (Unit {0})
  observe_all [] w = (ok tt, w)
  observe_all (a ∷ l) w = seen (p.client_status a w) (observe_all l)

  abbrev pub finish_stop : Operation → Result (Unit {0}) × Stops → Result (Unit {0}) × Stops
  finish_stop o (ok _, w) = (ok tt, put operation_id record o { phase = done } w)
  finish_stop o (err e, w) = (err e, w)

  unfoldable pub observe_stop : Operation → Call (Unit {0})
  observe_stop o w = finish_stop o (observe_all o.allocations w)

  abbrev pub purged : Operation → Result (Unit {0}) × Stops → Result (Unit {0}) × Stops
  purged o (ok _, w) =
      let q : Operation = record o { phase = observe } in observe_stop q (put operation_id q w)
  purged o (err e, w) =
      if is_missing e
      then (let q : Operation = record o { phase = observe } in
          observe_stop q (put operation_id q w))
      else (err e, w)

  abbrev pub resume : Phase → Operation → Call (Unit {0})
  resume done o w = (ok tt, w)
  resume observe o w = observe_stop o w
  resume stop o w = purged o (p.purge o.id w)

  abbrev pub new_operation : ℕ → List Allocation → Operation
  new_operation job l = record { id = job; allocations = ids_of l; phase = stop }

  abbrev pub begin : ℕ → Result (List Allocation) × Stops → Result (Unit {0}) × Stops
  begin job (ok l, w) = let o = new_operation job l in resume stop o (put operation_id o w)
  begin job (err e, w) =
      if is_missing e
      then (let o = new_operation job [] in resume stop o (put operation_id o w))
      else (err e, w)

  abbrev pub stop_known : ℕ → Option Operation → Call (Unit {0})
  stop_known job none w = begin job (p.allocations job w)
  stop_known job (some o) w = resume o.phase o w

  unfoldable pub stop_job : ℕ → Call (Unit {0})
  stop_job job w = stop_known job (get operation_id job w) w

  -- `healthy`: the first allocation that runs, whose task runs, and whose checks all succeed.
  abbrev pub passes : List Bool → Bool
  passes [] = false
  passes (c ∷ cs) = all (λ b. b) (c ∷ cs)

  abbrev pub is_up : Allocation → Bool
  is_up a = not a.is_stopping && elim a.client_status [ running ↦ true | _ ↦ false ]

  abbrev pub after_checks :
      Allocation
      → Result (List Bool) × Stops
      → Call (Option Allocation)
      → Result (Option Allocation) × Stops
  after_checks a (ok cs, w) next = if passes cs then (ok (some a), w) else next w
  after_checks a (err e, w) next = (err e, w)

  abbrev pub after_task :
      Allocation
      → Result Bool × Stops
      → Call (Option Allocation)
      → Result (Option Allocation) × Stops
  after_task a (ok runs, w) next = if runs then after_checks a (p.checks a.id w) next else next w
  after_task a (err e, w) next = (err e, w)

  unfoldable pub first_healthy : List Allocation → Call (Option Allocation)
  first_healthy [] w = (ok none, w)
  first_healthy (a ∷ l) w =
      if is_up a then after_task a (p.task_running a.id w) (first_healthy l) else first_healthy l w

  abbrev pub healthy_of : Result (List Allocation) × Stops → Result (Option Allocation) × Stops
  healthy_of (ok l, w) = first_healthy l w
  healthy_of (err e, w) = (err e, w)

  unfoldable pub healthy : ℕ → Call (Option Allocation)
  healthy job w = healthy_of (p.allocations job w)

  -- `endpoint`
  abbrev pub address_of : Option Address → Result ℕ
  address_of none = err (http 409 "Healthy allocation has no registered address")
  address_of (some s) =
      if s.has_address
      then ok s.address
      else err (http 409 "Healthy allocation has no registered address")

  abbrev pub endpoint_of : ℕ → Result (List Address) × Stops → Result ℕ × Stops
  endpoint_of allocation (ok list, w) =
      (address_of (find (λ (s : Address). s.allocation_id == allocation) list), w)
  endpoint_of allocation (err e, w) = (err e, w)

  unfoldable pub endpoint : ℕ → ℕ → Call ℕ
  endpoint job allocation w = endpoint_of allocation (p.addresses job w)
