-- ===== src/Runtime/Deploy/Releasing.antt =====
-- The phases from the build to the switch (apps/control-cloud/src/runtime/deploy.ts) in the order of
-- the phases.
use personal_cloud.Prelude.{ℕ, zero, suc, ◌≡◌, refl, ◌∙◌, Option, none, some, arith}
use personal_cloud.Runtime.Deploy.State.{
  Phase, app_prepare, observing, routing, log_step, Deployment, World, Run, ◌>>=◌, step,
}
use personal_cloud.Runtime.Deploy.Phases.{
  Platform, Allocation, ClientStatus, complete, broken, running_or_pending,
}
use personal_cloud.Runtime.Deploy.Release.{
  log_lines, read_logs, tried, take_image, after_logs, build_on, adopt, offer, observe_on,
  seal_application, switch, build_run, prepare_application, observe_application, promote,
}
use personal_cloud.Runtime.Deploy.Reconcile.{}
use personal_cloud.Runtime.Deploy.Graph.{Moves, Stays, >>=-Moves}

log_lines-phase : (n : ℕ) (w : World) (d : Deployment) → (log_lines n w d).phase ≡ d.phase
unfolding log_lines step
log_lines-phase zero w d = refl
log_lines-phase (suc n) w d = ground (arith, log_lines-phase n w (step log_step w d))

pub take_image-Moves :
    (p : Platform) (image : Option ℕ) (r : Run)
    → r.doc.phase ≡ Phase.building
    → Moves Phase.building (take_image p image r)
unfolding take_image ◌>>=◌ step
take_image-Moves p none r h = ground arith
take_image-Moves p (some image) r h = ground arith

pub after_logs-Moves :
    (p : Platform) (c : ClientStatus) (image : Option ℕ) (r : Run)
    → r.doc.phase ≡ Phase.building
    → Moves Phase.building (after_logs p c image r)
unfolding after_logs
after_logs-Moves p complete image r h = take_image-Moves p image r h
after_logs-Moves p broken image r h = ground arith
after_logs-Moves p running_or_pending image r h = ground arith

pub read_logs-Stays :
    (p : Platform) (a : ℕ) (r : Run)
    → r.doc.phase ≡ Phase.building
    → Stays Phase.building (read_logs p a r)
unfolding read_logs tried ◌>>=◌
read_logs-Stays p a r h = ground arith

pub build_on-Moves :
    (p : Platform) (a : Option Allocation) (r : Run)
    → r.doc.phase ≡ Phase.building
    → Moves Phase.building (build_on p a r)
unfolding build_on
build_on-Moves p none r h = ground arith
build_on-Moves p (some a) r h =
    >>=-Moves Phase.building _ _ r (read_logs-Stays p a.id r h) λ output s h.
      >>=-Moves Phase.building _ _ s h λ lines s h.
        >>=-Moves Phase.building _ _ s (log_lines-phase lines s.world s.doc ∙ h)
          λ _ s h. after_logs-Moves p a.client_status (output.0).image s h

pub build_run-Moves :
    (p : Platform) (r : Run) → r.doc.phase ≡ Phase.building → Moves Phase.building (build_run p r)
unfolding build_run
build_run-Moves p r h = >>=-Moves Phase.building _ _ r h λ a s h. build_on-Moves p a s h

pub prepare_application-Moves :
    (p : Platform) (r : Run)
    → r.doc.phase ≡ app_prepare
    → Moves app_prepare (prepare_application p r)
unfolding prepare_application seal_application ◌>>=◌ step
prepare_application-Moves p r h = ground arith

pub adopt-Moves :
    (p : Platform) (a : Allocation) (address : ℕ) (machine : Option ℕ) (r : Run)
    → r.doc.phase ≡ observing
    → Moves observing (adopt p a address machine r)
unfolding adopt offer ◌>>=◌ step
adopt-Moves p a address none r h = ground arith
adopt-Moves p a address (some machine) r h = ground arith

pub observe_on-Moves :
    (p : Platform) (a : Option Allocation) (r : Run)
    → r.doc.phase ≡ observing
    → Moves observing (observe_on p a r)
unfolding observe_on
observe_on-Moves p none r h = ground arith
observe_on-Moves p (some a) r h =
    >>=-Moves observing _ _ r h
      λ address s h. >>=-Moves observing _ _ s h λ machine s h. adopt-Moves p a address machine s h

pub observe_application-Moves :
    (p : Platform) (r : Run) → r.doc.phase ≡ observing → Moves observing (observe_application p r)
unfolding observe_application
observe_application-Moves p r h = >>=-Moves observing _ _ r h λ a s h. observe_on-Moves p a s h

pub promote-Moves : (p : Platform) (r : Run) → r.doc.phase ≡ routing → Moves routing (promote p r)
unfolding promote switch ◌>>=◌ step
promote-Moves p r h = ground arith
