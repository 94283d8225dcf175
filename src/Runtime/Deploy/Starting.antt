-- ===== src/Runtime/Deploy/Starting.antt =====
-- `prepare` of apps/control-cloud/src/runtime/deploy.ts in the order of the phases.
use personal_cloud.Prelude.{ℕ, ◌≡◌, inl, inr, Option, none, some, arith, Bool-cases, Option-cases}
use personal_cloud.Runtime.Placement.{Node, Selection, is_supported}
use personal_cloud.Runtime.Deploy.State.{prepare, Run, ◌>>=◌, step}
use personal_cloud.Runtime.Deploy.Phases.{
  Platform, prepare_run, seal_build, check_commit, find_commit, use_source, place_on, choose,
  use_image,
}
use personal_cloud.Runtime.Deploy.Release.{}
use personal_cloud.Runtime.Deploy.Reconcile.{}
use personal_cloud.Runtime.Deploy.Graph.{Moves, Stays, >>=-Moves}

pub seal_build-Moves :
    (p : Platform) (config source : ℕ) (r : Run)
    → r.doc.phase ≡ prepare
    → Moves prepare (seal_build p config source r)
unfolding seal_build step ◌>>=◌
seal_build-Moves p config source r h = ground arith

pub check_commit-Moves :
    (p : Platform) (c : Option ℕ) (config source : ℕ) (r : Run)
    → r.doc.phase ≡ prepare
    → Moves prepare (check_commit p c (seal_build p config source) r)
unfolding check_commit
check_commit-Moves p c config source r h = ground (arith, seal_build-Moves p config source r h)

pub find_commit-Stays :
    (p : Platform) (c : Option ℕ) (source : ℕ) (r : Run)
    → r.doc.phase ≡ prepare
    → Stays prepare (find_commit p c source r)
unfolding find_commit ◌>>=◌
find_commit-Stays p c source r h = ground arith

pub use_source-Moves :
    (p : Platform) (n : Option Node) (config : ℕ) (r : Run)
    → r.doc.phase ≡ prepare
    → Moves prepare (use_source p n config r)
unfolding use_source
use_source-Moves p none config r h = ground arith
use_source-Moves p (some n) config r h = >>=-Moves prepare _ _ r h λ _ s h.
    >>=-Moves prepare _ _ s h λ source s h.
      >>=-Moves prepare _ _ s (find_commit-Stays p s.doc.commit_sha source s h)
        λ _ s h. check_commit-Moves p s.doc.commit_sha config source s h

pub place_on-Moves :
    (p : Platform) (target : Node) (n : Option Node) (r : Run)
    → r.doc.phase ≡ prepare
    → Moves prepare (place_on p target n r)
unfolding place_on use_image
place_on-Moves p target n r h = >>=-Moves prepare _ _ r h λ _ s h.
    elim (Bool-cases (is_supported target.architecture)) [
      | inl e ↦ rw e (
          >>=-Moves prepare _ _ s h λ registry s h. >>=-Moves prepare _ _ s h λ _ s h.
            >>=-Moves prepare _ _ s h λ sealed s h.
              >>=-Moves prepare _ _ s h
                λ _ s h. ground (arith, use_source-Moves p n registry.config s h))
      | inr e ↦ rw e (ground arith)
    ]

pub choose-Moves :
    (p : Platform) (c : Selection) (r : Run) → r.doc.phase ≡ prepare → Moves prepare (choose p c r)
unfolding choose
choose-Moves p c r h = elim (Option-cases c.target) [
  | inl e ↦ rw e (ground arith)
  | inr (n, e) ↦ rw e (place_on-Moves p n c.build_node r h)
]

pub prepare_run-Moves :
    (p : Platform) (r : Run) → r.doc.phase ≡ prepare → Moves prepare (prepare_run p r)
unfolding prepare_run
prepare_run-Moves p r h = >>=-Moves prepare _ _ r h λ inventory s h. choose-Moves p _ s h
