-- ===== src/Runtime/Deploy/Provenance.antt =====
-- Which registry an image is pulled from: `deploymentRegistry` of
-- apps/control-cloud/src/runtime/deploy.ts.
use personal_cloud.Prelude.{
  ℕ, ◌≡◌, refl, sym, Bool, true, false, not, ◌&&◌, Option, none, some, List, ◌==◌, if◌then◌else◌,
  is_id, arith,
}
use personal_cloud.Prelude.Outcome.{Result, ok, fail}
use personal_cloud.Store.{get}
use personal_cloud.Runtime.Deploy.State.{Status, healthy, rolled_back, Deployment, deployment_id}

-- The workspace's own registry, or the imported one, with the deployment that was imported.
pub data Origin : Type 0 where
  managed : Origin
  legacy : ℕ → Origin

-- `["healthy", "rolled_back"].includes(status)`
abbrev pub was_healthy : Status → Bool
was_healthy healthy = true
was_healthy rolled_back = true
was_healthy _ = false

-- The deployment is of this service, was healthy, and ran this image.
abbrev pub ran : ℕ → ℕ → Deployment → Bool
ran service image d = d.service_id == service && was_healthy d.status && is_id d.image_digest image

abbrev find_optional : List Deployment → Option ℕ → Option Deployment
find_optional ds none = none
find_optional ds (some k) = get deployment_id k ds

-- The deployment that the prior one's image was imported with.
abbrev origin_of : List Deployment → Deployment → Option Deployment
origin_of ds prior =
    if prior.is_imported then some prior else find_optional ds prior.legacy_image_origin

-- Tests on the text of an image, and the stored configuration of the imported registry: whether there is
-- one, whether its address is valid, and which images lie there.
pub record Images : Type 0 where
  pub is_image : ℕ → Bool
  pub is_managed : ℕ → Bool
  pub is_configured : Bool
  pub is_valid : Bool
  pub is_legacy : ℕ → Bool

module _ (p : Images) where
  abbrev legacy_registry : ℕ → Deployment → Result Origin
  legacy_registry image origin =
      if not p.is_configured
      then fail 409 "Legacy registry configuration is unavailable for this rollback"
      else if not p.is_valid
      then fail 409 "Legacy registry configuration is invalid"
      else if not (p.is_legacy image)
      then fail 400 "Rollback image does not belong to the imported registry"
      else ok (legacy origin.id)

  abbrev from_origin : ℕ → ℕ → Option Deployment → Result Origin
  from_origin service image none = fail 400 "Rollback has no verified imported image provenance"
  from_origin service image (some origin) =
      if origin.is_imported && ran service image origin
      then legacy_registry image origin
      else fail 400 "Rollback has no verified imported image provenance"

  abbrev from_prior : List Deployment → ℕ → ℕ → Option Deployment → Result Origin
  from_prior ds service image none =
      fail 400
        "Choose an image from this workspace registry or an exact previously healthy rollback"
  from_prior ds service image (some prior) =
      if ran service image prior
      then from_origin service image (origin_of ds prior)
      else fail 400
          "Choose an image from this workspace registry or an exact previously healthy rollback"

  abbrev registry_for : List Deployment → Deployment → Option ℕ → Result Origin
  registry_for ds d none = ok managed
  registry_for ds d (some image) =
      if not (p.is_image image)
      then fail 400 "Deployments require an immutable sha256 image digest"
      else if p.is_managed image
      then ok managed
      else from_prior ds d.service_id image (find_optional ds d.rollback_of)

  unfoldable pub deployment_registry : List Deployment → Deployment → Result Origin
  deployment_registry ds d = registry_for ds d d.image_digest

-- A deployment of the same service that was healthy with the same image.
abbrev pub Ran : Deployment → ℕ → Deployment → Type 0
Ran d image e =
    (e.service_id ≡ d.service_id) × (was_healthy e.status ≡ true) × (e.image_digest ≡ some image)

-- How an image may come from the imported registry.
abbrev pub IsLegacy : List Deployment → Deployment → ℕ → Type 0
IsLegacy ds d k =
    (image : ℕ) × (d.image_digest ≡ some image)
    × ((prior : Deployment) × ((j : ℕ) × (d.rollback_of ≡ some j)
          × (get deployment_id j ds ≡ some prior))
        × Ran d image prior)
    × ((origin : Deployment) × (origin.id ≡ k) × (origin.is_imported ≡ true) × Ran d image origin)

ran-Ran : (d e : Deployment) (image : ℕ) → ran d.service_id image e ≡ true → Ran d image e
ran-Ran d e image h = ground arith

module _ (p : Images) (ds : List Deployment) (d : Deployment) (image k : ℕ) where
  legacy_registry-id :
      (origin : Deployment) → legacy_registry p image origin ≡ ok (legacy k) → origin.id ≡ k
  legacy_registry-id origin h = ground arith

  from_origin-legacy :
      (o : Option Deployment)
      → from_origin p d.service_id image o ≡ ok (legacy k)
      → (origin : Deployment) × (origin.id ≡ k) × (origin.is_imported ≡ true) × Ran d image origin
  from_origin-legacy none h = absurd (cc)
  from_origin-legacy (some origin) h =
      let good : (origin.is_imported && ran d.service_id image origin) ≡ true = ground arith in
      (
        origin,
        legacy_registry-id origin (ground arith),
        ground arith,
        ran-Ran d origin image (ground arith),
      )

  find_optional-found :
      (j : Option ℕ) (e : Deployment)
      → find_optional ds j ≡ some e
      → (i : ℕ) × (j ≡ some i) × (get deployment_id i ds ≡ some e)
  find_optional-found none e h = absurd (cc)
  find_optional-found (some i) e h = (i, refl, h)

  from_prior-legacy :
      (o : Option Deployment)
      → o ≡ find_optional ds d.rollback_of
      → d.image_digest ≡ some image
      → from_prior p ds d.service_id image o ≡ ok (legacy k)
      → IsLegacy ds d k
  from_prior-legacy none f g h = absurd (cc)
  from_prior-legacy (some prior) f g h =
      let good : ran d.service_id image prior ≡ true = ground arith in
      (
        image,
        g,
        (prior, find_optional-found d.rollback_of prior (sym f), ran-Ran d prior image good),
        from_origin-legacy (origin_of ds prior) (ground arith),
      )

registry_for-legacy :
    (p : Images) (ds : List Deployment) (d : Deployment) (k : ℕ) (o : Option ℕ)
    → d.image_digest ≡ o
    → registry_for p ds d o ≡ ok (legacy k)
    → IsLegacy ds d k
registry_for-legacy p ds d k none g h = absurd (cc)
registry_for-legacy p ds d k (some image) g h =
    from_prior-legacy p ds d image k (find_optional ds d.rollback_of) refl g (ground arith)

-- The credentials of the imported registry are given only for a rollback to a deployment of the same
-- service that was healthy with exactly this image, whose image was imported with a deployment, the one
-- named, of the same service that was healthy with this image too.
pub deployment_registry-IsLegacy :
    (p : Images) (ds : List Deployment) (d : Deployment) (k : ℕ)
    → deployment_registry p ds d ≡ ok (legacy k)
    → IsLegacy ds d k
unfolding deployment_registry
deployment_registry-IsLegacy p ds d k h = registry_for-legacy p ds d k d.image_digest refl h
