-- ===== src/Prelude/Maps.antt =====
-- Finite maps as functions from a key to an optional value: object storage, requests in flight.
use Prim.Native.Nat.{ℕ}
use mathlib.Core.Option.{Option}
use personal_cloud.Prelude.Tests.{◌==◌, if◌then◌else◌}

abbrev pub Map {ℓ} : Type ℓ → Type ℓ
Map V = ℕ → Option V

abbrev pub update {ℓ} : {V : Type ℓ} → Map V → ℕ → Option V → Map V
update m k v j = if j == k then v else m j
