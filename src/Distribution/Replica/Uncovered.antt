-- ===== src/Distribution/Replica/Uncovered.antt =====
-- ReplicaOfGeneralDistribution::computePatchLocs where a location is in no patch.
use ioda.Prelude.{◌≡◌, ◌⊎◌, Result, ok, err, exception}
use ioda.Distribution.Replica.{Replica}

-- Nothing but an exception goes wrong.
abbrev Throws {ℓ} : {V : Type ℓ} → Result V → Type ℓ
Throws {V = V} result = ((v : V) × (result ≡ ok v)) ⊎ (result ≡ err exception)
