-- ===== src/Distribution/Utils.antt =====
-- createReplicaDistribution and globalNumNonMissingObs (DistributionUtils.cc).
use ioda.Prelude.{
  ℕ, zero, suc, ◌+◌, ◌/◌, Bool, List, [], ◌∷◌, map, if◌then◌else◌, length, take, drop, ◌==◌, Result,
  err, undefined,
}
use ioda.Distribution.{
  Comm, Term, Distribution, Nonoverlapping, replica_of_nonoverlapping, inefficient,
}

-- createReplicaDistribution (DistributionUtils.cc); `general` is the ReplicaOfGeneralDistribution.
unfoldable pub create_replica_distribution :
    Comm → Distribution → List Nonoverlapping → Distribution → Distribution
unfolding replica_of_nonoverlapping inefficient
create_replica_distribution c master ns general =
    if master.is_nonoverlapping
    then replica_of_nonoverlapping c master ns
    else if master.is_identity
    then inefficient
    else general

-- globalNumNonMissingObs: the terms that a rank adds, one for each location from `loc` on; `missing`
-- tells the elements that equal the missing value. `v` is read from the front, numVariables at a time.
unfoldable pub count_present {ℓ} : {A : Type ℓ} → (A → Bool) → List A → ℕ
count_present missing [] = 0
count_present missing (x ∷ v) = (if missing x then 0 else 1) + count_present missing v

unfoldable pub location_terms {ℓ} : {A : Type ℓ} → (A → Bool) → ℕ → ℕ → ℕ → List A → List Term
location_terms missing num_variables loc zero v = []
location_terms missing num_variables loc (suc left) v =
    (loc, count_present missing (take num_variables v))
    ∷ location_terms missing num_variables (suc loc) left (drop num_variables v)

-- The result on every rank, `vs` being the vectors of all ranks. Division by numVariables 0 is
-- undefined.
unfoldable pub global_num_non_missing_obs {ℓ} :
    {A : Type ℓ} → Distribution → (A → Bool) → ℕ → List (List A) → Result (List ℕ)
global_num_non_missing_obs d missing num_variables vs =
    if num_variables == 0
    then err undefined
    else d.accumulate
        (map (λ v. location_terms missing num_variables 0 (length v / num_variables) v) vs)
