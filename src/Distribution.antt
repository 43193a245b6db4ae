-- ===== src/Distribution.antt =====
-- src/distribution: how records, and the locations in them, are shared out among the ranks of a
-- communicator. A value of `Distribution` is the object of every rank together: a method takes the
-- rank, or the arguments of all ranks in their order where it communicates. Values are those of
-- std::size_t; counts of locations are taken to stay below 2 ^ 64.
pub mod PairOfDistributions
pub mod Utils
pub mod Index
pub mod Accumulate
pub mod RoundRobin
pub mod Gather
pub mod Replica
pub mod Pair
pub mod NonMissing
use ioda.Prelude.{
  ℕ, zero, suc, ◌+◌, ◌-◌, ◌/◌, ◌%◌, ◌≤◌, ◌<◌, ◌≡◌, Bool, true, false, List, [], ◌∷◌, ◌++◌, map,
  ◌==◌, ltb, leb, if◌then◌else◌, length, get_or, take, drop, replicate, sum, Result, ok, err,
  exception, ◌>>=◌, wrap,
}

-- The calls of eckit::mpi::Comm and oops::mpi, as functions of the values of all ranks.
pub record Comm : Type 0 where
  pub exclusive_scan : List ℕ → List ℕ
  pub all_reduce_sum : List ℕ → ℕ
  pub all_reduce_max : List ℕ → ℕ
  pub all_reduce_min : List ℕ → ℕ
  pub all_gatherv : List (List ℕ) → List ℕ
  pub length-exclusive_scan : (xs : List ℕ) → length (exclusive_scan xs) ≡ length xs
  pub exclusive_scan_lem :
      (xs : List ℕ) (r : ℕ) → r < length xs → get_or (exclusive_scan xs) r 0 ≡ sum (take r xs)
  pub all_reduce_sum_lem : (xs : List ℕ) → all_reduce_sum xs ≡ wrap (sum xs)
  pub all_reduce_max-le :
      (xs : List ℕ) (n : ℕ) → ((r : ℕ) → r < length xs → get_or xs r 0 ≤ n) → all_reduce_max xs ≤ n
  pub le-all_reduce_max : (xs : List ℕ) (r : ℕ) → r < length xs → get_or xs r 0 ≤ all_reduce_max xs
  pub all_gatherv-nil : all_gatherv [] ≡ []
  pub all_gatherv-cons :
      (x : List ℕ) (xs : List (List ℕ)) → all_gatherv (x ∷ xs) ≡ x ++ all_gatherv xs

-- A call addTerm(loc, term) of an accumulator. An accumulator of vectors does the same for each item.
abbrev pub Term : Type 0
Term = ℕ × ℕ

pub record Distribution : Type 0 where
  pub is_identity : Bool
  pub is_nonoverlapping : Bool
  pub is_my_record : ℕ → ℕ → Bool
  pub patch_obs : ℕ → List Bool → Result (List Bool)
  pub min : List ℕ → List ℕ
  pub max : List ℕ → List ℕ
  pub accumulate : List (List Term) → Result (List ℕ)
  pub all_gatherv : List (List ℕ) → Result (List (List ℕ))
  pub global_unique_consecutive_location_index : ℕ → ℕ → ℕ

-- The data members of class NonoverlappingDistribution on one rank.
pub record Nonoverlapping : Type 0 where
  pub num_locations_on_this_rank : ℕ
  pub num_locations_on_lower_ranks : ℕ

abbrev pub new_nonoverlapping : Nonoverlapping
new_nonoverlapping = record { num_locations_on_this_rank = 0; num_locations_on_lower_ranks = 0 }

-- assignRecord on a rank, `mine` being isMyRecord(RecNum).
unfoldable pub assign_record : Bool → Nonoverlapping → Nonoverlapping
assign_record mine n =
    if mine then record n { num_locations_on_this_rank = n.num_locations_on_this_rank + 1 } else n

-- The state of a rank after the given records, one for each location.
unfoldable pub assign_records : (ℕ → Bool) → List ℕ → Nonoverlapping → Nonoverlapping
assign_records is_mine [] n = n
assign_records is_mine (rec ∷ recs) n = assign_records is_mine recs (assign_record (is_mine rec) n)

-- computePatchLocs on all ranks.
unfoldable pub set_lower : List Nonoverlapping → List ℕ → List Nonoverlapping
set_lower [] lower = []
set_lower (n ∷ ns) [] = n ∷ set_lower ns []
set_lower (n ∷ ns) (l ∷ lower) = record n { num_locations_on_lower_ranks = l } ∷ set_lower ns lower

unfoldable pub compute_patch_locs : Comm → List Nonoverlapping → List Nonoverlapping
unfolding set_lower
compute_patch_locs c ns =
    set_lower ns (c.exclusive_scan (map (λ n. n.num_locations_on_this_rank) ns))

-- localResult_ after the terms, where every location counts.
unfoldable pub add_terms : ℕ → List Term → ℕ
add_terms result [] = result
add_terms result ((loc, term) ∷ terms) = add_terms (wrap (result + term)) terms

-- ASSERT(x.size() == numLocationsOnThisRank_) on every rank.
unfoldable pub sizes_match : List Nonoverlapping → List (List ℕ) → Bool
sizes_match [] xs = true
sizes_match (n ∷ ns) [] = true
sizes_match (n ∷ ns) (x ∷ xs) =
    if length x == n.num_locations_on_this_rank then sizes_match ns xs else false

abbrev pub lower_of : List Nonoverlapping → ℕ → ℕ
lower_of ns r = get_or (map (λ n. n.num_locations_on_lower_ranks) ns) r 0

-- min and max: minImpl, maxImpl and reductionImpl.
abbrev pub nonoverlapping_min : Comm → List ℕ → List ℕ
nonoverlapping_min c xs = map (λ _. c.all_reduce_min xs) xs

abbrev pub nonoverlapping_max : Comm → List ℕ → List ℕ
nonoverlapping_max c xs = map (λ _. c.all_reduce_max xs) xs

-- class NonoverlappingDistributionAccumulator: a result for each rank.
abbrev pub nonoverlapping_accumulate : Comm → List (List Term) → Result (List ℕ)
nonoverlapping_accumulate c ts = ok (map (λ _. c.all_reduce_sum (map (add_terms 0) ts)) ts)

-- allGatherv
abbrev pub nonoverlapping_all_gatherv :
    Comm → List Nonoverlapping → List (List ℕ) → Result (List (List ℕ))
nonoverlapping_all_gatherv c ns xs =
    if sizes_match ns xs then ok (map (λ _. c.all_gatherv xs) xs) else err exception

-- class NonoverlappingDistribution, over the states of all ranks.
unfoldable pub nonoverlapping : Comm → (ℕ → ℕ → Bool) → List Nonoverlapping → Distribution
nonoverlapping c is_mine ns = record {
  is_identity = false;
  is_nonoverlapping = true;
  is_my_record = is_mine;
  patch_obs = λ r v. ok (map (λ _. true) v);
  min = nonoverlapping_min c;
  max = nonoverlapping_max c;
  accumulate = nonoverlapping_accumulate c;
  all_gatherv = nonoverlapping_all_gatherv c ns;
  global_unique_consecutive_location_index = λ r loc. lower_of ns r + loc;
}

-- RoundRobin::isMyRecord
unfoldable pub round_robin_record : ℕ → ℕ → ℕ → Bool
round_robin_record size r rec = rec % size == r

unfoldable pub round_robin : Comm → ℕ → List Nonoverlapping → Distribution
unfolding nonoverlapping round_robin_record
round_robin c size ns = nonoverlapping c (round_robin_record size) ns

-- class ReplicaOfNonoverlappingDistribution
unfoldable pub replica_of_nonoverlapping : Comm → Distribution → List Nonoverlapping → Distribution
unfolding nonoverlapping
replica_of_nonoverlapping c master ns = nonoverlapping c master.is_my_record ns

-- class InefficientDistributionAccumulator
abbrev pub inefficient_accumulate : List (List Term) → Result (List ℕ)
inefficient_accumulate ts = ok (map (add_terms 0) ts)

-- InefficientDistribution::patchObs
abbrev pub inefficient_patch_obs : ℕ → List Bool → Result (List Bool)
inefficient_patch_obs r v = ok (map (λ _. if r == 0 then true else false) v)

-- class InefficientDistribution: every rank has every record.
unfoldable pub inefficient : Distribution
inefficient = record {
  is_identity = true;
  is_nonoverlapping = false;
  is_my_record = λ r rec. true;
  patch_obs = inefficient_patch_obs;
  min = λ xs. xs;
  max = λ xs. xs;
  accumulate = inefficient_accumulate;
  all_gatherv = λ xs. ok xs;
  global_unique_consecutive_location_index = λ r loc. loc;
}
