-- ===== src/Examples/Replicas.antt =====
-- A replica of a general distribution on two ranks that share a record.
use ioda.Prelude.{
  ℕ, ◌≡◌, refl, ◌*◌, Bool, true, false, List, [], ◌∷◌, map, ok, some, wrap, sum, get_elem?, arith,
}
use ioda.Distribution.Replica.{Replica, at_patch, compute_replica_locs, replica_of_general}
use ioda.Distribution.Replica.Consecutive.{gathered_locs}
use ioda.Distribution.Replica.Gathered.{
  values_at, all_terms, replica_all_gatherv-index, replica_accumulate-once,
}
use ioda.Examples.Distributions.{direct_comm}

abbrev rank : List ℕ → List Bool → Replica
rank locs patch = record {
  master_patch_records = [];
  my_records = [];
  my_global_locs = locs;
  is_my_patch_obs = patch;
  global_unique_consecutive_loc_indices = [];
}

-- Locations 4 and 5 are held by both ranks and belong to the second one.
abbrev two : List Replica
two =
    rank (2 ∷ 4 ∷ 5 ∷ []) (true ∷ false ∷ false ∷ [])
    ∷ rank (4 ∷ 5 ∷ 9 ∷ []) (true ∷ true ∷ true ∷ [])
    ∷ []

abbrev uncovered : List Replica
uncovered = rank (2 ∷ 4 ∷ []) (true ∷ false ∷ []) ∷ []

replica_all_gatherv-index_example :
    (qs : List Replica) × (compute_replica_locs direct_comm two ≡ ok qs)
    × ((replica_of_general direct_comm 0 qs).all_gatherv (values_at (λ g. g * 10) two)
        ≡ ok (map (λ _. map (λ g. g * 10) (gathered_locs two)) (values_at (λ g. g * 10) two)))
    × (get_elem?
          (map (λ g. g * 10) (gathered_locs two))
          ((replica_of_general direct_comm 0 qs).global_unique_consecutive_location_index 0 2)
        ≡ some (5 * 10))
unfolding at_patch
replica_all_gatherv-index_example =
    replica_all_gatherv-index direct_comm 0 two (λ g. g * 10) 0 2 5
      (rank (2 ∷ 4 ∷ 5 ∷ []) (true ∷ false ∷ false ∷ [])) (ground arith) (ground arith)
      (ground arith) (ground arith) refl refl

replica_accumulate-once_example :
    (qs : List Replica) × (compute_replica_locs direct_comm two ≡ ok qs)
    × ((replica_of_general direct_comm 0 qs).accumulate (all_terms (λ g. 1) two)
        ≡ ok (map (λ _. wrap (sum (map (λ g. 1) (gathered_locs two)))) (all_terms (λ g. 1) two)))
unfolding at_patch
replica_accumulate-once_example =
    replica_accumulate-once direct_comm 0 two (λ g. 1) (ground arith) (ground arith) (ground arith)
      (ground arith)
