-- ===== src/Examples/Distributions.antt =====
-- Distributions over three ranks, with collective calls that compute from the values of all ranks.
use ioda.Prelude.{
  ℕ, zero, suc, ◌+◌, ◌≤◌, ◌<◌, ◌≡◌, refl, ap, ◌∙◌, List, [], ◌∷◌, ◌++◌, map, min, max, length,
  get_or, get_elem?, ◌==◌, take, sum, iota, concat, ok, wrap, some, arith,
}
use ioda.Distribution.{
  Comm, Nonoverlapping, Term, new_nonoverlapping, assign_records, round_robin_record,
  compute_patch_locs, nonoverlapping,
}
use ioda.Distribution.PairOfDistributions.{pair}
use ioda.Distribution.Utils.{count_present, global_num_non_missing_obs}
use ioda.Distribution.Index.{counts, all_indices, nonoverlapping-consecutive}
use ioda.Distribution.Gather.{nonoverlapping-all_gatherv}
use ioda.Distribution.Accumulate.{pair-accumulate}
use ioda.Distribution.NonMissing.{global_num-nonoverlapping}
use ioda.Distribution.Pair.{made, pair-consecutive}
use ioda.Distribution.RoundRobin.{round_robin-partition}

abbrev pub scan : ℕ → List ℕ → List ℕ
scan acc [] = []
scan acc (x ∷ xs) = acc ∷ scan (acc + x) xs

abbrev pub greatest : List ℕ → ℕ
greatest [] = 0
greatest (x ∷ xs) = max x (greatest xs)

abbrev pub least : List ℕ → ℕ
least [] = 0
least (x ∷ []) = x
least (x ∷ y ∷ xs) = min x (least (y ∷ xs))

pub length-scan : (acc : ℕ) (xs : List ℕ) → length (scan acc xs) ≡ length xs
length-scan acc [] = refl
length-scan acc (x ∷ xs) = ap suc (length-scan (acc + x) xs)

pub scan-sum :
    (acc : ℕ) (xs : List ℕ) (r : ℕ)
    → r < length xs
    → get_or (scan acc xs) r 0 ≡ acc + sum (take r xs)
scan-sum acc [] r h = absurd (omega arith)
scan-sum acc (x ∷ xs) zero h = omega arith
scan-sum acc (x ∷ xs) (suc r) h = omega (arith, scan-sum (acc + x) xs r (omega arith))

pub greatest-le :
    (xs : List ℕ) (n : ℕ) → ((r : ℕ) → r < length xs → get_or xs r 0 ≤ n) → greatest xs ≤ n
greatest-le [] n h = omega arith
greatest-le (x ∷ xs) n h =
    omega (arith, h 0 (omega arith), greatest-le xs n (λ r l. h (suc r) (omega arith)))

pub le-greatest : (xs : List ℕ) (r : ℕ) → r < length xs → get_or xs r 0 ≤ greatest xs
le-greatest [] r h = absurd (omega arith)
le-greatest (x ∷ xs) zero h = omega arith
le-greatest (x ∷ xs) (suc r) h = omega (arith, le-greatest xs r (omega arith))

abbrev pub direct_comm : Comm
direct_comm = record {
  exclusive_scan = scan 0;
  all_reduce_sum = λ xs. wrap (sum xs);
  all_reduce_max = greatest;
  all_reduce_min = least;
  all_gatherv = concat;
  length-exclusive_scan = length-scan 0;
  exclusive_scan_lem = λ xs r h. scan-sum 0 xs r h ∙ omega arith;
  all_reduce_sum_lem = λ xs. refl;
  all_reduce_max-le = greatest-le;
  le-all_reduce_max = le-greatest;
  all_gatherv-nil = refl;
  all_gatherv-cons = λ x xs. refl;
}

-- Round robin over three ranks, with 2, 1 and 1 locations, and with 0, 3 and 0.
abbrev own : ℕ → ℕ → Nonoverlapping
own n lower = record { num_locations_on_this_rank = n; num_locations_on_lower_ranks = lower }

abbrev four_locations : List Nonoverlapping
four_locations = own 2 0 ∷ own 1 0 ∷ own 1 0 ∷ []

abbrev three_locations : List Nonoverlapping
three_locations = own 0 0 ∷ own 3 0 ∷ own 0 0 ∷ []

round_robin-partition_example :
    sum (
      map
        (λ r.
          (assign_records
            (round_robin_record 3 r)
            (0 ∷ 0 ∷ 1 ∷ 2 ∷ 3 ∷ [])
            new_nonoverlapping).num_locations_on_this_rank)
        (iota 0 3))
    ≡ 5
round_robin-partition_example = round_robin-partition 3 (0 ∷ 0 ∷ 1 ∷ 2 ∷ 3 ∷ []) (omega arith)

nonoverlapping-consecutive_example :
    all_indices
      (nonoverlapping direct_comm
        (round_robin_record 3)
        (compute_patch_locs direct_comm four_locations)).global_unique_consecutive_location_index
      0
      (counts four_locations)
    ≡ 0 ∷ 1 ∷ 2 ∷ 3 ∷ []
nonoverlapping-consecutive_example =
    nonoverlapping-consecutive direct_comm (round_robin_record 3) four_locations

nonoverlapping-all_gatherv_example :
    (g : List ℕ) × ((nonoverlapping direct_comm
          (round_robin_record 3)
          (compute_patch_locs direct_comm four_locations)).all_gatherv
        ((7 ∷ 8 ∷ []) ∷ (5 ∷ []) ∷ (6 ∷ []) ∷ [])
      ≡ ok (g ∷ g ∷ g ∷ []))
    × (get_elem? g (
          (nonoverlapping direct_comm
              (round_robin_record 3)
              (compute_patch_locs direct_comm four_locations)
                ).global_unique_consecutive_location_index
            2 0)
        ≡ some 6)
nonoverlapping-all_gatherv_example =
    nonoverlapping-all_gatherv direct_comm (round_robin_record 3) four_locations
      ((7 ∷ 8 ∷ []) ∷ (5 ∷ []) ∷ (6 ∷ []) ∷ []) (6 ∷ []) 2 0 refl refl (omega arith)

abbrev terms : List (List Term)
terms = ((0, 10) ∷ (1, 20) ∷ []) ∷ ((3, 5) ∷ []) ∷ [] ∷ []

pair-accumulate_example :
    (pair
        (nonoverlapping direct_comm (round_robin_record 3) four_locations)
        (nonoverlapping direct_comm (round_robin_record 3) three_locations)
        (2 ∷ 1 ∷ 1 ∷ [])
        4).accumulate
      terms
    ≡ ok (35 ∷ 35 ∷ 35 ∷ [])
pair-accumulate_example =
    pair-accumulate direct_comm (round_robin_record 3) (round_robin_record 3) four_locations
      three_locations (2 ∷ 1 ∷ 1 ∷ []) 4 terms refl

pair-consecutive_example :
    all_indices
        (pair
          (made direct_comm (round_robin_record 3) four_locations)
          (made direct_comm (round_robin_record 3) three_locations)
          (counts four_locations)
          4).global_unique_consecutive_location_index
        0
        (counts four_locations)
      ++ all_indices
          (λ r loc.
            (pair
                (made direct_comm (round_robin_record 3) four_locations)
                (made direct_comm (round_robin_record 3) three_locations)
                (counts four_locations)
                4).global_unique_consecutive_location_index
              r
              (get_or (counts four_locations) r 0 + loc))
          0
          (counts three_locations)
    ≡ iota 0 7
pair-consecutive_example =
    pair-consecutive direct_comm (round_robin_record 3) (round_robin_record 3) four_locations
      three_locations 4 refl

-- Two variables; 0 is the missing value.
global_num-nonoverlapping_example :
    global_num_non_missing_obs
      (nonoverlapping direct_comm (round_robin_record 3) four_locations)
      (λ x. x == 0)
      2
      ((5 ∷ 0 ∷ 0 ∷ 7 ∷ []) ∷ (8 ∷ 9 ∷ []) ∷ (0 ∷ 0 ∷ []) ∷ [])
    ≡ ok (4 ∷ 4 ∷ 4 ∷ [])
unfolding count_present
global_num-nonoverlapping_example =
    global_num-nonoverlapping direct_comm (round_robin_record 3) four_locations (λ x. x == 0) 2
      ((5 ∷ 0 ∷ 0 ∷ 7 ∷ []) ∷ (8 ∷ 9 ∷ []) ∷ (0 ∷ 0 ∷ []) ∷ []) (omega arith)
      (refl, (refl, (refl, tt)))
