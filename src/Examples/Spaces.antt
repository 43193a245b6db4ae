-- ===== src/Examples/Spaces.antt =====
-- The record index on six locations of the records 3, 1 and 7, and its extension by two levels.
use ioda.Prelude.{
  ℕ, ◌+◌, ◌*◌, ◌++◌, contains, ◌≡◌, ◌<◌, refl, true, false, List, [], ◌∷◌, All, Rising, ltb, ok,
  arith,
}
use ioda.ObsSpace.OrderedMap.{lookup, modify}
use ioda.ObsSpace.RecIdx.{
  RecIdx, recidx_all_recnums, recidx_all_recnums-keys, if_any, locations_of, build_rec_idx_unsorted,
  build_rec_idx_unsorted-lookup,
}
use ioda.ObsSpace.Sort.{
  SortLocation, sort_missing, no_sort, ignore_missing, collect, sort_records, index_record,
  place_missing, comparison, build_sorted_obs_groups,
}
use ioda.ObsSpace.Sort.Order.{StrictWeak, before}
use ioda.ObsSpace.Sort.Loops.{record_of}
use ioda.ObsSpace.Sort.Records.{
  SortedEntry, UnsortedEntry, build_sorted-sort_missing, build_sorted-no_sort,
}
use ioda.ObsSpace.Sort.Missing.{PlacedEntry, build_sorted-ignore_missing}
use ioda.ObsSpace.Extend.{ReplicaDist, Extension, extend_records}
use ioda.ObsSpace.Extend.Index.{Appends, new_recs, new_locs, extend_records-Appends}
use ioda.ObsSpace.Extend.Rising.{extend_records-bounds}
use ioda.ObsSpace.Extend.Companions.{general_replica, marks, extend_records-replica}
use ioda.Distribution.Replica.{Replica}
use ioda.Distribution.Replica.Consecutive.{IsReplica}
use ioda.Examples.Sorting.{sift, insertion_sort}

abbrev recnums : List ℕ
recnums = 3 ∷ 1 ∷ 3 ∷ 3 ∷ 1 ∷ 7 ∷ []

build_rec_idx_unsorted-lookup_example :
    (recidx : RecIdx) × (build_rec_idx_unsorted 6 recnums ≡ ok recidx)
    × ((r : ℕ) → lookup r recidx ≡ if_any (locations_of r 0 recnums))
build_rec_idx_unsorted-lookup_example = build_rec_idx_unsorted-lookup 6 recnums refl

abbrev place : ℕ → ℕ → SortLocation ℕ
place r v = record { recnum = r; sort_value = v; sort_value_missing = false }

abbrev no_value : ℕ → SortLocation ℕ
no_value r = record { recnum = r; sort_value = 99; sort_value_missing = true }

-- Record 7 has missing values only.
abbrev six : List (SortLocation ℕ)
six = place 3 5 ∷ place 1 2 ∷ no_value 3 ∷ place 3 4 ∷ place 1 2 ∷ no_value 7 ∷ []

ltb-StrictWeak : StrictWeak ltb
ltb-StrictWeak = ((λ a b h. ground arith), λ a b c h g. ground arith)

build_sorted-sort_missing_example :
    (recidx : RecIdx) × (build_sorted_obs_groups
        (insertion_sort (ℕ × ℕ)).sort
        true
        ltb
        sort_missing
        six
      ≡ ok recidx)
    × ((r : ℕ) → SortedEntry (before true ltb) (record_of r 0 six) (lookup r recidx))
build_sorted-sort_missing_example =
    build_sorted-sort_missing (insertion_sort (ℕ × ℕ)) true ltb ltb-StrictWeak six

build_sorted-no_sort_example :
    (recidx : RecIdx) × (build_sorted_obs_groups (insertion_sort (ℕ × ℕ)).sort false ltb no_sort six
      ≡ ok recidx)
    × ((r : ℕ)
        → UnsortedEntry
            (insertion_sort (ℕ × ℕ))
            false
            ltb
            ltb-StrictWeak
            (record_of r 0 six)
            (lookup r recidx))
build_sorted-no_sort_example =
    build_sorted-no_sort (insertion_sort (ℕ × ℕ)) false ltb ltb-StrictWeak six

build_sorted-ignore_missing_example :
    (recidx : RecIdx) × (build_sorted_obs_groups
        (insertion_sort (ℕ × ℕ)).sort
        true
        ltb
        ignore_missing
        six
      ≡ ok recidx)
    × ((r : ℕ) → PlacedEntry (before true ltb) (record_of r 0 six) (lookup r recidx))
build_sorted-ignore_missing_example =
    build_sorted-ignore_missing (insertion_sort (ℕ × ℕ)) true ltb ltb-StrictWeak six

-- A replica distribution that keeps the records it was given.
abbrev keeps : ReplicaDist (List ℕ)
keeps = record {
  assign_replica_record = λ rec loc recs. rec ∷ recs;
  is_replica_record = λ recs rec. contains rec recs;
}

keeps_assigned :
    (rec loc : ℕ) (recs : List ℕ)
    → keeps.is_replica_record (keeps.assign_replica_record rec loc recs) rec ≡ true
keeps_assigned rec loc recs = ground arith

-- After the sort that ignores missing values record 7 has no entry.
abbrev unextended : Extension (List ℕ)
unextended = record {
  nrecs = 3;
  recidx = (1, 1 ∷ 4 ∷ []) ∷ (3, 3 ∷ 2 ∷ 0 ∷ []) ∷ [];
  recnums = recnums;
  indx = 0 ∷ 2 ∷ 3 ∷ 5 ∷ 7 ∷ 9 ∷ [];
  companion_loc = 0;
  replica = [];
}

-- Record 3 keeps its missing location in the middle, and record 7 has no entry.
ignore_missing_run :
    build_sorted_obs_groups (insertion_sort (ℕ × ℕ)).sort true ltb ignore_missing six
    ≡ ok unextended.recidx
unfolding build_sorted_obs_groups collect sort_records modify lookup index_record place_missing
    comparison insertion_sort sift
ignore_missing_run = refl

extend_records-Appends_example :
    (e : Extension (List ℕ)) × (extend_records keeps 2 6 10 8
        (λ rec. true)
        (1 ∷ 3 ∷ 7 ∷ [])
        unextended
      ≡ ok e)
    × Appends (6 + 0) (new_recs 2 8 (1 ∷ 3 ∷ 7 ∷ [])) unextended.recidx e.recidx
    × (e.recnums ≡ recnums ++ new_recs 2 8 (1 ∷ 3 ∷ 7 ∷ []))
    × (e.indx ≡ unextended.indx ++ new_locs 2 10 (1 ∷ 3 ∷ 7 ∷ []))
    × (e.companion_loc ≡ 0 + 3 * 2)
    × (e.nrecs ≡ 3 + 3)
extend_records-Appends_example =
    extend_records-Appends keeps 2 6 10 8 (λ rec. true)
      (λ rec loc recs h. keeps_assigned rec loc recs) (1 ∷ 3 ∷ 7 ∷ []) unextended
      (refl, (refl, (refl, tt))) (ground arith)

extend_records-bounds_example :
    (e : Extension (List ℕ)) × (extend_records keeps 2 6 10 8
        (λ rec. true)
        (1 ∷ 3 ∷ 7 ∷ [])
        unextended
      ≡ ok e)
    × Rising e.indx
    × All (λ g. g < 10 + 8 * 2) e.indx
    × All (λ r. r < 8 + 8) e.recnums
extend_records-bounds_example =
    extend_records-bounds keeps 2 6 10 8 (λ rec. true)
      (λ rec loc recs h. keeps_assigned rec loc recs) (1 ∷ 3 ∷ 7 ∷ []) unextended
      (refl, (refl, (refl, tt))) (ground arith) (ground arith) (ground arith) (ground arith)
      (ground arith) (ground arith)

-- Record 3 is in the patch of the master on the rank, which holds all three records.
abbrev unextended_general : Extension Replica
unextended_general = record {
  nrecs = 3;
  recidx = unextended.recidx;
  recnums = recnums;
  indx = unextended.indx;
  companion_loc = 0;
  replica = record {
    master_patch_records = 3 ∷ [];
    my_records = [];
    my_global_locs = [];
    is_my_patch_obs = [];
    global_unique_consecutive_loc_indices = [];
  };
}

extend_records-replica_example :
    (e : Extension Replica) × (extend_records
        (general_replica (λ rec. true))
        2
        6
        10
        8
        (λ rec. true)
        (1 ∷ 3 ∷ 7 ∷ [])
        unextended_general
      ≡ ok e)
    × (e.replica.my_global_locs ≡ new_locs 2 0 (1 ∷ 3 ∷ 7 ∷ []))
    × (e.replica.is_my_patch_obs ≡ marks 2 (3 ∷ []) (1 ∷ 3 ∷ 7 ∷ []))
    × IsReplica e.replica
extend_records-replica_example =
    extend_records-replica (λ rec. true) 2 6 10 8 (1 ∷ 3 ∷ 7 ∷ []) unextended_general
      (refl, (refl, (refl, tt))) (ground arith) (ground arith) (ground arith) (ground arith) refl
      refl

-- Three records are counted and two have an entry: the record number 0 is made up.
recidx_all_recnums-keys_example :
    recidx_all_recnums (2 + 1) ((1, 1 ∷ 4 ∷ []) ∷ (3, 3 ∷ 2 ∷ 0 ∷ []) ∷ [])
    ≡ ok ((1 ∷ 3 ∷ []) ++ 0 ∷ [])
recidx_all_recnums-keys_example =
    recidx_all_recnums-keys ((1, 1 ∷ 4 ∷ []) ∷ (3, 3 ∷ 2 ∷ 0 ∷ []) ∷ []) 1
