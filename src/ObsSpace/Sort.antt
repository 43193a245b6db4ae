-- ===== src/ObsSpace/Sort.antt =====
-- ObsSpace::buildSortedObsGroups: recidx_ with the locations of each record in the order of a variable.
-- std::sort is the parameter `sort`, a function of the comparison.
pub mod Order
pub mod Maps
pub mod Loops
pub mod Records
pub mod Missing
use ioda.Prelude.{
  ℕ, suc, ◌≡◌, Bool, true, false, not, ◌&&◌, ◌||◌, List, [], ◌∷◌, ◌++◌, map, ltb, at, Result, ok,
  ◌>>=◌, if◌then◌else◌,
}
use ioda.ObsSpace.OrderedMap.{lookup, push_back, or_else, assign}
use ioda.ObsSpace.RecIdx.{RecIdx}

pub data MissingSortValueTreatment : Type 0 where
  sort_missing no_sort ignore_missing : MissingSortValueTreatment

-- recnums_[iloc], SortValues[iloc] and sortValueMissing[iloc].
pub record SortLocation (V : Type 0) : Type 0 where
  pub recnum : ℕ
  pub sort_value : V
  pub sort_value_missing : Bool

-- The temporary maps; a key that recordContainsAtLeastOneMissingSortValue lacks counts as false.
pub record Collected (V : Type 0) : Type 0 where
  pub tmp_rec_idx : List (ℕ × List (V × ℕ))
  pub tmp_rec_idx_missing : List (ℕ × List ℕ)
  pub sort_value_missing_in_record : List (ℕ × List Bool)
  pub contains_missing : List (ℕ × Bool)

-- Whether the second loop leaves the record as it is.
unfoldable pub skips : MissingSortValueTreatment → List (ℕ × Bool) → ℕ → Bool
skips no_sort contains recnum = or_else false (lookup recnum contains)
skips sort_missing contains recnum = false
skips ignore_missing contains recnum = false

module _ {V : Type 0} where
  -- The sort variable dateTime: the seconds from the first date, and whether the date is missing.
  unfoldable pub date_sort_values :
      {D : Type 0} → (D → D → V) → (D → Bool) → List D → List (V × Bool)
  date_sort_values to_seconds is_missing [] = []
  date_sort_values to_seconds is_missing (first ∷ dates) =
      map (λ d. (to_seconds d first, is_missing d)) (first ∷ dates)

  abbrev pub nothing_collected : Collected V
  nothing_collected = record {
    tmp_rec_idx = [];
    tmp_rec_idx_missing = [];
    sort_value_missing_in_record = [];
    contains_missing = [];
  }

  -- The body of the first loop.
  unfoldable pub collect :
      MissingSortValueTreatment → ℕ → SortLocation V → Collected V → Collected V
  collect sort_missing iloc l c = record c {
    tmp_rec_idx = push_back l.recnum (l.sort_value, iloc) c.tmp_rec_idx;
  }
  collect no_sort iloc l c = record c {
    tmp_rec_idx = push_back l.recnum (l.sort_value, iloc) c.tmp_rec_idx;
    contains_missing =
        if l.sort_value_missing
        then assign l.recnum true c.contains_missing
        else c.contains_missing;
  }
  collect ignore_missing iloc l c =
      if l.sort_value_missing
      then record c {
        tmp_rec_idx_missing = push_back l.recnum iloc c.tmp_rec_idx_missing;
        sort_value_missing_in_record = push_back l.recnum true c.sort_value_missing_in_record;
      }
      else record c {
        tmp_rec_idx = push_back l.recnum (l.sort_value, iloc) c.tmp_rec_idx;
        sort_value_missing_in_record = push_back l.recnum false c.sort_value_missing_in_record;
      }

  unfoldable pub collect_loop :
      MissingSortValueTreatment → ℕ → List (SortLocation V) → Collected V → Collected V
  collect_loop treatment iloc [] c = c
  collect_loop treatment iloc (l ∷ locations) c =
      collect_loop treatment (suc iloc) locations (collect treatment iloc l c)

  -- operator< of std::pair, and the comparison for the descending order; `less` is < on the values.
  unfoldable pub ascending : (V → V → Bool) → V × ℕ → V × ℕ → Bool
  ascending less p q = less p.0 q.0 || (not (less q.0 p.0) && ltb p.1 q.1)

  unfoldable pub descending : (V → V → Bool) → V × ℕ → V × ℕ → Bool
  descending less p1 p2 = less p2.0 p1.0 || (not (less p1.0 p2.0) && ltb p1.1 p2.1)

  -- obs_sort_order() == "ascending", or any other text.
  unfoldable pub comparison : Bool → (V → V → Bool) → V × ℕ → V × ℕ → Bool
  unfolding ascending descending
  comparison true less = ascending less
  comparison false less = descending less

  -- The second loop.
  unfoldable pub sort_records :
      (List (V × ℕ) → List (V × ℕ)) → (ℕ → Bool) → List (ℕ × List (V × ℕ)) → List (ℕ × List (V × ℕ))
  sort_records sort_record skip [] = []
  sort_records sort_record skip ((recnum, pairs) ∷ tmp) =
      (recnum, if skip recnum then pairs else sort_record pairs) ∷ sort_records sort_record skip tmp

-- The inner loop for IGNORE_MISSING.
unfoldable pub place_missing : List Bool → List ℕ → List ℕ → ℕ → ℕ → Result (List ℕ)
place_missing [] missing present count_missing count_present = ok []
place_missing (true ∷ flags) missing present count_missing count_present = do
  location ← at missing count_missing
  rest ← place_missing flags missing present (suc count_missing) count_present
  ok (location ∷ rest)
place_missing (false ∷ flags) missing present count_missing count_present = do
  location ← at present count_present
  rest ← place_missing flags missing present count_missing (suc count_present)
  ok (location ∷ rest)

module _ {V : Type 0} where
  abbrev locations_present : List (V × ℕ) → List ℕ
  locations_present pairs = map (λ p. p.1) pairs

  -- The vector of one record in the last loop; operator[] of a missing key gives an empty vector.
  unfoldable pub index_record :
      MissingSortValueTreatment → Collected V → ℕ → List (V × ℕ) → Result (List ℕ)
  index_record sort_missing c recnum pairs = ok (locations_present pairs)
  index_record no_sort c recnum pairs = ok (locations_present pairs)
  index_record ignore_missing c recnum pairs =
      place_missing (or_else [] (lookup recnum c.sort_value_missing_in_record))
        (or_else [] (lookup recnum c.tmp_rec_idx_missing)) (locations_present pairs) 0 0

  -- The last loop.
  unfoldable pub copy_records :
      (ℕ → List (V × ℕ) → Result (List ℕ)) → List (ℕ × List (V × ℕ)) → RecIdx → Result RecIdx
  copy_records index [] recidx = ok recidx
  copy_records index ((recnum, pairs) ∷ tmp) recidx = do
    locs ← index recnum pairs
    copy_records index tmp (assign recnum locs recidx)

  -- buildSortedObsGroups on an empty recidx_.
  unfoldable pub build_sorted_obs_groups :
      ((V × ℕ → V × ℕ → Bool) → List (V × ℕ) → List (V × ℕ))
      → Bool
      → (V → V → Bool)
      → MissingSortValueTreatment
      → List (SortLocation V)
      → Result RecIdx
  unfolding collect_loop sort_records skips copy_records index_record comparison
  build_sorted_obs_groups sort is_ascending less treatment locations =
      let c = collect_loop treatment 0 locations nothing_collected in
      copy_records (index_record treatment c)
        (sort_records (sort (comparison is_ascending less)) (skips treatment c.contains_missing)
          c.tmp_rec_idx)
        []
