-- ===== src/Frames.antt =====
-- ObsFrameRead (src/io/ObsFrameRead.cc): the loop over the frames of the input on one rank, with a
-- non-overlapping distribution and no obs grouping. The variables of a frame are taken as one Location
-- for each place along the dimension Location; the tests of DateTime and the test for the fill value
-- are parameters. Dimensions_t values are taken as numbers that are not negative.
pub mod Assigned
pub mod Kept
pub mod Loop
pub mod Grouping
use ioda.Prelude.{
  ℕ, zero, suc, ◌+◌, ◌-◌, Bool, true, false, List, [], ◌∷◌, ◌++◌, ltb, if◌then◌else◌, length, take,
  drop, iota, Result, ok, err, undefined, no_fuel, ◌>>=◌,
}
use ioda.Distribution.{Nonoverlapping, assign_record}
use ioda.ObsStore.Translate.{insert}

-- MetaData/dateTime, MetaData/latitude and MetaData/longitude at one place.
pub record Location (T F : Type 0) : Type 0 where
  pub date_time : T
  pub latitude : F
  pub longitude : F

-- What the checks of a location use: obsDt > windowStart, obsDt <= windowEnd, and == the fill value.
pub record Checks (T F : Type 0) : Type 0 where
  pub apply_locations_check : Bool
  pub after_start : T → Bool
  pub until_end : T → Bool
  pub is_lat_fill_value : F → Bool
  pub is_lon_fill_value : F → Bool

pub record FrameState : Type 0 where
  pub frame_start : ℕ
  pub next_rec_num : ℕ
  pub gnlocs : ℕ
  pub gnlocs_outside_timewindow : ℕ
  pub nlocs : ℕ
  pub adjusted_location_frame_start : ℕ
  pub adjusted_location_frame_count : ℕ
  pub frame_loc_index : List ℕ
  pub indx : List ℕ
  pub recnums : List ℕ
  pub unique_rec_nums : List ℕ
  pub dist : Nonoverlapping

-- basicFrameCount, for a variable with the given size along its first dimension.
unfoldable pub basic_frame_count : ℕ → ℕ → ℕ → ℕ
basic_frame_count frame_start max_frame_size size =
    if ltb size (frame_start + max_frame_size) then size - frame_start else max_frame_size

module _ {T F : Type 0} (checks : Checks T F) where
  abbrev pub inside_timing_window : T → Bool
  inside_timing_window t = if checks.after_start t then checks.until_end t else false

  -- keepThisLocation
  abbrev pub keep_this_location : Location T F → Bool
  keep_this_location l =
      if inside_timing_window l.date_time
      then if checks.is_lat_fill_value l.latitude
        then false
        else if checks.is_lon_fill_value l.longitude
        then false
        else true
      else false

  -- The loop of genFrameLocationsWithQcheck from place i on: locIndex.
  unfoldable pub qcheck_loop : ℕ → ℕ → List (Location T F) → List ℕ
  qcheck_loop frame_start i [] = []
  qcheck_loop frame_start i (l ∷ ls) =
      let rest = qcheck_loop frame_start (i + 1) ls in
      if keep_this_location l then (frame_start + i) ∷ rest else rest

  -- What the loop adds to gnlocs_outside_timewindow_.
  unfoldable pub count_outside : List (Location T F) → ℕ
  count_outside [] = 0
  count_outside (l ∷ ls) = (if inside_timing_window l.date_time then 0 else 1) + count_outside ls

  -- genFrameLocationsAll and genFrameLocationsWithQcheck. frameIndex is used by the grouping only.
  unfoldable pub gen_frame_locations : List (Location T F) → FrameState → List ℕ × FrameState
  unfolding qcheck_loop count_outside
  gen_frame_locations frame s =
      if checks.apply_locations_check
      then (
        qcheck_loop s.frame_start 0 frame,
        record s {
          gnlocs = s.gnlocs + length (qcheck_loop s.frame_start 0 frame);
          gnlocs_outside_timewindow = s.gnlocs_outside_timewindow + count_outside frame;
        },
      )
      else (iota s.frame_start (length frame), record s { gnlocs = s.gnlocs + length frame })

-- genRecordNumbersAll, with rec_num_increment_ 1: the record numbers of `n` locations.
unfoldable pub gen_record_numbers_all : ℕ → FrameState → List ℕ × FrameState
gen_record_numbers_all n s = (iota s.next_rec_num n, record s { next_rec_num = s.next_rec_num + n })

-- One round of the loop of applyMpiDistribution.
unfoldable pub apply_record : (ℕ → Bool) → ℕ → ℕ → FrameState → FrameState
apply_record is_mine row rec s =
    let assigned = record s { dist = assign_record (is_mine rec) s.dist } in
    if is_mine rec
    then record assigned {
      indx = s.indx ++ row ∷ [];
      recnums = s.recnums ++ rec ∷ [];
      unique_rec_nums = insert rec s.unique_rec_nums;
      frame_loc_index = s.frame_loc_index ++ (row - s.frame_start) ∷ [];
      nlocs = s.nlocs + 1;
    }
    else assigned

unfoldable pub apply_loop : (ℕ → Bool) → List ℕ → List ℕ → FrameState → Result FrameState
apply_loop is_mine [] records s = ok s
apply_loop is_mine (row ∷ rows) [] s = err undefined
apply_loop is_mine (row ∷ rows) (rec ∷ records) s =
    apply_loop is_mine rows records (apply_record is_mine row rec s)

-- applyMpiDistribution; nrecs_ is the length of unique_rec_nums.
unfoldable pub apply_mpi_distribution :
    (ℕ → Bool) → List ℕ → List ℕ → FrameState → Result FrameState
unfolding apply_loop
apply_mpi_distribution is_mine rows records s =
    apply_loop is_mine rows records (record s { frame_loc_index = [] })

module _ {T F : Type 0} (checks : Checks T F) (is_mine : ℕ → Bool)
    (max_frame_size max_var_size : ℕ) where
  -- genFrameIndexRecNums on the locations of the current frame.
  unfoldable pub gen_frame_index_rec_nums : List (Location T F) → FrameState → Result FrameState
  unfolding gen_frame_locations gen_record_numbers_all apply_mpi_distribution
  gen_frame_index_rec_nums frame s =
      let a = gen_frame_locations checks frame s in
      let b = gen_record_numbers_all (length a.0) a.1 in
      apply_mpi_distribution is_mine a.0 b.0 b.1 >>= λ s'.
      ok (record s' { adjusted_location_frame_count = length s'.frame_loc_index })

  -- The part of the input that frameAvailable reads into the frame.
  unfoldable pub read_frame : List (Location T F) → ℕ → List (Location T F)
  read_frame input frame_start =
      take (basic_frame_count frame_start max_frame_size (length input)) (drop frame_start input)

  unfoldable pub frame_next : FrameState → FrameState
  frame_next s = record s {
    frame_start = s.frame_start + max_frame_size;
    adjusted_location_frame_start =
        s.adjusted_location_frame_start + s.adjusted_location_frame_count;
  }

  -- for ( ; frameAvailable(); frameNext()), on the state that frameInit leaves. The computePatchLocs that
  -- the last frameAvailable calls is over all ranks: Distribution.compute_patch_locs.
  unfoldable pub frame_loop : ℕ → List (Location T F) → FrameState → Result FrameState
  frame_loop zero input s = err no_fuel
  frame_loop (suc fuel) input s =
      let round = gen_frame_index_rec_nums (read_frame input s.frame_start) s >>= λ s'.
      frame_loop fuel input (frame_next s') in
      if ltb s.frame_start max_var_size then round else ok s
