-- ===== src/Examples/Frames.antt =====
-- The frame loop on five locations, two in each frame, on rank 1 of two.
use ioda.Prelude.{ℕ, ◌≡◌, refl, true, List, [], ◌∷◌, length, ltb, leb, ◌==◌, ==_iff, ok, arith}
use ioda.Distribution.{new_nonoverlapping, round_robin_record}
use ioda.Frames.{Location, Checks, FrameState, frame_loop}
use ioda.Frames.Grouping.{
  find, number_key, gen_record_numbers_grouping, gen_record_numbers_grouping-same,
}
use ioda.Frames.Loop.{frame_loop_all, frame_loop-counts}

-- Window from 10 (not included) to 20; 99 is the fill value.
abbrev window : Checks ℕ ℕ
window = record {
  apply_locations_check = true;
  after_start = λ t. ltb 10 t;
  until_end = λ t. leb t 20;
  is_lat_fill_value = λ x. x == 99;
  is_lon_fill_value = λ x. x == 99;
}

abbrev place : ℕ → ℕ → ℕ → Location ℕ ℕ
place t x y = record { date_time = t; latitude = x; longitude = y }

-- The second one is too early, the fourth one has no longitude.
abbrev five : List (Location ℕ ℕ)
five = place 11 1 1 ∷ place 10 2 2 ∷ place 20 3 3 ∷ place 15 4 99 ∷ place 16 5 5 ∷ []

abbrev initial : FrameState
initial = record {
  frame_start = 0;
  next_rec_num = 0;
  gnlocs = 0;
  gnlocs_outside_timewindow = 0;
  nlocs = 0;
  adjusted_location_frame_start = 0;
  adjusted_location_frame_count = 0;
  frame_loc_index = [];
  indx = [];
  recnums = [];
  unique_rec_nums = [];
  dist = new_nonoverlapping;
}

frame_loop_all_example :
    (s : FrameState) × (frame_loop window (round_robin_record 2 1) 2 5 6 five initial ≡ ok s)
    × (s.indx ≡ 2 ∷ [])
    × (s.recnums ≡ 1 ∷ [])
    × (s.gnlocs ≡ 3)
    × (s.nlocs ≡ length s.indx)
unfolding round_robin_record
frame_loop_all_example =
    frame_loop_all window (round_robin_record 2 1) 2 5 6 five initial (omega arith) (omega arith)
      (omega arith) refl refl refl refl refl refl

frame_loop-counts_example :
    (s : FrameState) × (frame_loop window (round_robin_record 2 1) 2 5 6 five initial ≡ ok s)
    × (s.dist.num_locations_on_this_rank ≡ s.nlocs)
frame_loop-counts_example =
    frame_loop-counts window (round_robin_record 2 1) 2 5 6 five initial (omega arith) (omega arith)
      (omega arith) (omega arith) refl

-- Keys 7, 8, 7, and 5 as the next record number.
gen_record_numbers_grouping-same_example : (5 == 5) ≡ (7 == 7)
unfolding gen_record_numbers_grouping number_key find
gen_record_numbers_grouping-same_example =
    gen_record_numbers_grouping-same (λ a b. a == b) (λ a b. ==_iff a b) (7 ∷ 8 ∷ 7 ∷ []) 5 0 2 7 7
      5 5 refl refl refl refl
