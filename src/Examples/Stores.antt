-- ===== src/Examples/Stores.antt =====
-- The in-memory backend (ObsStore) at concrete selections and stores.
use ioda.Prelude.{
  contains, Rising, ℕ, ◌≡◌, refl, false, List, [], ◌∷◌, iota, inr, length, map, ok, err, undefined,
  ◌>>=◌, get_elem?, some, arith,
}
use ioda.ObsStore.Counter.{
  all, intersect, point, new_counter, advance, carry, reset, inc, finished, count,
}
use ioda.ObsStore.Selection.{
  Selection, ℤ, select_all, select_dims, init_lin_indx, lin_index, lin_index_from, next_lin_indx,
  end_lin_indx, indices,
}
use ioda.ObsStore.Selection.Nested.{nested}
use ioda.ObsStore.Selection.Intersect.{indices-intersect}
use ioda.ObsStore.Selection.Point.{point_index, indices-point, indices-point_past}
use ioda.ObsStore.Selection.Whole.{indices-all}
use ioda.ObsStore.VarAttrStore.{VarAttrStore, write, read}
use ioda.ObsStore.VarAttrStore.RoundTrip.{write-block, write_keeps, read-write}
use ioda.ObsStore.Translate.{SingleSelection, gen_hyperslab_selects, gen_point_selects, dim_indices}
use ioda.ObsStore.Translate.Hyperslab.{hyperslab-position}
use ioda.ObsStore.Translate.Points.{gen_point_selects-transposes}
use ioda.ObsStore.Translate.Indices.{dim_indices-set}

-- Rows 0 and 2 of three, and columns 1 and 3 of four.
abbrev rows_and_columns : List (List ℕ)
rows_and_columns = (0 ∷ 2 ∷ []) ∷ (1 ∷ 3 ∷ []) ∷ []

abbrev three_by_four : List ℕ
three_by_four = 3 ∷ 4 ∷ []

-- A cube of 2 * 2 * 2 with two points.
abbrev two_points : List (List ℕ)
two_points = (0 ∷ 1 ∷ []) ∷ (1 ∷ 1 ∷ []) ∷ (0 ∷ 1 ∷ []) ∷ []

abbrev cube : List ℕ
cube = 2 ∷ 2 ∷ 2 ∷ []

indices-intersect_example :
    (sel : Selection) × (select_dims intersect rows_and_columns three_by_four ≡ ok sel)
    × (indices 9 (init_lin_indx sel) ≡ ok (1 ∷ 3 ∷ 9 ∷ 11 ∷ []))
    × (sel.npoints ≡ 4)
unfolding nested
indices-intersect_example =
    indices-intersect rows_and_columns three_by_four 9 (λ e. cc)
      (
        (omega arith, (omega arith, tt)),
        omega arith,
        ((omega arith, (omega arith, tt)), omega arith, tt),
      )
      (omega arith) (omega arith) (omega arith)

indices-point_example :
    (sel : Selection) × (select_dims point rows_and_columns three_by_four ≡ ok sel)
    × (sel.npoints ≡ 2)
    × (indices 9 (init_lin_indx sel)
        ≡ ok (map (point_index rows_and_columns three_by_four) (iota 0 2)))
indices-point_example =
    indices-point rows_and_columns three_by_four 2 9 (λ e. cc)
      (
        (omega arith, (omega arith, tt)),
        omega arith,
        ((omega arith, (omega arith, tt)), omega arith, tt),
      )
      (refl, (refl, tt)) (omega arith) (omega arith) (omega arith) (omega arith)

indices-point_past_example :
    (sel : Selection) × (select_dims point two_points cube ≡ ok sel)
    × (indices 9 (init_lin_indx sel) ≡ err undefined)
indices-point_past_example =
    indices-point_past two_points cube 2 9
      (
        (omega arith, (omega arith, tt)),
        omega arith,
        (
          (omega arith, (omega arith, tt)),
          omega arith,
          ((omega arith, (omega arith, tt)), omega arith, tt),
        ),
      )
      (refl, (refl, (refl, tt))) (omega arith) (omega arith) (omega arith)

indices-all_example :
    (select_all 2 3 >>= λ sel. indices 9 (init_lin_indx sel)) ≡ ok (0 ∷ 1 ∷ 2 ∷ 3 ∷ 4 ∷ [])
indices-all_example = indices-all 2 3 9 (omega arith) (omega arith)

-- A selection of everything, two elements long, and one of elements 3 and 1 of four.
abbrev whole : Selection
whole = record {
  mode = all;
  end = ℤ.pos 1;
  index = 0;
  npoints = 2;
  max_index = 1;
  dim_selects = [];
  dim_sizes = [];
  dim_select_sizes = [];
  counter = new_counter;
}

abbrev crossed : Selection
crossed = record {
  mode = intersect;
  end = ℤ.pos 0;
  index = 0;
  npoints = 2;
  max_index = 3;
  dim_selects = (3 ∷ 1 ∷ []) ∷ [];
  dim_sizes = 4 ∷ [];
  dim_select_sizes = 2 ∷ [];
  counter = new_counter;
}

-- Four blocks of two elements.
abbrev pairs : VarAttrStore ℕ
pairs = record { var_attr_data = 0 ∷ 0 ∷ 0 ∷ 0 ∷ 0 ∷ 0 ∷ 0 ∷ 0 ∷ []; num_elements = 2 }

-- Two chars for each number.
abbrev two_bytes : ℕ → List ℕ
two_bytes x = x ∷ 255 ∷ []

write-block_example :
    (d : List ℕ) × (write 9 (5 ∷ 6 ∷ 7 ∷ 8 ∷ []) whole crossed pairs
      ≡ ok (record pairs { var_attr_data = d }))
    × (get_elem? d 7 ≡ some 6)
unfolding indices init_lin_indx next_lin_indx end_lin_indx inc advance carry reset finished count
    lin_index lin_index_from
write-block_example =
    write-block 9 2 4 (5 ∷ 6 ∷ 7 ∷ 8 ∷ []) whole crossed pairs (0 ∷ 1 ∷ []) (3 ∷ 1 ∷ []) 0 0 3 1
      refl refl refl (omega arith, (omega arith, tt)) (omega arith, (omega arith, tt))
      (((λ e. omega arith), tt), (tt, tt)) (omega arith) refl (omega arith) refl refl (omega arith)

write_keeps_example :
    (d : List ℕ) × (write 9 (5 ∷ 6 ∷ 7 ∷ 8 ∷ []) whole crossed pairs
      ≡ ok (record pairs { var_attr_data = d }))
    × (length d ≡ 8)
    × (get_elem? d 4 ≡ some 0)
unfolding indices init_lin_indx next_lin_indx end_lin_indx inc advance carry reset finished count
    lin_index lin_index_from
write_keeps_example =
    write_keeps 9 2 4 (5 ∷ 6 ∷ 7 ∷ 8 ∷ []) whole crossed pairs (0 ∷ 1 ∷ []) (3 ∷ 1 ∷ []) 2 0 refl
      refl refl (omega arith, (omega arith, tt)) (omega arith, (omega arith, tt))
      (((λ e. omega arith), tt), (tt, tt)) (omega arith) refl (omega arith)
      ((λ e. omega arith), ((λ e. omega arith), tt)) (omega arith)

read-write_example :
    (write 9 (5 ∷ 6 ∷ 7 ∷ 8 ∷ []) whole crossed pairs >>= λ s.
    read 9 two_bytes 2 (0 ∷ 0 ∷ 0 ∷ 0 ∷ 0 ∷ 0 ∷ 0 ∷ 0 ∷ []) whole crossed s)
    ≡ ok (5 ∷ 255 ∷ 6 ∷ 255 ∷ 7 ∷ 255 ∷ 8 ∷ 255 ∷ [])
unfolding indices init_lin_indx next_lin_indx end_lin_indx inc advance carry reset finished count
    lin_index lin_index_from
read-write_example =
    read-write two_bytes 2 9 2 4 (5 ∷ 6 ∷ 7 ∷ 8 ∷ []) (0 ∷ 0 ∷ 0 ∷ 0 ∷ 0 ∷ 0 ∷ 0 ∷ 0 ∷ []) whole
      crossed pairs (3 ∷ 1 ∷ []) (λ x. refl) (omega arith) refl refl refl
      (omega arith, (omega arith, tt)) (((λ e. omega arith), tt), (tt, tt)) (omega arith)
      (omega arith) refl refl refl

-- Start 1, count 2, stride 3, block 2.
abbrev slab : SingleSelection
slab = record {
  start = 1 ∷ [];
  count = 2 ∷ [];
  stride = 3 ∷ [];
  block = 2 ∷ [];
  points = [];
  dimension = 0;
  dimension_indices_starts = [];
  dimension_indices_counts = [];
}

hyperslab-position_example :
    (selects : List (List ℕ)) × (dim : List ℕ) × (gen_hyperslab_selects slab ≡ ok selects)
    × (get_elem? selects 0 ≡ some dim)
    × (length dim ≡ 4)
    × (get_elem? dim 3 ≡ some 5)
hyperslab-position_example =
    hyperslab-position slab 0 1 2 3 2 1 1 (omega arith) (inr (omega arith)) (inr (omega arith)) refl
      refl refl refl (omega arith) (omega arith) (omega arith)

gen_point_selects-transposes_example :
    (selects : List (List ℕ)) × (column : List ℕ) × (gen_point_selects
        ((4 ∷ 5 ∷ []) ∷ (6 ∷ 7 ∷ []) ∷ [])
      ≡ ok selects)
    × (length selects ≡ 2)
    × (get_elem? selects 0 ≡ some column)
    × (length column ≡ 2)
    × (get_elem? column 1 ≡ some 6)
gen_point_selects-transposes_example =
    gen_point_selects-transposes ((4 ∷ 5 ∷ []) ∷ (6 ∷ 7 ∷ []) ∷ []) 2 1 0 6 (6 ∷ 7 ∷ [])
      (refl, (refl, tt)) refl refl (omega arith) (omega arith)

-- A run of five indices from 2 on.
abbrev run_of_five : SingleSelection
run_of_five = record {
  start = [];
  count = [];
  stride = [];
  block = [];
  points = [];
  dimension = 1;
  dimension_indices_starts = 2 ∷ [];
  dimension_indices_counts = 5 ∷ [];
}

dim_indices-set_example :
    Rising (dim_indices (2 ∷ []) (5 ∷ []) [])
    × (contains 3 (dim_indices (2 ∷ []) (5 ∷ []) []) ≡ false)
dim_indices-set_example = dim_indices-set 3 (2 ∷ []) (5 ∷ [])
