-- ===== src/ObsStore/Selection.antt =====
-- class Selection (ObsStore/Selection.hpp, Selection.cpp): the iterator over the linear memory
-- indices of a selection. Lengths and indices are std::size_t, with its wrap-around; `end_` is an int.
pub mod Nested
pub mod Intersect
pub mod Walk
pub mod Point
pub mod Whole
use ioda.Prelude.{
  ℕ, zero, suc, ◌+◌, ◌-◌, ◌*◌, Bool, true, false, List, [], ◌∷◌, ltb, leb, if◌then◌else◌, length,
  map, drop, Result, ok, err, undefined, exception, no_fuel, ◌>>=◌, at, wrap, size_mod,
}
use ioda.ObsStore.Counter.{
  SelectionModes, all, intersect, point, SelectCounter, new_counter, reset, inc, finished, count,
}

-- The largest int; gsl::narrow throws where a conversion changes the value.
abbrev pub int_max : ℕ
int_max = 2147483647

pub data ℤ : Type 0 where
  pos : ℕ → ℤ
  negsuc : ℕ → ℤ

-- n - 1 as an int, and an int as a std::size_t.
abbrev pub pred_int : ℕ → ℤ
pred_int zero = negsuc 0
pred_int (suc n) = pos n

abbrev pub to_size : ℤ → ℕ
to_size (pos n) = n
to_size (negsuc n) = size_mod - suc n

pub record Selection : Type 0 where
  pub mode : SelectionModes
  pub end : ℤ
  pub index : ℕ
  pub npoints : ℕ
  pub max_index : ℕ
  pub dim_selects : List (List ℕ)
  pub dim_sizes : List ℕ
  pub dim_select_sizes : List ℕ
  pub counter : SelectCounter

-- Selection(start, npoints): the mode ALL. There is no counter object in this mode.
unfoldable pub select_all : ℕ → ℕ → Result Selection
select_all start npoints =
    if leb (wrap (start + npoints)) int_max
    then ok (record {
      mode = all;
      end = pred_int (wrap (start + npoints));
      index = 0;
      npoints = npoints;
      max_index = to_size (pred_int (wrap (start + npoints)));
      dim_selects = [];
      dim_sizes = [];
      dim_select_sizes = [];
      counter = new_counter;
    })
    else err exception

-- The loop of the other constructor, over the dimensions from the one with the given number on:
-- npoints_ takes the first size, and in the mode INTERSECT the product of all.
unfoldable pub count_points : SelectionModes → Bool → ℕ → List ℕ → ℕ
count_points mode first npoints [] = npoints
count_points mode first npoints (s ∷ sizes) =
    count_points mode false
      (if first
        then wrap (npoints * s)
        else elim mode [ intersect ↦ wrap (npoints * s) | _ ↦ npoints ])
      sizes

-- max_index_ *= dim_sizes[i], for as many dimensions as have selections.
unfoldable pub count_max : ℕ → List (List ℕ) → List ℕ → Result ℕ
count_max acc [] sizes = ok acc
count_max acc (s ∷ selects) [] = err undefined
count_max acc (s ∷ selects) (d ∷ sizes) = count_max (wrap (acc * d)) selects sizes

-- Selection(mode, dim_selects, dim_sizes).
unfoldable pub select_dims : SelectionModes → List (List ℕ) → List ℕ → Result Selection
unfolding count_points count_max
select_dims mode selects sizes = do
  top ← count_max 1 selects sizes
  ok (record {
    mode = mode;
    end = pos 0;
    index = 0;
    npoints = count_points mode true 1 (map length selects);
    max_index = wrap (top + size_mod - 1);
    dim_selects = selects;
    dim_sizes = sizes;
    dim_select_sizes = map length selects;
    counter = new_counter;
  })

unfoldable pub init_lin_indx : Selection → Selection
unfolding reset
init_lin_indx s = elim s.mode [
  | all ↦ record s { index = 0 }
  | mode ↦ record s { counter = reset s.counter mode s.dim_select_sizes }
]

-- lin_index *= dim_sizes_[i]; lin_index += dim_selects_[i][curCount[i]]; for the further dimensions.
unfoldable pub lin_index_from : ℕ → List (List ℕ) → List ℕ → List ℕ → Result ℕ
lin_index_from acc [] sizes counts = ok acc
lin_index_from acc (s ∷ selects) [] counts = err undefined
lin_index_from acc (s ∷ selects) (d ∷ sizes) [] = err undefined
lin_index_from acc (s ∷ selects) (d ∷ sizes) (c ∷ counts) =
    at s c >>= λ x. lin_index_from (wrap (wrap (acc * d) + x)) selects sizes counts

-- The linear index of a count: the size of the first dimension is not used.
unfoldable pub lin_index : List (List ℕ) → List ℕ → List ℕ → Result ℕ
unfolding lin_index_from
lin_index [] sizes counts = err undefined
lin_index (s ∷ selects) sizes [] = err undefined
lin_index (s ∷ selects) sizes (c ∷ counts) = do
  x ← at s c
  lin_index_from x selects (drop 1 sizes) counts

-- The bounds check comes after the iterator has moved.
abbrev checked : Selection → ℕ → Selection → Result (ℕ × Selection)
checked s i s' = if ltb s.max_index i then err exception else ok (i, s')

unfoldable pub next_lin_indx : Selection → Result (ℕ × Selection)
unfolding lin_index count inc
next_lin_indx s = elim s.mode [
  | all ↦ checked s s.index (record s { index = s.index + 1 })
  | _ ↦ do
    i ← lin_index s.dim_selects s.dim_sizes (count s.counter)
    c ← inc s.counter
    checked s i (record s { counter = c })
]

-- index_ > end_
abbrev past : ℕ → ℤ → Bool
past i (pos n) = ltb n i
past i (negsuc n) = true

unfoldable pub end_lin_indx : Selection → Bool
unfolding finished
end_lin_indx s = elim s.mode [ all ↦ past s.index s.end | _ ↦ finished s.counter ]

-- The indices that `while (!end_lin_indx()) next_lin_indx()` goes through.
unfoldable pub indices : ℕ → Selection → Result (List ℕ)
indices zero s = err no_fuel
indices (suc fuel) s =
    let more = next_lin_indx s >>= (λ r. indices fuel r.1 >>= (λ is. ok (r.0 ∷ is))) in
    if end_lin_indx s then ok [] else more
