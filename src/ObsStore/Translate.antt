-- ===== src/ObsStore/Translate.antt =====
-- ObsStore-selection.cpp: from the selection of the caller (include/ioda/Variables/Selection.h) to a
-- selection of the in-memory backend. Dimensions_t values are taken as numbers that are not negative;
-- sums of indices are std::size_t.
pub mod Hyperslab
pub mod Points
pub mod Indices
use ioda.Prelude.{
  ℕ, zero, suc, ◌+◌, ◌*◌, Bool, true, false, List, [], ◌∷◌, ◌++◌, map, ◌==◌, ltb, if◌then◌else◌,
  length, set, replicate, iota, Result, ok, err, undefined, exception, ◌>>=◌, at, wrap,
}
use ioda.ObsStore.Counter.{SelectionModes, intersect, point}
use ioda.ObsStore.Selection
use ioda.ObsStore.Selection.{select_all, select_dims}

pub data SelectionState : Type 0 where
  all_state none_state : SelectionState

-- One action of the caller's selection. op_ is not read here.
pub record SingleSelection : Type 0 where
  pub start : List ℕ
  pub count : List ℕ
  pub stride : List ℕ
  pub block : List ℕ
  pub points : List (List ℕ)
  pub dimension : ℕ
  pub dimension_indices_starts : List ℕ
  pub dimension_indices_counts : List ℕ

pub record UserSelection : Type 0 where
  pub default : SelectionState
  pub actions : List SingleSelection

-- stride[idim] and block[idim], 1 if the vector is empty.
abbrev pub at_or_one : List ℕ → ℕ → Result ℕ
at_or_one [] i = ok 1
at_or_one (x ∷ xs) i = at (x ∷ xs) i

-- The loop over j: `left` values from block_start + j on.
abbrev pub push_block : ℕ → ℕ → ℕ → List ℕ
push_block block_start j zero = []
push_block block_start j (suc left) = wrap (block_start + j) ∷ push_block block_start (suc j) left

-- The loop over i: `left` blocks from block i on.
unfoldable pub push_blocks : ℕ → ℕ → ℕ → ℕ → ℕ → List ℕ
push_blocks start stride block i zero = []
push_blocks start stride block i (suc left) =
    push_block (wrap (start + wrap (i * stride))) 0 block
    ++ push_blocks start stride block (suc i) left

-- genDimSelects(start, count, stride, block, selects): the dimensions from number idim on.
unfoldable pub hyperslab_from : List ℕ → List ℕ → List ℕ → List ℕ → ℕ → Result (List (List ℕ))
hyperslab_from [] count stride block idim = ok []
hyperslab_from (dim_start ∷ start) count stride block idim = do
  dim_count ← at count idim
  dim_stride ← at_or_one stride idim
  dim_block ← at_or_one block idim
  rest ← hyperslab_from start count stride block (suc idim)
  ok (push_blocks dim_start dim_stride dim_block 0 dim_count ∷ rest)

unfoldable pub gen_hyperslab_selects : SingleSelection → Result (List (List ℕ))
unfolding hyperslab_from
gen_hyperslab_selects a = hyperslab_from a.start a.count a.stride a.block 0

-- selects[idim][ipnt] = points[ipnt][idim] for every idim.
unfoldable pub fill_point : ℕ → List (List ℕ) → List ℕ → Result (List (List ℕ))
fill_point ipnt [] p = ok []
fill_point ipnt (column ∷ columns) [] = err undefined
fill_point ipnt (column ∷ columns) (x ∷ p) =
    fill_point ipnt columns p >>= λ rest. ok (set column ipnt x ∷ rest)

unfoldable pub fill_points : ℕ → List (List ℕ) → List (List ℕ) → Result (List (List ℕ))
fill_points ipnt columns [] = ok columns
fill_points ipnt columns (p ∷ points) =
    fill_point ipnt columns p >>= λ columns'. fill_points (suc ipnt) columns' points

-- genDimSelects(points, selects)
unfoldable pub gen_point_selects : List (List ℕ) → Result (List (List ℕ))
gen_point_selects points = do
  first ← at points 0
  fill_points 0 (replicate (length first) (replicate (length points) 0)) points

-- std::set::insert, the set being the list of its elements in order.
unfoldable pub insert : ℕ → List ℕ → List ℕ
insert x [] = x ∷ []
insert x (y ∷ ys) = if ltb x y then x ∷ y ∷ ys else if x == y then y ∷ ys else y ∷ insert x ys

-- dim_indices.insert(idx + j) for j from 0 on: as many rounds as there are counts.
unfoldable pub insert_run : ℕ → ℕ → ℕ → List ℕ → List ℕ
insert_run idx j zero indices = indices
insert_run idx j (suc left) indices = insert_run idx (suc j) left (insert (wrap (idx + j)) indices)

unfoldable pub dim_indices : List ℕ → List ℕ → List ℕ → List ℕ
dim_indices [] counts indices = indices
dim_indices (idx ∷ starts) [] indices = dim_indices starts [] (insert idx indices)
dim_indices (idx ∷ starts) (c ∷ counts) indices =
    dim_indices starts (c ∷ counts) (insert_run idx 0 (length (c ∷ counts)) indices)

unfoldable pub apply_actions : List SingleSelection → List (List ℕ) → Result (List (List ℕ))
apply_actions [] selects = ok selects
apply_actions (a ∷ actions) selects = at selects a.dimension >>= λ old.
    apply_actions actions (
      set selects a.dimension
        (dim_indices a.dimension_indices_starts a.dimension_indices_counts []))

-- For any unfilled dimensions, insert all indices.
unfoldable pub fill_unfilled : List (List ℕ) → List ℕ → Result (List (List ℕ))
fill_unfilled [] sizes = ok []
fill_unfilled ([] ∷ selects) [] = err undefined
fill_unfilled ((x ∷ s) ∷ selects) [] = fill_unfilled selects [] >>= λ rest. ok ((x ∷ s) ∷ rest)
fill_unfilled ([] ∷ selects) (d ∷ sizes) =
    fill_unfilled selects sizes >>= λ rest. ok (iota 0 d ∷ rest)
fill_unfilled ((x ∷ s) ∷ selects) (d ∷ sizes) =
    fill_unfilled selects sizes >>= λ rest. ok ((x ∷ s) ∷ rest)

-- genDimSelects(actions, dim_sizes, selects)
unfoldable pub gen_index_selects : List SingleSelection → List ℕ → Result (List (List ℕ))
gen_index_selects actions sizes = do
  selects ← apply_actions actions (replicate (length sizes) [])
  fill_unfilled selects sizes

-- npoints *= dim_sizes[idim]
unfoldable pub count_all : ℕ → List ℕ → ℕ
count_all npoints [] = npoints
count_all npoints (d ∷ sizes) = count_all (wrap (npoints * d)) sizes

-- The branches on the first action.
unfoldable pub translate_action :
    SingleSelection → List SingleSelection → List ℕ → Result (Selection.Selection)
translate_action a actions sizes =
    if ltb 0 (length a.start)
    then gen_hyperslab_selects a >>= (λ selects. select_dims intersect selects sizes)
    else if ltb 0 (length a.points)
    then gen_point_selects a.points >>= (λ selects. select_dims point selects sizes)
    else if ltb 0 (length a.dimension_indices_starts)
    then gen_index_selects actions sizes >>= (λ selects. select_dims intersect selects sizes)
    else err exception

-- createObsStoreSelection. With the default NONE and no action, the first action is read all the same.
unfoldable pub create_from :
    SelectionState → List SingleSelection → List ℕ → Result (Selection.Selection)
create_from all_state [] sizes = select_all 0 (count_all 1 sizes)
create_from none_state [] sizes = err undefined
create_from state (a ∷ actions) sizes = translate_action a (a ∷ actions) sizes

unfoldable pub create_obs_store_selection : UserSelection → List ℕ → Result (Selection.Selection)
unfolding create_from
create_obs_store_selection s sizes = create_from s.default s.actions sizes
