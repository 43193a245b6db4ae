-- ===== src/ObsSpace/Channels.antt =====
-- Channels of an ObsSpace: fillChanNumToIndexMap after the channel numbers were read, and
-- createChannelSelections. Channel numbers are taken as numbers that are not negative, products of
-- sizes modulo 2 ^ 64, and the extents of the selections, which createObsStoreSelection does not read,
-- are left out.
pub mod Numbers
pub mod Selects
pub mod Requested
use ioda.Prelude.{
  ℕ, zero, suc, ◌*◌, Bool, List, [], ◌∷◌, Option, some, none, ◌==◌, if◌then◌else◌, length, iota,
  replicate, map, Result, ok, err, undefined, exception, ◌>>=◌, wrap,
}
use ioda.ObsSpace.OrderedMap.{lookup, assign}
use ioda.ObsStore.Translate.{all_state, SingleSelection, UserSelection}

-- chan_num_to_index_[chanNumbers[i]] = i, from number i on.
unfoldable pub fill_chan_num_to_index : ℕ → List ℕ → List (ℕ × ℕ) → List (ℕ × ℕ)
fill_chan_num_to_index i [] m = m
fill_chan_num_to_index i (c ∷ chan_numbers) m =
    fill_chan_num_to_index (suc i) chan_numbers (assign c i m)

unfoldable pub found_index : Option ℕ → Result ℕ
found_index none = err exception
found_index (some i) = ok i

-- chanIndices
unfoldable pub chan_indices : List (ℕ × ℕ) → List ℕ → Result (List ℕ)
chan_indices m [] = ok []
chan_indices m (c ∷ channels) = do
  i ← found_index (lookup c m)
  rest ← chan_indices m channels
  ok (i ∷ rest)

-- numElements, nchans being chanIndices.size(), and dimSelects, from dimension i on.
unfoldable pub channel_elements : ℕ → ℕ → ℕ → ℕ → List ℕ → ℕ
channel_elements d nchans i num_elements [] = num_elements
channel_elements d nchans i num_elements (n ∷ var_dims) =
    channel_elements d nchans (suc i) (wrap (num_elements * (if i == d then nchans else n)))
      var_dims

unfoldable pub channel_dim_selects : ℕ → List ℕ → ℕ → List ℕ → List (List ℕ)
channel_dim_selects d indices i [] = []
channel_dim_selects d indices i (n ∷ var_dims) =
    (if i == d then indices else iota 0 n) ∷ channel_dim_selects d indices (suc i) var_dims

abbrev pub index_action : ℕ → List ℕ → SingleSelection
index_action dimension indices = record {
  start = [];
  count = [];
  stride = [];
  block = [];
  points = [];
  dimension = dimension;
  dimension_indices_starts = indices;
  dimension_indices_counts = [];
}

abbrev pub hyperslab_action : List ℕ → List ℕ → SingleSelection
hyperslab_action start count = record {
  start = start;
  count = count;
  stride = [];
  block = [];
  points = [];
  dimension = 0;
  dimension_indices_starts = [];
  dimension_indices_counts = [];
}

-- The calls of obsGroupSelect.select for the dimensions from i on.
unfoldable pub index_actions : ℕ → List (List ℕ) → List SingleSelection
index_actions i [] = []
index_actions i (s ∷ selects) = index_action i s ∷ index_actions (suc i) selects

abbrev pub selection_of : List SingleSelection → UserSelection
selection_of actions = record { default = all_state; actions = actions }

pub record ChannelSelections : Type 0 where
  pub num_elements : ℕ
  pub mem_select : UserSelection
  pub obs_group_select : UserSelection

-- obsGroupSelect; dimSelects[0] is read whether or not there is a dimension.
unfoldable pub obs_group_selection : ℕ → List (List ℕ) → ℕ → Result UserSelection
obs_group_selection num_elements selects rank =
    if num_elements == 0
    then ok (selection_of (hyperslab_action (replicate rank 0) (replicate rank 0) ∷ []))
    else dim_selection selects
  where
    dim_selection : List (List ℕ) → Result UserSelection
    dim_selection [] = err undefined
    dim_selection (s ∷ selects) = ok (selection_of (index_actions 0 (s ∷ selects)))

unfoldable pub create_channel_selections :
    List (ℕ × ℕ) → ℕ → List ℕ → List ℕ → Result ChannelSelections
create_channel_selections chan_num_to_index d channels var_dims = do
  indices ← chan_indices chan_num_to_index channels
  let num_elements = channel_elements d (length indices) 0 1 var_dims
  obs_group_select ←
      obs_group_selection num_elements (channel_dim_selects d indices 0 var_dims) (length var_dims)
  ok (record {
    num_elements = num_elements;
    mem_select = selection_of (hyperslab_action (0 ∷ []) (num_elements ∷ []) ∷ []);
    obs_group_select = obs_group_select;
  })
