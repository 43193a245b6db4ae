-- ===== src/Examples/Channels.antt =====
-- Channel selection in a variable of two locations and four channels, numbered 10, 20, 30 and 40.
use ioda.Prelude.{
  ℕ, ◌≡◌, refl, List, [], ◌∷◌, map, some, contains, get_elem?, Rising, ok, err, exception, arith,
}
use ioda.ObsStore.Counter.{intersect}
use ioda.ObsStore.Selection.{select_dims}
use ioda.ObsStore.Translate.{
  create_obs_store_selection, gen_index_selects, apply_actions, fill_unfilled, dim_indices, insert,
}
use ioda.ObsStore.Translate.Indices.{other_whole}
use ioda.ObsSpace.OrderedMap.{lookup, modify}
use ioda.ObsSpace.Channels.{
  found_index, fill_chan_num_to_index, chan_indices, channel_elements, channel_dim_selects,
  index_actions, obs_group_selection, ChannelSelections, create_channel_selections, selection_of,
  hyperslab_action,
}
use ioda.ObsSpace.Channels.Requested.{
  create_channel_selections-chosen, create_channel_selections-missing,
}

abbrev numbers : List ℕ
numbers = 10 ∷ 20 ∷ 30 ∷ 40 ∷ []

create_channel_selections-chosen_example :
    (indices : List ℕ) × (map (get_elem? numbers) indices ≡ map some (40 ∷ 20 ∷ []))
    × (chosen : List ℕ) × Rising chosen
    × ((x : ℕ) → contains x chosen ≡ contains x indices)
    × (s : ChannelSelections) × (create_channel_selections
          (fill_chan_num_to_index 0 numbers [])
          1
          (40 ∷ 20 ∷ [])
          (2 ∷ 4 ∷ [])
        ≡ ok s)
    × (create_obs_store_selection s.obs_group_select (2 ∷ 4 ∷ [])
        ≡ select_dims intersect (other_whole 1 chosen 0 (2 ∷ 4 ∷ [])) (2 ∷ 4 ∷ []))
unfolding channel_elements
create_channel_selections-chosen_example =
    create_channel_selections-chosen 1 40 numbers (20 ∷ []) (2 ∷ 4 ∷ []) (refl, (refl, tt))
      (omega arith) (λ e. omega (arith, e))

-- The selection of the variable for channels 40 and 20 is that for channels 20 and 40.
abbrev indexed : List ℕ → ChannelSelections
indexed indices = record {
  num_elements = 4;
  mem_select = selection_of (hyperslab_action (0 ∷ []) (4 ∷ []) ∷ []);
  obs_group_select = selection_of (index_actions 0 ((0 ∷ 1 ∷ []) ∷ indices ∷ []));
}

channels_run :
    create_channel_selections (fill_chan_num_to_index 0 numbers []) 1 (40 ∷ 20 ∷ []) (2 ∷ 4 ∷ [])
    ≡ ok (indexed (3 ∷ 1 ∷ []))
unfolding found_index create_channel_selections fill_chan_num_to_index modify lookup chan_indices
    channel_elements channel_dim_selects obs_group_selection
channels_run = refl

channels_swapped :
    gen_index_selects (index_actions 0 ((0 ∷ 1 ∷ []) ∷ (3 ∷ 1 ∷ []) ∷ [])) (2 ∷ 4 ∷ [])
    ≡ ok ((0 ∷ 1 ∷ []) ∷ (1 ∷ 3 ∷ []) ∷ [])
unfolding index_actions gen_index_selects apply_actions fill_unfilled dim_indices insert
channels_swapped = refl

create_channel_selections-missing_example :
    create_channel_selections (fill_chan_num_to_index 0 numbers []) 1 (40 ∷ 25 ∷ []) (2 ∷ 4 ∷ [])
    ≡ err exception
create_channel_selections-missing_example =
    create_channel_selections-missing 1 25 numbers (40 ∷ 25 ∷ []) (2 ∷ 4 ∷ []) refl refl
