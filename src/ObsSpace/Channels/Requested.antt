-- ===== src/ObsSpace/Channels/Requested.antt =====
-- createChannelSelections for the channel numbers that are requested.

use ioda.Prelude.{
  ℕ, ◌<◌, ◌≡◌, ◌≢◌, refl, ap, ◌∙◌, true, false, List, [], ◌∷◌, ◌||◌, ◌==◌, map, some, contains,
  get_elem?, length, length-map, All, Rising, ok, err, exception, sym, arith,
}
use ioda.ObsStore.Counter.{intersect}
use ioda.ObsStore.Selection.{select_dims}
use ioda.ObsStore.Translate.{dim_indices, create_obs_store_selection}
use ioda.ObsStore.Translate.Indices.{selected, other_whole, dim_indices-set}
use ioda.ObsSpace.Channels.{
  fill_chan_num_to_index, channel_elements, ChannelSelections, create_channel_selections,
  selection_of, hyperslab_action,
}
use ioda.ObsSpace.Channels.Numbers.{chan_indices-fill, chan_indices-missing}
use ioda.ObsSpace.Channels.Selects.{channel-create_obs_store_selection}

selected-contains : (x : ℕ) (starts : List ℕ) → selected x starts [] ≡ contains x starts
selected-contains x [] = refl
selected-contains x (idx ∷ starts) = ap (λ b. x == idx || b) (selected-contains x starts)

-- For channel numbers that there are, at least one, a dimension that there is and a number of elements
-- that is not 0, createChannelSelections throws no exception. createObsStoreSelection turns its
-- selection of the variable into the selection, along the channel dimension, of a rising list: the
-- indices that have the requested numbers, each once. Every other dimension is selected whole.
pub create_channel_selections-chosen :
    (d c : ℕ) (numbers channels sizes : List ℕ)
    → All (λ c. contains c numbers ≡ true) (c ∷ channels)
    → d < length sizes
    → channel_elements d (length (c ∷ channels)) 0 1 sizes ≢ 0
    → (indices : List ℕ) × (map (get_elem? numbers) indices ≡ map some (c ∷ channels))
      × (chosen : List ℕ) × Rising chosen
      × ((x : ℕ) → contains x chosen ≡ contains x indices)
      × (s : ChannelSelections) × (create_channel_selections
            (fill_chan_num_to_index 0 numbers [])
            d
            (c ∷ channels)
            sizes
          ≡ ok s)
      × (create_obs_store_selection s.obs_group_select sizes
          ≡ select_dims intersect (other_whole d chosen 0 sizes) sizes)
unfolding create_channel_selections
create_channel_selections-chosen d c numbers channels sizes h l n =
    let (indices, e, g) = chan_indices-fill numbers (c ∷ channels) h in
    let (idx, rest, q) = cons_of_length indices (same_length indices g) in
    let e' = e ∙ ap ok q in
    let g' = ap (map (get_elem? numbers)) (sym q) ∙ g in
    let count = same_length (idx ∷ rest) g' in
    let n' : channel_elements d (length (idx ∷ rest)) 0 1 sizes ≢ 0 =
      λ z. n (ap (λ k. channel_elements d k 0 1 sizes) (sym count) ∙ z) in
    let (s, o, r) = channel-create_obs_store_selection d idx rest sizes l n' in
    (
      idx ∷ rest,
      g',
      dim_indices (idx ∷ rest) [] [],
      (dim_indices-set 0 (idx ∷ rest) []).0,
      (λ x. (dim_indices-set x (idx ∷ rest) []).1 ∙ selected-contains x (idx ∷ rest)),
      record {
        num_elements = channel_elements d (length (idx ∷ rest)) 0 1 sizes;
        mem_select = selection_of (
            hyperslab_action (0 ∷ []) (channel_elements d (length (idx ∷ rest)) 0 1 sizes ∷ [])
            ∷ []);
        obs_group_select = s;
      },
      rw (e', o) refl,
      r,
    )
  where
    same_length :
        (xs : List ℕ)
        → map (get_elem? numbers) xs ≡ map some (c ∷ channels)
        → length xs ≡ length (c ∷ channels)
    same_length xs g =
        sym (length-map (get_elem? numbers) xs) ∙ ap length g ∙ length-map some (c ∷ channels)

    cons_of_length :
        (xs : List ℕ)
        → length xs ≡ length (c ∷ channels)
        → (x : ℕ) × (rest : List ℕ) × (xs ≡ x ∷ rest)
    cons_of_length [] e = absurd (omega (arith, e))
    cons_of_length (x ∷ xs) e = (x, xs, refl)

-- A channel number that is requested and not there is an exception, whichever of the requested channels
-- it is and whatever the variable.
pub create_channel_selections-missing :
    (d c : ℕ) (numbers channels sizes : List ℕ)
    → contains c numbers ≡ false
    → contains c channels ≡ true
    → create_channel_selections (fill_chan_num_to_index 0 numbers []) d channels sizes
      ≡ err exception
unfolding create_channel_selections
create_channel_selections-missing d c numbers channels sizes n h =
    rw (chan_indices-missing c numbers channels n h) refl
