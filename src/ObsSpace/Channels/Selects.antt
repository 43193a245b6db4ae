-- ===== src/ObsSpace/Channels/Selects.antt =====
-- obsGroupSelect of createChannelSelections as createObsStoreSelection (ObsStore-selection.cpp) reads it.
use mathlib.Core.List.{append_assoc, append-nil}
use ioda.Prelude.{
  ℕ, zero, suc, ◌*◌, ◌<◌, ◌≡◌, ◌≢◌, refl, ap, subst, ◌∙◌, inl, inr, true, List, [], ◌∷◌, ◌++◌, ◌==◌,
  ==_ne, ltb, map, length, length-snoc, iota, iota-Rising, replicate, set, All, Rising, Bool-cases,
  if◌then◌else◌, ok, at-middle, sym, ◌>>=◌, arith, wrap,
}
use ioda.ObsStore.Counter.{intersect}
use ioda.ObsStore.Selection.{select_dims}
use ioda.ObsStore.Translate.{
  insert, dim_indices, fill_unfilled, gen_index_selects, apply_actions, translate_action,
  create_from, create_obs_store_selection, UserSelection,
}
use ioda.ObsStore.Translate.Indices.{other_whole, dim_indices-set, first_selected, cons_of_contains}
use ioda.ObsSpace.Channels.{
  channel_elements, channel_dim_selects, index_actions, obs_group_selection, selection_of,
}

-- Indices that rise are their own ordered set.
insert_last : (x : ℕ) (acc : List ℕ) → All (λ y. y < x) acc → insert x acc ≡ acc ++ x ∷ []
unfolding insert
insert_last x [] h = refl
insert_last x (y ∷ acc) h = ground (arith, insert_last x acc h.1)

Rising-split : (acc : List ℕ) (x : ℕ) (xs : List ℕ) → Rising (acc ++ x ∷ xs) → All (λ y. y < x) acc
Rising-split [] x xs r = tt
Rising-split (y ∷ acc) x xs r = (middle y acc r.0, Rising-split acc x xs r.1)
  where
    middle : (y : ℕ) (l : List ℕ) → All (λ z. y < z) (l ++ x ∷ xs) → y < x
    middle y [] a = a.0
    middle y (z ∷ l) a = middle y l a.1

dim_indices-append : (xs acc : List ℕ) → Rising (acc ++ xs) → dim_indices xs [] acc ≡ acc ++ xs
unfolding dim_indices
dim_indices-append [] acc r = sym (append-nil acc)
dim_indices-append (x ∷ xs) acc r =
    let e = append_assoc acc (x ∷ []) xs in
    ap (dim_indices xs []) (insert_last x acc (Rising-split acc x xs r))
    ∙ dim_indices-append xs (acc ++ x ∷ []) (subst Rising (sym e) r)
    ∙ e

set-middle :
    (done : List (List ℕ)) (x y : List ℕ) (rest : List (List ℕ))
    → set (done ++ y ∷ rest) (length done) x ≡ (done ++ x ∷ []) ++ rest
set-middle [] x y rest = refl
set-middle (d ∷ done) x y rest = ap (λ l. d ∷ l) (set-middle done x y rest)

-- One action per dimension sets each of them to its ordered set.
apply-index_actions :
    (done selects : List (List ℕ))
    → apply_actions (index_actions (length done) selects) (done ++ replicate (length selects) [])
      ≡ ok (done ++ map (λ s. dim_indices s [] []) selects)
unfolding apply_actions index_actions
apply-index_actions done [] = refl
apply-index_actions done (s ∷ selects) =
    let chosen = dim_indices s [] [] in
    rw
      (
        at-middle done [] (replicate (length selects) []),
        set-middle done chosen [] (replicate (length selects) []),
      )
      (ap
          (λ n.
            apply_actions (index_actions n selects)
              ((done ++ chosen ∷ []) ++ replicate (length selects) []))
          (sym (length-snoc done chosen))
        ∙ apply-index_actions (done ++ chosen ∷ []) selects
        ∙ ap ok (append_assoc done (chosen ∷ []) (map (λ s. dim_indices s [] []) selects)))

iota-chosen : (n : ℕ) → dim_indices (iota 0 n) [] [] ≡ iota 0 n
iota-chosen n = dim_indices-append (iota 0 n) [] (iota-Rising 0 n)

chosen-cons :
    (idx : ℕ) (indices : List ℕ)
    → (y : ℕ) × (ys : List ℕ) × (dim_indices (idx ∷ indices) [] [] ≡ y ∷ ys)
chosen-cons idx indices =
    let (x, sel) = first_selected idx indices [] in
    cons_of_contains x _ ((dim_indices-set x (idx ∷ indices) []).1 ∙ sel)

fill-cons :
    (n y : ℕ) (ys sizes : List ℕ) (selects rest : List (List ℕ))
    → fill_unfilled selects sizes ≡ ok rest
    → fill_unfilled ((y ∷ ys) ∷ selects) (n ∷ sizes) ≡ ok ((y ∷ ys) ∷ rest)
unfolding fill_unfilled
fill-cons n y ys sizes selects rest h = rw h refl

fill-iota :
    (n : ℕ) (sizes : List ℕ) (selects rest : List (List ℕ))
    → fill_unfilled selects sizes ≡ ok rest
    → fill_unfilled (iota 0 n ∷ selects) (n ∷ sizes) ≡ ok (iota 0 n ∷ rest)
unfolding fill_unfilled
fill-iota zero sizes selects rest h = rw h refl
fill-iota (suc n) sizes selects rest h = fill-cons (suc n) 0 (iota 1 n) sizes selects rest h

filled-channel :
    (d idx i : ℕ) (indices sizes : List ℕ)
    → fill_unfilled
        (map (λ s. dim_indices s [] []) (channel_dim_selects d (idx ∷ indices) i sizes))
        sizes
      ≡ ok (other_whole d (dim_indices (idx ∷ indices) [] []) i sizes)
unfolding channel_dim_selects fill_unfilled
filled-channel d idx i indices [] = refl
filled-channel d idx i indices (n ∷ sizes) =
    let chosen = dim_indices (idx ∷ indices) [] [] in
    let selects =
      map (λ s. dim_indices s [] []) (channel_dim_selects d (idx ∷ indices) (suc i) sizes) in
    let rest = other_whole d chosen (suc i) sizes in
    let h = filled-channel d idx (suc i) indices sizes in
    let filled : List ℕ → Type 0 = λ l. fill_unfilled (l ∷ selects) (n ∷ sizes) ≡ ok (l ∷ rest) in
    elim (Bool-cases (i == d)) [
      | inl b ↦
          let (y, ys, c) = chosen-cons idx indices in
          rw b (subst filled (sym c) (fill-cons n y ys sizes selects rest h))
      | inr b ↦ rw b (
          ap (λ l. fill_unfilled (l ∷ selects) (n ∷ sizes)) (iota-chosen n)
          ∙ fill-iota n sizes selects rest h)
    ]

length-channel_dim_selects :
    (d i : ℕ) (indices sizes : List ℕ)
    → length (channel_dim_selects d indices i sizes) ≡ length sizes
unfolding channel_dim_selects
length-channel_dim_selects d i indices [] = refl
length-channel_dim_selects d i indices (n ∷ sizes) =
    ap suc (length-channel_dim_selects d (suc i) indices sizes)

channel_elements-zero : (d i nchans : ℕ) (sizes : List ℕ) → channel_elements d nchans i 0 sizes ≡ 0
unfolding channel_elements
channel_elements-zero d i nchans [] = refl
channel_elements-zero d i nchans (n ∷ sizes) =
    let z : 0 * (if i == d then nchans else n) ≡ 0 = omega arith in
    ap (λ k. channel_elements d nchans (suc i) (wrap k) sizes) z
    ∙ channel_elements-zero d (suc i) nchans sizes

-- The first dimension has something to select where there are elements.
first_select :
    (d idx : ℕ) (indices sizes : List ℕ)
    → d < length sizes
    → channel_elements d (length (idx ∷ indices)) 0 1 sizes ≢ 0
    → (x : ℕ) × (s : List ℕ) × (selects : List (List ℕ)) × (channel_dim_selects d
          (idx ∷ indices)
          0
          sizes
        ≡ (x ∷ s) ∷ selects)
unfolding channel_dim_selects channel_elements
first_select d idx indices [] l h = absurd (omega (arith, l))
first_select zero idx indices (n ∷ sizes) l h =
    (idx, indices, channel_dim_selects 0 (idx ∷ indices) 1 sizes, refl)
first_select (suc d) idx indices (zero ∷ sizes) l h =
    let ne = ==_ne 0 (suc d) (λ e. omega (arith, e)) in
    let none_left : channel_elements (suc d) (length (idx ∷ indices)) 0 1 (0 ∷ sizes) ≡ 0 =
      rw ne (channel_elements-zero (suc d) 1 (length (idx ∷ indices)) sizes) in
    absurd (h none_left)
first_select (suc d) idx indices (suc n ∷ sizes) l h =
    let ne = ==_ne 0 (suc d) (λ e. omega (arith, e)) in
    (0, iota 1 n, channel_dim_selects (suc d) (idx ∷ indices) 1 sizes, rw ne refl)

-- A selection that starts with an action along a dimension.
index-create_obs_store_selection :
    (x : ℕ) (s sizes : List ℕ) (selects : List (List ℕ))
    → create_obs_store_selection (selection_of (index_actions 0 ((x ∷ s) ∷ selects))) sizes ≡ (
        gen_index_selects (index_actions 0 ((x ∷ s) ∷ selects)) sizes >>= λ chosen.
        select_dims intersect chosen sizes)
unfolding create_obs_store_selection create_from translate_action index_actions
index-create_obs_store_selection x s sizes selects =
    let starts : ltb 0 (length (x ∷ s)) ≡ true = ground arith in rw starts refl

channel-gen_index_selects :
    (d idx : ℕ) (indices sizes : List ℕ)
    → gen_index_selects (index_actions 0 (channel_dim_selects d (idx ∷ indices) 0 sizes)) sizes
      ≡ ok (other_whole d (dim_indices (idx ∷ indices) [] []) 0 sizes)
unfolding gen_index_selects
channel-gen_index_selects d idx indices sizes =
    let selects = channel_dim_selects d (idx ∷ indices) 0 sizes in
    let e : apply_actions (index_actions 0 selects) (replicate (length sizes) [])
        ≡ ok (map (λ s. dim_indices s [] []) selects) =
      ap (λ n. apply_actions (index_actions 0 selects) (replicate n []))
        (sym (length-channel_dim_selects d 0 (idx ∷ indices) sizes))
      ∙ apply-index_actions [] selects in
    rw e (filled-channel d idx 0 indices sizes)

pub channel-create_obs_store_selection :
    (d idx : ℕ) (indices sizes : List ℕ)
    → d < length sizes
    → channel_elements d (length (idx ∷ indices)) 0 1 sizes ≢ 0
    → (s : UserSelection) × (obs_group_selection
          (channel_elements d (length (idx ∷ indices)) 0 1 sizes)
          (channel_dim_selects d (idx ∷ indices) 0 sizes)
          (length sizes)
        ≡ ok s)
      × (create_obs_store_selection s sizes
          ≡ select_dims intersect (other_whole d (dim_indices (idx ∷ indices) [] []) 0 sizes) sizes)
unfolding obs_group_selection
channel-create_obs_store_selection d idx indices sizes l h =
    let selects = channel_dim_selects d (idx ∷ indices) 0 sizes in
    let (x, s, rest, e) = first_select d idx indices sizes l h in
    (
      selection_of (index_actions 0 selects),
      rw (==_ne _ 0 h, e) refl,
      ap (λ t. create_obs_store_selection (selection_of (index_actions 0 t)) sizes) e
          ∙ index-create_obs_store_selection x s sizes rest
          ∙ ap
              (λ t. gen_index_selects (index_actions 0 t) sizes >>= λ chosen.
                select_dims intersect chosen sizes)
              (sym e)
          ∙ ap (λ r. r >>= λ chosen. select_dims intersect chosen sizes)
              (channel-gen_index_selects d idx indices sizes),
    )
