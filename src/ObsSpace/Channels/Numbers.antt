-- ===== src/ObsSpace/Channels/Numbers.antt =====
-- chan_num_to_index_: the index found for a channel number.
use ioda.Prelude.{
  ℕ, suc, ◌+◌, ◌≡◌, refl, inl, inr, ◌⊎◌, true, false, List, [], ◌∷◌, some, none, ◌==◌, ==_iff, map,
  contains, get_elem?, All, Bool-cases, Option-cases, err, exception, ok, arith, ap, ◌∙◌, sym,
}
use ioda.ObsSpace.OrderedMap.{lookup, assign, lookup-modify, lookup-modify_ne}
use ioda.ObsSpace.Channels.{fill_chan_num_to_index, found_index, chan_indices}

lookup-fill :
    (c i : ℕ) (numbers : List ℕ) (m : List (ℕ × ℕ))
    → ((contains c numbers ≡ false) × (lookup c (fill_chan_num_to_index i numbers m) ≡ lookup c m))
      ⊎ ((k : ℕ) × (lookup c (fill_chan_num_to_index i numbers m) ≡ some (i + k))
          × (get_elem? numbers k ≡ some c))
unfolding fill_chan_num_to_index
lookup-fill c i [] m = inl (refl, refl)
lookup-fill c i (x ∷ numbers) m = elim (lookup-fill c (suc i) numbers (assign x i m)) [
  | inr (k, e, g) ↦ inr (suc k, e ∙ ap some (omega arith), g)
  | inl (n, e) ↦ elim (Bool-cases (c == x)) [
    | inl b ↦
        let q : c ≡ x = (==_iff c x).0 b in
        inr (
          0,
          e
              ∙ ap (λ y. lookup y (assign x i m)) q
              ∙ lookup-modify x i (λ _. i) m
              ∙ ap some (omega arith),
          ap some (sym q),
        )
    | inr b ↦
        let n' : (x ≡ c → ⊥) = λ q. cc (b, (==_iff c x).1 (sym q)) in
        inl (rw b n, e ∙ lookup-modify_ne x c i (λ _. i) m n')
  ]
]

-- Each requested channel that there is gets an index with its number.
pub chan_indices-fill :
    (numbers channels : List ℕ)
    → All (λ c. contains c numbers ≡ true) channels
    → (indices : List ℕ) × (chan_indices (fill_chan_num_to_index 0 numbers []) channels
        ≡ ok indices)
      × (map (get_elem? numbers) indices ≡ map some channels)
unfolding chan_indices found_index
chan_indices-fill numbers [] h = ([], refl, refl)
chan_indices-fill numbers (c ∷ channels) h =
    let (indices, e, g) = chan_indices-fill numbers channels h.1 in
    elim (lookup-fill c 0 numbers []) [
      | inl (n, l) ↦ absurd (cc (n, h.0))
      | inr (k, l, q) ↦
          let l' : lookup c (fill_chan_num_to_index 0 numbers []) ≡ some k =
            l ∙ ap some (omega arith) in
          (k ∷ indices, rw (l', e) refl, rw (q, g) refl)
    ]

lookup-fill_missing :
    (c i : ℕ) (numbers : List ℕ) (m : List (ℕ × ℕ))
    → contains c numbers ≡ false
    → lookup c (fill_chan_num_to_index i numbers m) ≡ lookup c m
unfolding fill_chan_num_to_index
lookup-fill_missing c i [] m h = refl
lookup-fill_missing c i (x ∷ numbers) m h = elim (Bool-cases (c == x)) [
  | inl b ↦ let q : true ≡ false = rw b at h in absurd (cc q)
  | inr b ↦
      let h' : contains c numbers ≡ false = rw b at h in
      let n : (x ≡ c → ⊥) = λ q. cc (b, (==_iff c x).1 (sym q)) in
      lookup-fill_missing c (suc i) numbers (assign x i m) h' ∙ lookup-modify_ne x c i (λ _. i) m n
]

pub chan_indices-missing :
    (c : ℕ) (numbers channels : List ℕ)
    → contains c numbers ≡ false
    → contains c channels ≡ true
    → chan_indices (fill_chan_num_to_index 0 numbers []) channels ≡ err exception
unfolding chan_indices found_index lookup
chan_indices-missing c numbers [] n h = cc
chan_indices-missing c numbers (x ∷ channels) n h = elim (Bool-cases (c == x)) [
  | inl b ↦
      let q : x ≡ c = sym ((==_iff c x).0 b) in
      let l : lookup x (fill_chan_num_to_index 0 numbers []) ≡ none =
        lookup-fill_missing x 0 numbers [] (ap (λ y. contains y numbers) q ∙ n) in
      rw l refl
  | inr b ↦
      let h' : contains c channels ≡ true = rw b at h in
      let rest = chan_indices-missing c numbers channels n h' in
      elim (Option-cases (lookup x (fill_chan_num_to_index 0 numbers []))) [
        | inl l ↦ rw l refl
        | inr (i, l) ↦ rw (l, rest) refl
      ]
]
