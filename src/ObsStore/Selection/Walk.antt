-- ===== src/ObsStore/Selection/Walk.antt =====
-- One round of the iteration over the indices of a selection.
use ioda.Prelude.{ℕ, suc, ◌≡◌, ◌⊎◌, inl, inr, true, false, List, [], ◌∷◌, ok, Bool-cases, >>=-eq-ok}
use ioda.ObsStore.Selection.{Selection, next_lin_indx, end_lin_indx, indices}

-- The walk is over, or it goes on with one index and the selection behind it.
pub indices_cases :
    (fuel : ℕ) (s : Selection) (is : List ℕ)
    → indices (suc fuel) s ≡ ok is
    → ((end_lin_indx s ≡ true) × (is ≡ []))
      ⊎ ((i : ℕ) × (s' : Selection) × (rest : List ℕ) × (end_lin_indx s ≡ false)
          × (next_lin_indx s ≡ ok (i, s'))
          × (indices fuel s' ≡ ok rest)
          × (is ≡ i ∷ rest))
unfolding indices
indices_cases fuel s is h = elim (Bool-cases (end_lin_indx s)) [
  | inl e ↦ inl (e, cc (rw e at h))
  | inr e ↦
      let (r, n, g) = >>=-eq-ok (next_lin_indx s) _ (rw e at h) in
      let (rest, w, q) = >>=-eq-ok (indices fuel r.1) _ g in inr (r.0, r.1, rest, e, n, w, cc q)
]
