-- ===== src/Frames/Kept.antt =====
-- genFrameLocationsAll and genFrameLocationsWithQcheck: the locations of a frame that are kept.

use ioda.Prelude.{
  ℕ, suc, ◌+◌, ◌≡◌, refl, ap, sym, ◌∙◌, Bool, true, false, List, [], ◌∷◌, ◌++◌, if◌then◌else◌,
  length, length-iota, iota, Bool-cases, inl, inr, arith,
}
use ioda.Frames.{
  Location, Checks, FrameState, keep_this_location, qcheck_loop, gen_frame_locations, count_outside,
}

module _ {T F : Type 0} (checks : Checks T F) where
  -- Without the check every location is kept.
  abbrev pub accepts : Location T F → Bool
  accepts l = if checks.apply_locations_check then keep_this_location checks l else true

  -- The places, from i on, of the locations that are kept.
  abbrev pub kept : ℕ → List (Location T F) → List ℕ
  kept i [] = []
  kept i (l ∷ ls) = let rest = kept (suc i) ls in if accepts l then i ∷ rest else rest

  pub kept-append :
      (i : ℕ) (xs ys : List (Location T F))
      → kept i (xs ++ ys) ≡ kept i xs ++ kept (i + length xs) ys
  kept-append i [] ys = ap (λ k. kept k ys) (omega arith)
  kept-append i (x ∷ xs) ys =
      let e : i + suc (length xs) ≡ suc i + length xs = omega arith in
      rw e (elim (Bool-cases (accepts x)) [
        | inl h ↦ rw (h, kept-append (suc i) xs ys)
        | inr h ↦ rw (h, kept-append (suc i) xs ys)
      ])

  qcheck_loop-kept :
      (start i : ℕ) (ls : List (Location T F))
      → checks.apply_locations_check ≡ true
      → qcheck_loop checks start i ls ≡ kept (start + i) ls
  unfolding qcheck_loop
  qcheck_loop-kept start i [] h = refl
  qcheck_loop-kept start i (l ∷ ls) h =
      let e : start + (i + 1) ≡ suc (start + i) = omega arith in
      rw (h, qcheck_loop-kept start (i + 1) ls h, e)

  iota-kept :
      (start : ℕ) (ls : List (Location T F))
      → checks.apply_locations_check ≡ false
      → iota start (length ls) ≡ kept start ls
  iota-kept start [] h = refl
  iota-kept start (l ∷ ls) h = rw (h, iota-kept (suc start) ls h)

  -- The locations of a frame, and what the checks count.
  pub gen_frame_locations-kept :
      (frame : List (Location T F)) (s : FrameState)
      → (s' : FrameState) × (gen_frame_locations checks frame s ≡ (kept s.frame_start frame, s'))
        × (s'.gnlocs ≡ s.gnlocs + length (kept s.frame_start frame))
        × (s'.indx ≡ s.indx)
        × (s'.recnums ≡ s.recnums)
        × (s'.nlocs ≡ s.nlocs)
        × (s'.dist ≡ s.dist)
        × (s'.frame_start ≡ s.frame_start)
        × (s'.next_rec_num ≡ s.next_rec_num)
  unfolding gen_frame_locations
  gen_frame_locations-kept frame s = elim (Bool-cases checks.apply_locations_check) [
    | inl h ↦
        let q = qcheck_loop-kept s.frame_start 0 frame h ∙ ap (λ k. kept k frame) (omega arith) in
        (
          checked_state,
          ap
                (λ b.
                  if b
                  then (qcheck_loop checks s.frame_start 0 frame, checked_state)
                  else (iota s.frame_start (length frame), plain_state))
                h
              ∙ ap (λ k. (k, checked_state)) q,
          ap (λ k. s.gnlocs + length k) q,
          refl,
          refl,
          refl,
          refl,
          refl,
          refl,
        )
    | inr h ↦
        let q = iota-kept s.frame_start frame h in
        (
          plain_state,
          ap
                (λ b.
                  if b
                  then (qcheck_loop checks s.frame_start 0 frame, checked_state)
                  else (iota s.frame_start (length frame), plain_state))
                h
              ∙ ap (λ k. (k, plain_state)) q,
          ap (λ k. s.gnlocs + k) (sym (length-iota s.frame_start (length frame)) ∙ ap length q),
          refl,
          refl,
          refl,
          refl,
          refl,
          refl,
        )
  ]
    where
      checked_state : FrameState
      checked_state = record s {
        gnlocs = s.gnlocs + length (qcheck_loop checks s.frame_start 0 frame);
        gnlocs_outside_timewindow = s.gnlocs_outside_timewindow + count_outside checks frame;
      }

      plain_state : FrameState
      plain_state = record s { gnlocs = s.gnlocs + length frame }
