-- ===== src/Frames/Loop.antt =====
-- The frame loop goes over every location once, whatever the size of a frame.
use mathlib.Core.List.{append_assoc, append-nil}
use ioda.Prelude.{
  ℕ, zero, suc, ◌+◌, ◌≤◌, ◌<◌, ◌≡◌, ap, ap₂, sym, ◌∙◌, Bool, List, [], ◌++◌, map, ltb, length,
  length-append, length-map, take, drop, iota, Bool-cases, inl, inr, Result, ok, subst, ◌>>=◌,
  arith, ltb→lt, take-append-drop, length-drop, drop-drop, take_past, take_all, drop_past,
  length-take_inside,
}
use ioda.Frames.{
  Location, Checks, FrameState, gen_record_numbers_all, apply_loop, apply_mpi_distribution,
  basic_frame_count, gen_frame_index_rec_nums, read_frame, frame_next, frame_loop,
}
use ioda.Frames.Assigned.{assigned, assigned-append, map-append, apply_loop-Added}
use ioda.Frames.Kept.{kept, kept-append, gen_frame_locations-kept}

-- Reading the locations `rows`, which get the next record numbers.
abbrev Read : (ℕ → Bool) → List ℕ → FrameState → FrameState → Type 0
Read is_mine rows s s' =
    (s'.indx ≡ s.indx ++ map (λ p. p.0) (assigned is_mine s.next_rec_num rows))
    × (s'.recnums ≡ s.recnums ++ map (λ p. p.1) (assigned is_mine s.next_rec_num rows))
    × (s'.nlocs ≡ s.nlocs + length (assigned is_mine s.next_rec_num rows))
    × (s'.dist.num_locations_on_this_rank
        ≡ s.dist.num_locations_on_this_rank + length (assigned is_mine s.next_rec_num rows))
    × (s'.next_rec_num ≡ s.next_rec_num + length rows)
    × (s'.gnlocs ≡ s.gnlocs + length rows)

Read-trans :
    (is_mine : ℕ → Bool) (xs ys : List ℕ) (s t u : FrameState)
    → Read is_mine xs s t
    → Read is_mine ys t u
    → Read is_mine (xs ++ ys) s u
Read-trans is_mine xs ys s t u (i, r, n, d, x, g) (i', r', n', d', x', g') =
    let a = assigned is_mine s.next_rec_num xs in
    let b = assigned is_mine (s.next_rec_num + length xs) ys in
    let e = assigned-append is_mine s.next_rec_num xs ys in
    let q = ap (λ k. assigned is_mine k ys) x in
    let l = length-append a b in
    let m = length-append xs ys in
    let lq = ap length q in
    rw e (
      i'
          ∙ ap₂ (λ k c. k ++ map (λ p. p.0) c) i q
          ∙ append_assoc s.indx _ _
          ∙ ap (λ k. s.indx ++ k) (sym (map-append (λ p. p.0) a b)),
      r'
          ∙ ap₂ (λ k c. k ++ map (λ p. p.1) c) r q
          ∙ append_assoc s.recnums _ _
          ∙ ap (λ k. s.recnums ++ k) (sym (map-append (λ p. p.1) a b)),
      omega (arith, n, n', l, lq),
      omega (arith, d, d', l, lq),
      omega (arith, x, x', m),
      omega (arith, g, g', m),
    )

module _ {T F : Type 0} (checks : Checks T F) (is_mine : ℕ → Bool)
    (max_frame_size max_var_size : ℕ) where
  round-Read :
      (frame : List (Location T F)) (s : FrameState)
      → (s' : FrameState) × (gen_frame_index_rec_nums checks is_mine max_frame_size max_var_size
            frame s
          ≡ ok s')
        × Read is_mine (kept checks s.frame_start frame) s s'
        × (s'.frame_start ≡ s.frame_start)
  unfolding gen_frame_index_rec_nums gen_record_numbers_all apply_mpi_distribution
  round-Read frame s =
      let (t, e, g, i, r, n, d, f, x) = gen_frame_locations-kept checks frame s in
      let rows = kept checks s.frame_start frame in
      let (u, e', (i', r', n', d', f', x', g')) =
        apply_loop-Added is_mine t.next_rec_num rows (numbered t (length rows)) in
      let q = ap (λ k. assigned is_mine k rows) x in
      let lq = ap length q in
      let dn = ap (λ k. k.num_locations_on_this_rank) d in
      (
        counted u,
        ap go e ∙ ap (λ o. o >>= λ s'. ok (counted s')) e',
        (
          i' ∙ ap₂ (λ k c. k ++ map (λ p. p.0) c) i q,
          r' ∙ ap₂ (λ k c. k ++ map (λ p. p.1) c) r q,
          omega (arith, n', n, lq),
          omega (arith, d', dn, lq),
          omega (arith, x', x),
          omega (arith, g', g),
        ),
        f' ∙ f,
      )
    where
      numbered : FrameState → ℕ → FrameState
      numbered t n = record t { next_rec_num = t.next_rec_num + n; frame_loc_index = [] }

      counted : FrameState → FrameState
      counted s' = record s' { adjusted_location_frame_count = length s'.frame_loc_index }

      go : List ℕ × FrameState → Result FrameState
      go a =
          apply_loop is_mine a.0 (iota a.1.next_rec_num (length a.0)) (numbered a.1 (length a.0))
          >>= λ s'. ok (counted s')

  -- The locations of a frame are the next max_frame_size_ ones, or those that are left.
  read_frame-take :
      (input : List (Location T F)) (start : ℕ)
      → read_frame checks is_mine max_frame_size max_var_size input start
        ≡ take max_frame_size (drop start input)
  unfolding read_frame basic_frame_count
  read_frame-take input start =
      let l = length-drop start input in
      elim (Bool-cases (ltb (length input) (start + max_frame_size))) [
        | inl b ↦ rw b (
            ap (λ k. take k (drop start input)) (sym l)
            ∙ take_all (drop start input)
            ∙ sym (take_past max_frame_size (drop start input) (omega (arith, l, ltb→lt _ _ b))))
        | inr b ↦ rw b
      ]

  -- The locations that are kept in the rest of the input: those of the frame, then those behind it.
  kept_rest :
      (input : List (Location T F)) (start : ℕ)
      → kept checks start (drop start input)
        ≡ kept checks start (take max_frame_size (drop start input))
          ++ kept checks (start + max_frame_size) (drop (start + max_frame_size) input)
  kept_rest input start =
      ap (kept checks start) (sym (take-append-drop max_frame_size (drop start input)))
      ∙ kept-append checks start (take max_frame_size (drop start input))
          (drop max_frame_size (drop start input))
      ∙ ap (λ k. kept checks start (take max_frame_size (drop start input)) ++ k) behind
    where
      behind :
          kept checks
            (start + length (take max_frame_size (drop start input)))
            (drop max_frame_size (drop start input))
          ≡ kept checks (start + max_frame_size) (drop (start + max_frame_size) input)
      behind = elim (Bool-cases (ltb (length (drop start input)) max_frame_size)) [
        | inl b ↦
            let p = ltb→lt _ _ b in
            let none_left = drop_past (drop start input) max_frame_size (omega arith) in
            rw (← drop-drop start max_frame_size input, none_left)
        | inr b ↦
            let l = length-take_inside max_frame_size (drop start input) (ground arith) in
            rw (l, drop-drop start max_frame_size input)
      ]

  -- From any frame on, with fuel for a round at each place of the largest variable, which is no shorter
  -- than the dimension Location: the loop ends, and has read the rest of the input.
  pub frame_loop-Read :
      (fuel : ℕ) (input : List (Location T F)) (s : FrameState)
      → 0 < max_frame_size
      → 0 < fuel
      → length input ≤ max_var_size
      → max_var_size < s.frame_start + fuel
      → (s' : FrameState) × (frame_loop checks is_mine max_frame_size max_var_size fuel input s
          ≡ ok s')
        × Read is_mine (kept checks s.frame_start (drop s.frame_start input)) s s'
  unfolding frame_loop frame_next
  frame_loop-Read zero input s p z l f = absurd (omega arith)
  frame_loop-Read (suc fuel) input s p z l f = elim (Bool-cases (ltb s.frame_start max_var_size)) [
    | inr b ↦
        let nothing = drop_past input s.frame_start (ground arith) in
        (
          s,
          rw b,
          rw nothing (
            sym (append-nil s.indx),
            sym (append-nil s.recnums),
            omega arith,
            omega arith,
            omega arith,
            omega arith,
          ),
        )
    | inl b ↦
        let inside = ltb→lt s.frame_start max_var_size b in
        let frame = take max_frame_size (drop s.frame_start input) in
        let (t, e, a, g) = round-Read frame s in
        let (u, e', a') =
          frame_loop-Read fuel input (frame_next checks is_mine max_frame_size max_var_size t) p
            (omega arith) l (omega (arith, g)) in
        let q = ap (λ k. k + max_frame_size) g in
        (
          u,
          rw (b, read_frame-take input s.frame_start, e) e',
          subst (λ rows. Read is_mine rows s u) (sym (kept_rest input s.frame_start))
              (Read-trans is_mine _ _ s t u a
                (subst (λ k. Read is_mine (kept checks k (drop k input)) t u) q a')),
        )
  ]

  -- The loop over all frames, started with no record numbers given out and nothing read, ends, whatever
  -- the size of a frame is (but 0): with fuel for a round at each place of the largest variable, which
  -- is no shorter than the dimension Location. The locations that are kept, in the order of the input,
  -- have the record numbers 0, 1, 2, ...; indx and recnums hold those whose record is this rank's, with
  -- their record numbers; gnlocs counts the kept ones, and nlocs is the length of indx.
  pub frame_loop_all :
      (fuel : ℕ) (input : List (Location T F)) (s : FrameState)
      → 0 < max_frame_size
      → length input ≤ max_var_size
      → max_var_size < fuel
      → s.frame_start ≡ 0
      → s.next_rec_num ≡ 0
      → s.gnlocs ≡ 0
      → s.nlocs ≡ 0
      → s.indx ≡ []
      → s.recnums ≡ []
      → (s' : FrameState) × (frame_loop checks is_mine max_frame_size max_var_size fuel input s
          ≡ ok s')
        × (s'.indx ≡ map (λ p. p.0) (assigned is_mine 0 (kept checks 0 input)))
        × (s'.recnums ≡ map (λ p. p.1) (assigned is_mine 0 (kept checks 0 input)))
        × (s'.gnlocs ≡ length (kept checks 0 input))
        × (s'.nlocs ≡ length s'.indx)
  frame_loop_all fuel input s p l f fs nx g n i r =
      let (s', e, (i', r', n', d', x', g')) =
        frame_loop-Read fuel input s p (omega (arith, f)) l (omega (arith, f, fs)) in
      let rows = ap (λ k. kept checks k (drop k input)) fs in
      let q = ap₂ (assigned is_mine) nx rows in
      let first = i' ∙ ap₂ (λ k c. k ++ map (λ p. p.0) c) i q in
      (
        s',
        e,
        first,
        r' ∙ ap₂ (λ k c. k ++ map (λ p. p.1) c) r q,
        omega (arith, g', g, ap length rows),
        omega (
          arith,
          n',
          n,
          ap length q,
          ap length first,
          length-map (λ (p : ℕ × ℕ). p.0) (assigned is_mine 0 (kept checks 0 input)),
        ),
      )

  -- From any frame on, with fuel for a round at each place of the largest variable, which is no
  -- shorter than the dimension Location, and any size of a frame but 0: the loop ends, and if the
  -- count of locations in the distribution equals nlocs at the start, it does at the end. It is the
  -- size that allGatherv asserts.
  pub frame_loop-counts :
      (fuel : ℕ) (input : List (Location T F)) (s : FrameState)
      → 0 < max_frame_size
      → 0 < fuel
      → length input ≤ max_var_size
      → max_var_size < s.frame_start + fuel
      → s.dist.num_locations_on_this_rank ≡ s.nlocs
      → (s' : FrameState) × (frame_loop checks is_mine max_frame_size max_var_size fuel input s
          ≡ ok s')
        × (s'.dist.num_locations_on_this_rank ≡ s'.nlocs)
  frame_loop-counts fuel input s p z l f h =
      let (s', e, (i', r', n', d', x', g')) = frame_loop-Read fuel input s p z l f in
      (s', e, omega (arith, n', d', h))
