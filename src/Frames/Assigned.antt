-- ===== src/Frames/Assigned.antt =====
-- applyMpiDistribution: the locations that a rank keeps, and their record numbers.
use mathlib.Core.List.{append_assoc, append-nil}
use ioda.Prelude.{
  ℕ, suc, ◌+◌, ◌≡◌, refl, ap, sym, ◌∙◌, Bool, List, [], ◌∷◌, ◌++◌, map, if◌then◌else◌, length,
  length-append, iota, Bool-cases, inl, inr, ok, subst, arith,
}
use ioda.Distribution.{assign_record}
use ioda.Frames.{FrameState, apply_record, apply_loop}

-- The locations of a rank with their record numbers: the locations get the numbers from rec on.
abbrev pub assigned : (ℕ → Bool) → ℕ → List ℕ → List (ℕ × ℕ)
assigned is_mine rec [] = []
assigned is_mine rec (row ∷ rows) =
    let rest = assigned is_mine (suc rec) rows in if is_mine rec then (row, rec) ∷ rest else rest

pub assigned-append :
    (is_mine : ℕ → Bool) (rec : ℕ) (xs ys : List ℕ)
    → assigned is_mine rec (xs ++ ys)
      ≡ assigned is_mine rec xs ++ assigned is_mine (rec + length xs) ys
assigned-append is_mine rec [] ys = ap (λ r. assigned is_mine r ys) (omega arith)
assigned-append is_mine rec (x ∷ xs) ys =
    let e : rec + suc (length xs) ≡ suc rec + length xs = omega arith in
    rw e (elim (Bool-cases (is_mine rec)) [
      | inl h ↦ rw (h, assigned-append is_mine (suc rec) xs ys)
      | inr h ↦ rw (h, assigned-append is_mine (suc rec) xs ys)
    ])

-- What the locations `rows`, with the record numbers from rec on, change.
abbrev pub Added : (ℕ → Bool) → ℕ → List ℕ → FrameState → FrameState → Type 0
Added is_mine rec rows s s' =
    (s'.indx ≡ s.indx ++ map (λ p. p.0) (assigned is_mine rec rows))
    × (s'.recnums ≡ s.recnums ++ map (λ p. p.1) (assigned is_mine rec rows))
    × (s'.nlocs ≡ s.nlocs + length (assigned is_mine rec rows))
    × (s'.dist.num_locations_on_this_rank
        ≡ s.dist.num_locations_on_this_rank + length (assigned is_mine rec rows))
    × (s'.frame_start ≡ s.frame_start)
    × (s'.next_rec_num ≡ s.next_rec_num)
    × (s'.gnlocs ≡ s.gnlocs)

pub map-append : {A : Type 0} (f : A → ℕ) (xs ys : List A) → map f (xs ++ ys) ≡ map f xs ++ map f ys
map-append f [] ys = refl
map-append f (x ∷ xs) ys = ap (λ l. f x ∷ l) (map-append f xs ys)

apply_record-Added :
    (is_mine : ℕ → Bool) (rec row : ℕ) (s : FrameState)
    → Added is_mine rec (row ∷ []) s (apply_record is_mine row rec s)
unfolding apply_record assign_record
apply_record-Added is_mine rec row s = elim (Bool-cases (is_mine rec)) [
  | inl h ↦ rw h (refl, refl, refl, refl, refl, refl, refl)
  | inr h ↦ rw h (
    sym (append-nil s.indx),
    sym (append-nil s.recnums),
    omega arith,
    omega arith,
    refl,
    refl,
    refl,
  )
]

Added-trans :
    (is_mine : ℕ → Bool) (rec : ℕ) (xs ys : List ℕ) (s t u : FrameState)
    → Added is_mine rec xs s t
    → Added is_mine (rec + length xs) ys t u
    → Added is_mine rec (xs ++ ys) s u
Added-trans is_mine rec xs ys s t u (i, r, n, d, f, x, g) (i', r', n', d', f', x', g') =
    let e = assigned-append is_mine rec xs ys in
    let l = length-append (assigned is_mine rec xs) (assigned is_mine (rec + length xs) ys) in
    rw e (
      i'
          ∙ ap (λ k. k ++ map (λ p. p.0) (assigned is_mine (rec + length xs) ys)) i
          ∙ append_assoc s.indx _ _
          ∙ ap (λ k. s.indx ++ k) (sym (map-append (λ p. p.0) (assigned is_mine rec xs) _)),
      r'
          ∙ ap (λ k. k ++ map (λ p. p.1) (assigned is_mine (rec + length xs) ys)) r
          ∙ append_assoc s.recnums _ _
          ∙ ap (λ k. s.recnums ++ k) (sym (map-append (λ p. p.1) (assigned is_mine rec xs) _)),
      omega (arith, n, n', l),
      omega (arith, d, d', l),
      f' ∙ f,
      x' ∙ x,
      g' ∙ g,
    )

pub apply_loop-Added :
    (is_mine : ℕ → Bool) (rec : ℕ) (rows : List ℕ) (s : FrameState)
    → (s' : FrameState) × (apply_loop is_mine rows (iota rec (length rows)) s ≡ ok s')
      × Added is_mine rec rows s s'
unfolding apply_loop
apply_loop-Added is_mine rec [] s = (
  s,
  refl,
  (sym (append-nil s.indx), sym (append-nil s.recnums), omega arith, omega arith, refl, refl, refl),
)
apply_loop-Added is_mine rec (row ∷ rows) s =
    let t = apply_record is_mine row rec s in
    let (u, e, a) = apply_loop-Added is_mine (suc rec) rows t in
    let q : suc rec ≡ rec + 1 = omega arith in
    (
      u,
      e,
      Added-trans is_mine rec (row ∷ []) rows s t u (apply_record-Added is_mine rec row s)
          (subst (λ k. Added is_mine k rows t u) q a),
    )
