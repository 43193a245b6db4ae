-- ===== src/ObsStore/Selection/Point.antt =====
-- Selections of the mode POINT, and of the mode ALL.
use ioda.Prelude.{
  ℕ, zero, suc, ◌+◌, ◌-◌, ◌*◌, ◌≤◌, ◌<◌, ◌≡◌, ◌≢◌, refl, ap, ◌∙◌, inl, inr, Bool, true, false, List,
  [], ◌∷◌, length, map, replicate, get_elem?_past, All, arith, ok, err, undefined, wrap, size_mod,
  length-map, iota, if◌then◌else◌, ◌==◌, ==_iff, ==_ne, Bool-cases,
}
use ioda.ObsStore.Counter.{point, new_counter, inc}
use ioda.ObsStore.Counter.Odometer.{InRange}
use ioda.ObsStore.Selection.{
  Selection, pos, select_dims, init_lin_indx, next_lin_indx, end_lin_indx, indices, lin_index,
  count_points,
}
use ioda.ObsStore.Selection.Nested.{product, IsWithin, position, product_pos}
use ioda.ObsStore.Selection.Intersect.{lin_index-position, checked_ok, count_max-product, wrap_pred}

-- The row-major index of point number k: position k of every dimension.
abbrev pub point_index : List (List ℕ) → List ℕ → ℕ → ℕ
point_index selects sizes k = position 0 selects sizes (replicate (length (map length selects)) k)

-- As many positions in every dimension.
abbrev pub HasPoints : ℕ → List (List ℕ) → Type 0
HasPoints n selects = All (λ s. length s ≡ n) selects

abbrev at_point : List (List ℕ) → List ℕ → ℕ → ℕ → Bool → Selection
at_point selects sizes npoints k fin = record {
  mode = point;
  end = pos 0;
  index = 0;
  npoints = npoints;
  max_index = product sizes - 1;
  dim_selects = selects;
  dim_sizes = sizes;
  dim_select_sizes = map length selects;
  counter = record {
    mode = point;
    digits = replicate (length (map length selects)) k;
    icount = 0;
    ndigits = length (map length selects);
    digit_sizes = map length selects;
    counter_end = fin;
  };
}

points-InRange :
    (n k : ℕ) (selects : List (List ℕ))
    → HasPoints n selects
    → k < n
    → InRange (map length selects) (replicate (length (map length selects)) k)
points-InRange n k [] h l = tt
points-InRange n k (s ∷ selects) h l = (omega (arith, h.0), points-InRange n k selects h.1 l)

map-replicate : (n k : ℕ) → map (λ d. d + 1) (replicate n k) ≡ replicate n (k + 1)
map-replicate zero k = refl
map-replicate (suc n) k = ap (λ l. (k + 1) ∷ l) (map-replicate n k)

-- The step of the counter: all digits move on, but for the last of as many rounds as it has digits.
inc-at_point :
    (selects : List (List ℕ)) (sizes : List ℕ) (npoints k : ℕ)
    → selects ≢ []
    → inc (at_point selects sizes npoints k false).counter
      ≡ ok (
          if k + 1 == length (map length selects)
          then (at_point selects sizes npoints k true).counter
          else (at_point selects sizes npoints (k + 1) false).counter)
unfolding inc
inc-at_point [] sizes npoints k n = absurd (n refl)
inc-at_point (s ∷ selects) sizes npoints k n =
    elim (Bool-cases (k + 1 == length (map length (s ∷ selects)))) [
      | inl e ↦ rw e
      | inr e ↦ rw (e, map-replicate (length (map length selects)) k)
    ]

lin_index_past :
    (selects : List (List ℕ)) (sizes : List ℕ) (n k : ℕ)
    → selects ≢ []
    → HasPoints n selects
    → n ≤ k
    → lin_index selects sizes (replicate (length (map length selects)) k) ≡ err undefined
unfolding lin_index
lin_index_past [] sizes n k ne h l = absurd (ne refl)
lin_index_past (s ∷ selects) sizes n k ne h l = rw (get_elem?_past s k (omega (arith, h.0)))

module _ (selects : List (List ℕ)) (sizes : List ℕ) (n : ℕ) (ne : selects ≢ [])
    (w : IsWithin selects sizes) (h : HasPoints n selects) (b : product sizes ≤ size_mod) where
  next-at_point :
      (npoints k : ℕ)
      → k < n
      → next_lin_indx (at_point selects sizes npoints k false)
        ≡ ok (
          point_index selects sizes k,
          (if k + 1 == length (map length selects)
              then at_point selects sizes npoints k true
              else at_point selects sizes npoints (k + 1) false),
        )
  unfolding next_lin_indx
  next-at_point npoints k l =
      let here = lin_index-position selects sizes _ ne w (points-InRange n k selects h l) b in
      rw (here.0, inc-at_point selects sizes npoints k ne, checked_ok (product sizes) _ here.1)
        (elim (Bool-cases (k + 1 == length (map length selects))) [ inl e ↦ rw e | inr e ↦ rw e ])

  indices-finished :
      (fuel npoints k : ℕ) → 0 < fuel → indices fuel (at_point selects sizes npoints k true) ≡ ok []
  unfolding indices end_lin_indx
  indices-finished zero npoints k f = absurd (omega arith)
  indices-finished (suc fuel) npoints k f = refl

  -- With at least as many points as dimensions, the round for every k below the rank.
  indices-at_point :
      (m fuel npoints k : ℕ)
      → k + suc m ≡ length (map length selects)
      → length (map length selects) ≤ n
      → suc m < fuel
      → indices fuel (at_point selects sizes npoints k false)
        ≡ ok (map (point_index selects sizes) (iota k (suc m)))
  unfolding indices end_lin_indx
  indices-at_point m zero npoints k e r f = absurd (omega arith)
  indices-at_point zero (suc fuel) npoints k e r f = rw (
    next-at_point npoints k (omega arith),
    (==_iff (k + 1) (length (map length selects))).1 (omega arith),
    indices-finished fuel npoints k (omega arith),
  )
  indices-at_point (suc m) (suc fuel) npoints k e r f =
      let k' : k + 1 ≡ suc k = omega arith in
      rw
        (
          next-at_point npoints k (omega arith),
          ==_ne (k + 1) (length (map length selects)) (λ x. omega arith),
          indices-at_point m fuel npoints (k + 1) (omega arith) r (omega arith),
        )
        (rw k')

  -- With fewer points than dimensions, the walk reads past the end of the selected positions.
  indices-past :
      (m fuel npoints k : ℕ)
      → k + m ≡ n
      → n < length (map length selects)
      → m < fuel
      → indices fuel (at_point selects sizes npoints k false) ≡ err undefined
  unfolding indices end_lin_indx next_lin_indx
  indices-past m zero npoints k e r f = absurd (omega arith)
  indices-past zero (suc fuel) npoints k e r f =
      rw (lin_index_past selects sizes n k ne h (omega arith))
  indices-past (suc m) (suc fuel) npoints k e r f = rw (
    next-at_point npoints k (omega arith),
    ==_ne (k + 1) (length (map length selects)) (λ x. omega arith),
    indices-past m fuel npoints (k + 1) (omega arith) r (omega arith),
  )

count_points-point : (first : Bool) (n : ℕ) (sizes : List ℕ) → count_points point false n sizes ≡ n
unfolding count_points
count_points-point first n [] = refl
count_points-point first n (s ∷ sizes) = count_points-point first n sizes

npoints-point :
    (n : ℕ) (selects : List (List ℕ))
    → selects ≢ []
    → HasPoints n selects
    → n < size_mod
    → count_points point true 1 (map length selects) ≡ n
unfolding count_points
npoints-point n [] ne h l = absurd (ne refl)
npoints-point n (s ∷ selects) ne h l =
    let e : wrap (1 * length s) ≡ n = omega (arith, h.0) in
    ap (λ k. count_points point false k (map length selects)) e
    ∙ count_points-point false n (map length selects)

abbrev start : List (List ℕ) → List ℕ → Selection
start selects sizes =
    record (at_point selects sizes (count_points point true 1 (map length selects)) 0 false) {
      counter = new_counter;
    }

select_dims-point :
    (selects : List (List ℕ)) (sizes : List ℕ)
    → IsWithin selects sizes
    → product sizes < size_mod
    → select_dims point selects sizes ≡ ok (start selects sizes)
unfolding select_dims
select_dims-point selects sizes w b =
    let one : 1 * product sizes ≡ product sizes = omega arith in
    rw (
      count_max-product 1 selects sizes w (omega arith),
      one,
      wrap_pred (product sizes) (product_pos selects sizes w) b,
    )

-- A selection of the mode POINT with n points over at least one dimension, n being at least the
-- number of dimensions and below 2 ^ 64, is built and reports n points in npoints_, and its
-- iterator goes through the first ones only, as many as there are dimensions. Every dimension has a
-- selected position, all positions are below the size of their dimension, and the product of the
-- sizes is below 2 ^ 64.
pub indices-point :
    (selects : List (List ℕ)) (sizes : List ℕ) (n fuel : ℕ)
    → selects ≢ []
    → IsWithin selects sizes
    → HasPoints n selects
    → product sizes < size_mod
    → n < size_mod
    → length selects ≤ n
    → length selects < fuel
    → (sel : Selection) × (select_dims point selects sizes ≡ ok sel)
      × (sel.npoints ≡ n)
      × (indices fuel (init_lin_indx sel)
          ≡ ok (map (point_index selects sizes) (iota 0 (length selects))))
unfolding init_lin_indx new_counter
indices-point [] sizes n fuel ne w h b c l f = absurd (ne refl)
indices-point (s ∷ selects) sizes n fuel ne w h b c l f =
    let rank = length-map length selects in
    (
      start (s ∷ selects) sizes,
      select_dims-point (s ∷ selects) sizes w b,
      npoints-point n (s ∷ selects) ne h c,
      rw (← rank) (
          indices-at_point (s ∷ selects) sizes n ne w h (omega arith) (length (map length selects))
            fuel _ 0 (omega arith) (omega arith) (omega arith)),
    )

-- A selection of the mode POINT with n points, n being less than the number of dimensions, is
-- built, and its iterator reads past the end of the selected positions. Every dimension has a
-- selected position, all positions are below the size of their dimension, and the product of the
-- sizes is below 2 ^ 64.
pub indices-point_past :
    (selects : List (List ℕ)) (sizes : List ℕ) (n fuel : ℕ)
    → IsWithin selects sizes
    → HasPoints n selects
    → product sizes < size_mod
    → n < length selects
    → n < fuel
    → (sel : Selection) × (select_dims point selects sizes ≡ ok sel)
      × (indices fuel (init_lin_indx sel) ≡ err undefined)
unfolding init_lin_indx new_counter
indices-point_past [] sizes n fuel w h b l f = absurd (omega arith)
indices-point_past (s ∷ selects) sizes n fuel w h b l f =
    let rank = length-map length selects in
    (
      start (s ∷ selects) sizes,
      select_dims-point (s ∷ selects) sizes w b,
      indices-past (s ∷ selects) sizes n (λ e. cc) w h (omega arith) n fuel _ 0 (omega arith)
          (omega arith) f,
    )
