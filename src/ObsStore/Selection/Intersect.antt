-- ===== src/ObsStore/Selection/Intersect.antt =====
-- Selections of the mode INTERSECT: the iterator goes through the nested loops.
use native.Mathlib.Nat.{mul_assoc, mul-le-mul_left}
use ioda.Prelude.{
  ℕ, zero, suc, ◌+◌, ◌-◌, ◌*◌, ◌≤◌, ◌<◌, ◌≡◌, ◌≢◌, refl, ap, ◌∙◌, sym, inl, inr, Bool, true, false,
  List, [], ◌∷◌, length, map, replicate, get_or, ltb, All, arith, ok, at-eq-get_or, wrap, size_mod,
  mod-eq_of_lt, Bool-cases, length-map, if◌then◌else◌,
}
use ioda.ObsStore.Counter.{intersect, new_counter, advance}
use ioda.ObsStore.Counter.Odometer.{next, InRange, advance_cases}
use ioda.ObsStore.Counter.Combinations.{
  combinations, from, after, from-next, from_zeros, next-InRange, zeros-InRange,
}
use ioda.ObsStore.Selection.{
  Selection, pos, select_dims, init_lin_indx, next_lin_indx, end_lin_indx, indices, lin_index,
  count_max, count_points,
}
use ioda.ObsStore.Selection.Nested.{
  product, IsWithin, nested, position, product_pos, step_bound, get_or-lt, lin_index_from-position,
  map-position-combinations, length-combinations,
}

-- The selection in the middle of the iteration.
abbrev pub at_count : List (List ℕ) → List ℕ → ℕ → List ℕ → ℕ → Bool → Selection
at_count selects sizes npoints digits icount fin = record {
  mode = intersect;
  end = pos 0;
  index = 0;
  npoints = npoints;
  max_index = product sizes - 1;
  dim_selects = selects;
  dim_sizes = sizes;
  dim_select_sizes = map length selects;
  counter = record {
    mode = intersect;
    digits = digits;
    icount = icount;
    ndigits = length (map length selects);
    digit_sizes = map length selects;
    counter_end = fin;
  };
}

pub lin_index-position :
    (selects : List (List ℕ)) (sizes counts : List ℕ)
    → selects ≢ []
    → IsWithin selects sizes
    → InRange (map length selects) counts
    → product sizes ≤ size_mod
    → (lin_index selects sizes counts ≡ ok (position 0 selects sizes counts))
      × (position 0 selects sizes counts < product sizes)
unfolding lin_index position
lin_index-position [] sizes counts n w r b = absurd (n refl)
lin_index-position (s ∷ selects) [] counts n w r b = absurd w
lin_index-position (s ∷ selects) (d ∷ sizes) [] n w r b = absurd r
lin_index-position (s ∷ selects) (d ∷ sizes) (c ∷ counts) n w r b =
    let x : ℕ = get_or s c 0 in
    let h : x < d = get_or-lt s c d w.0 r.0 in
    let le = step_bound 0 d x (product sizes) (product (d ∷ sizes)) h (omega arith) in
    let e : 0 * d + x ≡ x = omega arith in
    let le' : suc x * product sizes ≤ product (d ∷ sizes) = rw e at le in
    let rest = lin_index_from-position x selects sizes counts w.2 r.1 (omega arith) in
    (rw (at-eq-get_or s c 0 r.0, e) rest.0, rw e (omega (arith, rest.1)))

sizes_pos :
    (selects : List (List ℕ)) (sizes : List ℕ)
    → IsWithin selects sizes
    → All (λ s. 0 < s) (map length selects)
sizes_pos [] sizes w = tt
sizes_pos (s ∷ selects) [] w = absurd w
sizes_pos (s ∷ selects) (d ∷ sizes) w = (w.1, sizes_pos selects sizes w.2)

sizes-ne-nil : (selects : List (List ℕ)) → selects ≢ [] → map length selects ≢ []
sizes-ne-nil [] n e = n refl
sizes-ne-nil (s ∷ selects) n e = cc

pub checked_ok : (m i : ℕ) → i < m → ltb (m - 1) i ≡ false
checked_ok m i h = ground arith

module _ (selects : List (List ℕ)) (sizes : List ℕ) (npoints : ℕ) (n : selects ≢ [])
    (w : IsWithin selects sizes) (b : product sizes ≤ size_mod) where
  next_lin_indx-at_count :
      (digits : List ℕ) (icount : ℕ) (digits' : List ℕ) (j : ℕ) (o : Bool)
      → InRange (map length selects) digits
      → advance (length (map length selects)) (map length selects) digits ≡ ok (digits', j, o)
      → next_lin_indx (at_count selects sizes npoints digits icount false)
        ≡ ok (
          position 0 selects sizes digits,
          at_count selects sizes npoints digits' j (if o then true else false),
        )
  unfolding next_lin_indx
  next_lin_indx-at_count digits icount digits' j o r e =
      let at = lin_index-position selects sizes digits n w r b in
      rw (at.0, e, checked_ok (product sizes) (position 0 selects sizes digits) at.1)

  indices-finished :
      (fuel : ℕ) (digits : List ℕ) (icount : ℕ)
      → 0 < fuel
      → indices fuel (at_count selects sizes npoints digits icount true) ≡ ok []
  unfolding indices end_lin_indx
  indices-finished zero digits icount h = absurd (omega arith)
  indices-finished (suc fuel) digits icount h = refl

  indices-at_count :
      (fuel : ℕ) (digits : List ℕ) (icount : ℕ)
      → InRange (map length selects) digits
      → length (from (map length selects) digits) < fuel
      → indices fuel (at_count selects sizes npoints digits icount false)
        ≡ ok (map (position 0 selects sizes) (from (map length selects) digits))
  unfolding indices end_lin_indx
  indices-at_count zero digits icount r h = absurd (omega arith)
  indices-at_count (suc fuel) digits icount r h =
      elim (advance_cases (map length selects) digits (sizes-ne-nil selects n) r) [
        | inl (digits', e, a) ↦
            let f : from (map length selects) digits ≡ digits ∷ [] =
              first ∙ ap (λ o. digits ∷ after (map length selects) o) e in
            rw (
              next_lin_indx-at_count digits icount digits' 0 true r a,
              indices-finished fuel digits' 0 (omega (arith, ap length f)),
              f,
            )
        | inr (digits', j, e, a) ↦
            let f : from (map length selects) digits ≡ digits ∷ from (map length selects) digits' =
              first ∙ ap (λ o. digits ∷ after (map length selects) o) e in
            let ih =
              indices-at_count fuel digits' j
                (next-InRange (map length selects) digits digits' (sizes_pos selects sizes w) r e)
                (omega (arith, ap length f)) in
            rw (next_lin_indx-at_count digits icount digits' j false r a, ih, f)
      ]
    where
      first :
          from (map length selects) digits
          ≡ digits ∷ after (map length selects) (next (map length selects) digits)
      first = from-next (map length selects) digits (sizes_pos selects sizes w) r

no_wrap : (a d p m : ℕ) → 0 < p → a * (d * p) < m → a * d < m
no_wrap a d p m h b =
    let le = mul-le-mul_left {m = 1} {n = p} (a * d) h in omega (arith, mul_assoc a d p, le)

sizes-product_pos : (sizes : List ℕ) → All (λ s. 0 < s) sizes → 0 < product sizes
sizes-product_pos [] h = omega arith
sizes-product_pos (s ∷ sizes) h = let p = sizes-product_pos sizes h.1 in let q = h.0 in grind arith

-- max_index_ of the constructor.
pub count_max-product :
    (acc : ℕ) (selects : List (List ℕ)) (sizes : List ℕ)
    → IsWithin selects sizes
    → acc * product sizes < size_mod
    → count_max acc selects sizes ≡ ok (acc * product sizes)
unfolding count_max
count_max-product acc [] [] w h = ap ok (omega arith)
count_max-product acc [] (d ∷ sizes) w h = absurd w
count_max-product acc (s ∷ selects) [] w h = absurd w
count_max-product acc (s ∷ selects) (d ∷ sizes) w h =
    let p = product_pos selects sizes w.2 in
    let e : acc * d * product sizes ≡ acc * (d * product sizes) = mul_assoc acc d (product sizes) in
    let small : wrap (acc * d) ≡ acc * d =
      mod-eq_of_lt (no_wrap acc d (product sizes) size_mod p h) in
    rw small (count_max-product (acc * d) selects sizes w.2 (omega arith) ∙ ap ok e)

pub wrap_pred : (m : ℕ) → 0 < m → m < size_mod → wrap (m + size_mod - 1) ≡ m - 1
wrap_pred m p h = omega arith

count_points_intersect :
    (first : Bool) (acc : ℕ) (sizes : List ℕ)
    → All (λ s. 0 < s) sizes
    → acc * product sizes < size_mod
    → count_points intersect first acc sizes ≡ acc * product sizes
unfolding count_points
count_points_intersect first acc [] p h = omega arith
count_points_intersect first acc (s ∷ sizes) p h =
    let q = sizes-product_pos sizes p.1 in
    let e : acc * s * product sizes ≡ acc * (s * product sizes) = mul_assoc acc s (product sizes) in
    let small : wrap (acc * s) ≡ acc * s =
      mod-eq_of_lt (no_wrap acc s (product sizes) size_mod q h) in
    let rest = count_points_intersect false (acc * s) sizes p.1 (omega arith) ∙ e in
    elim (Bool-cases first) [ inl f ↦ rw (f, small) rest | inr f ↦ rw (f, small) rest ]

-- A selection of the mode INTERSECT over at least one dimension is built, and its iterator goes,
-- without an exception and with one round of fuel more than there are indices, through the nested
-- loops over the selected positions; npoints_ is the number of its indices. Every dimension has a
-- selected position, all positions are below the size of their dimension, and the product of the
-- sizes is below 2 ^ 64. The number of indices is below 2 ^ 64 too.
pub indices-intersect :
    (selects : List (List ℕ)) (sizes : List ℕ) (fuel : ℕ)
    → selects ≢ []
    → IsWithin selects sizes
    → product sizes < size_mod
    → length (nested 0 selects sizes) < size_mod
    → length (nested 0 selects sizes) < fuel
    → (sel : Selection) × (select_dims intersect selects sizes ≡ ok sel)
      × (indices fuel (init_lin_indx sel) ≡ ok (nested 0 selects sizes))
      × (sel.npoints ≡ length (nested 0 selects sizes))
unfolding select_dims init_lin_indx new_counter
indices-intersect selects sizes fuel n w b c f = (
  start,
  rw (count_max-product 1 selects sizes w (omega arith)) (rw (one, top)),
  indices-at_count selects sizes start.npoints n w (omega arith) fuel zeros 0 (zeros-InRange _ pos)
        (rw all enough)
      ∙ ap (λ l. ok (map (position 0 selects sizes) l)) all
      ∙ ap ok loops,
  count_points_intersect true 1 (map length selects) pos (omega (arith, size))
      ∙ omega (arith, size),
)
  where
    pos : All (λ s. 0 < s) (map length selects)
    pos = sizes_pos selects sizes w

    zeros : List ℕ
    zeros = replicate (length (map length selects)) 0

    start : Selection
    start =
        record (at_count selects sizes (count_points intersect true 1 (map length selects)) zeros 0
          false) { counter = new_counter }

    one : 1 * product sizes ≡ product sizes
    one = omega arith

    top : wrap (product sizes + size_mod - 1) ≡ product sizes - 1
    top = wrap_pred (product sizes) (product_pos selects sizes w) b

    all : from (map length selects) zeros ≡ combinations (map length selects)
    all = from_zeros (map length selects) pos

    loops :
        map (position 0 selects sizes) (combinations (map length selects)) ≡ nested 0 selects sizes
    loops = map-position-combinations 0 selects sizes w

    size : length (nested 0 selects sizes) ≡ product (map length selects)
    size =
        ap length (sym loops)
        ∙ length-map (position 0 selects sizes) (combinations (map length selects))
        ∙ length-combinations (map length selects)

    enough : length (combinations (map length selects)) < fuel
    enough = omega (arith, size, length-combinations (map length selects))
