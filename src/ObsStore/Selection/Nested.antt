-- ===== src/ObsStore/Selection/Nested.antt =====
-- The nested loops over the selected positions of each dimension, and the linear index of a count.
use mathlib.Core.List.{map-append, map-map}
use native.Mathlib.Nat.{mul_assoc, mul-le-mul_right, le_refl, le_trans}
use ioda.Prelude.{
  ℕ, zero, suc, ◌+◌, ◌*◌, ◌≤◌, ◌<◌, ◌≡◌, refl, ap, ap₂, ◌∙◌, fun_ext, List, [], ◌∷◌, ◌++◌, length,
  map, get_or, All, arith, iota, length-iota, length-map, length-append, ok, at-eq-get_or, wrap,
  size_mod, mod-eq_of_lt,
}
use ioda.ObsStore.Counter.Odometer.{InRange}
use ioda.ObsStore.Counter.Combinations.{branches, combinations}
use ioda.ObsStore.Selection.{lin_index_from}

abbrev pub product : List ℕ → ℕ
product [] = 1
product (d ∷ sizes) = d * product sizes

-- Every dimension has a selected position, and all are inside the dimension.
abbrev pub IsWithin : List (List ℕ) → List ℕ → Type 0
IsWithin [] [] = Unit {0}
IsWithin [] (d ∷ sizes) = ⊥
IsWithin (s ∷ selects) [] = ⊥
IsWithin (s ∷ selects) (d ∷ sizes) = All (λ x. x < d) s × (0 < length s) × IsWithin selects sizes

abbrev pub concat_map {ℓ κ} : {A : Type ℓ} {B : Type κ} → (A → List B) → List A → List B
concat_map f [] = []
concat_map f (x ∷ xs) = f x ++ concat_map f xs

-- for x in selects[0] for y in selects[1] ...: the row-major index of (x, y, ...).
unfoldable pub nested : ℕ → List (List ℕ) → List ℕ → List ℕ
nested acc [] sizes = acc ∷ []
nested acc (s ∷ selects) [] = []
nested acc (s ∷ selects) (d ∷ sizes) = concat_map (λ x. nested (acc * d + x) selects sizes) s

-- The index that the digits of a counter stand for.
unfoldable pub position : ℕ → List (List ℕ) → List ℕ → List ℕ → ℕ
position acc [] sizes counts = acc
position acc (s ∷ selects) [] counts = acc
position acc (s ∷ selects) (d ∷ sizes) [] = acc
position acc (s ∷ selects) (d ∷ sizes) (c ∷ counts) =
    position (acc * d + get_or s c 0) selects sizes counts

pub get_or-lt : (s : List ℕ) (c d : ℕ) → All (λ x. x < d) s → c < length s → get_or s c 0 < d
get_or-lt [] c d h l = absurd (omega arith)
get_or-lt (x ∷ s) zero d h l = h.0
get_or-lt (x ∷ s) (suc c) d h l = get_or-lt s c d h.1 (omega arith)

pub product_pos :
    (selects : List (List ℕ)) (sizes : List ℕ) → IsWithin selects sizes → 0 < product sizes
product_pos [] [] h = omega arith
product_pos [] (d ∷ sizes) h = absurd h
product_pos (s ∷ selects) [] h = absurd h
product_pos ([] ∷ selects) (d ∷ sizes) h = absurd (omega arith)
product_pos ((x ∷ s) ∷ selects) (d ∷ sizes) h =
    let p = product_pos selects sizes h.2 in let q = h.0.0 in grind arith

-- One round of the loop over the dimensions, in numbers.
pub step_bound : (acc d x p m : ℕ) → x < d → suc acc * (d * p) ≤ m → suc (acc * d + x) * p ≤ m
step_bound acc d x p m h b =
    let e : suc (acc * d + x) ≤ suc acc * d = omega arith in
    omega (arith, mul-le-mul_right p e, mul_assoc (suc acc) d p)

step_no_wrap : (acc d x p m : ℕ) → 0 < p → suc (acc * d + x) * p ≤ m → acc * d + x < m
step_no_wrap acc d x p m h b = grind arith

pub lin_index_from-position :
    (acc : ℕ) (selects : List (List ℕ)) (sizes counts : List ℕ)
    → IsWithin selects sizes
    → InRange (map length selects) counts
    → suc acc * product sizes ≤ size_mod
    → (lin_index_from acc selects sizes counts ≡ ok (position acc selects sizes counts))
      × (suc (position acc selects sizes counts) ≤ suc acc * product sizes)
unfolding lin_index_from position
lin_index_from-position acc [] [] counts w r b = (refl, omega arith)
lin_index_from-position acc [] (d ∷ sizes) counts w r b = absurd w
lin_index_from-position acc (s ∷ selects) [] counts w r b = absurd w
lin_index_from-position acc (s ∷ selects) (d ∷ sizes) [] w r b = absurd r
lin_index_from-position acc (s ∷ selects) (d ∷ sizes) (c ∷ counts) w r b =
    let x : ℕ = get_or s c 0 in
    let h : x < d = get_or-lt s c d w.0 r.0 in
    let p = product_pos selects sizes w.2 in
    let b' = step_bound acc d x (product sizes) size_mod h b in
    let lt = step_no_wrap acc d x (product sizes) size_mod p b' in
    let rest = lin_index_from-position (acc * d + x) selects sizes counts w.2 r.1 b' in
    let one : wrap (acc * d) ≡ acc * d = mod-eq_of_lt (omega arith) in
    let two : wrap (acc * d + x) ≡ acc * d + x = mod-eq_of_lt lt in
    let le = step_bound acc d x (product sizes) (suc acc * (d * product sizes)) h (le_refl _) in
    (rw (at-eq-get_or s c 0 r.0) (rw (one, two) rest.0), le_trans rest.1 le)

map-branches {ℓ} :
    {B : Type ℓ} (f : List ℕ → B) (es : List ℕ) (rests : List (List ℕ))
    → map f (branches es rests) ≡ concat_map (λ e. map (λ c. f (e ∷ c)) rests) es
unfolding branches
map-branches f [] rests = refl
map-branches f (e ∷ es) rests = simp (map-append, map-map, map-branches f es rests)

-- Going through the positions of a list is going through the list.
concat_map-shift {ℓ} :
    {B : Type ℓ} (f : ℕ → List B) (k n : ℕ)
    → concat_map f (iota (suc k) n) ≡ concat_map (λ e. f (suc e)) (iota k n)
concat_map-shift f k zero = refl
concat_map-shift f k (suc n) = ap (λ r. f (suc k) ++ r) (concat_map-shift f (suc k) n)

concat_map-get_or {ℓ} :
    {B : Type ℓ} (f : ℕ → List B) (s : List ℕ)
    → concat_map (λ e. f (get_or s e 0)) (iota 0 (length s)) ≡ concat_map f s
concat_map-get_or f [] = refl
concat_map-get_or f (x ∷ s) =
    ap (λ r. f x ++ r)
      (concat_map-shift (λ e. f (get_or (x ∷ s) e 0)) 0 (length s) ∙ concat_map-get_or f s)

-- The positions of all combinations, in their order, are what the nested loops go through.
pub map-position-combinations :
    (acc : ℕ) (selects : List (List ℕ)) (sizes : List ℕ)
    → IsWithin selects sizes
    → map (position acc selects sizes) (combinations (map length selects))
      ≡ nested acc selects sizes
unfolding combinations nested position
map-position-combinations acc [] [] w = refl
map-position-combinations acc [] (d ∷ sizes) w = absurd w
map-position-combinations acc (s ∷ selects) [] w = absurd w
map-position-combinations acc (s ∷ selects) (d ∷ sizes) w =
    map-branches (position acc (s ∷ selects) (d ∷ sizes)) (iota 0 (length s))
      (combinations (map length selects))
    ∙ ap (λ f. concat_map f (iota 0 (length s)))
        (fun_ext λ e. map-position-combinations (acc * d + get_or s e 0) selects sizes w.2)
    ∙ concat_map-get_or (λ x. nested (acc * d + x) selects sizes) s

length-branches :
    (es : List ℕ) (rests : List (List ℕ)) → length (branches es rests) ≡ length es * length rests
unfolding branches
length-branches [] rests = omega arith
length-branches (e ∷ es) rests = omega (
  arith,
  length-append (map (λ c. e ∷ c) rests) (branches es rests),
  length-map (λ c. e ∷ c) rests,
  length-branches es rests,
)

-- As many combinations as the product of the sizes.
pub length-combinations : (sizes : List ℕ) → length (combinations sizes) ≡ product sizes
unfolding combinations
length-combinations [] = refl
length-combinations (s ∷ sizes) =
    length-branches (iota 0 s) (combinations sizes)
    ∙ ap₂ ◌*◌ (length-iota 0 s) (length-combinations sizes)
