-- ===== src/ObsStore/Translate/Points.antt =====
-- genDimSelects for a list of points: the points, transposed.
use mathlib.Core.Option.{some-injective}
use ioda.Prelude.{
  ℕ, zero, suc, ◌+◌, ◌<◌, ◌≡◌, refl, ap, sym, ◌∙◌, List, [], ◌∷◌, length, length-set,
  length-replicate, set, replicate, All, get_elem?, get_elem?_inside, get_elem?-set_self,
  get_elem?-set_ne, some, arith, ok,
}
use ioda.ObsStore.Translate.{fill_point, fill_points, gen_point_selects}

fill_point-at :
    (ipnt : ℕ) (columns : List (List ℕ)) (p : List ℕ) (d : ℕ) (column : List ℕ) (x : ℕ)
    → length columns ≡ length p
    → get_elem? columns d ≡ some column
    → get_elem? p d ≡ some x
    → (columns' : List (List ℕ)) × (fill_point ipnt columns p ≡ ok columns')
      × (length columns' ≡ length columns)
      × (get_elem? columns' d ≡ some (set column ipnt x))
unfolding fill_point
fill_point-at ipnt [] p d column x l ec ep = cc
fill_point-at ipnt (c ∷ columns) [] d column x l ec ep = cc
fill_point-at ipnt (c ∷ columns) (y ∷ p) zero column x l ec ep =
    let (rest, e, f) = total columns p (omega arith) in
    (set c ipnt y ∷ rest, rw e, ap suc f, rw (some-injective c column ec, some-injective y x ep))
  where
    total :
        (columns : List (List ℕ)) (p : List ℕ)
        → length columns ≡ length p
        → (rest : List (List ℕ)) × (fill_point ipnt columns p ≡ ok rest)
          × (length rest ≡ length columns)
    total [] p l = ([], refl, refl)
    total (c ∷ columns) [] l = absurd (omega arith)
    total (c ∷ columns) (y ∷ p) l =
        let (rest, e, f) = total columns p (omega arith) in (set c ipnt y ∷ rest, rw e, ap suc f)
fill_point-at ipnt (c ∷ columns) (y ∷ p) (suc d) column x l ec ep =
    let (rest, e, f, g) = fill_point-at ipnt columns p d column x (omega arith) ec ep in
    (set c ipnt y ∷ rest, rw e, ap suc f, g)

-- What the loop over the points leaves in column d.
record Filled (points : List (List ℕ)) (ipnt d : ℕ) (column column' : List ℕ) : Type 0 where
  same_length : length column' ≡ length column
  before : (q : ℕ) → q < ipnt → get_elem? column' q ≡ get_elem? column q
  written :
      (p : ℕ) (point : List ℕ) (x : ℕ)
      → get_elem? points p ≡ some point
      → get_elem? point d ≡ some x
      → ipnt + p < length column
      → get_elem? column' (ipnt + p) ≡ some x

fill_points-at :
    (points : List (List ℕ)) (ipnt n : ℕ) (columns : List (List ℕ)) (d : ℕ) (column : List ℕ)
    → length columns ≡ n
    → All (λ p. length p ≡ n) points
    → get_elem? columns d ≡ some column
    → d < n
    → (columns' : List (List ℕ)) × (column' : List ℕ) × (fill_points ipnt columns points
        ≡ ok columns')
      × (length columns' ≡ n)
      × (get_elem? columns' d ≡ some column')
      × Filled points ipnt d column column'
unfolding fill_points
fill_points-at [] ipnt n columns d column l h e dn = (
  columns,
  column,
  refl,
  l,
  e,
  record { same_length = refl; before = λ q b. refl; written = λ p point x f g b. cc },
)
fill_points-at (p₀ ∷ points) ipnt n columns d column l h e dn =
    let (x₀, e₀) = get_elem?_inside p₀ d (omega (arith, h.0)) in
    let (columns₁, f₁, l₁, g₁) = fill_point-at ipnt columns p₀ d column x₀ (l ∙ sym h.0) e e₀ in
    let (columns', column', f, l', g, r) =
      fill_points-at points (suc ipnt) n columns₁ d (set column ipnt x₀) (l₁ ∙ l) h.1 g₁ dn in
    (
      columns',
      column',
      rw (f₁, f),
      l',
      g,
      record {
        same_length = r.same_length ∙ length-set column ipnt x₀;
        before =
            λ q b. r.before q (omega arith) ∙ get_elem?-set_ne column ipnt q x₀ (λ z. omega arith);
        written = written₁ x₀ e₀ column' r;
      },
    )
  where
    written₁ :
        (x₀ : ℕ)
        → get_elem? p₀ d ≡ some x₀
        → (column' : List ℕ) → Filled points (suc ipnt) d (set column ipnt x₀) column'
        → (p : ℕ) (point : List ℕ) (x : ℕ) → get_elem? (p₀ ∷ points) p ≡ some point
        → get_elem? point d ≡ some x
        → ipnt + p < length column
        → get_elem? column' (ipnt + p) ≡ some x
    written₁ x₀ e₀ column' r zero point x f g b =
        let z : ipnt + 0 ≡ ipnt = omega arith in
        rw z (r.before ipnt (omega arith) ∙ get_elem?-set_self column ipnt x₀ (omega arith) ∙ cc)
    written₁ x₀ e₀ column' r (suc p) point x f g b =
        let z : ipnt + suc p ≡ suc ipnt + p = omega arith in
        rw z (r.written p point x f g (omega (arith, length-set column ipnt x₀)))

get_elem?-replicate {ℓ} :
    {A : Type ℓ} (n d : ℕ) (a : A) → d < n → get_elem? (replicate n a) d ≡ some a
get_elem?-replicate zero d a h = absurd (omega arith)
get_elem?-replicate (suc n) zero a h = refl
get_elem?-replicate (suc n) (suc d) a h = get_elem?-replicate n d a (omega arith)

-- Points that all have n coordinates are translated into n lists with an entry for each point, and
-- coordinate d of point p is entry p of list d.
pub gen_point_selects-transposes :
    (points : List (List ℕ)) (n p d x : ℕ) (point : List ℕ)
    → All (λ q. length q ≡ n) points
    → get_elem? points p ≡ some point
    → get_elem? point d ≡ some x
    → d < n
    → p < length points
    → (selects : List (List ℕ)) × (column : List ℕ) × (gen_point_selects points ≡ ok selects)
      × (length selects ≡ n)
      × (get_elem? selects d ≡ some column)
      × (length column ≡ length points)
      × (get_elem? column p ≡ some x)
unfolding gen_point_selects
gen_point_selects-transposes [] n p d x point h ep ex dn pn = cc
gen_point_selects-transposes (q ∷ points) n p d x point h ep ex dn pn =
    let zeros : List ℕ = replicate (length (q ∷ points)) 0 in
    let zl : length zeros ≡ length (q ∷ points) = length-replicate (length (q ∷ points)) 0 in
    let (selects, column, e, l, f, r) =
      fill_points-at (q ∷ points) 0 n (replicate (length q) zeros) d zeros
        (length-replicate (length q) zeros ∙ h.0) h
        (get_elem?-replicate (length q) d zeros (omega (arith, h.0))) dn in
    let z : 0 + p ≡ p = omega arith in
    (
      selects,
      column,
      e,
      l,
      f,
      r.same_length ∙ zl,
      rw z at (r.written p point x ep ex (omega (arith, zl))),
    )
