-- ===== src/Distribution/NonMissing.antt =====
-- globalNumNonMissingObs (DistributionUtils.cc) over a non-overlapping distribution.
use native.Mathlib.Nat.{div-add-mod'}
use ioda.Prelude.{
  take-append-drop, length-drop, ℕ, zero, suc, ◌+◌, ◌*◌, ◌/◌, ◌%◌, ◌≡◌, refl, ap, sym, ◌∙◌, Bool,
  List, [], ◌∷◌, ◌++◌, map, sum, length, take, drop, All, wrap, ok, ==_ne, ◌<◌, arith,
}
use ioda.Distribution.{Comm, Nonoverlapping, nonoverlapping}
use ioda.Distribution.Utils.{count_present, location_terms, global_num_non_missing_obs}
use ioda.Distribution.Accumulate.{term_sum, total, nonoverlapping-accumulate}

count_present-append :
    {A : Type 0} (missing : A → Bool) (xs ys : List A)
    → count_present missing (xs ++ ys) ≡ count_present missing xs + count_present missing ys
unfolding count_present
count_present-append missing [] ys = omega arith
count_present-append missing (x ∷ xs) ys = omega (arith, count_present-append missing xs ys)

-- The terms of a vector of whole locations add up to its elements that are not missing.
term_sum-location_terms :
    {A : Type 0} (missing : A → Bool) (num_variables loc n : ℕ) (v : List A)
    → length v ≡ n * num_variables
    → term_sum (location_terms missing num_variables loc n v) ≡ count_present missing v
unfolding location_terms count_present
term_sum-location_terms missing num_variables loc zero [] h = refl
term_sum-location_terms missing num_variables loc zero (x ∷ v) h = absurd (omega (arith, h))
term_sum-location_terms missing num_variables loc (suc n) v h =
    ap (λ k. count_present missing (take num_variables v) + k)
      (term_sum-location_terms missing num_variables (suc loc) n (drop num_variables v)
        (omega (arith, length-drop num_variables v, h)))
    ∙ sym (count_present-append missing (take num_variables v) (drop num_variables v))
    ∙ ap (count_present missing) (take-append-drop num_variables v)

map-map :
    {A B C : Type 0} (f : A → B) (g : B → C) (xs : List A)
    → map g (map f xs) ≡ map (λ x. g (f x)) xs
map-map f g [] = refl
map-map f g (x ∷ xs) = ap (λ l. g (f x) ∷ l) (map-map f g xs)

total-location_terms :
    {A : Type 0} (missing : A → Bool) (num_variables : ℕ) (vs : List (List A))
    → All (λ v. length v % num_variables ≡ 0) vs
    → total (map (λ v. location_terms missing num_variables 0 (length v / num_variables) v) vs)
      ≡ sum (map (count_present missing) vs)
total-location_terms missing num_variables [] h = refl
total-location_terms missing num_variables (v ∷ vs) h = omega (
  arith,
  term_sum-location_terms missing num_variables 0 (length v / num_variables) v
      (omega (arith, h.0, div-add-mod' (length v) num_variables)),
  total-location_terms missing num_variables vs h.1,
)

-- With a non-overlapping distribution, at least one variable, and a number of values that is a
-- multiple of the number of variables on every rank, globalNumNonMissingObs gives every rank the number, modulo 2 ^ 64, of
-- the values of all ranks that are not missing.
pub global_num-nonoverlapping :
    {A : Type 0} (c : Comm) (is_mine : ℕ → ℕ → Bool) (ns : List Nonoverlapping) (missing : A → Bool)
    (num_variables : ℕ) (vs : List (List A))
    → 0 < num_variables
    → All (λ v. length v % num_variables ≡ 0) vs
    → global_num_non_missing_obs (nonoverlapping c is_mine ns) missing num_variables vs
      ≡ ok (map (λ _. wrap (sum (map (count_present missing) vs))) vs)
unfolding global_num_non_missing_obs
global_num-nonoverlapping c is_mine ns missing num_variables vs pos h =
    rw (==_ne num_variables 0 (λ e. omega (arith, pos, e))) (
      nonoverlapping-accumulate c is_mine ns _
      ∙ ap ok
          (map-map (λ v. location_terms missing num_variables 0 (length v / num_variables) v) _ vs)
      ∙ ap (λ k. ok (map (λ _. wrap k) vs)) (total-location_terms missing num_variables vs h))
