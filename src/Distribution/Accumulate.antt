-- ===== src/Distribution/Accumulate.antt =====
-- The accumulators: every term of every rank is counted once, also after a distribution was made a
-- part of a pair.
use ioda.Prelude.{
  ℕ, ◌+◌, ◌≡◌, refl, ap, ◌∙◌, Bool, List, [], ◌∷◌, map, sum, length, wrap, ok, arith,
}
use ioda.Distribution.{Comm, Nonoverlapping, Term, add_terms, nonoverlapping}
use ioda.Distribution.PairOfDistributions.{first_terms, second_terms, zip_with, pair}

-- The terms of all ranks.
abbrev pub term_sum : List Term → ℕ
term_sum ts = sum (map (λ t. t.1) ts)

abbrev pub total : List (List Term) → ℕ
total ts = sum (map term_sum ts)

pub wrap_left : (a b : ℕ) → wrap (wrap a + b) ≡ wrap (a + b)
wrap_left a b = omega arith

add_terms-wrap : (acc : ℕ) (ts : List Term) → wrap (add_terms acc ts) ≡ wrap (acc + term_sum ts)
unfolding add_terms
add_terms-wrap acc [] = ap wrap (omega arith)
add_terms-wrap acc ((loc, t) ∷ ts) =
    add_terms-wrap (wrap (acc + t)) ts ∙ wrap_left (acc + t) (term_sum ts) ∙ ap wrap (omega arith)

sum-add_terms : (ts : List (List Term)) → wrap (sum (map (add_terms 0) ts)) ≡ wrap (total ts)
sum-add_terms [] = refl
sum-add_terms (t ∷ ts) = omega (arith, add_terms-wrap 0 t, sum-add_terms ts)

-- The terms of a rank fall to one of the parts of the pair.
split_terms :
    (n : ℕ) (ts : List Term)
    → term_sum (first_terms n ts) + term_sum (second_terms n ts) ≡ term_sum ts
unfolding first_terms second_terms
split_terms n [] = refl
split_terms n ((loc, t) ∷ ts) = ground (arith, split_terms n ts)

split_total :
    (locs : List ℕ) (ts : List (List Term))
    → length locs ≡ length ts
    → total (zip_with first_terms locs ts) + total (zip_with second_terms locs ts) ≡ total ts
unfolding zip_with
split_total [] [] h = refl
split_total [] (t ∷ ts) h = absurd (omega (arith, h))
split_total (n ∷ locs) [] h = absurd (omega (arith, h))
split_total (n ∷ locs) (t ∷ ts) h =
    omega (arith, split_terms n t, split_total locs ts (omega (arith, h)))

zip_with-const :
    (f : ℕ → ℕ → ℕ) (g h : ℕ → List Term → List Term) (a b : ℕ) (locs : List ℕ)
    (ts : List (List Term))
    → length locs ≡ length ts
    → zip_with f (map (λ _. a) (zip_with g locs ts)) (map (λ _. b) (zip_with h locs ts))
      ≡ map (λ _. f a b) ts
unfolding zip_with
zip_with-const f g h a b [] [] e = refl
zip_with-const f g h a b [] (t ∷ ts) e = absurd (omega (arith, e))
zip_with-const f g h a b (n ∷ locs) [] e = absurd (omega (arith, e))
zip_with-const f g h a b (n ∷ locs) (t ∷ ts) e =
    ap (λ l. f a b ∷ l) (zip_with-const f g h a b locs ts (omega (arith, e)))

-- The accumulator of a non-overlapping distribution gives every rank the sum, modulo 2 ^ 64, of all
-- the terms that all ranks added.
pub nonoverlapping-accumulate :
    (c : Comm) (is_mine : ℕ → ℕ → Bool) (ns : List Nonoverlapping) (ts : List (List Term))
    → (nonoverlapping c is_mine ns).accumulate ts ≡ ok (map (λ _. wrap (total ts)) ts)
unfolding nonoverlapping
nonoverlapping-accumulate c is_mine ns ts =
    ap (λ v. ok (map (λ _. v) ts)) (c.all_reduce_sum_lem (map (add_terms 0) ts) ∙ sum-add_terms ts)

-- The accumulator of a pair of non-overlapping distributions, with one number of locations for each
-- rank, gives every rank the sum, modulo 2 ^ 64, of all the terms that all ranks added.
pub pair-accumulate :
    (c : Comm) (is_mine is_mine' : ℕ → ℕ → Bool) (ns ns' : List Nonoverlapping) (locs : List ℕ)
    (record_offset : ℕ) (ts : List (List Term))
    → length locs ≡ length ts
    → (pair
          (nonoverlapping c is_mine ns)
          (nonoverlapping c is_mine' ns')
          locs
          record_offset).accumulate
        ts
      ≡ ok (map (λ _. wrap (total ts)) ts)
unfolding pair
pair-accumulate c is_mine is_mine' ns ns' locs record_offset ts h =
    let a = total (zip_with first_terms locs ts) in
    let b = total (zip_with second_terms locs ts) in
    rw
      (
        nonoverlapping-accumulate c is_mine ns (zip_with first_terms locs ts),
        nonoverlapping-accumulate c is_mine' ns' (zip_with second_terms locs ts),
      )
      (ap ok (
          zip_with-const (λ x y. wrap (x + y)) first_terms second_terms (wrap a) (wrap b) locs ts h)
        ∙ ap (λ v. ok (map (λ _. v) ts)) (omega (arith, split_total locs ts h)))
