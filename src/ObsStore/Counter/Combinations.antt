-- ===== src/ObsStore/Counter/Combinations.antt =====
-- All combinations of digits, in the order of nested loops, and the counter's place among them.
use mathlib.Core.Option.{some-injective}
use ioda.Prelude.{
  ℕ, zero, suc, ◌+◌, ◌-◌, ◌<◌, ◌≡◌, refl, inl, inr, List, [], ◌∷◌, ◌++◌, ltb, length, replicate,
  map, Option, none, some, arith, iota, All, Option-cases, Bool-cases, ltb→lt, subst,
}
use ioda.ObsStore.Counter.Odometer.{next, InRange}

-- Each of the digits in front of each of the combinations.
unfoldable pub branches : List ℕ → List (List ℕ) → List (List ℕ)
branches [] rests = []
branches (e ∷ es) rests = map (λ c. e ∷ c) rests ++ branches es rests

unfoldable pub combinations : List ℕ → List (List ℕ)
combinations [] = [] ∷ []
combinations (s ∷ sizes) = branches (iota 0 s) (combinations sizes)

-- The combinations from the given one on.
unfoldable pub from : List ℕ → List ℕ → List (List ℕ)
from [] digits = [] ∷ []
from (s ∷ sizes) [] = []
from (s ∷ sizes) (d ∷ digits) =
    map (λ c. d ∷ c) (from sizes digits) ++ branches (iota (suc d) (s - suc d)) (combinations sizes)

-- The first combination is all zeros, if no size is zero.
pub from_zeros :
    (sizes : List ℕ)
    → All (λ s. 0 < s) sizes
    → from sizes (replicate (length sizes) 0) ≡ combinations sizes
unfolding from combinations branches
from_zeros [] h = refl
from_zeros (zero ∷ sizes) h = absurd (omega arith)
from_zeros (suc s ∷ sizes) h = let e : suc s - 1 ≡ s = omega arith in rw (e, from_zeros sizes h.1)

abbrev pub after : List ℕ → Option (List ℕ) → List (List ℕ)
after sizes none = []
after sizes (some digits) = from sizes digits

-- The counter's next combination is the next in the list.
pub from-next :
    (sizes digits : List ℕ)
    → All (λ s. 0 < s) sizes
    → InRange sizes digits
    → from sizes digits ≡ digits ∷ after sizes (next sizes digits)
unfolding from next branches
from-next [] [] p h = refl
from-next [] (d ∷ digits) p h = absurd h
from-next (s ∷ sizes) [] p h = absurd h
from-next (s ∷ sizes) (d ∷ digits) p h = elim (Option-cases (next sizes digits)) [
  | inr (digits', e) ↦ rw (from-next sizes digits p.1 h.1, e)
  | inl e ↦
      rw (from-next sizes digits p.1 h.1, e)
        (elim (Bool-cases (ltb (d + 1) s)) [
          | inl more ↦
              let m : s - suc d ≡ suc (s - suc (d + 1)) = ground arith in
              let m' : d + 1 ≡ suc d = omega arith in rw more (rw (m, m', from_zeros sizes p.1))
          | inr last ↦ let m : s - suc d ≡ 0 = ground arith in rw (last, m)
        ])
]

pub zeros-InRange :
    (sizes : List ℕ) → All (λ s. 0 < s) sizes → InRange sizes (replicate (length sizes) 0)
zeros-InRange [] p = tt
zeros-InRange (s ∷ sizes) p = (p.0, zeros-InRange sizes p.1)

none-ne-some {ℓ} : {A : Type ℓ} {a : A} → none ≡ some a → ⊥
none-ne-some e = cc

pub next-InRange :
    (sizes digits digits' : List ℕ)
    → All (λ s. 0 < s) sizes
    → InRange sizes digits
    → next sizes digits ≡ some digits'
    → InRange sizes digits'
unfolding next
next-InRange [] digits digits' p h e = cc
next-InRange (s ∷ sizes) [] digits' p h e = absurd h
next-InRange (s ∷ sizes) (d ∷ digits) digits' p h e = elim (Option-cases (next sizes digits)) [
  | inr (rest, f) ↦
      subst (InRange (s ∷ sizes)) (some-injective _ _ (rw f at e))
        (h.0, next-InRange sizes digits rest p.1 h.1 f)
  | inl f ↦ elim (Bool-cases (ltb (d + 1) s)) [
    | inl more ↦
        subst (InRange (s ∷ sizes)) (some-injective _ _ (rw (f, more) at e))
          (ltb→lt _ _ more, zeros-InRange sizes p.1)
    | inr last ↦ absurd (none-ne-some (rw (f, last) at e))
  ]
]
