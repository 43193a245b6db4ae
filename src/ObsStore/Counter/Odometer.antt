-- ===== src/ObsStore/Counter/Odometer.antt =====
-- The carry rules of SelectCounter::inc, read from the front of the digits.
use ioda.Prelude.{
  ℕ, zero, suc, ◌+◌, ◌<◌, ◌≡◌, ◌≢◌, refl, ◌⊎◌, inl, inr, Bool, true, false, List, [], ◌∷◌, ◌==◌,
  ltb, if◌then◌else◌, length, set, replicate, Result, ok, err, Option, none, some, arith,
  Option-cases, Bool-cases, get_elem?, ==_iff, ==_ne,
}
use ioda.ObsStore.Counter.{carry, advance}

-- One more position, at the front: when the loop over the rest overflows, the front digit is next.
abbrev carry_front : ℕ → List ℕ → ℕ → Result (List ℕ × ℕ × Bool) → Result (List ℕ × ℕ × Bool)
carry_front s sizes d (err e) = err e
carry_front s sizes d (ok (digits, j, false)) = ok (d ∷ digits, suc j, false)
carry_front s sizes d (ok (digits, j, true)) = carry 0 (s ∷ sizes) ((d + 1) ∷ set digits 0 0)

carry-cons :
    (i s d : ℕ) (sizes digits : List ℕ)
    → carry (suc i) (s ∷ sizes) (d ∷ digits) ≡ carry_front s sizes d (carry i sizes digits)
unfolding carry
carry-cons zero s d sizes [] = refl
carry-cons zero s d [] (x ∷ digits) = refl
carry-cons zero s d (y ∷ sizes) (x ∷ digits) = ground arith
carry-cons (suc i) s d sizes digits = elim (Option-cases (get_elem? digits (suc i))) [
  | inl e ↦ rw e
  | inr (x, e) ↦ elim (Option-cases (get_elem? sizes (suc i))) [
    | inl f ↦ rw (e, f)
    | inr (y, f) ↦ elim (Bool-cases (x == y)) [
      | inr g ↦ rw (e, f, g)
      | inl g ↦ elim (Option-cases (get_elem? (set digits (suc i) 0) i)) [
        | inl h ↦ rw (e, f, g, h)
        | inr (z, h) ↦
            rw (e, f, g, h) (carry-cons i s d sizes (set (set digits (suc i) 0) i (z + 1)))
      ]
    ]
  ]
]

advance-cons :
    (n s d : ℕ) (sizes digits : List ℕ)
    → advance (suc (suc n)) (s ∷ sizes) (d ∷ digits)
      ≡ carry_front s sizes d (advance (suc n) sizes digits)
unfolding advance
advance-cons n s d sizes digits = elim (Option-cases (get_elem? digits n)) [
  | inl e ↦ rw e
  | inr (x, e) ↦ rw e (carry-cons n s d sizes (set digits n (x + 1)))
]

-- The next combination of digits in the order of nested loops; none after the last one.
unfoldable pub next : List ℕ → List ℕ → Option (List ℕ)
next [] digits = none
next (s ∷ sizes) [] = none
next (s ∷ sizes) (d ∷ digits) = elim (next sizes digits) [
  | some digits' ↦ some (d ∷ digits')
  | none ↦ if ltb (d + 1) s then some ((d + 1) ∷ replicate (length sizes) 0) else none
]

-- Each digit below its size.
abbrev pub InRange : List ℕ → List ℕ → Type 0
InRange [] [] = Unit {0}
InRange [] (d ∷ digits) = ⊥
InRange (s ∷ sizes) [] = ⊥
InRange (s ∷ sizes) (d ∷ digits) = (d < s) × InRange sizes digits

-- What `advance` leaves at the end: the first digit one past its range, the others reset.
abbrev Overflowed : List ℕ → Result (List ℕ × ℕ × Bool) → Type 0
Overflowed [] r = ⊥
Overflowed (s ∷ sizes) r = r ≡ ok (s ∷ replicate (length sizes) 0, 0, true)

abbrev Advances : List ℕ → List ℕ → Result (List ℕ × ℕ × Bool) → Type 0
Advances sizes digits r =
    ((next sizes digits ≡ none) × Overflowed sizes r)
    ⊎ ((digits' : List ℕ) × (j : ℕ) × (next sizes digits ≡ some digits')
        × (r ≡ ok (digits', j, false)))

front-Advances :
    (s d : ℕ) (sizes digits : List ℕ) (r : Result (List ℕ × ℕ × Bool))
    → d < s
    → Advances sizes digits r
    → Advances (s ∷ sizes) (d ∷ digits) (carry_front s sizes d r)
unfolding next carry
front-Advances s d [] digits r h (inl (e, o)) = absurd o
front-Advances s d (t ∷ sizes) digits r h (inl (e, o)) = elim (Bool-cases (ltb (d + 1) s)) [
  | inl more ↦ inr (
    (d + 1) ∷ 0 ∷ replicate (length sizes) 0,
    0,
    rw (e, more),
    rw (o, ==_ne (d + 1) s (ground arith)),
  )
  | inr last ↦
      let end : d + 1 ≡ s = ground arith in inl (rw (e, last), rw (o, end, (==_iff s s).1 refl))
]
front-Advances s d sizes digits r h (inr (digits', j, e, f)) = inr (d ∷ digits', suc j, rw e, rw f)

advance-Advances_cons :
    (s d : ℕ) (sizes digits : List ℕ)
    → InRange (s ∷ sizes) (d ∷ digits)
    → Advances (s ∷ sizes) (d ∷ digits) (advance (length (s ∷ sizes)) (s ∷ sizes) (d ∷ digits))
unfolding advance carry next
advance-Advances_cons s d [] [] h = elim (Bool-cases (ltb (d + 1) s)) [
  | inl more ↦ inr ((d + 1) ∷ [], 0, rw more, rw (==_ne (d + 1) s (ground arith)))
  | inr last ↦ let end : d + 1 ≡ s = ground arith in inl (rw last, rw (end, (==_iff s s).1 refl))
]
advance-Advances_cons s d [] (x ∷ digits) h = absurd h.1
advance-Advances_cons s d (t ∷ sizes) [] h = absurd h.1
advance-Advances_cons s d (t ∷ sizes) (x ∷ digits) h =
    rw (advance-cons (length sizes) s d (t ∷ sizes) (x ∷ digits)) (
      front-Advances s d (t ∷ sizes) (x ∷ digits) _ h.0
        (advance-Advances_cons t x sizes digits h.1))

-- One call of `advance` on digits in range, at least one of them, goes to the next combination, or
-- reports the overflow after the last one.
advance-Advances :
    (sizes digits : List ℕ)
    → sizes ≢ []
    → InRange sizes digits
    → Advances sizes digits (advance (length sizes) sizes digits)
advance-Advances [] digits n r = absurd (n refl)
advance-Advances (s ∷ sizes) [] n r = absurd r
advance-Advances (s ∷ sizes) (d ∷ digits) n r = advance-Advances_cons s d sizes digits r

-- The same for sizes that are not taken apart.
pub advance_cases :
    (sizes digits : List ℕ)
    → sizes ≢ []
    → InRange sizes digits
    → ((digits' : List ℕ) × (next sizes digits ≡ none)
        × (advance (length sizes) sizes digits ≡ ok (digits', 0, true)))
      ⊎ ((digits' : List ℕ) × (j : ℕ) × (next sizes digits ≡ some digits')
          × (advance (length sizes) sizes digits ≡ ok (digits', j, false)))
advance_cases [] digits n r = absurd (n refl)
advance_cases (s ∷ sizes) digits n r = elim (advance-Advances (s ∷ sizes) digits n r) [
  | inl (e, o) ↦ inl (s ∷ replicate (length sizes) 0, e, o)
  | inr (digits', j, e, o) ↦ inr (digits', j, e, o)
]
