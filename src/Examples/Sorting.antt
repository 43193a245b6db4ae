-- ===== src/Examples/Sorting.antt =====
-- An insertion sort that keeps what std::sort promises.
use mathlib.Core.List.{Perm}
use mathlib.Core.List.Perm
use ioda.Prelude.{◌≡◌, inl, inr, Bool, false, List, [], ◌∷◌, All, if◌then◌else◌, Bool-cases}
use ioda.ObsSpace.Sort.Order.{StrictWeak, InOrder, StdSort}

module _ {A : Type 0} (less : A → A → Bool) where
  unfoldable pub sift : A → List A → List A
  sift x [] = x ∷ []
  sift x (y ∷ ys) = let rest = sift x ys in if less y x then y ∷ rest else x ∷ y ∷ ys

  unfoldable pub sift_all : List A → List A
  sift_all [] = []
  sift_all (x ∷ xs) = sift x (sift_all xs)

  sift-Perm : (x : A) (ys : List A) → Perm (sift x ys) (x ∷ ys)
  unfolding sift
  sift-Perm x [] = Perm.refl (x ∷ [])
  sift-Perm x (y ∷ ys) = elim (Bool-cases (less y x)) [
    | inl b ↦ rw b (Perm.trans (Perm.cons y (sift-Perm x ys)) (Perm.swap x y ys))
    | inr b ↦ rw b (Perm.refl (x ∷ y ∷ ys))
  ]

  pub sift_all-Perm : (xs : List A) → Perm (sift_all xs) xs
  unfolding sift_all
  sift_all-Perm [] = Perm.refl []
  sift_all-Perm (x ∷ xs) = Perm.trans (sift-Perm x (sift_all xs)) (Perm.cons x (sift_all-Perm xs))

  abbrev NotBefore : A → A → Type 0
  NotBefore a b = less b a ≡ false

  module _ (weak : StrictWeak less) where
    sift-All :
        (x y : A) (ys : List A)
        → NotBefore y x
        → All (NotBefore y) ys
        → All (NotBefore y) (sift x ys)
    unfolding sift
    sift-All x y [] h a = (h, tt)
    sift-All x y (z ∷ ys) h a = elim (Bool-cases (less z x)) [
      | inl b ↦ rw b (a.0, sift-All x y ys h a.1)
      | inr b ↦ rw b (h, a)
    ]

    All-after :
        (x y : A) (ys : List A) → NotBefore x y → All (NotBefore y) ys → All (NotBefore x) ys
    All-after x y [] h a = tt
    All-after x y (z ∷ ys) h a = (weak.1 z y x a.0 h, All-after x y ys h a.1)

    sift-InOrder : (x : A) (ys : List A) → InOrder NotBefore ys → InOrder NotBefore (sift x ys)
    unfolding sift
    sift-InOrder x [] h = (tt, tt)
    sift-InOrder x (y ∷ ys) h = elim (Bool-cases (less y x)) [
      | inl b ↦ rw b (sift-All x y ys (weak.0 y x b) h.0, sift-InOrder x ys h.1)
      | inr b ↦ rw b ((b, All-after x y ys b h.0), h)
    ]

    pub sift_all-InOrder : (xs : List A) → InOrder NotBefore (sift_all xs)
    unfolding sift_all
    sift_all-InOrder [] = tt
    sift_all-InOrder (x ∷ xs) = sift-InOrder x (sift_all xs) (sift_all-InOrder xs)

unfoldable pub insertion_sort : (A : Type 0) → StdSort A
unfolding sift_all
insertion_sort A = record {
  sort = λ less xs. sift_all less xs;
  sort-Perm = λ less xs. sift_all-Perm less xs;
  sort-InOrder = λ less xs weak. sift_all-InOrder less weak xs;
}
