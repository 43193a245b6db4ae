-- ===== src/ObsSpace/Sort/Order.antt =====
-- What std::sort promises, and the two comparisons of ObsSpace::buildSortedObsGroups.
use mathlib.Core.List.{Perm, Permᴰ}
use mathlib.Core.Logic.{∥∥₁_elim}
use native.Mathlib.Nat.{ℕ_set}
use ioda.Prelude.{
  ℕ, suc, ap, ◌∙◌, length, ◌≤◌, ◌≡◌, refl, sym, subst, Bool, true, false, List, [], ◌∷◌, All, arith,
}
use ioda.ObsSpace.Sort.{ascending, descending, comparison}

-- The requirement of std::sort on a comparison: asymmetric, and what does not come before is transitive.
abbrev pub StrictWeak {ℓ} : {A : Type ℓ} → (A → A → Bool) → Type ℓ
StrictWeak {A = A} less =
    ((a b : A) → less a b ≡ true → less b a ≡ false)
    × ((a b c : A) → less a b ≡ false → less b c ≡ false → less a c ≡ false)

-- Every element is related to all later ones.
abbrev pub InOrder {ℓ κ} : {A : Type ℓ} → (A → A → Type κ) → List A → Type κ
InOrder R [] = Unit
InOrder R (x ∷ xs) = All (R x) xs × InOrder R xs

length-Permᴰ {ℓ} : {A : Type ℓ} {xs ys : List A} → Permᴰ xs ys → length xs ≡ length ys
length-Permᴰ Permᴰ.nil = refl
length-Permᴰ (Permᴰ.cons e d) = ap suc (length-Permᴰ d)
length-Permᴰ (Permᴰ.swap e f) = refl
length-Permᴰ (Permᴰ.trans d e) = length-Permᴰ d ∙ length-Permᴰ e

pub length-Perm {ℓ} : {A : Type ℓ} {xs ys : List A} → Perm xs ys → length xs ≡ length ys
length-Perm {xs = xs} {ys = ys} p = ∥∥₁_elim p (ℕ_set (length xs) (length ys)) length-Permᴰ

pub record StdSort (A : Type 0) : Type 0 where
  pub sort : (A → A → Bool) → List A → List A
  pub sort-Perm : (less : A → A → Bool) (xs : List A) → Perm (sort less xs) xs
  pub sort-InOrder :
      (less : A → A → Bool) (xs : List A)
      → StrictWeak less
      → InOrder (λ a b. less b a ≡ false) (sort less xs)

-- The value of p does not come after that of q, and of equal values the lower location is first.
abbrev pub Precedes : {V : Type 0} → (V → V → Bool) → V × ℕ → V × ℕ → Type 0
Precedes less p q = (less q.0 p.0 ≡ false) × (less p.0 q.0 ≡ false → p.1 ≤ q.1)

module _ {V : Type 0} (less : V → V → Bool) (weak : StrictWeak less) where
  ascending-asymmetric : (p q : V × ℕ) → ascending less p q ≡ true → ascending less q p ≡ false
  unfolding ascending
  ascending-asymmetric p q h = ground (arith, weak.0 p.0 q.0, weak.0 q.0 p.0)

  ascending-transitive :
      (p q r : V × ℕ)
      → ascending less p q ≡ false
      → ascending less q r ≡ false
      → ascending less p r ≡ false
  unfolding ascending
  ascending-transitive p q r h g = ground (
    arith,
    weak.1 p.0 q.0 r.0,
    weak.1 r.0 q.0 p.0,
    weak.0 p.0 q.0,
    weak.0 q.0 r.0,
    weak.1 q.0 r.0 p.0,
    weak.1 r.0 p.0 q.0,
    weak.0 p.0 r.0,
  )

  pub ascending-StrictWeak : StrictWeak (ascending less)
  ascending-StrictWeak = (ascending-asymmetric, ascending-transitive)

pub ascending-Precedes :
    {V : Type 0} (less : V → V → Bool) (p q : V × ℕ)
    → ascending less q p ≡ false
    → Precedes less p q
unfolding ascending
ascending-Precedes less p q h = ground arith

module _ {ℓ κ} {A : Type ℓ} (R S : A → A → Type κ) (f : (a b : A) → R a b → S a b) where
  All-map : (x : A) (xs : List A) → All (R x) xs → All (S x) xs
  All-map x [] h = tt
  All-map x (y ∷ ys) h = (f x y h.0, All-map x ys h.1)

  pub InOrder-map : (xs : List A) → InOrder R xs → InOrder S xs
  InOrder-map [] h = tt
  InOrder-map (x ∷ xs) h = (All-map x xs h.0, InOrder-map xs h.1)

-- < on the values in the order that is asked for.
abbrev pub before : {V : Type 0} → Bool → (V → V → Bool) → V → V → Bool
before true less = less
before false less = λ a b. less b a

comparison-ascending :
    {V : Type 0} (is_ascending : Bool) (less : V → V → Bool)
    → comparison is_ascending less ≡ ascending (before is_ascending less)
unfolding comparison ascending descending
comparison-ascending true less = refl
comparison-ascending false less = refl

before-StrictWeak :
    {V : Type 0} (is_ascending : Bool) (less : V → V → Bool)
    → StrictWeak less
    → StrictWeak (before is_ascending less)
before-StrictWeak true less weak = weak
before-StrictWeak false less weak = ((λ a b. weak.0 b a), λ a b c h g. weak.1 c b a g h)

-- std::sort puts the pairs of a record in the order that is asked for.
pub sort-Precedes :
    {V : Type 0} (std : StdSort (V × ℕ)) (is_ascending : Bool) (less : V → V → Bool)
    → StrictWeak less
    → (pairs : List (V × ℕ))
    → InOrder (Precedes (before is_ascending less)) (std.sort (comparison is_ascending less) pairs)
sort-Precedes std is_ascending less weak pairs =
    let b = before is_ascending less in
    let sorted =
      std.sort-InOrder (ascending b) pairs
        (ascending-StrictWeak b (before-StrictWeak is_ascending less weak)) in
    subst (λ c. InOrder (Precedes b) (std.sort c pairs))
      (sym (comparison-ascending is_ascending less))
      (InOrder-map _ _ (λ p q. ascending-Precedes b p q) (std.sort (ascending b) pairs) sorted)
