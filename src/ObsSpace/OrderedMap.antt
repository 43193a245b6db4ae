-- ===== src/ObsSpace/OrderedMap.antt =====
-- std::map<std::size_t, V> as the list of its entries in the order of the keys, with the calls that
-- ObsSpace.cc makes of it.
use mathlib.Core.List.{append_assoc, append-nil}
use ioda.Prelude.{
  ℕ, ◌<◌, ◌≡◌, refl, ap, inl, inr, List, [], ◌∷◌, ◌++◌, Option, some, none, ltb, ◌==◌, ==_iff,
  Bool-cases, Option-cases, if◌then◌else◌, arith,
}

module _ {ℓ} {V : Type ℓ} where
  -- find
  unfoldable pub lookup : ℕ → List (ℕ × V) → Option V
  lookup k [] = none
  lookup k ((j, v) ∷ m) = if ltb k j then none else if k == j then some v else lookup k m

  -- f(m[k]) for an f that changes its argument: operator[] makes an entry `initial` for a new key.
  unfoldable pub modify : ℕ → V → (V → V) → List (ℕ × V) → List (ℕ × V)
  modify k initial f [] = (k, f initial) ∷ []
  modify k initial f ((j, v) ∷ m) =
      let rest = modify k initial f m in
      if ltb k j
      then (k, f initial) ∷ (j, v) ∷ m
      else if k == j
      then (j, f v) ∷ m
      else (j, v) ∷ rest

  abbrev pub or_else : V → Option V → V
  or_else v none = v
  or_else v (some w) = w

  -- m[k] = v
  abbrev pub assign : ℕ → V → List (ℕ × V) → List (ℕ × V)
  assign k v m = modify k v (λ _. v) m

  pub lookup_below : (k j : ℕ) (v : V) (m : List (ℕ × V)) → k < j → lookup k ((j, v) ∷ m) ≡ none
  unfolding lookup
  lookup_below k j v m h = ground arith

  pub lookup_here : (k : ℕ) (v : V) (m : List (ℕ × V)) → lookup k ((k, v) ∷ m) ≡ some v
  unfolding lookup
  lookup_here k v m = ground arith

  pub lookup_later :
      (k j : ℕ) (v : V) (m : List (ℕ × V)) → j < k → lookup k ((j, v) ∷ m) ≡ lookup k m
  unfolding lookup
  lookup_later k j v m h = ground arith

  pub lookup-modify :
      (k : ℕ) (initial : V) (f : V → V) (m : List (ℕ × V))
      → lookup k (modify k initial f m) ≡ some (f (or_else initial (lookup k m)))
  unfolding lookup modify
  lookup-modify k initial f [] = ground arith
  lookup-modify k initial f ((j, v) ∷ m) = ground (arith, lookup-modify k initial f m)

  pub lookup-modify_ne :
      (k j : ℕ) (initial : V) (f : V → V) (m : List (ℕ × V))
      → (k ≡ j → ⊥)
      → lookup j (modify k initial f m) ≡ lookup j m
  unfolding lookup modify
  lookup-modify_ne k j initial f [] h = ground arith
  lookup-modify_ne k j initial f ((i, v) ∷ m) h = ground (arith, lookup-modify_ne k j initial f m h)

-- m[k].push_back(x), and m[k] of an entry that may be missing.
module _ {ℓ} {A : Type ℓ} where
  abbrev pub push_back : ℕ → A → List (ℕ × List A) → List (ℕ × List A)
  push_back k x m = modify k [] (λ xs. xs ++ x ∷ []) m

  unfoldable pub push_all : List (ℕ × A) → List (ℕ × List A) → List (ℕ × List A)
  push_all [] m = m
  push_all ((k, x) ∷ kxs) m = push_all kxs (push_back k x m)

  -- The second parts of the pairs with the given key.
  unfoldable pub picks : ℕ → List (ℕ × A) → List A
  picks k [] = []
  picks k ((j, x) ∷ kxs) = let rest = picks k kxs in if j == k then x ∷ rest else rest

  -- An entry after more elements were pushed to it; without an element it is not made.
  unfoldable pub pushed : Option (List A) → List A → Option (List A)
  pushed none [] = none
  pushed none (x ∷ xs) = some (x ∷ xs)
  pushed (some l) xs = some (l ++ xs)

  pushed-cons :
      (o : Option (List A)) (x : A) (xs : List A)
      → pushed (some (or_else [] o ++ x ∷ [])) xs ≡ pushed o (x ∷ xs)
  unfolding pushed
  pushed-cons none x xs = refl
  pushed-cons (some l) x xs = ap some (append_assoc l (x ∷ []) xs)

  pub lookup-push_all :
      (k : ℕ) (kxs : List (ℕ × A)) (m : List (ℕ × List A))
      → lookup k (push_all kxs m) ≡ pushed (lookup k m) (picks k kxs)
  unfolding push_all picks pushed
  lookup-push_all k [] m = elim (Option-cases (lookup k m)) [
    | inl e ↦ rw e
    | inr (l, e) ↦ rw (e, append-nil l)
  ]
  lookup-push_all k ((j, x) ∷ kxs) m = elim (Bool-cases (j == k)) [
    | inl b ↦
        let e : j ≡ k = (==_iff j k).0 b in
        rw (b, e, lookup-push_all k kxs (push_back k x m))
          (rw (lookup-modify k [] (λ xs. xs ++ x ∷ []) m)
            (pushed-cons (lookup k m) x (picks k kxs)))
    | inr b ↦
        let n : (j ≡ k → ⊥) = λ e. cc (b, (==_iff j k).1 e) in
        rw (b, lookup-push_all k kxs (push_back j x m))
          (rw (lookup-modify_ne j k [] (λ xs. xs ++ x ∷ []) m n) refl)
  ]
