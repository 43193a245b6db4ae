-- ===== src/Prelude/Results.antt =====
-- How a piece of code ends: with a value, by an exception, or in an access that C++ leaves undefined.
use Prim.Native.Nat.{ℕ, ◌<◌}
use mathlib.Core.Path.{◌≡◌, refl}
use mathlib.Core.List.{List, [], ◌∷◌, ◌++◌}
use mathlib.Core.Option.{Option, none, some}
use ioda.Prelude.Lists.{get_elem?, get_or, length, get_elem?-eq-get_or}

-- `undefined` is an index past the end of a vector, `exception` a C++ exception that the code throws,
-- `no_fuel` a loop that was given too few rounds by the model.
pub data Failure : Type 0 where
  undefined exception no_fuel : Failure

pub data Result {ℓ} (V : Type ℓ) : Type ℓ where
  err : Failure → Result V
  ok : V → Result V

infixl 5 ◌>>=◌
abbrev pub ◌>>=◌ {ℓ κ} : {V : Type ℓ} {W : Type κ} → Result V → (V → Result W) → Result W
err failure >>= next = err failure
ok v >>= next = next v

abbrev pub or_undefined {ℓ} : {A : Type ℓ} → Option A → Result A
or_undefined none = err undefined
or_undefined (some a) = ok a

-- v[i]
abbrev pub at {ℓ} : {A : Type ℓ} → List A → ℕ → Result A
at xs i = or_undefined (get_elem? xs i)

pub at-eq-get_or {ℓ} :
    {A : Type ℓ} (xs : List A) (i : ℕ) (d : A) → i < length xs → at xs i ≡ ok (get_or xs i d)
at-eq-get_or xs i d h = rw (get_elem?-eq-get_or xs i d h)

-- If a sequence of two steps returns, so does each of them.
pub >>=-eq-ok {ℓ κ} :
    {V : Type ℓ} {W : Type κ} (first : Result V) (next : V → Result W) {w : W}
    → (first >>= next) ≡ ok w
    → (v : V) × (first ≡ ok v) × (next v ≡ ok w)
>>=-eq-ok (err failure) next e = cc
>>=-eq-ok (ok v) next e = (v, refl, e)

pub at-middle {ℓ} :
    {A : Type ℓ} (xs : List A) (y : A) (ys : List A) → at (xs ++ y ∷ ys) (length xs) ≡ ok y
at-middle [] y ys = refl
at-middle (x ∷ xs) y ys = at-middle xs y ys
