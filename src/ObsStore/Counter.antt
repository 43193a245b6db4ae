-- ===== src/ObsStore/Counter.antt =====
-- class SelectCounter (ObsStore/Selection.hpp, Selection.cpp): a counter whose digits index the
-- selected positions of each dimension. The first digit is the most significant one.
pub mod Odometer
pub mod Combinations
use ioda.Prelude.{
  ℕ, zero, suc, ◌+◌, ◌-◌, Bool, true, false, List, [], ◌∷◌, ◌==◌, if◌then◌else◌, length, set,
  replicate, map, Result, ok, err, undefined, ◌>>=◌, at,
}

pub data SelectionModes : Type 0 where
  all intersect point : SelectionModes

pub record SelectCounter : Type 0 where
  pub mode : SelectionModes
  pub digits : List ℕ
  pub icount : ℕ
  pub ndigits : ℕ
  pub digit_sizes : List ℕ
  pub counter_end : Bool

-- The default member initialisers and the constructor.
unfoldable pub new_counter : SelectCounter
new_counter = record {
  mode = all;
  digits = [];
  icount = 0;
  ndigits = 0;
  digit_sizes = [];
  counter_end = false;
}

-- icount_ is left as it was.
unfoldable pub reset : SelectCounter → SelectionModes → List ℕ → SelectCounter
reset c mode sizes = record c {
  mode = mode;
  digit_sizes = sizes;
  ndigits = length sizes;
  digits = replicate (length sizes) 0;
  counter_end = false;
}

-- The `while` loop of the carry rules: from digit `i` towards digit 0. The result is the digits, the
-- index at which the loop stopped, and whether the counter is about to overflow.
unfoldable pub carry : ℕ → List ℕ → List ℕ → Result (List ℕ × ℕ × Bool)
carry zero sizes digits = do d ← at digits 0; s ← at sizes 0; ok (digits, 0, d == s)
carry (suc j) sizes digits = do
  d ← at digits (suc j)
  s ← at sizes (suc j)
  if d == s
      then at (set digits (suc j) 0) j
        >>= (λ e. carry j sizes (set (set digits (suc j) 0) j (e + 1)))
      else ok (digits, suc j, false)

-- Increment the least significant digit, then carry. With no digits, `ndigits_ - 1` is no index.
unfoldable pub advance : ℕ → List ℕ → List ℕ → Result (List ℕ × ℕ × Bool)
advance zero sizes digits = err undefined
advance (suc last) sizes digits = do d ← at digits last; carry last sizes (set digits last (d + 1))

-- Both branches of inc(). `counter_end_` is only ever set.
inc_point : SelectCounter → Result SelectCounter
inc_point c = do
  d ← at c.digits 0
  ok (
      if d + 1 == c.ndigits
      then record c { counter_end = true }
      else record c { digits = map (λ d. d + 1) c.digits })

inc_carry : SelectCounter → Result SelectCounter
inc_carry c = do
  (digits, icount, overflow) ← advance c.ndigits c.digit_sizes c.digits
  ok (record c {
    digits = digits;
    icount = icount;
    counter_end = if overflow then true else c.counter_end;
  })

unfoldable pub inc : SelectCounter → Result SelectCounter
unfolding inc_point inc_carry
inc c = elim c.mode [ point ↦ inc_point c | _ ↦ inc_carry c ]

unfoldable pub finished : SelectCounter → Bool
finished c = c.counter_end

unfoldable pub count : SelectCounter → List ℕ
count c = c.digits
