-- ===== src/ObsStore/VarAttrStore/Copy.antt =====
-- What the copying loops of write and read leave in the destination.
use native.Mathlib.Nat.{mul-le-mul_right}
use native.Mathlib.Decide.{dec_lt}
use mathlib.Core.Option.{some-injective}
use ioda.Prelude.{
  fun_ext, Distinct, ℕ, zero, suc, ◌+◌, ◌*◌, ◌≤◌, ◌<◌, ◌≡◌, ◌≢◌, refl, ap, ◌∙◌, ◌⊎◌, inl, inr, true,
  false, List, [], ◌∷◌, length, set, length-set, get_elem?, get_elem?_inside, get_elem?-set_self,
  get_elem?-set_ne, All, some, arith, Result, ok, err, undefined, ◌>>=◌,
}
use ioda.ObsStore.Selection.{Selection, indices}
use ioda.ObsStore.Selection.Walk.{indices_cases}
use ioda.ObsStore.VarAttrStore.{copy_block, transfer}

-- The blocks starting at `d` and `s` are equal, and the rest of the destination is as before.
pub record Block {ℓ} {A : Type ℓ} (n : ℕ) (src : List A) (s : ℕ) (dst dst' : List A) (d : ℕ)
    : Type ℓ where
  pub same_length : length dst' ≡ length dst
  pub copied : (k : ℕ) → k < n → get_elem? dst' (d + k) ≡ get_elem? src (s + k)
  pub before : (p : ℕ) → p < d → get_elem? dst' p ≡ get_elem? dst p
  pub behind : (p : ℕ) → d + n ≤ p → get_elem? dst' p ≡ get_elem? dst p

module _ {ℓ} {A : Type ℓ} where
  copied_first :
      (x : A) (n s d k : ℕ) (src dst dst' : List A)
      → get_elem? src s ≡ some x
      → d < length dst
      → Block n src (suc s) (set dst d x) dst' (suc d)
      → k < suc n
      → get_elem? dst' (d + k) ≡ get_elem? src (s + k)
  copied_first x n s d zero src dst dst' e l b h =
      let d' : d + 0 ≡ d = omega arith in
      let s' : s + 0 ≡ s = omega arith in
      rw (d', s', e) (b.before d (omega arith) ∙ get_elem?-set_self dst d x l)
  copied_first x n s d (suc k) src dst dst' e l b h =
      let d' : d + suc k ≡ suc d + k = omega arith in
      let s' : s + suc k ≡ suc s + k = omega arith in rw (d', s') (b.copied k (omega arith))

  pub copy_block-Block :
      (n : ℕ) (src : List A) (s : ℕ) (dst : List A) (d : ℕ)
      → s + n ≤ length src
      → d + n ≤ length dst
      → (dst' : List A) × (copy_block n src s dst d ≡ ok dst') × Block n src s dst dst' d
  unfolding copy_block
  copy_block-Block zero src s dst d hs hd = (
    dst,
    refl,
    record {
      same_length = refl;
      copied = λ k h. absurd (omega arith);
      before = λ p h. refl;
      behind = λ p h. refl;
    },
  )
  copy_block-Block (suc n) src s dst d hs hd =
      let (x, e) = get_elem?_inside src s (omega arith) in
      let (y, f) = get_elem?_inside dst d (omega arith) in
      let (dst', g, b) =
        copy_block-Block n src (suc s) (set dst d x) (suc d) (omega arith)
          (omega (arith, length-set dst d x)) in
      (
        dst',
        rw (e, f) g,
        record {
          same_length = b.same_length ∙ length-set dst d x;
          copied = λ k h. copied_first x n s d k src dst dst' e (omega arith) b h;
          before = λ p h. b.before p (omega arith) ∙ get_elem?-set_ne dst d p x (λ q. omega arith);
          behind = λ p h. b.behind p (omega arith) ∙ get_elem?-set_ne dst d p x (λ q. omega arith);
        },
      )

  -- One block from each index of the first list to the index of the second list beside it.
  unfoldable pub copy_blocks : ℕ → List A → List A → List ℕ → List ℕ → Result (List A)
  copy_blocks block src dst [] js = ok dst
  copy_blocks block src dst (i ∷ is) [] = err undefined
  copy_blocks block src dst (i ∷ is) (j ∷ js) =
      copy_block block src (i * block) dst (j * block) >>= λ dst'. copy_blocks block src dst' is js

  -- Equal blocks at the paired indices.
  abbrev pub Copied : ℕ → List A → List A → List ℕ → List ℕ → Type ℓ
  Copied block src dst [] js = Unit
  Copied block src dst (i ∷ is) [] = ⊥ × Unit {ℓ}
  Copied block src dst (i ∷ is) (j ∷ js) =
      ((k : ℕ) → k < block → get_elem? dst (j * block + k) ≡ get_elem? src (i * block + k))
      × Copied block src dst is js

-- Different blocks do not meet.
apart : (j j' n k : ℕ) → j ≢ j' → k < n → (j * n + k < j' * n) ⊎ (j' * n + n ≤ j * n + k)
apart j j' n k h l = elim (dec_lt j j') [
  | yes p ↦ inl (let q = mul-le-mul_right n p in omega arith)
  | no p ↦ let p' : suc j' ≤ j = omega arith in inr (let q = mul-le-mul_right n p' in omega arith)
]

inside : (j n m : ℕ) → j < m → j * n + n ≤ m * n
inside j n m h = let q = mul-le-mul_right n h in omega arith

empty : (js : List ℕ) → length js ≡ 0 → js ≡ []
empty [] e = refl
empty (j ∷ js) e = absurd (omega arith)

module _ {ℓ} {A : Type ℓ} where
  -- A block outside the indices that are written is kept.
  kept :
      (block : ℕ) (src dst dst' : List A) (s j k : ℕ) (j' : ℕ)
      → Block block src s dst dst' (j' * block)
      → j ≢ j'
      → k < block
      → get_elem? dst' (j * block + k) ≡ get_elem? dst (j * block + k)
  kept block src dst dst' s j k j' b ne h = elim (apart j j' block k ne h) [
    | inl p ↦ b.before _ p
    | inr p ↦ b.behind _ p
  ]

  abbrev pub Keeps : ℕ → List ℕ → List A → List A → Type ℓ
  Keeps block js dst dst' =
      (j k : ℕ)
      → All (λ j'. j ≢ j') js
      → k < block
      → get_elem? dst' (j * block + k) ≡ get_elem? dst (j * block + k)

  pub copy_blocks-Copied :
      (block n m : ℕ) (src dst : List A) (is js : List ℕ)
      → length is ≡ length js
      → All (λ i. i < n) is
      → All (λ j. j < m) js
      → n * block ≤ length src
      → length dst ≡ m * block
      → Distinct js
      → (dst' : List A) × (copy_blocks block src dst is js ≡ ok dst')
        × (length dst' ≡ length dst)
        × Copied block src dst' is js
        × Keeps block js dst dst'
  unfolding copy_blocks
  copy_blocks-Copied block n m src dst [] js e hi hj ls ld d =
      (dst, refl, refl, tt, λ j k a l. refl)
  copy_blocks-Copied block n m src dst (i ∷ is) [] e hi hj ls ld d = absurd (omega arith)
  copy_blocks-Copied block n m src dst (i ∷ is) (j ∷ js) e hi hj ls ld d =
      let bi = inside i block n hi.0 in
      let bj = inside j block m hj.0 in
      let (dst', f, b) =
        copy_block-Block block src (i * block) dst (j * block) (omega arith) (omega arith) in
      let (dst'', g, l, c, kp) =
        copy_blocks-Copied block n m src dst' is js (omega arith) hi.1 hj.1 ls (b.same_length ∙ ld)
          d.1 in
      (
        dst'',
        rw f g,
        l ∙ b.same_length,
        ((λ k h. kp j k d.0 h ∙ b.copied k h), c),
        λ j' k a h. kp j' k a.1 h ∙ kept block src dst dst' (i * block) j' k j b a.0 h,
      )

  -- The loop of write: the first selection runs over the source, the second one over the store.
  pub transfer_to_store :
      (fuel block : ℕ) (src dst : List A) (m f : Selection) (is js : List ℕ)
      → indices fuel m ≡ ok is
      → indices fuel f ≡ ok js
      → length is ≡ length js
      → transfer fuel block src dst true m f ≡ copy_blocks block src dst is js
  unfolding transfer indices copy_blocks
  transfer_to_store zero block src dst m f is js hm hf e = cc
  transfer_to_store (suc fuel) block src dst m f is js hm hf e = elim (indices_cases fuel m is hm) [
    | inl (end, nil) ↦ rw (end, nil)
    | inr (i, m', is', more, next, walk, cons) ↦ elim (indices_cases fuel f js hf) [
      | inl (end', nil') ↦ absurd (omega (arith, ap length cons, ap length nil'))
      | inr (j, f', js', more', next', walk', cons') ↦
          rw (more, next, next', cons, cons')
            (ap (λ g. copy_block block src (i * block) dst (j * block) >>= g)
              (fun_ext λ dst'.
                transfer_to_store fuel block src dst' m' f' is' js' walk walk'
                  (omega (arith, ap length cons, ap length cons'))))
    ]
  ]

  -- The loop of read: the first selection runs over the destination, the second one over the store.
  pub transfer_from_store :
      (fuel block : ℕ) (src dst : List A) (m f : Selection) (is js : List ℕ)
      → indices fuel m ≡ ok is
      → indices fuel f ≡ ok js
      → length is ≡ length js
      → transfer fuel block src dst false m f ≡ copy_blocks block src dst js is
  unfolding transfer indices copy_blocks
  transfer_from_store zero block src dst m f is js hm hf e = cc
  transfer_from_store (suc fuel) block src dst m f is js hm hf e =
      elim (indices_cases fuel m is hm) [
        | inl (end, nil) ↦ rw (end, nil, empty js (omega (arith, ap length nil)))
        | inr (i, m', is', more, next, walk, cons) ↦ elim (indices_cases fuel f js hf) [
          | inl (end', nil') ↦ absurd (omega (arith, ap length cons, ap length nil'))
          | inr (j, f', js', more', next', walk', cons') ↦
              rw (more, next, next', cons, cons')
                (ap (λ g. copy_block block src (j * block) dst (i * block) >>= g)
                  (fun_ext λ dst'.
                    transfer_from_store fuel block src dst' m' f' is' js' walk walk'
                      (omega (arith, ap length cons, ap length cons'))))
        ]
      ]

  -- The pair at place t.
  pub Copied-at :
      (block : ℕ) (src dst : List A) (is js : List ℕ) (t i j k : ℕ)
      → Copied block src dst is js
      → get_elem? is t ≡ some i
      → get_elem? js t ≡ some j
      → k < block
      → get_elem? dst (j * block + k) ≡ get_elem? src (i * block + k)
  Copied-at block src dst [] js t i j k c e f h = cc
  Copied-at block src dst (i' ∷ is) [] t i j k c e f h = absurd c.0
  Copied-at block src dst (i' ∷ is) (j' ∷ js) zero i j k c e f h =
      rw (← some-injective j' j f, ← some-injective i' i e) (c.0 k h)
  Copied-at block src dst (i' ∷ is) (j' ∷ js) (suc t) i j k c e f h =
      Copied-at block src dst is js t i j k c.1 e f h
