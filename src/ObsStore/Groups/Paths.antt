-- ===== src/ObsStore/Groups/Paths.antt =====
-- Paths of groups and variables: the levels that splitFirstLevel and splitGroupVar cut.

use ioda.Prelude.{
  ℕ, ◌≡◌, refl, ap, ap₂, sym, ◌∙◌, inl, inr, List, [], ◌∷◌, ◌++◌, Option, some, none, ◌==◌, ==_iff,
  Bool-cases, if◌then◌else◌,
}
use ioda.ObsStore.Named.{Name}
use ioda.ObsStore.Groups.{
  slash, split_first_level, push_char, sections, split_group_var, cut_before, levels_before,
  group_levels, leaf,
}

-- sections is splitFirstLevel, repeated on what is behind the slash.
sections-split_first_level :
    (path : Name)
    → sections path
      ≡ (split_first_level path).0
        ∷ elim (split_first_level path).1 [ none ↦ [] | some rest ↦ sections rest ]
unfolding sections split_first_level
sections-split_first_level [] = refl
sections-split_first_level (c ∷ path) = elim (Bool-cases (c == slash)) [
  | inl b ↦ rw b refl
  | inr b ↦ rw b (rw (sections-split_first_level path) refl)
]

-- The levels with slashes between them.
abbrev joined : List Name → Name
joined [] = []
joined (s ∷ []) = s
joined (s ∷ t ∷ levels) = s ++ slash ∷ joined (t ∷ levels)

sections-cons : (path : Name) → (s : Name) × (levels : List Name) × (sections path ≡ s ∷ levels)
sections-cons path = (
  (split_first_level path).0,
  elim (split_first_level path).1 [ none ↦ [] | some rest ↦ sections rest ],
  sections-split_first_level path,
)

joined-push_char :
    (c : ℕ) (s : Name) (levels : List Name)
    → joined (push_char c (s ∷ levels)) ≡ c ∷ joined (s ∷ levels)
joined-push_char c s [] = refl
joined-push_char c s (t ∷ levels) = refl

joined-sections : (path : Name) → joined (sections path) ≡ path
unfolding sections
joined-sections [] = refl
joined-sections (c ∷ path) =
    let (s, levels, e) = sections-cons path in
    let all = joined-sections path in
    let ih : joined (s ∷ levels) ≡ path = rw e at all in
    elim (Bool-cases (c == slash)) [
      | inl b ↦ rw (b, e) (ap₂ ◌∷◌ (sym ((==_iff c slash).0 b)) ih)
      | inr b ↦ rw (b, e) (joined-push_char c s levels ∙ ap (λ p. c ∷ p) ih)
    ]

-- A character more in front of a path that was cut at its last slash.
levels-cons :
    (c : ℕ) (name : Name) (cut : Option Name) (v : Name)
    → sections name ≡ levels_before cut ++ v ∷ []
    → (if c == slash then [] ∷ sections name else push_char c (sections name))
      ≡ levels_before (cut_before c cut v).0 ++ (cut_before c cut v).1 ∷ []
unfolding sections levels_before
levels-cons c name none v h = elim (Bool-cases (c == slash)) [
  | inl b ↦ rw (b, h) refl
  | inr b ↦ rw (b, h) refl
]
levels-cons c name (some dir) v h =
    let (s, levels, e) = sections-cons dir in
    elim (Bool-cases (c == slash)) [ inl b ↦ rw (b, h) refl | inr b ↦ rw (b, h, e) refl ]

-- The levels of the group and then the name of the variable are the levels of the whole path.
pub sections-group_levels : (name : Name) → sections name ≡ group_levels name ++ leaf name ∷ []
unfolding sections group_levels leaf split_group_var levels_before
sections-group_levels [] = refl
sections-group_levels (c ∷ name) =
    levels-cons c name (split_group_var name).0 (split_group_var name).1
      (sections-group_levels name)

-- Two paths with the same levels are the same text.
pub group_levels-leaf_injective :
    (a b : Name) → group_levels a ≡ group_levels b → leaf a ≡ leaf b → a ≡ b
group_levels-leaf_injective a b e f =
    sym (joined-sections a)
    ∙ ap joined (
        sections-group_levels a
        ∙ ap₂ (λ levels s. levels ++ s ∷ []) e f
        ∙ sym (sections-group_levels b))
    ∙ joined-sections b
