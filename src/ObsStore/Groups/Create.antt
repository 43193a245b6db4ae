-- ===== src/ObsStore/Groups/Create.antt =====
-- Group::create, Group::exists and Group::open.

use ioda.Prelude.{
  ◌≡◌, refl, ap, sym, ◌∙◌, fun_ext, Bool, true, false, Option, some, none, Result, ok, err,
  exception,
}
use ioda.ObsStore.Named.{Name, or_new}
use ioda.ObsStore.Groups.{
  Group, group, new_group, sections, create_levels, with_variables, open_group, open_group_or_throw,
  group_exists, create_group, group_levels, leaf, open_variable,
}
use ioda.ObsStore.Groups.Tree.{open_levels-create_levels, variable_at-create_levels}
use ioda.ObsStore.Groups.Variables.{found_or_throw, variable_of, open_variable-variable_of}

module _ {V : Type 0} where
  same_group : (g : Group V) → with_variables (λ m. m) g ≡ g
  same_group (group vs children) = refl

  -- A group that is there, or else an empty one.
  abbrev pub group_or_new : Result (Group V) → Group V
  group_or_new (err e) = new_group
  group_or_new (ok c) = c

  open_group-create :
      (path : Name) (g : Group V)
      → open_group path (create_group path g) ≡ some (or_new (open_group path g) new_group)
  unfolding open_group create_group
  open_group-create path g = open_levels-create_levels (sections path) (λ c. c) g

  variable_of-create_group :
      (path name : Name) (g : Group V) → variable_of name (create_group path g) ≡ variable_of name g
  unfolding create_group
  variable_of-create_group path name g =
      ap (λ f. variable_of name (create_levels (sections path) f g))
        (fun_ext (λ c. sym (same_group c)))
      ∙ variable_at-create_levels (λ m. m) (sections path) (group_levels name) (leaf name) g
          (λ e m. refl)

  -- After Group::create of a path, the path exists, and opening it gives the group that was there before,
  -- or else an empty one; every variable, under any path, is opened as before.
  pub create_group-open :
      (path name : Name) (g : Group V)
      → (group_exists path (create_group path g) ≡ true)
        × (open_group_or_throw path (create_group path g)
            ≡ ok (group_or_new (open_group_or_throw path g)))
        × (open_variable name (create_group path g) ≡ open_variable name g)
  unfolding group_exists open_group_or_throw
  create_group-open path name g = (
    ap (λ o. elim o as (λ _. Bool) [ none ↦ false | some c ↦ true ]) (open_group-create path g),
    ap (λ o. elim o as (λ _. Result (Group V)) [ none ↦ err exception | some c ↦ ok c ])
          (open_group-create path g)
        ∙ ap ok (one (open_group path g)),
    open_variable-variable_of name (create_group path g)
        ∙ ap found_or_throw (variable_of-create_group path name g)
        ∙ sym (open_variable-variable_of name g),
  )
    where
      one :
          (o : Option (Group V))
          → or_new o new_group
            ≡ group_or_new
                (elim o as (λ _. Result (Group V)) [ none ↦ err exception | some c ↦ ok c ])
      one none = refl
      one (some c) = refl
