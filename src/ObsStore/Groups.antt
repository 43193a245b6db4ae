-- ===== src/ObsStore/Groups.antt =====
-- class Group (Group.cpp) and class Has_Variables (Variables.cpp) of the in-memory backend: groups in
-- groups, and the variables of each. The parent that Has_Variables keeps is the group that holds it, so
-- its operations are functions of that group. `V` is the type of variables.
pub mod Paths
pub mod Tree
pub mod Variables
pub mod Rename
pub mod Create
use ioda.Prelude.{
  ℕ, ◌≡◌, Bool, true, false, List, [], ◌∷◌, ◌++◌, Option, some, none, ◌==◌, if◌then◌else◌, Result,
  ok, err, exception, ◌>>=◌,
}
use ioda.ObsStore.Named.{Name, same_name, find_named, insert_named, erase_named, or_new}

mutual
  pub data Group (V : Type 0) : Type 0 where
    group : List (Name × V) → Children V → Group V

  pub data Children (V : Type 0) : Type 0 where
    no_child : Children V
    child : Name → Group V → Children V → Children V

abbrev pub slash : ℕ
slash = 47

-- Group::splitFirstLevel: the first level, and what is behind the first slash.
unfoldable pub split_first_level : Name → Name × Option Name
split_first_level [] = ([], none)
split_first_level (c ∷ path) =
    let rest = split_first_level path in
    if c == slash then ([], some path) else (c ∷ rest.0, rest.1)

-- All levels of a path: splitFirstLevel again and again.
abbrev pub push_char : ℕ → List Name → List Name
push_char c [] = (c ∷ []) ∷ []
push_char c (s ∷ levels) = (c ∷ s) ∷ levels

unfoldable pub sections : Name → List Name
sections [] = [] ∷ []
sections (c ∷ path) = let rest = sections path in if c == slash then [] ∷ rest else push_char c rest

abbrev pub cut_before : ℕ → Option Name → Name → Option Name × Name
cut_before c (some dir) v = (some (c ∷ dir), v)
cut_before c none v = if c == slash then (some [], v) else (none, c ∷ v)

-- Has_Variables::splitGroupVar: what is in front of the last slash, and the name behind it.
unfoldable pub split_group_var : Name → Option Name × Name
split_group_var [] = (none, [])
split_group_var (c ∷ path) = let rest = split_group_var path in cut_before c rest.0 rest.1

unfoldable pub levels_before : Option Name → List Name
unfolding sections
levels_before none = []
levels_before (some dir) = sections dir

-- The group of a variable, by splitGroupVar and splitFirstLevel.
unfoldable pub group_levels : Name → List Name
unfolding split_group_var levels_before
group_levels name = levels_before (split_group_var name).0

unfoldable pub leaf : Name → Name
unfolding split_group_var
leaf name = (split_group_var name).1

module _ {V : Type 0} where
  abbrev pub new_group : Group V
  new_group = group [] no_child

  abbrev pub variables : Group V → List (Name × V)
  variables (group vs children) = vs

  abbrev pub child_groups : Group V → Children V
  child_groups (group vs children) = children

  -- child_groups_.find
  unfoldable pub find_child : Name → Children V → Option (Group V)
  find_child s no_child = none
  find_child s (child k g children) = if same_name k s then some g else find_child s children

  -- The children after the child of that name became g, or was made.
  unfoldable pub put_child : Name → Group V → Children V → Children V
  put_child s g no_child = child s g no_child
  put_child s g (child k h children) =
      let rest = put_child s g children in
      if same_name k s then child k g children else child k h rest

  -- Group::open by levels; nullptr is none.
  unfoldable pub open_levels : List Name → Group V → Option (Group V)
  open_levels [] g = some g
  open_levels (s ∷ levels) g = elim (find_child s (child_groups g)) [
    | none ↦ none
    | some c ↦ open_levels levels c
  ]

  unfoldable pub open_group : Name → Group V → Option (Group V)
  unfolding open_levels sections
  open_group path g = open_levels (sections path) g

  -- Group::open with throwIfNotFound.
  unfoldable pub open_group_or_throw : Name → Group V → Result (Group V)
  unfolding open_group
  open_group_or_throw path g = elim (open_group path g) [ none ↦ err exception | some c ↦ ok c ]

  -- Group::exists
  unfoldable pub group_exists : Name → Group V → Bool
  unfolding open_group
  group_exists path g = elim (open_group path g) [ none ↦ false | some c ↦ true ]

  -- Group::create by levels, and then f on the group that it returns.
  unfoldable pub create_levels : List Name → (Group V → Group V) → Group V → Group V
  unfolding find_child put_child
  create_levels [] f g = f g
  create_levels (s ∷ levels) f g = group (variables g) (
      put_child s (create_levels levels f (or_new (find_child s (child_groups g)) new_group))
        (child_groups g))

  -- Group::create
  unfoldable pub create_group : Name → Group V → Group V
  unfolding create_levels sections
  create_group path g = create_levels (sections path) (λ c. c) g

  -- The group at levels that are there, changed by f.
  unfoldable pub change_levels : List Name → (Group V → Group V) → Group V → Result (Group V)
  unfolding find_child put_child
  change_levels [] f g = ok (f g)
  change_levels (s ∷ levels) f g = elim (find_child s (child_groups g)) [
    | none ↦ err exception
    | some c ↦
        change_levels levels f c
        >>= (λ c'. ok (group (variables g) (put_child s c' (child_groups g))))
  ]

  abbrev pub with_variables : (List (Name × V) → List (Name × V)) → Group V → Group V
  with_variables f g = group (f (variables g)) (child_groups g)

  -- Has_Variables::create; the variable that it returns is v.
  unfoldable pub create_variable : Name → V → Group V → Group V
  unfolding create_levels group_levels leaf insert_named
  create_variable name v g =
      create_levels (group_levels name) (with_variables (insert_named (leaf name) v)) g

  -- Has_Variables::open
  unfoldable pub open_variable : Name → Group V → Result V
  unfolding open_levels group_levels leaf find_named
  open_variable name g = elim (open_levels (group_levels name) g) [
    | none ↦ err exception
    | some c ↦ elim (find_named (leaf name) (variables c)) [ none ↦ err exception | some v ↦ ok v ]
  ]

  -- Has_Variables::exists
  unfoldable pub variable_exists : Name → Group V → Bool
  unfolding open_levels group_levels leaf find_named
  variable_exists name g = elim (open_levels (group_levels name) g) [
    | none ↦ false
    | some c ↦ elim (find_named (leaf name) (variables c)) [ none ↦ false | some v ↦ true ]
  ]

  -- Has_Variables::remove
  unfoldable pub remove_variable : Name → Group V → Result (Group V)
  unfolding change_levels group_levels leaf erase_named
  remove_variable name g =
      change_levels (group_levels name) (with_variables (erase_named (leaf name))) g

  -- Has_Variables::rename: the new name is a key in the group of the old one.
  unfoldable pub rename_variable : Name → Name → Group V → Result (Group V)
  unfolding change_levels group_levels leaf erase_named insert_named open_variable
  rename_variable old_name new_name g = do
    v ← open_variable old_name g
    change_levels (group_levels old_name)
        (with_variables (λ m. insert_named new_name v (erase_named (leaf old_name) m))) g
