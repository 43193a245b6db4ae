-- ===== src/ObsStore/Groups/Variables.antt =====
-- Has_Variables: what is found under which path after a variable was made, removed or renamed.
use ioda.Prelude.{
  ◌≡◌, refl, ap, sym, ◌∙◌, Bool, true, false, List, [], Option, some, none, Result, ok, err,
  exception,
}
use ioda.ObsStore.Named.{
  Name, find_named, insert_named, erase_named, or_new, find-insert_named, find-insert_named_ne,
  find-erase_named, find-erase_named_ne,
}
use ioda.ObsStore.Groups.{
  Group, new_group, variables, open_levels, create_levels, change_levels, with_variables,
  group_levels, leaf, create_variable, open_variable, variable_exists, remove_variable,
}
use ioda.ObsStore.Groups.Paths.{group_levels-leaf_injective}
use ioda.ObsStore.Groups.Tree.{
  variable_at, open_levels-create_levels, change_levels-create_levels, variable_at-create_levels,
}

-- The exception of a variable that is not found.
abbrev pub found_or_throw {ℓ} : {V : Type ℓ} → Option V → Result V
found_or_throw none = err exception
found_or_throw (some v) = ok v

abbrev pub is_found {ℓ} : {V : Type ℓ} → Option V → Bool
is_found none = false
is_found (some v) = true

module _ {V : Type 0} where
  abbrev pub variable_of : Name → Group V → Option V
  variable_of name g = variable_at (group_levels name) (leaf name) g

  pub open_variable-variable_of :
      (name : Name) (g : Group V) → open_variable name g ≡ found_or_throw (variable_of name g)
  unfolding open_variable
  open_variable-variable_of name g = one (open_levels (group_levels name) g)
    where
      two :
          (o : Option V)
          → elim o as (λ _. Result V) [ none ↦ err exception | some v ↦ ok v ] ≡ found_or_throw o
      two none = refl
      two (some v) = refl

      one :
          (o : Option (Group V))
          → elim o as (λ _. Result V) [
            | none ↦ err exception
            | some c ↦ elim (find_named (leaf name) (variables c)) [
              | none ↦ err exception
              | some v ↦ ok v
            ]
          ]
            ≡ found_or_throw (elim o as (λ _. Option V) [
              | none ↦ none
              | some c ↦ find_named (leaf name) (variables c)
            ])
      one none = refl
      one (some c) = two (find_named (leaf name) (variables c))

  pub variable_exists-variable_of :
      (name : Name) (g : Group V) → variable_exists name g ≡ is_found (variable_of name g)
  unfolding variable_exists
  variable_exists-variable_of name g = one (open_levels (group_levels name) g)
    where
      two : (o : Option V) → elim o as (λ _. Bool) [ none ↦ false | some v ↦ true ] ≡ is_found o
      two none = refl
      two (some v) = refl

      one :
          (o : Option (Group V))
          → elim o as (λ _. Bool) [
            | none ↦ false
            | some c ↦ elim (find_named (leaf name) (variables c)) [ none ↦ false | some v ↦ true ]
          ]
            ≡ is_found (elim o as (λ _. Option V) [
              | none ↦ none
              | some c ↦ find_named (leaf name) (variables c)
            ])
      one none = refl
      one (some c) = two (find_named (leaf name) (variables c))

  -- The variable that was made, or the one that was there.
  variable_of-create :
      (name : Name) (v : V) (g : Group V)
      → variable_of name (create_variable name v g) ≡ some (or_new (variable_of name g) v)
  unfolding create_variable find_named
  variable_of-create name v g =
      ap
        (λ o. elim o as (λ _. Option V) [
          | none ↦ none
          | some c ↦ find_named (leaf name) (variables c)
        ])
        (open_levels-create_levels (group_levels name) (with_variables (insert_named (leaf name) v))
          g)
      ∙ one (open_levels (group_levels name) g)
    where
      one :
          (o : Option (Group V))
          → find_named (leaf name) (insert_named (leaf name) v (variables (or_new o new_group)))
            ≡ some (
                or_new
                  (elim o as (λ _. Option V) [
                    | none ↦ none
                    | some c ↦ find_named (leaf name) (variables c)
                  ])
                  v)
      one none = find-insert_named (leaf name) v []
      one (some c) = find-insert_named (leaf name) v (variables c)

  variable_of-create_ne :
      (name other : Name) (v : V) (g : Group V)
      → (name ≡ other → ⊥)
      → variable_of other (create_variable name v g) ≡ variable_of other g
  unfolding create_variable
  variable_of-create_ne name other v g h =
      variable_at-create_levels (insert_named (leaf name) v) (group_levels name)
        (group_levels other) (leaf other) g
        (λ e m.
          find-insert_named_ne (leaf name) (leaf other) v m
            (λ f. h (group_levels-leaf_injective name other e f)))

  -- What is opened after a variable was made: it, if there was none.
  abbrev pub opened_or : Result V → V → Result V
  opened_or (err e) v = ok v
  opened_or (ok w) v = ok w

  -- After Has_Variables::create under any path, with its intermediate groups, opening that path gives
  -- the variable that was there before, or else the new one; the path exists, and every other path
  -- opens what it opened before.
  pub create_variable-open :
      (name other : Name) (v : V) (g : Group V)
      → (name ≡ other → ⊥)
      → (open_variable name (create_variable name v g) ≡ opened_or (open_variable name g) v)
        × (variable_exists name (create_variable name v g) ≡ true)
        × (open_variable other (create_variable name v g) ≡ open_variable other g)
  create_variable-open name other v g h = (
    open_variable-variable_of name (create_variable name v g)
        ∙ ap found_or_throw (variable_of-create name v g)
        ∙ sym
            (ap (λ r. opened_or r v) (open_variable-variable_of name g) ∙ one (variable_of name g)),
    variable_exists-variable_of name (create_variable name v g)
        ∙ ap is_found (variable_of-create name v g),
    open_variable-variable_of other (create_variable name v g)
        ∙ ap found_or_throw (variable_of-create_ne name other v g h)
        ∙ sym (open_variable-variable_of other g),
  )
    where
      one : (o : Option V) → opened_or (found_or_throw o) v ≡ ok (or_new o v)
      one none = refl
      one (some w) = refl

  -- A group that holds a variable can be changed.
  pub changed_group :
      (name : Name) (g : Group V) (v : V) (h : List (Name × V) → List (Name × V))
      → variable_of name g ≡ some v
      → (c : Group V) × (open_levels (group_levels name) g ≡ some c)
        × (change_levels (group_levels name) (with_variables h) g
            ≡ ok (create_levels (group_levels name) (with_variables h) g))
        × ((w : Name)
            → variable_at
                (group_levels name)
                w
                (create_levels (group_levels name) (with_variables h) g)
              ≡ find_named w (h (variables c)))
  changed_group name g v h e = one (open_levels (group_levels name) g) refl
    where
      one :
          (o : Option (Group V))
          → open_levels (group_levels name) g ≡ o
          → (c : Group V) × (open_levels (group_levels name) g ≡ some c)
            × (change_levels (group_levels name) (with_variables h) g
                ≡ ok (create_levels (group_levels name) (with_variables h) g))
            × ((w : Name)
                → variable_at
                    (group_levels name)
                    w
                    (create_levels (group_levels name) (with_variables h) g)
                  ≡ find_named w (h (variables c)))
      one none q =
          let f : none ≡ some v =
            sym (
              ap
                (λ o. elim o as (λ _. Option V) [
                  | none ↦ none
                  | some c ↦ find_named (leaf name) (variables c)
                ])
                q)
            ∙ e in
          absurd (cc f)
      one (some c) q = (
        c,
        q,
        change_levels-create_levels (group_levels name) (with_variables h) g
            ∙ ap
                (λ o. elim o as (λ _. Result (Group V)) [
                  | none ↦ err exception
                  | some d ↦ ok (create_levels (group_levels name) (with_variables h) g)
                ])
                q,
        λ w.
            ap
              (λ o. elim o as (λ _. Option V) [ none ↦ none | some c ↦ find_named w (variables c) ])
              (open_levels-create_levels (group_levels name) (with_variables h) g)
            ∙ ap (λ o. find_named w (h (variables (or_new o new_group)))) q,
      )

  variable_of-exists :
      (name : Name) (g : Group V)
      → variable_exists name g ≡ true
      → (v : V) × (variable_of name g ≡ some v)
  variable_of-exists name g h =
      one (variable_of name g) (sym (variable_exists-variable_of name g) ∙ h)
    where
      one : (o : Option V) → is_found o ≡ true → (v : V) × (o ≡ some v)
      one none q = absurd (cc q)
      one (some v) q = (v, refl)

  -- Has_Variables::remove of a path that exists succeeds; then the path does not exist, and every other
  -- path opens what it opened before.
  pub remove_variable-open :
      (name other : Name) (g : Group V)
      → (name ≡ other → ⊥)
      → variable_exists name g ≡ true
      → (g' : Group V) × (remove_variable name g ≡ ok g')
        × (variable_exists name g' ≡ false)
        × (open_variable other g' ≡ open_variable other g)
  unfolding remove_variable
  remove_variable-open name other g h e =
      let (v, q) = variable_of-exists name g e in
      let erase = erase_named (leaf name) in
      let (c, o, r, at_name) = changed_group name g v erase q in
      let g' = create_levels (group_levels name) (with_variables erase) g in
      let apart =
        variable_at-create_levels erase (group_levels name) (group_levels other) (leaf other) g
          (λ d m.
            find-erase_named_ne (leaf name) (leaf other) m
              (λ f. h (group_levels-leaf_injective name other d f))) in
      (
        g',
        r,
        variable_exists-variable_of name g'
            ∙ ap is_found (at_name (leaf name) ∙ find-erase_named (leaf name) (variables c)),
        open_variable-variable_of other g'
            ∙ ap found_or_throw apart
            ∙ sym (open_variable-variable_of other g),
      )
