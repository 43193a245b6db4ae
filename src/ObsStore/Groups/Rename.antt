-- ===== src/ObsStore/Groups/Rename.antt =====
-- Has_Variables::rename, to a name and to a path.
use ioda.Prelude.{
  ◌≡◌, refl, ap, sym, ◌∙◌, inl, inr, true, false, List, [], ◌∷◌, Option, some, none, ok, err,
  contains, ◌==◌, ==_iff, ==_ne, Bool-cases,
}
use ioda.ObsStore.Named.{
  Name, find_named, insert_named, erase_named, or_new, find-insert_named, find-insert_named_ne,
  find-erase_named, find-erase_named_ne,
}
use ioda.ObsStore.Groups.{
  Group, slash, variables, open_levels, create_levels, with_variables, split_group_var, cut_before,
  group_levels, leaf, open_variable, variable_exists, rename_variable,
}
use ioda.ObsStore.Groups.Paths.{group_levels-leaf_injective}
use ioda.ObsStore.Groups.Tree.{variable_at, variable_at-create_levels}
use ioda.ObsStore.Groups.Variables.{
  found_or_throw, is_found, variable_of, opened_or, open_variable-variable_of,
  variable_exists-variable_of, changed_group,
}

leaf-slash : (name : Name) → contains slash (leaf name) ≡ false
unfolding leaf split_group_var
leaf-slash [] = refl
leaf-slash (c ∷ name) = one (split_group_var name).0 (leaf-slash name)
  where
    one :
        (o : Option Name)
        → contains slash (split_group_var name).1 ≡ false
        → contains slash (cut_before c o (split_group_var name).1).1 ≡ false
    one (some dir) h = h
    one none h = elim (Bool-cases (c == slash)) [
      | inl b ↦ rw b h
      | inr b ↦
          let n : (slash == c) ≡ false = ==_ne slash c (λ e. cc (b, (==_iff c slash).1 (sym e))) in
          rw (b, n) h
    ]

module _ {V : Type 0} where
  -- The entries of the group after rename.
  abbrev renamed : Name → Name → V → List (Name × V) → List (Name × V)
  renamed old_leaf new_name v m = insert_named new_name v (erase_named old_leaf m)

  variable_of-ok :
      (name : Name) (v : V) (g : Group V)
      → open_variable name g ≡ ok v
      → variable_of name g ≡ some v
  variable_of-ok name v g h = one (variable_of name g) (sym (open_variable-variable_of name g) ∙ h)
    where
      one : (o : Option V) → found_or_throw o ≡ ok v → o ≡ some v
      one none q = absurd (cc q)
      one (some w) q = ap (λ r. elim r [ err e ↦ none | ok x ↦ some x ]) q

  -- The group after rename, and what is under the names of that group and of others.
  rename-changed :
      (old_name new_name : Name) (v : V) (g : Group V)
      → open_variable old_name g ≡ ok v
      → (g' : Group V) × (c : Group V) × (rename_variable old_name new_name g ≡ ok g')
        × (open_levels (group_levels old_name) g ≡ some c)
        × ((w : Name)
            → variable_at (group_levels old_name) w g'
              ≡ find_named w (renamed (leaf old_name) new_name v (variables c)))
        × ((other : Name)
            → (group_levels old_name ≡ group_levels other
                → (m : List (Name × V))
                → find_named (leaf other) (renamed (leaf old_name) new_name v m)
                  ≡ find_named (leaf other) m)
            → variable_of other g' ≡ variable_of other g)
  unfolding rename_variable
  rename-changed old_name new_name v g h =
      let change = renamed (leaf old_name) new_name v in
      let (c, o, r, at_name) = changed_group old_name g v change (variable_of-ok old_name v g h) in
      (
        create_levels (group_levels old_name) (with_variables change) g,
        c,
        rw h r,
        o,
        at_name,
        λ other k.
            variable_at-create_levels change (group_levels old_name) (group_levels other)
              (leaf other) g k,
      )

  -- Has_Variables::rename of a path that opens the variable v, to the last name of a different path in
  -- the same group, succeeds. Then the old path does not exist; the different path opens what it opened
  -- before or, if it opened nothing, v; and every path other than these two opens what it opened before.
  pub rename_variable-open :
      (old_name sibling other : Name) (v : V) (g : Group V)
      → open_variable old_name g ≡ ok v
      → group_levels old_name ≡ group_levels sibling
      → (old_name ≡ sibling → ⊥)
      → (old_name ≡ other → ⊥)
      → (sibling ≡ other → ⊥)
      → (g' : Group V) × (rename_variable old_name (leaf sibling) g ≡ ok g')
        × (variable_exists old_name g' ≡ false)
        × (open_variable sibling g' ≡ opened_or (open_variable sibling g) v)
        × (open_variable other g' ≡ open_variable other g)
  rename_variable-open old_name sibling other v g h same n n' n'' =
      let new_name = leaf sibling in
      let (g', c, r, o, at_name, apart) = rename-changed old_name new_name v g h in
      let d : leaf old_name ≡ new_name → ⊥ =
        λ f. n (group_levels-leaf_injective old_name sibling same f) in
      let rest = erase_named (leaf old_name) (variables c) in
      let before : variable_of sibling g ≡ find_named new_name (variables c) =
        ap (λ l. variable_at l new_name g) (sym same)
        ∙ ap
            (λ q. elim q as (λ _. Option V) [
              | none ↦ none
              | some x ↦ find_named new_name (variables x)
            ])
            o in
      let after : variable_of sibling g' ≡ some (or_new (variable_of sibling g) v) =
        ap (λ l. variable_at l new_name g') (sym same)
        ∙ at_name new_name
        ∙ find-insert_named new_name v rest
        ∙ ap (λ q. some (or_new q v))
            (find-erase_named_ne (leaf old_name) new_name (variables c) d ∙ sym before) in
      (
        g',
        r,
        variable_exists-variable_of old_name g'
            ∙ ap is_found (
                at_name (leaf old_name)
                ∙ find-insert_named_ne new_name (leaf old_name) v rest (λ f. d (sym f))
                ∙ find-erase_named (leaf old_name) (variables c)),
        open_variable-variable_of sibling g'
            ∙ ap found_or_throw after
            ∙ sym (
                ap (λ q. opened_or q v) (open_variable-variable_of sibling g)
                ∙ kept (variable_of sibling g)),
        open_variable-variable_of other g'
            ∙ ap found_or_throw (
                apart other (λ e m.
                  find-insert_named_ne new_name (leaf other) v (erase_named (leaf old_name) m)
                    (λ f. n'' (group_levels-leaf_injective sibling other (sym same ∙ e) f))
                  ∙ find-erase_named_ne (leaf old_name) (leaf other) m
                      (λ f. n' (group_levels-leaf_injective old_name other e f))))
            ∙ sym (open_variable-variable_of other g),
      )
    where
      kept : (q : Option V) → opened_or (found_or_throw q) v ≡ ok (or_new q v)
      kept none = refl
      kept (some w) = refl

  -- Has_Variables::rename of a path that opens the variable v, to a text with a slash, succeeds; then the
  -- old path does not exist, and every other path, also that text, opens what it opened before.
  pub rename_variable-slash :
      (old_name new_name other : Name) (v : V) (g : Group V)
      → open_variable old_name g ≡ ok v
      → contains slash new_name ≡ true
      → (old_name ≡ other → ⊥)
      → (g' : Group V) × (rename_variable old_name new_name g ≡ ok g')
        × (variable_exists old_name g' ≡ false)
        × (open_variable other g' ≡ open_variable other g)
  rename_variable-slash old_name new_name other v g h s n =
      let (g', c, r, o, at_name, apart) = rename-changed old_name new_name v g h in
      let no_leaf : (name : Name) → new_name ≡ leaf name → ⊥ = λ name e.
        let f : contains slash new_name ≡ false = ap (contains slash) e ∙ leaf-slash name in
        cc (f, s) in
      (
        g',
        r,
        variable_exists-variable_of old_name g'
            ∙ ap is_found (
                at_name (leaf old_name)
                ∙ find-insert_named_ne new_name (leaf old_name) v
                    (erase_named (leaf old_name) (variables c)) (no_leaf old_name)
                ∙ find-erase_named (leaf old_name) (variables c)),
        open_variable-variable_of other g'
            ∙ ap found_or_throw (
                apart other (λ d m.
                  find-insert_named_ne new_name (leaf other) v (erase_named (leaf old_name) m)
                    (no_leaf other)
                  ∙ find-erase_named_ne (leaf old_name) (leaf other) m
                      (λ f. n (group_levels-leaf_injective old_name other d f))))
            ∙ sym (open_variable-variable_of other g),
      )
