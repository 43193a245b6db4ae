-- ===== src/ObsStore/Groups/Tree.antt =====
-- Opening groups after a group was created, or a group that is there was changed.
use ioda.Prelude.{
  ◌≡◌, refl, ap, ap₂, sym, ◌∙◌, inl, inr, false, List, [], ◌∷◌, Option, some, none, Bool-cases,
  if◌then◌else◌, Result, ok, err, exception, ◌>>=◌,
}
use ioda.ObsStore.Named.{
  Name, same_name, same_name_self, same_name_iff, same_name_ne, find_named, or_new,
}
use ioda.ObsStore.Groups.{
  Group, group, Children, no_child, child, new_group, variables, child_groups, find_child,
  put_child, open_levels, create_levels, change_levels, with_variables,
}

module _ {V : Type 0} where
  find-put_child :
      (s : Name) (g : Group V) (cs : Children V) → find_child s (put_child s g cs) ≡ some g
  unfolding find_child put_child
  find-put_child s g no_child = rw (same_name_self s) refl
  find-put_child s g (child k h cs) = elim (Bool-cases (same_name k s)) [
    | inl b ↦ rw (b, b) refl
    | inr b ↦ rw (b, b) (find-put_child s g cs)
  ]

  find-put_child_ne :
      (s t : Name) (g : Group V) (cs : Children V)
      → (s ≡ t → ⊥)
      → find_child t (put_child s g cs) ≡ find_child t cs
  unfolding find_child put_child
  find-put_child_ne s t g no_child h = rw (same_name_ne s t h) refl
  find-put_child_ne s t g (child k c cs) h = elim (Bool-cases (same_name k s)) [
    | inl b ↦
        let e : k ≡ s = (same_name_iff k s).0 b in
        let n : same_name k t ≡ false = same_name_ne k t (λ q. h (sym e ∙ q)) in rw (b, n) refl
    | inr b ↦ rw b (ap (λ o. if same_name k t then some c else o) (find-put_child_ne s t g cs h))
  ]

  -- The variable of a group at levels.
  abbrev pub variable_at : List Name → Name → Group V → Option V
  variable_at levels v g = elim (open_levels levels g) [
    | none ↦ none
    | some c ↦ find_named v (variables c)
  ]

  open_levels-new :
      (levels : List Name) → or_new (open_levels {V = V} levels new_group) new_group ≡ new_group
  unfolding open_levels find_child
  open_levels-new [] = refl
  open_levels-new (s ∷ levels) = refl

  variable_at-new : (levels : List Name) (v : Name) → variable_at levels v new_group ≡ none
  unfolding open_levels find_child find_named
  variable_at-new [] v = refl
  variable_at-new (s ∷ levels) v = refl

  -- open_levels in the child that was found.
  opened :
      (levels : List Name) {o p : Option (Group V)}
      → o ≡ p
      → elim o as (λ _. Option (Group V)) [ none ↦ none | some c ↦ open_levels levels c ]
        ≡ elim p as (λ _. Option (Group V)) [ none ↦ none | some c ↦ open_levels levels c ]
  opened levels e =
      ap (λ o. elim o as (λ _. Option (Group V)) [ none ↦ none | some c ↦ open_levels levels c ]) e

  pub open_levels-create_levels :
      (levels : List Name) (f : Group V → Group V) (g : Group V)
      → open_levels levels (create_levels levels f g)
        ≡ some (f (or_new (open_levels levels g) new_group))
  unfolding open_levels create_levels
  open_levels-create_levels [] f g = refl
  open_levels-create_levels (s ∷ levels) f g =
      let c = or_new (find_child s (child_groups g)) new_group in
      opened levels (find-put_child s (create_levels levels f c) (child_groups g))
      ∙ open_levels-create_levels levels f c
      ∙ one (find_child s (child_groups g))
    where
      one :
          (o : Option (Group V))
          → some (f (or_new (open_levels levels (or_new o new_group)) new_group))
            ≡ some (f (or_new (elim o [ none ↦ none | some c ↦ open_levels levels c ]) new_group))
      one none = ap (λ d. some (f d)) (open_levels-new levels)
      one (some c) = refl

  -- Where the group is there, nothing is created.
  pub change_levels-create_levels :
      (levels : List Name) (f : Group V → Group V) (g : Group V)
      → change_levels levels f g ≡ elim (open_levels levels g) [
        | none ↦ err exception
        | some c ↦ ok (create_levels levels f g)
      ]
  unfolding change_levels create_levels open_levels
  change_levels-create_levels [] f g = refl
  change_levels-create_levels (s ∷ levels) f g =
      one (find_child s (child_groups g)) (λ c. change_levels-create_levels levels f c)
    where
      two :
          (c : Group V) (o : Option (Group V)) (changed : Result (Group V))
          → changed ≡ elim o [ none ↦ err exception | some d ↦ ok (create_levels levels f c) ]
          → (changed >>= (λ c'. ok (group (variables g) (put_child s c' (child_groups g)))))
            ≡ elim o [
              | none ↦ err exception
              | some d ↦
                  ok (group (variables g) (put_child s (create_levels levels f c) (child_groups g)))
            ]
      two c none changed e = rw e refl
      two c (some d) changed e = rw e refl

      one :
          (o : Option (Group V))
          → ((c : Group V)
              → change_levels levels f c ≡ elim (open_levels levels c) [
                | none ↦ err exception
                | some d ↦ ok (create_levels levels f c)
              ])
          → elim o [
            | none ↦ err exception
            | some c ↦
                change_levels levels f c
                >>= (λ c'. ok (group (variables g) (put_child s c' (child_groups g))))
          ]
            ≡ elim (elim o as (λ _. Option (Group V)) [
              | none ↦ none
              | some c ↦ open_levels levels c
            ]) [
              | none ↦ err exception
              | some c ↦ ok (
                  group
                    (variables g)
                    (put_child s (create_levels levels f (or_new o new_group)) (child_groups g)))
            ]
      one none ih = refl
      one (some c) ih = two c (open_levels levels c) (change_levels levels f c) (ih c)

  found_at :
      (levels : List Name) (w : Name) {o p : Option (Group V)}
      → o ≡ p
      → elim (elim o as (λ _. Option (Group V)) [ none ↦ none | some c ↦ open_levels levels c ])
          as (λ _. Option V) [ none ↦ none | some c ↦ find_named w (variables c) ]
        ≡ elim (elim p as (λ _. Option (Group V)) [ none ↦ none | some c ↦ open_levels levels c ])
            as (λ _. Option V) [ none ↦ none | some c ↦ find_named w (variables c) ]
  found_at levels w e =
      ap (λ o. elim o as (λ _. Option V) [ none ↦ none | some c ↦ find_named w (variables c) ])
        (opened levels e)

  -- Variables of other groups, and those that h leaves alone, are found as before.
  pub variable_at-create_levels :
      (h : List (Name × V) → List (Name × V)) (levels others : List Name) (w : Name) (g : Group V)
      → (levels ≡ others → (m : List (Name × V)) → find_named w (h m) ≡ find_named w m)
      → variable_at others w (create_levels levels (with_variables h) g) ≡ variable_at others w g
  unfolding create_levels open_levels
  variable_at-create_levels h [] [] w g keeps = keeps refl (variables g)
  variable_at-create_levels h [] (t ∷ others) w g keeps = refl
  variable_at-create_levels h (s ∷ levels) [] w g keeps = refl
  variable_at-create_levels h (s ∷ levels) (t ∷ others) w g keeps =
      let c = or_new (find_child s (child_groups g)) new_group in
      let c' = create_levels levels (with_variables h) c in
      elim (Bool-cases (same_name s t)) [
        | inl b ↦
            let e : s ≡ t = (same_name_iff s t).0 b in
            let put =
              ap (λ k. find_child k (put_child s c' (child_groups g))) (sym e)
              ∙ find-put_child s c' (child_groups g) in
            let ih = variable_at-create_levels h levels others w c (λ q. keeps (ap₂ ◌∷◌ e q)) in
            found_at others w put
            ∙ ih
            ∙ in_child (find_child s (child_groups g))
            ∙ found_at others w (ap (λ k. find_child k (child_groups g)) e)
        | inr b ↦
            let n : (s ≡ t → ⊥) = λ e. cc (b, (same_name_iff s t).1 e) in
            found_at others w (find-put_child_ne s t c' (child_groups g) n)
      ]
    where
      in_child :
          (o : Option (Group V))
          → variable_at others w (or_new o new_group)
            ≡ elim (elim o as (λ _. Option (Group V)) [
              | none ↦ none
              | some c ↦ open_levels others c
            ])
                as (λ _. Option V) [ none ↦ none | some c ↦ find_named w (variables c) ]
      in_child none = variable_at-new others w
      in_child (some c) = refl
