-- ===== src/Examples/Groups.antt =====
-- A group "m" (109) with the variables "a" (97) and "b" (98), and an attribute of four points.
use ioda.Prelude.{ℕ, ◌≡◌, refl, ap, get_or, true, false, List, [], ◌∷◌, ok, ◌>>=◌, ◌==◌, arith}
use ioda.ObsStore.Named.{Name, same_name, find_named}
use ioda.ObsStore.Groups.{
  Group, group, no_child, child, sections, split_group_var, levels_before, group_levels, leaf,
  find_child, open_levels, create_group, group_exists, open_group_or_throw, create_variable,
  open_variable, variable_exists, remove_variable, rename_variable,
}
use ioda.ObsStore.Groups.Variables.{opened_or, create_variable-open, remove_variable-open}
use ioda.ObsStore.Groups.Rename.{rename_variable-open, rename_variable-slash}
use ioda.ObsStore.Groups.Create.{group_or_new, create_group-open}
use ioda.ObsStore.Attribute.{
  num_points, new_attribute, write_attribute, read_attribute, read_attribute-write,
}
use ioda.ObsStore.VarAttrStore.{concat_bytes}

abbrev m_a : Name
m_a = 109 ∷ 47 ∷ 97 ∷ []

abbrev m_b : Name
m_b = 109 ∷ 47 ∷ 98 ∷ []

abbrev m_c : Name
m_c = 109 ∷ 47 ∷ 99 ∷ []

abbrev root : Group ℕ
root = group [] (child (109 ∷ []) (group ((97 ∷ [], 5) ∷ (98 ∷ [], 6) ∷ []) no_child) no_child)

m_a-m_b : m_a ≡ m_b → ⊥
m_a-m_b e = omega (arith, ap (λ n. get_or n 2 0) e)

m_a-m_c : m_a ≡ m_c → ⊥
m_a-m_c e = omega (arith, ap (λ n. get_or n 2 0) e)

m_c-m_b : m_c ≡ m_b → ⊥
m_c-m_b e = omega (arith, ap (λ n. get_or n 2 0) e)

create_variable-open_example :
    (open_variable m_c (create_variable m_c 7 root) ≡ opened_or (open_variable m_c root) 7)
    × (variable_exists m_c (create_variable m_c 7 root) ≡ true)
    × (open_variable m_b (create_variable m_c 7 root) ≡ open_variable m_b root)
create_variable-open_example = create_variable-open m_c m_b 7 root m_c-m_b

remove_variable-open_example :
    (g : Group ℕ) × (remove_variable m_a root ≡ ok g)
    × (variable_exists m_a g ≡ false)
    × (open_variable m_b g ≡ open_variable m_b root)
unfolding variable_exists open_levels group_levels leaf split_group_var levels_before sections
    find_child find_named same_name
remove_variable-open_example = remove_variable-open m_a m_b root m_a-m_b refl

rename_variable-open_example :
    (g : Group ℕ) × (rename_variable m_a (leaf m_c) root ≡ ok g)
    × (variable_exists m_a g ≡ false)
    × (open_variable m_c g ≡ opened_or (open_variable m_c root) 5)
    × (open_variable m_b g ≡ open_variable m_b root)
unfolding open_variable open_levels group_levels leaf split_group_var levels_before sections
    find_child find_named same_name
rename_variable-open_example =
    rename_variable-open m_a m_c m_b 5 root refl refl m_a-m_c m_a-m_b m_c-m_b

-- The variable m/a, renamed to "m/c", is gone.
rename_variable-slash_example :
    (g : Group ℕ) × (rename_variable m_a m_c root ≡ ok g)
    × (variable_exists m_a g ≡ false)
    × (open_variable m_c g ≡ open_variable m_c root)
unfolding open_variable open_levels group_levels leaf split_group_var levels_before sections
    find_child find_named same_name
rename_variable-slash_example = rename_variable-slash m_a m_c m_c 5 root refl refl m_a-m_c

create_group-open_example :
    (group_exists (120 ∷ 47 ∷ 121 ∷ []) (create_group (120 ∷ 47 ∷ 121 ∷ []) root) ≡ true)
    × (open_group_or_throw (120 ∷ 47 ∷ 121 ∷ []) (create_group (120 ∷ 47 ∷ 121 ∷ []) root)
        ≡ ok (group_or_new (open_group_or_throw (120 ∷ 47 ∷ 121 ∷ []) root)))
    × (open_variable m_a (create_group (120 ∷ 47 ∷ 121 ∷ []) root) ≡ open_variable m_a root)
create_group-open_example = create_group-open (120 ∷ 47 ∷ 121 ∷ []) m_a root

abbrev two_chars : ℕ → List ℕ
two_chars x = x ∷ 0 ∷ []

read_attribute-write_example :
    (write_attribute (λ s t. s == t) 5 (3 ∷ 1 ∷ 4 ∷ 1 ∷ []) 8 (new_attribute 1 0 8 (2 ∷ 2 ∷ []))
      >>= λ a.
          read_attribute (λ s t. s == t) 5 two_chars 2 (9 ∷ 9 ∷ 9 ∷ 9 ∷ 9 ∷ 9 ∷ 9 ∷ 9 ∷ []) 8 a)
    ≡ ok (concat_bytes two_chars (3 ∷ 1 ∷ 4 ∷ 1 ∷ []))
unfolding num_points
read_attribute-write_example =
    read_attribute-write (λ s t. s == t) two_chars 2 5 1 0 8 (2 ∷ 2 ∷ []) (3 ∷ 1 ∷ 4 ∷ 1 ∷ [])
      (9 ∷ 9 ∷ 9 ∷ 9 ∷ 9 ∷ 9 ∷ 9 ∷ 9 ∷ []) refl (λ x. refl) (omega arith) (omega arith)
      (omega arith) refl (omega arith) refl refl
