-- ===== src/ObsStore/Named.antt =====
-- std::map with texts as keys, as Group, Has_Variables and Has_Attributes use it (Group.cpp,
-- Variables.cpp, Attributes.cpp). A text is the list of its bytes. The entries stand in the order in
-- which they were made, since none of the calls modelled here depends on their order.
use ioda.Prelude.{
  ℕ, ◌≡◌, ◌↔◌, refl, ap, ap₂, sym, ◌∙◌, inl, inr, Bool, true, false, ◌&&◌, List, [], ◌∷◌, Option,
  some, none, ◌==◌, ==_iff, Bool-cases, if◌then◌else◌,
}

abbrev pub Name : Type 0
Name = List ℕ

-- operator== of std::string
unfoldable pub same_name : Name → Name → Bool
same_name [] [] = true
same_name [] (d ∷ t) = false
same_name (c ∷ s) [] = false
same_name (c ∷ s) (d ∷ t) = c == d && same_name s t

same_name-eq : (s t : Name) → same_name s t ≡ true → s ≡ t
unfolding same_name
same_name-eq [] [] h = refl
same_name-eq [] (d ∷ t) h = cc
same_name-eq (c ∷ s) [] h = cc
same_name-eq (c ∷ s) (d ∷ t) h = elim (Bool-cases (c == d)) [
  | inl b ↦ ap₂ ◌∷◌ ((==_iff c d).0 b) (same_name-eq s t (rw b at h))
  | inr b ↦ let f : false ≡ true = rw b at h in cc
]

pub same_name_self : (s : Name) → same_name s s ≡ true
unfolding same_name
same_name_self [] = refl
same_name_self (c ∷ s) = rw ((==_iff c c).1 refl) (same_name_self s)

pub same_name_iff : (s t : Name) → (same_name s t ≡ true) ↔ (s ≡ t)
same_name_iff s t = (same_name-eq s t, λ e. ap (same_name s) (sym e) ∙ same_name_self s)

pub same_name_ne : (s t : Name) → (s ≡ t → ⊥) → same_name s t ≡ false
same_name_ne s t h = elim (Bool-cases (same_name s t)) [
  | inl b ↦ absurd (h (same_name-eq s t b))
  | inr b ↦ b
]

module _ {ℓ} {V : Type ℓ} where
  -- find
  unfoldable pub find_named : Name → List (Name × V) → Option V
  find_named k [] = none
  find_named k ((j, v) ∷ m) = if same_name j k then some v else find_named k m

  -- insert: an entry that is there stays as it is.
  unfoldable pub insert_named : Name → V → List (Name × V) → List (Name × V)
  insert_named k v [] = (k, v) ∷ []
  insert_named k v ((j, w) ∷ m) =
      let rest = insert_named k v m in if same_name j k then (j, w) ∷ m else (j, w) ∷ rest

  -- erase
  unfoldable pub erase_named : Name → List (Name × V) → List (Name × V)
  erase_named k [] = []
  erase_named k ((j, w) ∷ m) =
      let rest = erase_named k m in if same_name j k then rest else (j, w) ∷ rest

  abbrev pub or_new : Option V → V → V
  or_new none v = v
  or_new (some w) v = w

  pub find-insert_named :
      (k : Name) (v : V) (m : List (Name × V))
      → find_named k (insert_named k v m) ≡ some (or_new (find_named k m) v)
  unfolding find_named insert_named
  find-insert_named k v [] = rw (same_name_self k) refl
  find-insert_named k v ((j, w) ∷ m) = elim (Bool-cases (same_name j k)) [
    | inl b ↦ rw (b, b) refl
    | inr b ↦ rw (b, b) (find-insert_named k v m)
  ]

  pub find-insert_named_ne :
      (k i : Name) (v : V) (m : List (Name × V))
      → (k ≡ i → ⊥)
      → find_named i (insert_named k v m) ≡ find_named i m
  unfolding find_named insert_named
  find-insert_named_ne k i v [] h = rw (same_name_ne k i h) refl
  find-insert_named_ne k i v ((j, w) ∷ m) h = elim (Bool-cases (same_name j k)) [
    | inl b ↦ rw b refl
    | inr b ↦ rw b (ap (λ o. if same_name j i then some w else o) (find-insert_named_ne k i v m h))
  ]

  pub find-erase_named : (k : Name) (m : List (Name × V)) → find_named k (erase_named k m) ≡ none
  unfolding find_named erase_named
  find-erase_named k [] = refl
  find-erase_named k ((j, w) ∷ m) = elim (Bool-cases (same_name j k)) [
    | inl b ↦ rw b (find-erase_named k m)
    | inr b ↦ rw (b, b) (find-erase_named k m)
  ]

  pub find-erase_named_ne :
      (k i : Name) (m : List (Name × V))
      → (k ≡ i → ⊥)
      → find_named i (erase_named k m) ≡ find_named i m
  unfolding find_named erase_named
  find-erase_named_ne k i [] h = refl
  find-erase_named_ne k i ((j, w) ∷ m) h = elim (Bool-cases (same_name j k)) [
    | inl b ↦
        let e : j ≡ k = same_name-eq j k b in
        let n : same_name j i ≡ false = same_name_ne j i (λ q. h (sym e ∙ q)) in
        rw (b, n) (find-erase_named_ne k i m h)
    | inr b ↦ rw b (ap (λ o. if same_name j i then some w else o) (find-erase_named_ne k i m h))
  ]
