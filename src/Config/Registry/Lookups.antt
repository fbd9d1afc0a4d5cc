-- ===== src/Config/Registry/Lookups.antt =====
-- The tables of the registry against the lists of bindings they are filled from.
use ark_mcp.Prelude.{
  by_iff, false_ne_true, String, ◌≡◌, refl, sym, ◌∙◌, ◌↔◌, Bool, true, false, ◌||◌, Option, none,
  some, List, [], ◌∷◌, arith, str_eq, str_eq_iff, if◌then◌else◌, any,
}
use ark_mcp.Prelude.Tables.{Table, string_eq, lookup, upsert, lookup-upsert}
use ark_mcp.Config.Bindings.{Binding, ids_of, has_duplicate}
use ark_mcp.Config.Registry.{fill}

unfoldable pub find_binding : {F : Type 0} → String → List (Binding F) → Option (Binding F)
find_binding id [] = none
find_binding id (b ∷ bindings) =
    let rest = find_binding id bindings in if str_eq b.model_id id then some b else rest

abbrev pub caps_or : {F C : Type 0} → (Binding F → C) → Option (Binding F) → Option C → Option C
caps_or caps_of none old = old
caps_or caps_of (some b) old = some (caps_of b)

-- The binding that is found has the identifier.
abbrev pub IsBindingOf : {F : Type 0} → String → Option (Binding F) → Type 0
IsBindingOf id none = Unit
IsBindingOf id (some b) = b.model_id ≡ id

module _ {F : Type 0} where
  pub find_binding-IsBindingOf :
      (id : String) (bs : List (Binding F)) → IsBindingOf id (find_binding id bs)
  unfolding find_binding
  find_binding-IsBindingOf id [] = tt
  find_binding-IsBindingOf id (b ∷ bs) =
      by_iff (λ t. IsBindingOf id (if t then some b else find_binding id bs)) (str_eq b.model_id id)
        (str_eq_iff b.model_id id) (λ same. same) (λ ne. find_binding-IsBindingOf id bs)

  -- Without the identifier in the list nothing is found, and with it a binding is.
  pub find_binding-none :
      (id : String) (bs : List (Binding F))
      → any (str_eq id) (ids_of bs) ≡ false
      → find_binding id bs ≡ none
  unfolding find_binding
  find_binding-none id [] h = refl
  find_binding-none id (b ∷ bs) h =
      by_test (str_eq b.model_id id) (str_eq id b.model_id) (str_eq_iff b.model_id id)
        (str_eq_iff id b.model_id) h (find_binding-none id bs)
    where
      by_test :
          (t u : Bool)
          → (t ≡ true) ↔ (b.model_id ≡ id)
          → (u ≡ true) ↔ (id ≡ b.model_id)
          → (u || any (str_eq id) (ids_of bs)) ≡ false
          → (any (str_eq id) (ids_of bs) ≡ false → find_binding id bs ≡ none)
          → (if t then some b else find_binding id bs) ≡ none
      by_test true true same back k rest = cc
      by_test true false same back k rest = absurd (false_ne_true (back.1 (sym (same.0 refl))))
      by_test false true same back k rest = cc
      by_test false false same back k rest = rest k

  pub find_binding-some :
      (id : String) (bs : List (Binding F))
      → any (str_eq id) (ids_of bs) ≡ true
      → (b : Binding F) × ((find_binding id bs ≡ some b) × (b.model_id ≡ id))
  unfolding find_binding
  find_binding-some id [] h = cc
  find_binding-some id (b ∷ bs) h =
      by_test (str_eq b.model_id id) (str_eq id b.model_id) (str_eq_iff b.model_id id)
        (str_eq_iff id b.model_id) h (find_binding-some id bs)
    where
      by_test :
          (t u : Bool)
          → (t ≡ true) ↔ (b.model_id ≡ id)
          → (u ≡ true) ↔ (id ≡ b.model_id)
          → (u || any (str_eq id) (ids_of bs)) ≡ true
          → (any (str_eq id) (ids_of bs) ≡ true
              → (c : Binding F) × ((find_binding id bs ≡ some c) × (c.model_id ≡ id)))
          → (c : Binding F) × (((if t then some b else find_binding id bs) ≡ some c)
              × (c.model_id ≡ id))
      by_test true u same back k rest = (b, (refl, same.0 refl))
      by_test false true same back k rest = absurd (false_ne_true (same.1 (sym (back.0 refl))))
      by_test false false same back k rest = rest k

  -- The loop over bindings without duplicates leaves in the table what the list has.
  pub lookup-fill :
      {C : Type 0} (caps_of : Binding F → C) (id : String) (bs : List (Binding F))
      (t : Table String C)
      → has_duplicate (ids_of bs) ≡ false
      → lookup id (fill caps_of bs t) ≡ caps_or caps_of (find_binding id bs) (lookup id t)
  unfolding fill find_binding has_duplicate
  lookup-fill caps_of id [] t h = refl
  lookup-fill caps_of id (b ∷ bs) t h =
      lookup-fill caps_of id bs (upsert b.model_id (λ old. caps_of b) t) (or_false h).1
      ∙ rw written (
          by_iff
            (λ u.
              caps_or caps_of (find_binding id bs) (if u then some (caps_of b) else lookup id t)
              ≡ caps_or caps_of (if u then some b else find_binding id bs) (lookup id t))
            (str_eq b.model_id id) (str_eq_iff b.model_id id) (λ e. rw (none_found e) refl)
            (λ ne. refl))
    where
      or_false :
          (any (str_eq b.model_id) (ids_of bs) || has_duplicate (ids_of bs)) ≡ false
          → (any (str_eq b.model_id) (ids_of bs) ≡ false) × (has_duplicate (ids_of bs) ≡ false)
      or_false k = (ground arith, ground arith)

      written :
          lookup id (upsert b.model_id (λ old. caps_of b) t)
          ≡ (if str_eq b.model_id id then some (caps_of b) else lookup id t)
      written = lookup-upsert b.model_id id (λ (old : Option _). caps_of b) t

      none_found : b.model_id ≡ id → find_binding id bs ≡ none
      none_found e = find_binding-none id bs (rw (sym e) (or_false h).0)
