-- ===== src/Schema/Checks.antt =====
-- The errors of a validation, and checks: each takes the state of the references and returns it with
-- the errors that it appends to `errs`; `none` is the model's own, where the fuel has run out.
use crewai_go.Base.{ℕ, suc, Bool, true, false, Option, none, some, List, [], ◌∷◌, ◌++◌, String}
use crewai_go.Schema.Json.{Json, Items, no_items, item, Members, no_members, member}
use crewai_go.Schema.Refs.{SchemaValidation, RefError, pop_ref}

-- The messages, with what they print.
pub data Message (F : Type 0) : Type 0 where
  schema_is_false matches_not no_any_of no_one_of missing_field not_allowed not_unique : Message F
  ref_error : RefError → Message F
  wrong_type : Json F → String → Message F
  not_in_enum not_const : Json F → Message F
  too_short too_long few_properties many_properties few_items many_items : ℕ → F → Message F
  pattern_too_long : ℕ → Message F
  bad_pattern no_match bad_format : String → Message F
  below above not_greater not_less : F → F → Message F

pub record ValidationError (F : Type 0) : Type 0 where
  pub path : String
  pub message : Message F

abbrev pub Check : Type 0 → Type 0
Check F = SchemaValidation → Option (SchemaValidation × List (ValidationError F))

module _ {F : Type 0} where
  unfoldable pub pass : Check F
  pass s = some (s, [])

  unfoldable pub report : String → Message F → Check F
  report p m s = some (s, record { path = p; message = m } ∷ [])

  unfoldable pub report_if : Bool → String → Message F → Check F
  unfolding pass report
  report_if true p m = report p m
  report_if false p m = pass

  unfoldable pub add_errors :
      List (ValidationError F)
      → Option (SchemaValidation × List (ValidationError F))
      → Option (SchemaValidation × List (ValidationError F))
  add_errors es none = none
  add_errors es (some (s, es')) = some (s, es ++ es')

  -- One check after the other, on the same `errs`.
  infixr 4 ◌▷◌
  unfoldable pub ◌▷◌ : Check F → Check F → Check F
  unfolding add_errors
  (a ▷ b) s = elim (a s) [ none ↦ none | some (s', es) ↦ add_errors es (b s') ]

  unfoldable pub no_errors : List (ValidationError F) → Bool
  no_errors [] = true
  no_errors (e ∷ es) = false

  -- A check with an `errs` of its own, which is dropped; the next one learns whether it is empty.
  unfoldable pub trial : Check F → (Bool → Check F) → Check F
  unfolding no_errors
  trial c next s = elim (c s) [ none ↦ none | some (s', es) ↦ next (no_errors es) s' ]

  -- A check and then popRef.
  unfoldable pub popping : Check F → Check F
  unfolding pop_ref
  popping c s = elim (c s) [ none ↦ none | some (s', es) ↦ some (pop_ref s', es) ]

  -- The loops over an array, from an index on, and over a map.
  unfoldable pub each_item : (ℕ → Json F → Check F) → ℕ → Items F → Check F
  unfolding pass ◌▷◌
  each_item f i no_items = pass
  each_item f i (item x xs) = f i x ▷ each_item f (suc i) xs

  unfoldable pub each_member : (String → Json F → Check F) → Members F → Check F
  unfolding pass ◌▷◌
  each_member f no_members = pass
  each_member f (member k v m) = f k v ▷ each_member f m

  unfoldable pub with_float : Option F → (F → Check F) → Check F
  unfolding pass
  with_float none check = pass
  with_float (some v) check = check v
