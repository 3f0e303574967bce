-- ===== src/Schema/Meaning/Types.antt =====
-- The tests of type, enum and uniqueItems are what the reference meaning says.
use crewai_go.Base.{
  false, ◌||◌, String, str_eq, str_eq_sym, eq_iff, ◌≡◌, refl, sym, ap, subst, inl, inr, Bool-cases,
  arith,
}
use crewai_go.Schema.Json.{
  Json, null, boolean, number, string, array, object, Items, no_items, item, deep_equal,
}
use crewai_go.Schema.Scalars.{
  Stdlib, json_type_of, is_integer, check_type_name, check_type, check_types, equals_any,
  check_enum,
}
use crewai_go.Schema.Nodes.{any_equal}
use crewai_go.Schema.Meaning.{any_item, type_name_ok, type_ok, any_type_ok, enum_ok}

module _ {F : Type 0} (lib : Stdlib F) where
  named_integer :
      (value : Json F) → check_type_name lib value "integer" ≡ type_name_ok lib value "integer"
  unfolding check_type_name is_integer json_type_of
  named_integer null = refl
  named_integer (boolean b) = refl
  named_integer (string s) = refl
  named_integer (array xs) = refl
  named_integer (object m) = refl
  named_integer (number f) = elim (Bool-cases (lib.is_integral f)) [
    | inl e ↦ rw e refl
    | inr e ↦ rw e refl
  ]

  named_other :
      (value : Json F) (name : String)
      → str_eq name "integer" ≡ false
      → check_type_name lib value name ≡ type_name_ok lib value name
  unfolding check_type_name is_integer json_type_of
  named_other null name other = let flip = str_eq_sym "null" name in ground arith
  named_other (boolean b) name other = let flip = str_eq_sym "boolean" name in ground arith
  named_other (string s) name other = let flip = str_eq_sym "string" name in ground arith
  named_other (array xs) name other = let flip = str_eq_sym "array" name in ground arith
  named_other (object m) name other = let flip = str_eq_sym "object" name in ground arith
  named_other (number f) name other =
      let flip = str_eq_sym "number" name in
      elim (Bool-cases (lib.is_integral f)) [
        | inl e ↦ rw e (ground arith)
        | inr e ↦ rw e (ground arith)
      ]

  check_type_name-ok :
      (value : Json F) (name : String)
      → check_type_name lib value name ≡ type_name_ok lib value name
  check_type_name-ok value name = elim (Bool-cases (str_eq name "integer")) [
    | inl e ↦
        subst (λ x. check_type_name lib value x ≡ type_name_ok lib value x)
          (sym ((eq_iff name "integer").0 e)) (named_integer value)
    | inr e ↦ named_other value name e
  ]

  mutual
    unfolding check_type type_ok

    pub check_type-ok : (value t : Json F) → check_type lib value t ≡ type_ok lib value t
    check_type-ok value (string name) = check_type_name-ok value name
    check_type-ok value (array ts) = check_types-ok value ts
    check_type-ok value null = refl
    check_type-ok value (boolean b) = refl
    check_type-ok value (number f) = refl
    check_type-ok value (object m) = refl

    check_types-ok :
        (value : Json F) (ts : Items F) → check_types lib value ts ≡ any_type_ok lib value ts
    check_types-ok value no_items = refl
    check_types-ok value (item t ts) = rw (check_type-ok value t, check_types-ok value ts) refl

  equals_any-any :
      (value : Json F) (es : Items F)
      → equals_any lib value es ≡ any_item (deep_equal lib.eq value) es
  unfolding equals_any
  equals_any-any value no_items = refl
  equals_any-any value (item e es) =
      ap (λ b. deep_equal lib.eq value e || b) (equals_any-any value es)

  pub check_enum-ok : (value e : Json F) → check_enum lib value e ≡ enum_ok lib value e
  unfolding check_enum
  check_enum-ok value (array es) = equals_any-any value es
  check_enum-ok value null = refl
  check_enum-ok value (boolean b) = refl
  check_enum-ok value (number f) = refl
  check_enum-ok value (string s) = refl
  check_enum-ok value (object m) = refl

  pub any_equal-any :
      (x : Json F) (xs : Items F) → any_equal lib x xs ≡ any_item (deep_equal lib.eq x) xs
  unfolding any_equal
  any_equal-any x no_items = refl
  any_equal-any x (item y ys) = elim (Bool-cases (deep_equal lib.eq x y)) [
    | inl e ↦ rw e refl
    | inr e ↦ rw e (any_equal-any x ys)
  ]
