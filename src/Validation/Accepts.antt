-- ===== src/Validation/Accepts.antt =====
-- Which arguments the validation accepts.
use looplet.Prelude.{
  Bool, Bool-cases, List, Option, Option-cases, String, [], any, ap, arith, false, if◌then◌else◌,
  inl, inr, is_some, keep_if, length, map, none, not, refl, some, suc, sym, true, ℕ, ◌&&◌, ◌++◌,
  ◌==◌, ◌||◌, ◌∙◌, ◌∷◌, ◌≡◌,
}
use looplet.Prelude.Dict.{Dict, keys, lookup}
use looplet.Value.{Items, Value, bool, dict, int, list, null, text, tuple}
use looplet.Validation.{
  FieldSpec, OutputSchema, PyType, Violation, allowed_errors, bad_type, bool_type, dict_type,
  field_errors, fields_errors, has_type, int_type, is_allowed, is_bool, isinstance, list_type,
  missing_field, no_errors, none_type, not_allowed, same_type, str_type, type_errors, type_number,
  unknown_field, unknown_fields, validate_args, wrong_type,
}

-- the type of a value, a boolean being no integer; a tuple has none of the types
abbrev pub type_of : Value → Option PyType
type_of null = some none_type
type_of (bool b) = some bool_type
type_of (int n) = some int_type
type_of (text s) = some str_type
type_of (list vs) = some list_type
type_of (tuple vs) = none
type_of (dict fs) = some dict_type

abbrev pub is_of : List PyType → Value → Bool
is_of kinds value = elim (type_of value) [ none ↦ false | some kind ↦ has_type kind kinds ]

same_type_sym : (kind other : PyType) → same_type kind other ≡ same_type other kind
same_type_sym kind other = symmetric (type_number kind) (type_number other)
  where
    symmetric : (m n : ℕ) → (m == n) ≡ (n == m)
    symmetric m n = ground arith

any-same_type :
    (kind : PyType) (kinds : List PyType) → any (λ k. same_type k kind) kinds ≡ has_type kind kinds
any-same_type kind [] = refl
any-same_type kind (k ∷ kinds) = elim (Bool-cases (same_type k kind)) [
  | inl e ↦ rw (any, has_type, e, same_type_sym kind k, e)
  | inr e ↦ rw (any, has_type, e, same_type_sym kind k, e) (any-same_type kind kinds)
]

any-or {ℓ} :
    {A : Type ℓ} (p q : A → Bool) (xs : List A) → any (λ x. p x || q x) xs ≡ any p xs || any q xs
any-or p q [] = refl
any-or p q (x ∷ xs) = elim (Bool-cases (p x)) [
  | inl e ↦ rw (any, e)
  | inr e ↦ elim (Bool-cases (q x)) [
    | inl f ↦ rw (any, e, f) (sym (or_true (any p xs)))
    | inr f ↦ rw (any, e, f) (any-or p q xs)
  ]
]
  where
    or_true : (b : Bool) → b || true ≡ true
    or_true true = refl
    or_true false = refl

either_type : (b i : Bool) → (true && (i && not b)) || not (b || i) ≡ not b
either_type true true = refl
either_type true false = refl
either_type false true = refl
either_type false false = refl

-- the test of the type rejects exactly the values that are of none of the types
bad_type-is_of : (kinds : List PyType) (v : Value) → bad_type kinds v ≡ not (is_of kinds v)
unfolding bad_type is_bool isinstance
bad_type-is_of kinds null = ap not (any-same_type none_type kinds)
bad_type-is_of kinds (bool b) =
    ap (λ x. (true && (has_type int_type kinds && not (has_type bool_type kinds))) || not x)
      (any-or (λ k. same_type k bool_type) (λ k. same_type k int_type) kinds
        ∙ rw (any-same_type bool_type kinds, any-same_type int_type kinds))
    ∙ either_type (has_type bool_type kinds) (has_type int_type kinds)
bad_type-is_of kinds (int n) = ap not (any-same_type int_type kinds)
bad_type-is_of kinds (text s) = ap not (any-same_type str_type kinds)
bad_type-is_of kinds (list vs) = ap not (any-same_type list_type kinds)
bad_type-is_of kinds (tuple vs) = ap not (never kinds)
  where
    never : (ks : List PyType) → any (λ k. false) ks ≡ false
    never [] = refl
    never (k ∷ ks) = never ks
bad_type-is_of kinds (dict fs) = ap not (any-same_type dict_type kinds)

-- every member passes a test
abbrev pub every {ℓ} : {A : Type ℓ} → (A → Bool) → List A → Bool
every p [] = true
every p (x ∷ xs) = p x && every p xs

abbrev pub right_type : Option (List PyType) → Value → Bool
right_type none value = true
right_type (some kinds) value = is_of kinds value

module _ (equal : Value → Value → Bool) (sorted : List String → List String)
    (same_length : (xs : List String) → length (sorted xs) ≡ length xs) where
  abbrev pub allowed : Option Items → Value → Bool
  allowed none value = true
  allowed (some vs) value = is_allowed equal sorted value vs

  -- a field that is missing must not be required; one that is there has a type and a value it may have
  abbrev pub accepted : Dict Value → String → FieldSpec → Bool
  accepted args name spec = elim (lookup name args) [
    | none ↦ not spec.required
    | some value ↦ right_type spec.field_type value && allowed spec.allowed_values value
  ]

  no_errors-append :
      (xs ys : List Violation)
      → no_errors equal sorted (xs ++ ys) ≡ no_errors equal sorted xs && no_errors equal sorted ys
  no_errors-append [] ys = refl
  no_errors-append (x ∷ xs) ys = refl

  no_errors-if :
      (b : Bool) (v : Violation) → no_errors equal sorted (if b then v ∷ [] else []) ≡ not b
  no_errors-if true v = refl
  no_errors-if false v = refl

  no_errors-unless :
      (b : Bool) (v : Violation) → no_errors equal sorted (if b then [] else v ∷ []) ≡ b
  no_errors-unless true v = refl
  no_errors-unless false v = refl

  no_errors-type :
      (name : String) (t : Option (List PyType)) (value : Value)
      → no_errors equal sorted (type_errors name t value) ≡ right_type t value
  unfolding type_errors
  no_errors-type name none value = refl
  no_errors-type name (some kinds) value =
      no_errors-if (bad_type kinds value) (wrong_type name)
      ∙ ap not (bad_type-is_of kinds value)
      ∙ twice (is_of kinds value)
    where
      twice : (b : Bool) → not (not b) ≡ b
      twice true = refl
      twice false = refl

  no_errors-allowed :
      (name : String) (vs : Option Items) (value : Value)
      → no_errors equal sorted (allowed_errors equal sorted name vs value) ≡ allowed vs value
  unfolding allowed_errors
  no_errors-allowed name none value = refl
  no_errors-allowed name (some vs) value =
      no_errors-unless (is_allowed equal sorted value vs) (not_allowed name)

  no_errors-field :
      (args : Dict Value) (name : String) (spec : FieldSpec)
      → no_errors equal sorted (field_errors equal sorted args name spec) ≡ accepted args name spec
  unfolding field_errors
  no_errors-field args name spec = elim (Option-cases (lookup name args)) [
    | inl e ↦ rw (field_errors, accepted, e) (no_errors-if spec.required (missing_field name))
    | inr (value, e) ↦
        rw (field_errors, accepted, e)
          (no_errors-append (type_errors name spec.field_type value) _
            ∙ rw (
              no_errors-type name spec.field_type value,
              no_errors-allowed name spec.allowed_values value,
            ))
  ]

  no_errors-fields :
      (args : Dict Value) (fields : Dict FieldSpec)
      → no_errors equal sorted (fields_errors equal sorted args fields)
        ≡ every (λ f. accepted args f.0 f.1) fields
  unfolding fields_errors
  no_errors-fields args [] = refl
  no_errors-fields args ((name, spec) ∷ fields) =
      no_errors-append (field_errors equal sorted args name spec) _
      ∙ rw (no_errors-field args name spec, no_errors-fields args fields)

  empty : List String → Bool
  empty [] = true
  empty (x ∷ xs) = false

  no_errors-map : (xs : List String) → no_errors equal sorted (map unknown_field xs) ≡ empty xs
  unfolding empty
  no_errors-map [] = refl
  no_errors-map (x ∷ xs) = refl

  empty-length : (xs ys : List String) → length xs ≡ length ys → empty xs ≡ empty ys
  unfolding empty
  empty-length [] [] h = refl
  empty-length [] (y ∷ ys) h = elim (none_some (length ys) h) [ ]
    where
      none_some : (n : ℕ) → 0 ≡ suc n → ⊥
      none_some n e = omega arith
  empty-length (x ∷ xs) [] h = elim (some_none (length xs) h) [ ]
    where
      some_none : (n : ℕ) → suc n ≡ 0 → ⊥
      some_none n e = omega arith
  empty-length (x ∷ xs) (y ∷ ys) h = refl

  empty-keep_if :
      (p : String → Bool) (xs : List String) → empty (keep_if (λ x. not (p x)) xs) ≡ every p xs
  unfolding empty
  empty-keep_if p [] = refl
  empty-keep_if p (x ∷ xs) = elim (Bool-cases (p x)) [
    | inl e ↦ rw (keep_if, e) (empty-keep_if p xs)
    | inr e ↦ rw (keep_if, e)
  ]

  -- The validation accepts the arguments exactly when every field of the schema is accepted (a missing
  -- one is not required, the type of a value is one of the field's types, where a boolean is no integer,
  -- and the value is one of those allowed) and, in a strict schema, every argument is a field of it. Sorting
  -- keeps the number of names.
  pub validate_args-accepted :
      (schema : OutputSchema) (args : Dict Value)
      → (validate_args equal sorted schema args).valid
        ≡ every (λ f. accepted args f.0 f.1) schema.fields
          && (not schema.strict || every (λ name. is_some (lookup name schema.fields)) (keys args))
  unfolding validate_args
  validate_args-accepted schema args = elim (Bool-cases schema.strict) [
    | inl e ↦
        rw (validate_args, e)
          (no_errors-append (fields_errors equal sorted args schema.fields) _
            ∙ rw
                (
                  no_errors-fields args schema.fields,
                  no_errors-map (unknown_fields equal sorted schema args),
                )
                (ap (λ b. every (λ f. accepted args f.0 f.1) schema.fields && b)
                  (empty-length _ _ (same_length _)
                    ∙ empty-keep_if (λ name. is_some (lookup name schema.fields)) (keys args))))
    | inr e ↦ rw (validate_args, e) (no_errors-fields args schema.fields ∙ sym (and_true _))
  ]
    where
      and_true : (b : Bool) → b && true ≡ b
      and_true true = refl
      and_true false = refl
