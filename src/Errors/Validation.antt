-- ===== src/Errors/Validation.antt =====
-- What `ParseValidationError` lists.
use sync_bridge.Base.{
  ◌≡◌, refl, Option, none, some, List, [], ◌∷◌, arith, if◌then◌else◌, ◌∙◌, ap, ◌++◌,
}
use sync_bridge.Text.{Bytes, str, eqb, to_lower, Unicode}
use sync_bridge.Text.Laws.{eqb_iff}
use sync_bridge.Errors.{
  GoError, app, no_rows, other, FieldError, validation, tag_name, failed_on, put_error,
  collect_errors, parse_validation_error,
}

-- The entry of a Go map.
unfoldable pub lookup : Bytes → List (Bytes × Bytes) → Option Bytes
lookup k [] = none
lookup k ((j, v) ∷ m) = if eqb j k then some v else lookup k m

lookup-put_error :
    (k j v : Bytes) (m : List (Bytes × Bytes))
    → lookup j (put_error k v m) ≡ (if eqb k j then some v else lookup j m)
unfolding lookup put_error
lookup-put_error k j v [] = refl
lookup-put_error k j v ((i, w) ∷ m) =
    ground (arith, eqb_iff k j, eqb_iff i k, eqb_iff i j, lookup-put_error k j v m)

-- The names under which the fields of the requests are reported.
abbrev pub reported_names : List (Bytes × Bytes)
reported_names =
    (str "FirstName", str "first_name")
    ∷ (str "LastName", str "last_name")
    ∷ (str "DefaultCurrency", str "default_currency")
    ∷ (str "OrderNumber", str "order_number")
    ∷ (str "CustomerID", str "customer_id")
    ∷ (str "ProductID", str "product_id")
    ∷ (str "UnitPrice", str "unit_price")
    ∷ (str "WeightGrams", str "weight_grams")
    ∷ []

-- The name of a field in a table of names, else another one.
unfoldable pub named : Bytes → List (Bytes × Bytes) → Bytes → Bytes
named field [] else_ = else_
named field ((f, n) ∷ names) else_ =
    let rest = named field names else_ in if eqb field f then n else rest

-- What is said of a field that breaks a rule.
abbrev pub broken : Bytes → Bytes
broken tag = str "Field validation failed on the '" ++ (tag ++ str "' tag")

tag_name-named :
    (u : Unicode) (field : Bytes) → tag_name u field ≡ named field reported_names (to_lower u field)
unfolding tag_name named
tag_name-named u field = refl

module _ (u : Unicode) (name : Bytes) where
  -- The last of the failed fields that is reported under a name, else what was there.
  unfoldable pub last_failure : Option Bytes → List FieldError → Option Bytes
  last_failure before [] = before
  last_failure before (e ∷ es) =
      last_failure
        (if eqb (named e.field reported_names (to_lower u e.field)) name
          then some (broken e.tag)
          else before)
        es

  lookup-collect_errors :
      (fs : List FieldError) (m : List (Bytes × Bytes))
      → lookup name (collect_errors u fs m) ≡ last_failure (lookup name m) fs
  unfolding collect_errors last_failure
  lookup-collect_errors [] m = refl
  lookup-collect_errors (e ∷ es) m =
      let put_it = lookup-put_error (tag_name u e.field) name (failed_on e) m in
      lookup-collect_errors es (put_error (tag_name u e.field) (failed_on e) m)
      ∙ ap (λ o. last_failure o es)
          (put_it
            ∙ ap (λ n. if eqb n name then some (broken e.tag) else lookup name m)
                (tag_name-named u e.field))

  -- A failed validation is answered with 400 and "Validation failed". A field is reported under its
  -- name in the table `reported_names`, or under its own in lower case, and each name of the answer
  -- carries "Field validation failed on the '…' tag" with the rule that the last failed field
  -- reported under that name broke.
  pub parse_validation_error-fields :
      (fs : List FieldError) (text : Bytes)
      → ((parse_validation_error u (validation fs text)).status_code ≡ 400)
        × ((parse_validation_error u (validation fs text)).message ≡ str "Validation failed")
        × (lookup name (parse_validation_error u (validation fs text)).errors
            ≡ last_failure none fs)
  unfolding parse_validation_error
  parse_validation_error-fields fs text =
      (refl, refl, lookup-collect_errors fs [] ∙ unfold lookup in refl)

-- Whatever the error of a validation is, the answer is 400.
pub parse_validation_error-code :
    (u : Unicode) (x : GoError) → (parse_validation_error u x).status_code ≡ 400
unfolding parse_validation_error
parse_validation_error-code u (app e) = refl
parse_validation_error-code u (validation fs text) = refl
parse_validation_error-code u no_rows = refl
parse_validation_error-code u (other text) = refl
