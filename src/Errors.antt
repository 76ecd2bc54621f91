-- ===== src/Errors.antt =====
-- internal/errors/errors.go: the errors that handlers answer with, and how database and validation
-- errors are turned into them. Go's `error` values are `GoError`.
pub mod Unique
pub mod Validation
mod Tests
use sync_bridge.Base.{
  ℕ, ◌≡◌, Bool, true, false, Option, none, some, List, [], ◌∷◌, ◌++◌, if◌then◌else◌, ◌==◌, reverse,
}
use sync_bridge.Text.{
  Bytes, str, eqb, strip_prefix, from_index, contains, split, Unicode, to_upper, to_lower,
  trim_space, take_word,
}

pub record AppError : Type 0 where
  pub status_code : ℕ
  pub message : Bytes
  -- a Go map; nil and the empty map are both `[]`, and neither is printed
  pub errors : List (Bytes × Bytes)

pub record FieldError : Type 0 where
  pub field : Bytes
  pub tag : Bytes

-- An `error`: an `AppError`, the validator's `ValidationErrors` with its text, `sql.ErrNoRows`, or
-- any other with its text.
pub data GoError : Type 0 where
  app : AppError → GoError
  validation : List FieldError → Bytes → GoError
  no_rows : GoError
  other : Bytes → GoError

-- `AppError.Error`
abbrev pub error : AppError → Bytes
error e = e.message

-- `err.Error()`
abbrev pub error_text : GoError → Bytes
error_text (app e) = error e
error_text (validation fs text) = text
error_text no_rows = str "sql: no rows in result set"
error_text (other text) = text

abbrev new_unauthorized_error : AppError
new_unauthorized_error = record { status_code = 401; message = str "Access Denied"; errors = [] }

abbrev new_validation_error : List (Bytes × Bytes) → AppError
new_validation_error errors = record {
  status_code = 400;
  message = str "Validation failed";
  errors = errors;
}

abbrev pub new_conflict_error : Bytes → AppError
new_conflict_error msg = record { status_code = 409; message = msg; errors = [] }

abbrev pub new_bad_request_error : Bytes → AppError
new_bad_request_error msg = record { status_code = 400; message = msg; errors = [] }

abbrev pub new_not_found_error : Bytes → AppError
new_not_found_error msg = record { status_code = 404; message = msg; errors = [] }

abbrev pub new_internal_error : GoError → AppError
new_internal_error err = record {
  status_code = 500;
  message = str "Internal Server Error";
  errors = [];
}

-- `sqliteUniqueRegex` at the start of a text: the group of the match
match_group : Bytes → Option Bytes
match_group rest =
    let (group, after) = take_word rest in elim group [ [] ↦ none | c ∷ g ↦ some (c ∷ g) ]

match_table : Bytes → Option Bytes
unfolding match_group
match_table rest =
    let (table, after) = take_word rest in
    elim table [
      | [] ↦ none
      | c ∷ t ↦ elim after [
        | [] ↦ none
        | d ∷ column ↦ if d == b'.' then match_group column else none
      ]
    ]

match_here : Bytes → Option Bytes
unfolding match_table
match_here s = elim (strip_prefix s (str "UNIQUE constraint failed: ")) [
  | none ↦ none
  | some rest ↦ match_table rest
]

-- `FindStringSubmatch`: the leftmost match
find_submatch : Bytes → Option Bytes
unfolding match_here
find_submatch [] = match_here []
find_submatch (c ∷ s) =
    let later = find_submatch s in
    elim (match_here (c ∷ s)) [ none ↦ later | some group ↦ some group ]

abbrev pub duplicate_entry : Bytes → Bytes
duplicate_entry field = str "Duplicate entry: field '" ++ (field ++ str "' already exists")

-- `parts[len(parts)-1]` of a list that has more than one part
abbrev last_part : List Bytes → Option Bytes
last_part parts = elim (reverse parts) [
  | [] ↦ none
  | p ∷ r ↦ elim r [ [] ↦ none | q ∷ r' ↦ some p ]
]

-- `parts[1]` of a list that has more than one part
abbrev second_part : List Bytes → Option Bytes
second_part parts = elim parts [ [] ↦ none | p ∷ r ↦ elim r [ [] ↦ none | q ∷ r' ↦ some q ] ]

abbrev pub failed_on : FieldError → Bytes
failed_on e = str "Field validation failed on the '" ++ (e.tag ++ str "' tag")

-- `m[k] = v`
put_error : Bytes → Bytes → List (Bytes × Bytes) → List (Bytes × Bytes)
put_error k v [] = (k, v) ∷ []
put_error k v ((j, w) ∷ m) = if eqb j k then (k, v) ∷ m else (j, w) ∷ put_error k v m

module _ (u : Unicode) where
  -- the fallback of `HandleDBError`, where the regular expression finds nothing
  unique_fallback : Bytes → AppError
  unique_fallback msg = elim (from_index msg (str "UNIQUE constraint failed:")) [
    | none ↦ new_conflict_error (str "Duplicate entry: unique constraint violated")
    | some sub ↦ elim (last_part (split b'.' sub)) [
      | some part ↦ new_conflict_error (duplicate_entry (to_upper u (trim_space u part)))
      | none ↦ elim (second_part (split b':' sub)) [
        | some part ↦ new_conflict_error (duplicate_entry (to_upper u (trim_space u part)))
        | none ↦ new_conflict_error (str "Duplicate entry: unique constraint violated")
      ]
    ]
  ]

  unique_error : Bytes → AppError
  unfolding find_submatch unique_fallback
  unique_error msg = elim (find_submatch msg) [
    | some group ↦ new_conflict_error (duplicate_entry (to_upper u group))
    | none ↦ unique_fallback msg
  ]

  unfoldable pub handle_db_error : Option GoError → AppError
  unfolding unique_error
  handle_db_error none = record { status_code = 0; message = []; errors = [] }
  handle_db_error (some err) =
      if contains (error_text err) (str "UNIQUE constraint failed")
      then unique_error (error_text err)
      else record { status_code = 500; message = error_text err; errors = [] }

  -- the `switch` of `ParseValidationError`
  unfoldable pub tag_name : Bytes → Bytes
  tag_name field =
      if eqb field (str "FirstName")
      then str "first_name"
      else if eqb field (str "LastName")
      then str "last_name"
      else if eqb field (str "DefaultCurrency")
      then str "default_currency"
      else if eqb field (str "OrderNumber")
      then str "order_number"
      else if eqb field (str "CustomerID")
      then str "customer_id"
      else if eqb field (str "ProductID")
      then str "product_id"
      else if eqb field (str "UnitPrice")
      then str "unit_price"
      else if eqb field (str "WeightGrams")
      then str "weight_grams"
      else to_lower u field

  collect_errors : List FieldError → List (Bytes × Bytes) → List (Bytes × Bytes)
  unfolding put_error
  collect_errors [] m = m
  collect_errors (e ∷ es) m = collect_errors es (put_error (tag_name e.field) (failed_on e) m)

  unfoldable pub parse_validation_error : GoError → AppError
  unfolding collect_errors
  parse_validation_error (validation fs text) = new_validation_error (collect_errors fs [])
  parse_validation_error (app e) = new_validation_error ((str "error", error e) ∷ [])
  parse_validation_error no_rows = new_validation_error ((str "error", error_text no_rows) ∷ [])
  parse_validation_error (other text) = new_validation_error ((str "error", text) ∷ [])
