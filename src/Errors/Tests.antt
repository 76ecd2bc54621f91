-- ===== src/Errors/Tests.antt =====
-- The answers to two errors of the database and one of the validator.
use sync_bridge.Base.{◌≡◌, refl, none, some, List, [], ◌∷◌, ◌++◌, arith}
use sync_bridge.Text.{str, to_upper}
use sync_bridge.Errors.{
  FieldError, other, validation, handle_db_error, new_conflict_error, duplicate_entry,
  parse_validation_error,
}
use sync_bridge.Errors.Unique.{
  Classified, unique_text, handle_db_error-Classified, handle_db_error_unique,
}
use sync_bridge.Errors.Validation.{lookup, last_failure, parse_validation_error-fields}
use sync_bridge.Handlers.Example.{ascii_only}

handle_db_error_unique_example :
    handle_db_error ascii_only (
      some (
        other (
          str "constraint failed: "
          ++ unique_text (str "employees") (str "email") (str " (2067)"))))
    ≡ new_conflict_error (duplicate_entry (to_upper ascii_only (str "email")))
unfolding str
handle_db_error_unique_example =
    handle_db_error_unique ascii_only (str "constraint failed: ") (str "employees") (str "email")
      (str " (2067)") (ground arith) ((λ e. cc e), refl) ((λ e. cc e), refl) refl

two_failures : List FieldError
two_failures =
    record { field = str "Email"; tag = str "required" }
    ∷ record { field = str "Email"; tag = str "email" }
    ∷ []

handle_db_error-Classified_example :
    Classified
      (str "disk I/O error")
      (handle_db_error ascii_only (some (other (str "disk I/O error"))))
unfolding str
handle_db_error-Classified_example =
    handle_db_error-Classified ascii_only (other (str "disk I/O error"))

parse_validation_error-fields_example :
    let e = parse_validation_error ascii_only (validation two_failures (str "failed")) in
    (e.status_code ≡ 400)
    × (e.message ≡ str "Validation failed")
    × (lookup (str "email") e.errors ≡ last_failure ascii_only (str "email") none two_failures)
parse_validation_error-fields_example =
    parse_validation_error-fields ascii_only (str "email") two_failures (str "failed")
