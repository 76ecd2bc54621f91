-- ===== src/Graph/Resolvers.antt =====
-- graph/schema.resolvers.go: the queries and mutations on employees.
pub mod Lookup
pub mod Within
pub mod Update
pub mod NewEmployee
pub mod Create
pub mod Delete
mod Tests
use sync_bridge.Base.{ℕ, Bool, Option, none, some, List, [], ◌∷◌, ◌++◌, if◌then◌else◌, get_or, ltb}
use sync_bridge.Base.Int.{ℤ, pos, ltb_ℤ}
use sync_bridge.Text.{Bytes, str, to_lower}
use sync_bridge.Errors.{app, other, handle_db_error}
use sync_bridge.Sql.Schema.{EmployeeRow}
use sync_bridge.Sql.Statement.{EmployeeUpdate, create_employee, update_employee, delete_employee}
use sync_bridge.Sql.Query.{
  Scan, scanned, scan_failed, Cursor, get_employee, list_employees, search_employees,
}
use sync_bridge.Sql.Engine.{Result, ok, err, Done, rows_affected}
use sync_bridge.Handlers.Action.{
  Outcome, returned, failed, panicked, Action, pure, fail, ◌>>=◌, ◌>>◌,
}
use sync_bridge.Handlers.Host.{Host}
use sync_bridge.Graph.Broker.{EmployeeBroker, subscribe, unsubscribe, publish}
use sync_bridge.Graph.Model.{CreateEmployeeInput, UpdateEmployeeInput, Employee, scan_employee}

-- the columns of `CreateEmployee`; the others are NULL
abbrev pub created_row : CreateEmployeeInput → EmployeeRow
created_row input = record {
  employee_id = input.employee_id;
  first_name = input.first_name;
  middle_name = input.middle_name;
  last_name = input.last_name;
  gender = none;
  email = input.email;
  phone_number = none;
  date_of_birth = none;
  nationality = none;
  job_level = none;
  department = none;
  location = none;
  bank_account_number = none;
  company = input.company;
  job_title = input.job_title;
  cost_center = none;
  start_date = none;
  employee_status = none;
  manager_id = none;
  manager_email = none;
  last_modified_on = none;
  last_modified = none;
}

-- a pointer of the input, else the column that is there
abbrev pub or_existing : Option Bytes → Option Bytes → Option Bytes
or_existing none old = old
or_existing (some new) old = some new

-- what `UpdateEmployee` binds, from the employee that it has read
abbrev pub updated_values : {Time : Type 0} → Employee Time → UpdateEmployeeInput → EmployeeUpdate
updated_values existing input = record {
  first_name = get_or input.first_name existing.first_name;
  last_name = get_or input.last_name existing.last_name;
  email = get_or input.email existing.email;
  middle_name = or_existing input.middle_name existing.middle_name;
  company = or_existing input.company existing.company;
  job_title = or_existing input.job_title existing.job_title;
}

-- `safeOffset` and `safeLimit`
abbrev positive_else : ℤ → Option ℤ → ℤ
positive_else d none = d
positive_else d (some n) = if ltb_ℤ (pos 0) n then n else d

module _ (h : Host) {Time : Type 0} (parse : Bytes → Bytes → Option Time) where
  open h use {unicode, engine}

  pub record GraphState : Type 0 where
    pub db : engine.State
    pub broker : EmployeeBroker (Employee Time)

  -- the first row of the answer, if there is one
  unfoldable pub first_employee :
      Result (Cursor (ℤ × EmployeeRow)) → Outcome (Option (Employee Time))
  first_employee (ok cursor) = elim cursor.rows [
    | [] ↦ returned none
    | row ∷ rows ↦ elim row [
      | scanned r ↦ returned (some (scan_employee unicode parse r))
      | scan_failed text ↦ failed (other text)
    ]
  ]
  first_employee (err text) = failed (other text)

  unfoldable pub get_employee_by_id : ℤ → Action GraphState (Option (Employee Time))
  unfolding first_employee
  get_employee_by_id id s =
      let (r, db) = engine.query (get_employee id) s.db in (first_employee r, record s { db = db })

  -- an error of the statement goes through `HandleDBError`
  abbrev pub or_db_error : Result Done → Outcome Done
  or_db_error (ok d) = returned d
  or_db_error (err text) = failed (app (handle_db_error unicode (some (other text))))

  unfoldable pub insert_created : CreateEmployeeInput → Action GraphState Done
  insert_created input s =
      let (r, db) = engine.exec (create_employee input.id (created_row input)) s.db in
      (or_db_error r, record s { db = db })

  unfoldable pub update_columns : ℤ → EmployeeUpdate → Action GraphState Done
  update_columns id values s =
      let (r, db) = engine.exec (update_employee id values) s.db in
      (or_db_error r, record s { db = db })

  -- `r.Broker.Publish(emp)`
  unfoldable pub publish_employee : Employee Time → Action GraphState Unit
  publish_employee emp s = elim (publish emp s.broker) [
    | none ↦ (panicked, s)
    | some broker ↦ (returned tt, record s { broker = broker })
  ]

  unfoldable pub publish_found : Option (Employee Time) → Action GraphState (Employee Time)
  publish_found none = fail (other (str "failed to retrieve newly created employee"))
  publish_found (some emp) = do publish_employee emp; pure emp

  unfoldable pub create_employee_resolver : CreateEmployeeInput → Action GraphState (Employee Time)
  create_employee_resolver input = do
    insert_created input
    emp ← get_employee_by_id input.id
    publish_found emp

  unfoldable pub update_found :
      ℤ → UpdateEmployeeInput → Option (Employee Time) → Action GraphState (Option (Employee Time))
  update_found id input none = pure none
  update_found id input (some existing) = do
    update_columns id (updated_values existing input)
    get_employee_by_id id

  unfoldable pub update_employee_resolver :
      ℤ → UpdateEmployeeInput → Action GraphState (Option (Employee Time))
  update_employee_resolver id input = do
    existing ← get_employee_by_id id
    update_found id input existing

  abbrev pub any_affected : Result Done → Outcome Bool
  any_affected (ok done) = elim (rows_affected done) [
    | ok n ↦ returned (ltb 0 n)
    | err text ↦ failed (other text)
  ]
  any_affected (err text) = failed (other text)

  unfoldable pub delete_employee_resolver : ℤ → Action GraphState Bool
  delete_employee_resolver id s =
      let (r, db) = engine.exec (delete_employee id) s.db in (any_affected r, record s { db = db })

  unfoldable scan_all : List (Scan (ℤ × EmployeeRow)) → Outcome (List (Employee Time))
  scan_all [] = returned []
  scan_all (scanned r ∷ rows) = elim (scan_all rows) [
    | returned list ↦ returned (scan_employee unicode parse r ∷ list)
    | failed e ↦ failed e
    | panicked ↦ panicked
  ]
  scan_all (scan_failed text ∷ rows) = failed (other text)

  unfoldable scan_cursor : Result (Cursor (ℤ × EmployeeRow)) → Outcome (List (Employee Time))
  unfolding scan_all
  scan_cursor (ok cursor) = scan_all cursor.rows
  scan_cursor (err text) = failed (other text)

  unfoldable pub employees_resolver : Option ℤ → Option ℤ → Action GraphState (List (Employee Time))
  unfolding scan_cursor
  employees_resolver offset limit s =
      let (r, db) =
        engine.query (list_employees (positive_else (pos 10) limit) (positive_else (pos 0) offset))
          s.db in
      (scan_cursor r, record s { db = db })

  -- the pattern of LIKE: the wildcards that `search` itself contains stay
  unfoldable search_pattern : Bytes → Bytes
  search_pattern search = str "%" ++ (to_lower unicode search ++ str "%")

  unfoldable pub search_employees_resolver :
      Bytes → Option ℤ → Option ℤ → Action GraphState (List (Employee Time))
  unfolding scan_cursor search_pattern
  search_employees_resolver search offset limit s =
      let (r, db) =
        engine.query
          (search_employees (search_pattern search) (positive_else (pos 10) limit)
            (positive_else (pos 0) offset))
          s.db in
      (scan_cursor r, record s { db = db })

  abbrev hello_resolver : Bytes
  hello_resolver = str "Hello from Sync Bridge"

  unfoldable pub employee_resolver : ℤ → Action GraphState (Option (Employee Time))
  employee_resolver id = get_employee_by_id id

  -- `EmployeeCreated`: the channel that the subscriber reads
  unfoldable pub employee_created_resolver : GraphState → GraphState × ℕ
  employee_created_resolver s =
      let (broker, ch) = subscribe s.broker in (record s { broker = broker }, ch)

  abbrev pub with_some : Option (EmployeeBroker (Employee Time)) → GraphState → Option GraphState
  with_some none s = none
  with_some (some broker) s = some (record s { broker = broker })

  -- its goroutine, after `ctx.Done()`; `none` is a panic
  unfoldable pub subscription_done : ℕ → GraphState → Option GraphState
  subscription_done ch s = with_some (unsubscribe ch s.broker) s
