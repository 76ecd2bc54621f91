-- ===== src/Graph/Model.antt =====
-- graph/model/models_gen.go and `scanEmployee` of graph/schema.resolvers.go: an employee as GraphQL
-- shows it. Instants are of a type of the time package, a parameter.

use sync_bridge.Base.{Bool, Option, none, some, List, [], ◌∷◌, if◌then◌else◌}
use sync_bridge.Base.Int.{ℤ}
use sync_bridge.Text.{Bytes, str, eqb, Unicode, trim_space, join}
use sync_bridge.Sql.Schema.{EmployeeRow}

pub record CreateEmployeeInput : Type 0 where
  pub id : ℤ
  pub employee_id : Bytes
  pub first_name : Bytes
  pub last_name : Bytes
  pub email : Bytes
  pub middle_name : Option Bytes
  pub company : Option Bytes
  pub job_title : Option Bytes

pub record UpdateEmployeeInput : Type 0 where
  pub first_name : Option Bytes
  pub last_name : Option Bytes
  pub email : Option Bytes
  pub middle_name : Option Bytes
  pub company : Option Bytes
  pub job_title : Option Bytes

pub record Employee (Time : Type 0) : Type 0 where
  pub id : ℤ
  pub employee_id : Bytes
  pub first_name : Bytes
  pub middle_name : Option Bytes
  pub last_name : Bytes
  pub gender : Option Bytes
  pub email : Bytes
  pub phone_number : Option Bytes
  pub date_of_birth : Option Time
  pub nationality : Option Bytes
  pub job_level : Option Bytes
  pub department : Option Bytes
  pub location : Option Bytes
  pub bank_account_number : Option Bytes
  pub company : Option Bytes
  pub job_title : Option Bytes
  pub cost_center : Option Bytes
  pub start_date : Option Time
  pub employee_status : Option Bytes
  pub manager_id : Option Bytes
  pub manager_email : Option Bytes
  pub last_modified_on : Option Time
  pub last_modified : Option ℤ
  pub full_name : Bytes

-- the layouts that `parseTime` tries, in order
abbrev layouts : List Bytes
layouts =
    str "2006-01-02T15:04:05Z07:00"
    ∷ str "2006-01-02T15:04:05Z"
    ∷ str "2006-01-02 15:04:05"
    ∷ str "2006-01-02"
    ∷ []

-- `time.Parse` by layout and text; `none` is an error.
module _ {Time : Type 0} (parse : Bytes → Bytes → Option Time) where
  unfoldable pub first_parse : List Bytes → Bytes → Option Time
  first_parse [] s = none
  first_parse (layout ∷ more) s = elim (parse layout s) [
    | some t ↦ some t
    | none ↦ first_parse more s
  ]

  unfoldable pub parse_time : Bytes → Option Time
  unfolding first_parse
  parse_time s = first_parse layouts s

  -- a column with a date: NULL, the empty text and a text that does not parse give no date
  unfoldable pub date_column : Option Bytes → Option Time
  unfolding parse_time
  date_column none = none
  date_column (some s) = if eqb s [] then none else parse_time s

module _ (u : Unicode) where
  abbrev is_blank : Bytes → Bool
  is_blank s = eqb (trim_space u s) []

  abbrev pub part : Option Bytes → List Bytes → List Bytes
  part none parts = parts
  part (some s) parts = if is_blank s then parts else s ∷ parts

  unfoldable pub full_name : Bytes → Option Bytes → Bytes → Bytes
  full_name first middle last =
      join (str " ") (part (some first) (part middle (part (some last) [])))

  unfoldable pub scan_employee :
      {Time : Type 0} → (Bytes → Bytes → Option Time) → ℤ × EmployeeRow → Employee Time
  unfolding date_column full_name
  scan_employee parse (id, r) = record {
    id = id;
    employee_id = r.employee_id;
    first_name = r.first_name;
    middle_name = r.middle_name;
    last_name = r.last_name;
    gender = r.gender;
    email = r.email;
    phone_number = r.phone_number;
    date_of_birth = date_column parse r.date_of_birth;
    nationality = r.nationality;
    job_level = r.job_level;
    department = r.department;
    location = r.location;
    bank_account_number = r.bank_account_number;
    company = r.company;
    job_title = r.job_title;
    cost_center = r.cost_center;
    start_date = date_column parse r.start_date;
    employee_status = r.employee_status;
    manager_id = r.manager_id;
    manager_email = r.manager_email;
    last_modified_on = date_column parse r.last_modified_on;
    last_modified = r.last_modified;
    full_name = full_name r.first_name r.middle_name r.last_name;
  }
