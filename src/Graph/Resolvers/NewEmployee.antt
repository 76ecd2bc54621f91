-- ===== src/Graph/Resolvers/NewEmployee.antt =====
-- The row that CreateEmployee of schema.resolvers.go writes, and the employee that a scan of it gives.
use sync_bridge.Base.{List, [], ◌∷◌, ◌≡◌, refl, Option, none, some, if◌then◌else◌}
use sync_bridge.Text.{Bytes, str, eqb, join, trim_space, Unicode}
use sync_bridge.Sql.Schema.{EmployeeRow}
use sync_bridge.Graph.Model.{CreateEmployeeInput, Employee, scan_employee, date_column, full_name}
use sync_bridge.Graph.Resolvers.{created_row}

-- The row has what the input gives, and NULL in every other column.
abbrev pub IsNewRow : CreateEmployeeInput → EmployeeRow → Type 0
IsNewRow input row =
    (row.employee_id ≡ input.employee_id)
    × (row.first_name ≡ input.first_name)
    × (row.middle_name ≡ input.middle_name)
    × (row.last_name ≡ input.last_name)
    × (row.gender ≡ none)
    × (row.email ≡ input.email)
    × (row.phone_number ≡ none)
    × (row.date_of_birth ≡ none)
    × (row.nationality ≡ none)
    × (row.job_level ≡ none)
    × (row.department ≡ none)
    × (row.location ≡ none)
    × (row.bank_account_number ≡ none)
    × (row.company ≡ input.company)
    × (row.job_title ≡ input.job_title)
    × (row.cost_center ≡ none)
    × (row.start_date ≡ none)
    × (row.employee_status ≡ none)
    × (row.manager_id ≡ none)
    × (row.manager_email ≡ none)
    × (row.last_modified_on ≡ none)
    × (row.last_modified ≡ none)

-- The texts that have more than white space.
unfoldable pub filled : Unicode → List Bytes → List Bytes
filled u [] = []
filled u (s ∷ l) = let rest = filled u l in if eqb (trim_space u s) [] then rest else s ∷ rest

abbrev pub names_of : CreateEmployeeInput → List Bytes
names_of input = elim input.middle_name [
  | none ↦ input.first_name ∷ input.last_name ∷ []
  | some middle ↦ input.first_name ∷ middle ∷ input.last_name ∷ []
]

-- The employee has what the input gives and nothing else, and as its full name those of its names
-- that are not blank, with spaces between them.
abbrev pub IsNewEmployee : Unicode → {Time : Type 0} → CreateEmployeeInput → Employee Time → Type 0
IsNewEmployee u input emp =
    (emp.id ≡ input.id)
    × (emp.employee_id ≡ input.employee_id)
    × (emp.first_name ≡ input.first_name)
    × (emp.middle_name ≡ input.middle_name)
    × (emp.last_name ≡ input.last_name)
    × (emp.gender ≡ none)
    × (emp.email ≡ input.email)
    × (emp.phone_number ≡ none)
    × (emp.date_of_birth ≡ none)
    × (emp.nationality ≡ none)
    × (emp.job_level ≡ none)
    × (emp.department ≡ none)
    × (emp.location ≡ none)
    × (emp.bank_account_number ≡ none)
    × (emp.company ≡ input.company)
    × (emp.job_title ≡ input.job_title)
    × (emp.cost_center ≡ none)
    × (emp.start_date ≡ none)
    × (emp.employee_status ≡ none)
    × (emp.manager_id ≡ none)
    × (emp.manager_email ≡ none)
    × (emp.last_modified_on ≡ none)
    × (emp.last_modified ≡ none)
    × (emp.full_name ≡ join (str " ") (filled u (names_of input)))

pub created_row-IsNewRow : (input : CreateEmployeeInput) → IsNewRow input (created_row input)
created_row-IsNewRow input = (
  refl, refl, refl, refl, refl, refl, refl, refl, refl, refl, refl, refl, refl, refl, refl, refl,
  refl, refl, refl, refl, refl, refl,
)

full_name-filled :
    (u : Unicode) (first last : Bytes) (middle : Option Bytes)
    → full_name u first middle last
      ≡ join
          (str " ")
          (filled u (elim middle [ none ↦ first ∷ last ∷ [] | some m ↦ first ∷ m ∷ last ∷ [] ]))
unfolding full_name filled
full_name-filled u first last none = refl
full_name-filled u first last (some m) = refl

pub scanned-IsNewEmployee :
    (u : Unicode) {Time : Type 0} (parse : Bytes → Bytes → Option Time)
    (input : CreateEmployeeInput)
    → IsNewEmployee u input (scan_employee u parse (input.id, created_row input))
unfolding scan_employee date_column
scanned-IsNewEmployee u parse input = (
  refl,
  refl,
  refl,
  refl,
  refl,
  refl,
  refl,
  refl,
  refl,
  refl,
  refl,
  refl,
  refl,
  refl,
  refl,
  refl,
  refl,
  refl,
  refl,
  refl,
  refl,
  refl,
  refl,
  full_name-filled u input.first_name input.last_name input.middle_name,
)
