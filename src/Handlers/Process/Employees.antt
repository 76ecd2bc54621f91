-- ===== src/Handlers/Process/Employees.antt =====
-- The row that an employee item leaves.
use sync_bridge.Base.{◌≡◌, refl, ap, subst, ◌∙◌, Option, none, some, get_or, Option-cases, inl, inr}
use sync_bridge.Base.Int.{ℤ}
use sync_bridge.Text.Number.{parse_int}
use sync_bridge.Json.{Json}
use sync_bridge.Dto.{EmployeeDto}
use sync_bridge.Dto.Rules.{employee_rules}
use sync_bridge.Dto.Decode.{decode_employee}
use sync_bridge.Sql.Table.{find, find-add_self, find-upsert_new, find-upsert_old}
use sync_bridge.Sql.Schema.{EmployeeRow, Tables}
use sync_bridge.Sql.Statement.{upsert_employee, insert_employee, effect, target_effect}
use sync_bridge.Sql.Engine.{IsSqlite, Done, Executed}
use sync_bridge.Handlers.Action.{Outcome, returned}
use sync_bridge.Handlers.Action.Laws.{IfReturned, Ensures, Ensures-pure, Ensures-bind}
use sync_bridge.Handlers.Host.{Host}
use sync_bridge.Handlers.Items.{
  SyncResult, created_or_updated, upserted_employee, inserted_employee, random_id,
}
use sync_bridge.Handlers.Process.{validated, new_uuid, save_employee, process_employee}
use sync_bridge.Handlers.Process.Triples.{
  Ensures-exec_tx, unmarshalled-Ensures, anything-Ensures, fact-Ensures, fact-kept,
}

-- Each column has the value of the item's field.
abbrev IsEmployee : EmployeeDto → EmployeeRow → Type 0
IsEmployee e row =
    (row.employee_id ≡ e.employee_id)
    × (row.first_name ≡ e.first_name)
    × (row.middle_name ≡ e.middle_name)
    × (row.last_name ≡ e.last_name)
    × (row.gender ≡ e.gender)
    × (row.email ≡ e.email)
    × (row.phone_number ≡ e.phone_number)
    × (row.date_of_birth ≡ e.date_of_birth)
    × (row.nationality ≡ e.nationality)
    × (row.job_level ≡ e.job_level)
    × (row.department ≡ e.department)
    × (row.location ≡ e.location)
    × (row.bank_account_number ≡ e.bank_account_number)
    × (row.company ≡ e.company)
    × (row.job_title ≡ e.job_title)
    × (row.cost_center ≡ e.cost_center)
    × (row.start_date ≡ e.start_date)
    × (row.employee_status ≡ e.employee_status)
    × (row.manager_id ≡ e.manager_id)
    × (row.manager_email ≡ e.manager_email)
    × (row.last_modified_on ≡ e.last_modified_on)
    × (row.last_modified ≡ e.last_modified)

upserted_employee-IsEmployee : (e : EmployeeDto) → IsEmployee e (upserted_employee e)
upserted_employee-IsEmployee e = (
  refl, refl, refl, refl, refl, refl, refl, refl, refl, refl, refl, refl, refl, refl, refl, refl,
  refl, refl, refl, refl, refl, refl,
)

inserted_employee-IsEmployee : (e : EmployeeDto) → IsEmployee e (inserted_employee e)
inserted_employee-IsEmployee e = (
  refl, refl, refl, refl, refl, refl, refl, refl, refl, refl, refl, refl, refl, refl, refl, refl,
  refl, refl, refl, refl, refl, refl,
)

module _ (h : Host) (sql : IsSqlite h.engine) where
  open h use {engine}

  -- The row of an id has the columns that the item gives, and the id is the given one, if any.
  abbrev HasEmployee : EmployeeDto → Option ℤ → ℤ → engine.State → Type 0
  HasEmployee e given id s =
      ((row : EmployeeRow) × (find id (engine.tables s).employees ≡ some row) × IsEmployee e row)
      × (get_or given id ≡ id)

  upserted-HasEmployee :
      (e : EmployeeDto) (id : ℤ) (d : Done) (s s' : engine.State)
      → Executed engine (upsert_employee id (upserted_employee e)) d s s'
      → HasEmployee e (some id) id s'
  unfolding effect target_effect
  upserted-HasEmployee e id d s s' x =
      let r = upserted_employee e in
      let old = (engine.tables s).employees in
      let here = ap (λ (t : Tables). find id t.employees) x.tables_eq in
      elim (Option-cases (find id old)) [
        | inl new ↦ (
          (r, here ∙ find-upsert_new id r (λ _. r) old new, upserted_employee-IsEmployee e),
          refl,
        )
        | inr (row, known) ↦ (
          (r, here ∙ find-upsert_old id r row (λ _. r) old known, upserted_employee-IsEmployee e),
          refl,
        )
      ]

  inserted-HasEmployee :
      (e : EmployeeDto) (id : ℤ) (d : Done) (s s' : engine.State)
      → Executed engine (insert_employee id (inserted_employee e)) d s s'
      → HasEmployee e none id s'
  unfolding effect target_effect
  inserted-HasEmployee e id d s s' x = (
    (
      inserted_employee e,
      ap (λ (t : Tables). find id t.employees) x.tables_eq
          ∙ find-add_self id (inserted_employee e) (engine.tables s).employees x.fresh,
      inserted_employee-IsEmployee e,
    ),
    refl,
  )

  save_employee-Ensures :
      (e : EmployeeDto) (o : Option ℤ) → Ensures (λ s. Unit) (save_employee h e o) (HasEmployee e o)
  unfolding save_employee
  save_employee-Ensures e (some id) =
      Ensures-bind _ _ _ _ _
        (Ensures-exec_tx h sql (upsert_employee id (upserted_employee e)) (λ s. Unit))
        λ d. Ensures-pure _ _ id (λ s (t, _, x). upserted-HasEmployee e id d t s x)
  save_employee-Ensures e none =
      Ensures-bind _ (λ _ _. Unit) _ _ _ (anything-Ensures h sql (new_uuid h))
        λ u.
          Ensures-bind _ _ _ _ _
            (Ensures-exec_tx h sql (insert_employee (random_id u) (inserted_employee e))
              (λ s. Unit))
            λ d.
              Ensures-pure _ _ (random_id u)
                (λ s (t, _, x). inserted-HasEmployee e (random_id u) d t s x)

  -- What an item stores, and says of it.
  abbrev pub StoredEmployee : Json → SyncResult → engine.State → Type 0
  StoredEmployee j r s =
      (e : EmployeeDto) × (decode_employee h.unicode j ≡ some e)
      × (r.status ≡ created_or_updated (parse_int e.id))
      × HasEmployee e (parse_int e.id) r.id s

  process_employee-Ensures :
      (j : Json) → Ensures (λ s. Unit) (process_employee h j) (StoredEmployee j)
  unfolding process_employee
  process_employee-Ensures j =
      Ensures-bind _ _ _ _ _ (unmarshalled-Ensures h sql (decode_employee h.unicode j)) λ e.
        let F : Type 0 = decode_employee h.unicode j ≡ some e in
        Ensures-bind _ (λ _ s. F) _ _ _ (fact-kept h sql F (validated h (employee_rules e)))
          λ _.
            Ensures-bind _ _ _ _ _
              (fact-Ensures h sql F _ _ (save_employee-Ensures e (parse_int e.id)))
              λ id. Ensures-pure _ _ _ (λ s (decoded, has). (e, decoded, refl, has))

  -- If `processItem` returns a result for an employee, the item decodes to an employee, and under
  -- the id of the result, which is the item's if that is a number, there is a row whose 22 columns
  -- have each the value of the item's field; the result says whether the item's id was a number.
  pub process_employee-returned :
      (j : Json) (s s' : engine.State) (r : SyncResult)
      → process_employee h j s ≡ (returned r, s')
      → StoredEmployee j r s'
  process_employee-returned j s s' r e =
      subst (λ (out : Outcome SyncResult × engine.State). IfReturned (StoredEmployee j) out.0 out.1)
        e ((process_employee-Ensures j).at s tt)
