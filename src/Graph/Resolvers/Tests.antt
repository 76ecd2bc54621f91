-- ===== src/Graph/Resolvers/Tests.antt =====
-- An update of an employee's first name, and a creation, in a database in memory.
use sync_bridge.Base.{◌≡◌, ap, refl, sym, true, Option, none, some, [], ◌∷◌}
use sync_bridge.Base.Int.{ℤ, pos}
use sync_bridge.Text.{Bytes, str}
use sync_bridge.Sql.Schema.{EmployeeRow}
use sync_bridge.Sql.Query.{Cursor, get_employee}
use sync_bridge.Sql.Engine.{Result, ok}
use sync_bridge.Sql.Memory.{Memory, memory, memory-IsSqlite, answer, value_or}
use sync_bridge.Handlers.Action.{returned}
use sync_bridge.Handlers.Example.{ascii_only, sample_host, runs}
use sync_bridge.Graph.Broker.{new_employee_broker, subscribe, publish, publish_to, offer}
use sync_bridge.Graph.Model.{
  CreateEmployeeInput, UpdateEmployeeInput, Employee, scan_employee, date_column, parse_time,
  first_parse, full_name,
}
use sync_bridge.Graph.Resolvers.{
  GraphState, first_employee, get_employee_by_id, update_columns, update_found,
  update_employee_resolver, insert_created, publish_employee, publish_found,
  create_employee_resolver, employee_resolver,
}
use sync_bridge.Graph.Resolvers.NewEmployee.{IsNewEmployee}
use sync_bridge.Graph.Resolvers.Create.{
  Created, created, create_employee_resolver-Created, employee_resolver-create_employee_resolver,
}
use sync_bridge.Graph.Resolvers.Delete.{Dismissed, delete_employee_resolver-Dismissed}
use sync_bridge.Graph.Resolvers.{delete_employee_resolver}
use sync_bridge.Graph.Resolvers.Update.{Updated, update_employee_resolver-Updated}

abbrev any_date : Bytes → Bytes → Option Bytes
any_date layout s = some s

abbrev named : Bytes → EmployeeRow
named first_name = record {
  employee_id = str "E-3";
  first_name = first_name;
  middle_name = none;
  last_name = str "Hopper";
  gender = none;
  email = str "grace@example.com";
  phone_number = none;
  date_of_birth = some (str "1906-12-09");
  nationality = none;
  job_level = none;
  department = none;
  location = none;
  bank_account_number = none;
  company = none;
  job_title = none;
  cost_center = none;
  start_date = none;
  employee_status = none;
  manager_id = none;
  manager_email = none;
  last_modified_on = none;
  last_modified = none;
}

abbrev staff : EmployeeRow → GraphState sample_host any_date
staff row = record {
  db = record {
    contents = record {
      targets = record {
        customers = [];
        products = [];
        orders = [];
        order_items = [];
        employees = (pos 3, row) ∷ [];
      };
      sync_history = [];
    };
    before = none;
  };
  broker = new_employee_broker;
}

abbrev rename : UpdateEmployeeInput
rename = record {
  first_name = some (str "Grace");
  last_name = none;
  email = none;
  middle_name = none;
  company = none;
  job_title = none;
}

grace : Employee Bytes
unfolding scan_employee
grace = scan_employee ascii_only any_date (pos 3, named (str "Grace"))

rename-run :
    update_employee_resolver sample_host any_date (pos 3) rename (staff (named (str "Gracie")))
    ≡ (returned (some grace), staff (named (str "Grace")))
unfolding runs grace scan_employee date_column parse_time first_parse full_name first_employee
    get_employee_by_id update_columns update_found update_employee_resolver
rename-run = refl

memory-complete :
    (id : ℤ) (s s' : Memory) (c : Cursor (ℤ × EmployeeRow))
    → memory.query (get_employee id) s ≡ (ok c, s')
    → c.complete ≡ true
unfolding answer
memory-complete id s s' c e =
    let empty_cursor : Cursor (ℤ × EmployeeRow) = record { rows = []; complete = true } in
    ap
      (λ (out : Result (Cursor (ℤ × EmployeeRow)) × Memory). (value_or empty_cursor out.0).complete)
      (sym e)

update_employee_resolver-Updated_example :
    Updated sample_host any_date memory-IsSqlite memory-complete
      (pos 3)
      rename
      (staff (named (str "Gracie"))).db.contents
      new_employee_broker
      (some grace)
      (staff (named (str "Grace")))
update_employee_resolver-Updated_example =
    update_employee_resolver-Updated sample_host any_date memory-IsSqlite memory-complete (pos 3)
      rename (staff (named (str "Gracie"))) (staff (named (str "Grace"))) (some grace) rename-run

abbrev hire : CreateEmployeeInput
hire = record {
  id = pos 4;
  employee_id = str "E-4";
  first_name = str "Ada";
  last_name = str "Lovelace";
  email = str "ada@example.com";
  middle_name = none;
  company = none;
  job_title = none;
}

-- the same staff with a subscriber
abbrev watched : GraphState sample_host any_date
watched = record (staff (named (str "Grace"))) { broker = (subscribe new_employee_broker).0 }

abbrev ada : Employee Bytes
ada = created sample_host any_date memory-IsSqlite memory-complete hire

abbrev after_hire : GraphState sample_host any_date
after_hire = (create_employee_resolver sample_host any_date hire watched).1

hire_runs : Unit {0}
unfolding runs grace scan_employee date_column parse_time first_parse full_name first_employee
    get_employee_by_id insert_created publish_employee publish_found create_employee_resolver
    new_employee_broker subscribe publish publish_to offer employee_resolver
hire_runs = tt

hire-run : create_employee_resolver sample_host any_date hire watched ≡ (returned ada, after_hire)
unfolding hire_runs
hire-run = refl

create_employee_resolver-Created_example :
    Created sample_host any_date memory-IsSqlite memory-complete hire watched.db.contents
      watched.broker ada after_hire
create_employee_resolver-Created_example =
    create_employee_resolver-Created sample_host any_date memory-IsSqlite memory-complete hire
      watched after_hire ada hire-run

ada-run :
    employee_resolver sample_host any_date (pos 4) after_hire ≡ (returned (some ada), after_hire)
unfolding hire_runs
ada-run = refl

employee_resolver-create_employee_resolver_example :
    (some ada ≡ some ada) × IsNewEmployee ascii_only hire ada
employee_resolver-create_employee_resolver_example =
    employee_resolver-create_employee_resolver sample_host any_date memory-IsSqlite memory-complete
      hire watched after_hire after_hire ada (some ada) hire-run ada-run

abbrev after_dismissal : GraphState sample_host any_date
after_dismissal =
    (delete_employee_resolver sample_host any_date (pos 3) (staff (named (str "Grace")))).1

dismissal-run :
    delete_employee_resolver sample_host any_date (pos 3) (staff (named (str "Grace")))
    ≡ (returned true, after_dismissal)
unfolding runs delete_employee_resolver
dismissal-run = refl

delete_employee_resolver-Dismissed_example :
    Dismissed sample_host any_date memory-IsSqlite
      (pos 3)
      (staff (named (str "Grace")))
      true
      after_dismissal
delete_employee_resolver-Dismissed_example =
    delete_employee_resolver-Dismissed sample_host any_date memory-IsSqlite (pos 3)
      (staff (named (str "Grace"))) after_dismissal true dismissal-run
