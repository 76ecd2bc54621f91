-- ===== src/Graph/Resolvers/Within.antt =====
-- The resolvers only query, execute statements on the employees, and publish.
use sync_bridge.Base.{◌≡◌, refl, Option, none, some, false, Option-cases, inl, inr}
use sync_bridge.Base.Int.{ℤ}
use sync_bridge.Text.{Bytes}
use sync_bridge.Sql.Statement.{
  Statement, writes_log, create_employee, update_employee, delete_employee,
}
use sync_bridge.Sql.Query.{Query, get_employee, list_employees, search_employees}
use sync_bridge.Handlers.Action.Within.{IsPreorder, Within, Within-pure, Within-fail, Within-bind}
use sync_bridge.Handlers.Host.{Host}
use sync_bridge.Graph.Broker.{EmployeeBroker, publish}
use sync_bridge.Graph.Model.{CreateEmployeeInput, UpdateEmployeeInput, Employee}
use sync_bridge.Graph.Resolvers.{
  GraphState, updated_values, created_row, get_employee_by_id, insert_created, update_columns,
  publish_employee, publish_found, create_employee_resolver, update_found, update_employee_resolver,
  delete_employee_resolver, employees_resolver, employee_resolver, search_employees_resolver,
}

module _ (h : Host) {Time : Type 0} (parse : Bytes → Bytes → Option Time) where
  open h use {engine}

  -- A relation that the three ways to change the state keep.
  pub record IsClosed (R : GraphState h parse → GraphState h parse → Type 0) : Type 0 where
    pub preorder : IsPreorder R
    pub on_query :
        (q : Query) (s : GraphState h parse) → R s (record s { db = (engine.query q s.db).1 })
    pub on_exec :
        (st : Statement) (s : GraphState h parse)
        → writes_log st ≡ false
        → R s (record s { db = (engine.exec st s.db).1 })
    pub on_publish :
        (emp : Employee Time) (s : GraphState h parse) (b : EmployeeBroker (Employee Time))
        → publish emp s.broker ≡ some b
        → R s (record s { broker = b })

  module _ (R : GraphState h parse → GraphState h parse → Type 0) (c : IsClosed R) where
    Within-get_employee_by_id : (id : ℤ) → Within R (get_employee_by_id h parse id)
    unfolding get_employee_by_id
    Within-get_employee_by_id id = record { at = c.on_query (get_employee id) }

    Within-publish_employee : (emp : Employee Time) → Within R (publish_employee h parse emp)
    unfolding publish_employee
    Within-publish_employee emp = record {
      at = λ s. elim (Option-cases (publish emp s.broker)) [
        | inl panics ↦ rw (panics, publish_employee) (c.preorder.refl_at s)
        | inr (b, e) ↦ rw (e, publish_employee) (c.on_publish emp s b e)
      ];
    }

    Within-publish_found : (o : Option (Employee Time)) → Within R (publish_found h parse o)
    unfolding publish_found
    Within-publish_found none = Within-fail R c.preorder _
    Within-publish_found (some emp) =
        Within-bind R c.preorder _ _ (Within-publish_employee emp) λ _. Within-pure R c.preorder emp

    pub Within-create_employee_resolver :
        (input : CreateEmployeeInput) → Within R (create_employee_resolver h parse input)
    unfolding create_employee_resolver insert_created
    Within-create_employee_resolver input =
        Within-bind R c.preorder _ _
          (record { at = λ s. c.on_exec (create_employee input.id (created_row input)) s refl })
          λ _.
            Within-bind R c.preorder _ _ (Within-get_employee_by_id input.id) Within-publish_found

    Within-update_found :
        (id : ℤ) (input : UpdateEmployeeInput) (o : Option (Employee Time))
        → Within R (update_found h parse id input o)
    unfolding update_found update_columns
    Within-update_found id input none = Within-pure R c.preorder none
    Within-update_found id input (some existing) =
        Within-bind R c.preorder _ _
          (record {
            at = λ s. c.on_exec (update_employee id (updated_values existing input)) s refl;
          })
          λ _. Within-get_employee_by_id id

    pub Within-update_employee_resolver :
        (id : ℤ) (input : UpdateEmployeeInput)
        → Within R (update_employee_resolver h parse id input)
    unfolding update_employee_resolver
    Within-update_employee_resolver id input =
        Within-bind R c.preorder _ _ (Within-get_employee_by_id id) (Within-update_found id input)

    pub Within-delete_employee_resolver : (id : ℤ) → Within R (delete_employee_resolver h parse id)
    unfolding delete_employee_resolver
    Within-delete_employee_resolver id = record { at = λ s. c.on_exec (delete_employee id) s refl }

    pub Within-employees_resolver :
        (offset limit : Option ℤ) → Within R (employees_resolver h parse offset limit)
    unfolding employees_resolver
    Within-employees_resolver offset limit = record { at = λ s. c.on_query (list_employees _ _) s }

    pub Within-employee_resolver : (id : ℤ) → Within R (employee_resolver h parse id)
    unfolding employee_resolver
    Within-employee_resolver id = Within-get_employee_by_id id

    pub Within-search_employees_resolver :
        (search : Bytes) (offset limit : Option ℤ)
        → Within R (search_employees_resolver h parse search offset limit)
    unfolding search_employees_resolver
    Within-search_employees_resolver search offset limit = record {
      at = λ s. c.on_query (search_employees _ _ _) s;
    }
