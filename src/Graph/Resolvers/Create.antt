-- ===== src/Graph/Resolvers/Create.antt =====
-- A creation of an employee stores its row, publishes it once, and can be read back.
use sync_bridge.Base.{
  ◌≡◌, refl, sym, ap, subst, ◌∙◌, true, false, Option, none, some, if◌then◌else◌,
}
use mathlib.Core.Option.{some_inj}
use sync_bridge.Base.Int.{ℤ, eqb_ℤ}
use sync_bridge.Text.{Bytes}
use sync_bridge.Sql.Table.{find, add, find-add, find-add_self}
use sync_bridge.Sql.Schema.{EmployeeRow, Tables}
use sync_bridge.Sql.Statement.{create_employee, effect, target_effect}
use sync_bridge.Sql.Query.{Cursor, get_employee}
use sync_bridge.Sql.Engine.{Result, ok, err, Done, IsSqlite}
use sync_bridge.Handlers.Action.{Outcome, returned, panicked}
use sync_bridge.Handlers.Action.Laws.{
  IfReturned, Ensures, Ensures-pure, Ensures-fail, Ensures-bind, Ensures-given,
}
use sync_bridge.Handlers.Host.{Host}
use sync_bridge.Graph.Broker.{EmployeeBroker, publish}
use sync_bridge.Graph.Model.{CreateEmployeeInput, Employee, scan_employee}
use sync_bridge.Graph.Resolvers.{
  GraphState, created_row, or_db_error, insert_created, publish_employee, publish_found,
  create_employee_resolver, employee_resolver,
}
use sync_bridge.Graph.Resolvers.Lookup.{shown, Has, get_employee_by_id-Ensures}
use sync_bridge.Graph.Resolvers.NewEmployee.{
  IsNewRow, IsNewEmployee, created_row-IsNewRow, scanned-IsNewEmployee,
}

module _ (h : Host) {Time : Type 0} (parse : Bytes → Bytes → Option Time) (sql : IsSqlite h.engine)
    (reads : (id : ℤ) (s s' : h.engine.State) (c : Cursor (ℤ × EmployeeRow))
      → h.engine.query (get_employee id) s ≡ (ok c, s')
      → c.complete ≡ true) where
  open h use {unicode, engine}

  -- The tables after an insertion of the row `id`.
  abbrev with_new : CreateEmployeeInput → Tables → Tables
  with_new input t = record t {
    targets = record t.targets { employees = add input.id (created_row input) t.employees };
  }

  -- The employee that the new row shows.
  abbrev pub created : CreateEmployeeInput → Employee Time
  created input = scan_employee unicode parse (input.id, created_row input)

  module _ (input : CreateEmployeeInput) (t : Tables) (b : EmployeeBroker (Employee Time)) where
    inserted-Has :
        (r : Result Done) (s : GraphState h parse) (db : engine.State)
        → Has h parse t b s
        → engine.exec (create_employee input.id (created_row input)) s.db ≡ (r, db)
        → IfReturned
            (λ _ s'. Has h parse (with_new input t) b s' × (find input.id t.employees ≡ none))
            (or_db_error h parse r)
            (record s { db = db })
    unfolding effect target_effect
    inserted-Has (ok d) s db has e =
        let x = sql.exec_ok (create_employee input.id (created_row input)) s.db db d e in
        (
          record {
            tables_eq = x.tables_eq ∙ ap (with_new input) has.tables_eq;
            broker_eq = has.broker_eq;
          },
          sym (ap (λ (u : Tables). find input.id u.employees) has.tables_eq) ∙ x.fresh,
        )
    inserted-Has (err text) s db has e = tt

    insert_created-Ensures :
        Ensures
          (Has h parse t b)
          (insert_created h parse input)
          (λ _ s. Has h parse (with_new input t) b s × (find input.id t.employees ≡ none))
    unfolding insert_created
    insert_created-Ensures = record {
      at = λ s has.
          let r = engine.exec (create_employee input.id (created_row input)) s.db in
          inserted-Has r.0 s r.1 has refl;
    }

    -- What a creation answers and leaves, from the tables `t` and the broker `b`.
    pub record Created (emp : Employee Time) (s : GraphState h parse) : Type 0 where
      pub new : find input.id t.employees ≡ none
      pub row : EmployeeRow
      pub stored : find input.id (engine.tables s.db).employees ≡ some row
      pub is_row : IsNewRow input row
      pub others :
          (i : ℤ)
          → eqb_ℤ input.id i ≡ false
          → find i (engine.tables s.db).employees ≡ find i t.employees
      pub log_eq : (engine.tables s.db).sync_history ≡ t.sync_history
      pub answer : IsNewEmployee unicode input emp
      pub shows : emp ≡ scan_employee unicode parse (input.id, row)
      pub published : publish emp b ≡ some s.broker

    stored-Created :
        (emp : Employee Time) (s : GraphState h parse)
        → find input.id t.employees ≡ none
        → engine.tables s.db ≡ with_new input t
        → emp ≡ created input
        → publish emp b ≡ some s.broker
        → Created emp s
    stored-Created emp s new here answer published = record {
      new = new;
      row = created_row input;
      is_row = created_row-IsNewRow input;
      stored =
          ap (λ (u : Tables). find input.id u.employees) here
          ∙ find-add_self input.id (created_row input) t.employees new;
      others = λ i different.
          ap (λ (u : Tables). find i u.employees) here
          ∙ find-add i input.id (created_row input) t.employees new
          ∙ ap (λ same. if same then some (created_row input) else find i t.employees) different;
      log_eq = ap (λ (u : Tables). u.sync_history) here;
      answer =
          subst (IsNewEmployee unicode input) (sym answer)
            (scanned-IsNewEmployee unicode parse input);
      shows = answer;
      published = published;
    }

    published-Created :
        (emp : Employee Time) (o : Option (EmployeeBroker (Employee Time))) (s : GraphState h parse)
        → find input.id t.employees ≡ none
        → Has h parse (with_new input t) b s
        → emp ≡ created input
        → publish emp s.broker ≡ o
        → let out : Outcome Unit × GraphState h parse = elim o [
          | none ↦ (panicked, s)
          | some broker ↦ (returned tt, record s { broker = broker })
        ] in
          IfReturned (λ _ s'. Created emp s') out.0 out.1
    published-Created emp none s new has answer e = tt
    published-Created emp (some broker) s new has answer e =
        stored-Created emp (record s { broker = broker }) new has.tables_eq answer
          (ap (publish emp) (sym has.broker_eq) ∙ e)

    publish_employee-Created :
        (emp : Employee Time)
        → find input.id t.employees ≡ none
        → emp ≡ created input
        → Ensures
            (Has h parse (with_new input t) b)
            (publish_employee h parse emp)
            (λ _ s. Created emp s)
    unfolding publish_employee
    publish_employee-Created emp new answer = record {
      at = λ s has. published-Created emp (publish emp s.broker) s new has answer refl;
    }

    publish_found-Created :
        (o : Option (Employee Time))
        → find input.id t.employees ≡ none
        → o ≡ some (created input)
        → Ensures (Has h parse (with_new input t) b) (publish_found h parse o) Created
    unfolding publish_found
    publish_found-Created none new e = Ensures-fail _ _ _
    publish_found-Created (some emp) new e =
        Ensures-bind _ _ _ _ _ (publish_employee-Created emp new (some_inj.0 e))
          λ _. Ensures-pure _ _ emp (λ s is. is)

    create_employee_resolver-Ensures :
        Ensures (Has h parse t b) (create_employee_resolver h parse input) Created
    unfolding create_employee_resolver
    create_employee_resolver-Ensures = Ensures-bind _ _ _ _ _ insert_created-Ensures λ _.
        Ensures-given _ _ _ _ λ new.
          Ensures-bind _ _ _ _ _
            (get_employee_by_id-Ensures h parse sql reads (with_new input t) b input.id)
            λ o. Ensures-given _ _ _ _ λ e. publish_found-Created o new (
              e
              ∙ ap (shown h parse input.id)
                  (find-add_self input.id (created_row input) t.employees new))

  -- If createEmployee returns an employee, its id was not in use, and the table has under it a row
  -- with the seven columns that the input gives and NULL in the others. The employee has these
  -- seven values, no other, and the names that are not blank as its full name; it is what a scan of
  -- that row gives, and has been published once. Every other employee's row and the log of syncs
  -- are what they were. This takes it that a lookup by id is read to its end.
  pub create_employee_resolver-Created :
      (input : CreateEmployeeInput) (s s' : GraphState h parse) (emp : Employee Time)
      → create_employee_resolver h parse input s ≡ (returned emp, s')
      → Created input (engine.tables s.db) s.broker emp s'
  create_employee_resolver-Created input s s' emp e =
      let t = engine.tables s.db in
      subst
        (λ (out : Outcome (Employee Time) × GraphState h parse).
          IfReturned (Created input t s.broker) out.0 out.1)
        e
        ((create_employee_resolver-Ensures input t s.broker).at s
          (record { tables_eq = refl; broker_eq = refl }))

  -- If createEmployee returns an employee, and the query employee is then asked for the input's id
  -- and returns, it returns that employee, which has the values of the input, the names of the
  -- input that are not blank as its full name, and nothing else. This takes it that a lookup by id
  -- is read to its end.
  pub employee_resolver-create_employee_resolver :
      (input : CreateEmployeeInput) (s s' s'' : GraphState h parse) (emp : Employee Time)
      (o : Option (Employee Time))
      → create_employee_resolver h parse input s ≡ (returned emp, s')
      → employee_resolver h parse input.id s' ≡ (returned o, s'')
      → (o ≡ some emp) × IsNewEmployee unicode input emp
  unfolding employee_resolver
  employee_resolver-create_employee_resolver input s s' s'' emp o e f =
      let is = create_employee_resolver-Created input s s' emp e in
      let t = engine.tables s'.db in
      let (_, read) =
        subst
          (λ (out : Outcome (Option (Employee Time)) × GraphState h parse).
            IfReturned
              (λ o s.
                Has h parse t s'.broker s
                × (o ≡ shown h parse input.id (find input.id t.employees)))
              out.0 out.1)
          f
          ((get_employee_by_id-Ensures h parse sql reads t s'.broker input.id).at s'
            (record { tables_eq = refl; broker_eq = refl })) in
      (read ∙ ap (shown h parse input.id) is.stored ∙ ap some (sym is.shows), is.answer)
