-- ===== src/Graph/Resolvers/Update.antt =====
-- An update of an employee changes the fields that its input gives, and nothing else.
use sync_bridge.Base.{◌≡◌, refl, sym, ap, subst, ◌∙◌, true, false, Option, none, some, get_or}
use mathlib.Core.Option.{some_inj}
use sync_bridge.Base.Int.{ℤ, eqb_ℤ}
use sync_bridge.Text.{Bytes}
use sync_bridge.Sql.Table.{find, modify, apply_to, find-modify, find-modify_self}
use sync_bridge.Sql.Schema.{EmployeeRow, Tables}
use sync_bridge.Sql.Statement.{EmployeeUpdate, set_employee, update_employee, effect, target_effect}
use sync_bridge.Sql.Query.{Cursor, get_employee}
use sync_bridge.Sql.Engine.{Result, ok, err, Done, IsSqlite}
use sync_bridge.Handlers.Action.{Outcome, returned}
use sync_bridge.Handlers.Action.Laws.{
  IfReturned, Ensures, Ensures-pure, Ensures-bind, Ensures-weaken,
}
use sync_bridge.Handlers.Host.{Host}
use sync_bridge.Graph.Broker.{EmployeeBroker}
use sync_bridge.Graph.Model.{UpdateEmployeeInput, Employee, scan_employee}
use sync_bridge.Graph.Resolvers.{
  GraphState, or_existing, updated_values, or_db_error, update_columns, update_found,
  update_employee_resolver,
}
use sync_bridge.Graph.Resolvers.Lookup.{shown, Has, get_employee_by_id-Ensures}

-- The row with the six columns that the input gives; the others stay.
unfoldable pub patched : UpdateEmployeeInput → EmployeeRow → EmployeeRow
patched input r = record r {
  first_name = get_or input.first_name r.first_name;
  last_name = get_or input.last_name r.last_name;
  email = get_or input.email r.email;
  middle_name = or_existing input.middle_name r.middle_name;
  company = or_existing input.company r.company;
  job_title = or_existing input.job_title r.job_title;
}

module _ (h : Host) {Time : Type 0} (parse : Bytes → Bytes → Option Time) (sql : IsSqlite h.engine)
    (reads : (id : ℤ) (s s' : h.engine.State) (c : Cursor (ℤ × EmployeeRow))
      → h.engine.query (get_employee id) s ≡ (ok c, s')
      → c.complete ≡ true) where
  open h use {unicode, engine}

  -- The tables after an update of the row `id`.
  abbrev with_update : ℤ → EmployeeUpdate → Tables → Tables
  with_update id v t = record t {
    targets = record t.targets { employees = modify id (set_employee v) t.employees };
  }

  updated-Has :
      (id : ℤ) (v : EmployeeUpdate) (t : Tables) (b : EmployeeBroker (Employee Time))
      (r : Result Done) (s : GraphState h parse) (db : engine.State)
      → Has h parse t b s
      → engine.exec (update_employee id v) s.db ≡ (r, db)
      → IfReturned
          (λ _ s'. Has h parse (with_update id v t) b s')
          (or_db_error h parse r)
          (record s { db = db })
  unfolding effect target_effect
  updated-Has id v t b (ok d) s db has e = record {
    tables_eq =
        (sql.exec_ok (update_employee id v) s.db db d e).tables_eq
        ∙ ap (with_update id v) has.tables_eq;
    broker_eq = has.broker_eq;
  }
  updated-Has id v t b (err text) s db has e = tt

  update_columns-Ensures :
      (id : ℤ) (v : EmployeeUpdate) (t : Tables) (b : EmployeeBroker (Employee Time))
      → Ensures
          (Has h parse t b)
          (update_columns h parse id v)
          (λ _ s. Has h parse (with_update id v t) b s)
  unfolding update_columns
  update_columns-Ensures id v t b = record {
    at = λ s has.
        let r = engine.exec (update_employee id v) s.db in updated-Has id v t b r.0 s r.1 has refl;
  }

  -- What an update answers and leaves, from the tables `t`.
  pub record Patched (id : ℤ) (input : UpdateEmployeeInput) (t : Tables)
      (b : EmployeeBroker (Employee Time)) (emp : Employee Time) (s : GraphState h parse)
      : Type 0 where
    pub row : EmployeeRow
    pub found : find id t.employees ≡ some row
    pub stored : find id (engine.tables s.db).employees ≡ some (patched input row)
    pub others :
        (i : ℤ) → eqb_ℤ id i ≡ false → find i (engine.tables s.db).employees ≡ find i t.employees
    pub log_eq : (engine.tables s.db).sync_history ≡ t.sync_history
    pub broker_eq : s.broker ≡ b
    pub answer : emp ≡ scan_employee unicode parse (id, patched input row)

  abbrev pub Updated :
      ℤ
      → UpdateEmployeeInput
      → Tables
      → EmployeeBroker (Employee Time)
      → Option (Employee Time)
      → GraphState h parse
      → Type 0
  Updated id input t b none s = Has h parse t b s × (find id t.employees ≡ none)
  Updated id input t b (some emp) s = Patched id input t b emp s

  shown-none : (id : ℤ) (o : Option EmployeeRow) → none ≡ shown h parse id o → o ≡ none
  shown-none id none e = refl
  shown-none id (some r) e = absurd (cc e)

  shown-some :
      (id : ℤ) (emp : Employee Time) (o : Option EmployeeRow)
      → some emp ≡ shown h parse id o
      → (r : EmployeeRow) × (o ≡ some r) × (emp ≡ scan_employee unicode parse (id, r))
  shown-some id emp none e = absurd (cc e)
  shown-some id emp (some r) e = (r, refl, some_inj.0 e)

  -- The columns that are bound are those of the patched row.
  set_employee-patched :
      (id : ℤ) (input : UpdateEmployeeInput) (r : EmployeeRow)
      → set_employee (updated_values (scan_employee unicode parse (id, r)) input) r
        ≡ patched input r
  unfolding scan_employee patched
  set_employee-patched id input r = refl

  read_back-Updated :
      (id : ℤ) (input : UpdateEmployeeInput) (t : Tables) (b : EmployeeBroker (Employee Time))
      (row : EmployeeRow) (o : Option (Employee Time)) (s : GraphState h parse)
      → find id t.employees ≡ some row
      → let v = updated_values (scan_employee unicode parse (id, row)) input in
        Has h parse (with_update id v t) b s
        → o ≡ shown h parse id (find id (with_update id v t).employees)
        → Updated id input t b o s
  read_back-Updated id input t b row o s found has e =
      let v = updated_values (scan_employee unicode parse (id, row)) input in
      let now =
        find-modify_self id (set_employee v) t.employees
        ∙ ap (apply_to (set_employee v)) found
        ∙ ap some (set_employee-patched id input row) in
      let here = ap (λ (u : Tables). u.employees) has.tables_eq in
      subst (λ o. Updated id input t b o s) (sym (e ∙ ap (shown h parse id) now))
        (record {
          row = row;
          found = found;
          stored = ap (find id) here ∙ now;
          others = λ i different.
              ap (find i) here ∙ find-modify i id (set_employee v) t.employees ∙ rw different;
          log_eq = ap (λ (u : Tables). u.sync_history) has.tables_eq;
          broker_eq = has.broker_eq;
          answer = refl;
        })

  update_row-Ensures :
      (id : ℤ) (input : UpdateEmployeeInput) (t : Tables) (b : EmployeeBroker (Employee Time))
      (row : EmployeeRow)
      → find id t.employees ≡ some row
      → Ensures
          (Has h parse t b)
          (update_found h parse id input (some (scan_employee unicode parse (id, row))))
          (Updated id input t b)
  unfolding update_found
  update_row-Ensures id input t b row found =
      let v = updated_values (scan_employee unicode parse (id, row)) input in
      Ensures-bind _ (λ _ s. Has h parse (with_update id v t) b s) _ _ _
        (update_columns-Ensures id v t b)
        λ _.
          Ensures-weaken _ _ _ _ _
            (λ s has. (has, λ o s' (now, e). read_back-Updated id input t b row o s' found now e))
            (get_employee_by_id-Ensures h parse sql reads (with_update id v t) b id)

  update_found-Ensures :
      (id : ℤ) (input : UpdateEmployeeInput) (t : Tables) (b : EmployeeBroker (Employee Time))
      (o : Option (Employee Time))
      → Ensures
          (λ s. Has h parse t b s × (o ≡ shown h parse id (find id t.employees)))
          (update_found h parse id input o)
          (Updated id input t b)
  unfolding update_found
  update_found-Ensures id input t b none =
      Ensures-pure _ _ none (λ s (has, e). (has, shown-none id (find id t.employees) e))
  update_found-Ensures id input t b (some existing) = record {
    at = λ s (has, e).
        let (row, found, same) = shown-some id existing (find id t.employees) e in
        (subst
            (λ emp.
              Ensures (Has h parse t b) (update_found h parse id input (some emp))
                (Updated id input t b))
            (sym same) (update_row-Ensures id input t b row found)).at
          s has;
  }

  -- If updateEmployee returns nothing, there is no such employee and nothing has changed. If it
  -- returns an employee, the row of that id has the values that the input gives and its former
  -- values elsewhere, and the employee is that row's; every other employee's row, the log of syncs
  -- and the broker are what they were. This takes it that a lookup by id is read to its end.
  pub update_employee_resolver-Updated :
      (id : ℤ) (input : UpdateEmployeeInput) (s s' : GraphState h parse)
      (o : Option (Employee Time))
      → update_employee_resolver h parse id input s ≡ (returned o, s')
      → Updated id input (engine.tables s.db) s.broker o s'
  unfolding update_employee_resolver
  update_employee_resolver-Updated id input s s' o e =
      let t = engine.tables s.db in
      let whole =
        Ensures-bind _ _ _ _ _ (get_employee_by_id-Ensures h parse sql reads t s.broker id)
          (update_found-Ensures id input t s.broker) in
      subst
        (λ (out : Outcome (Option (Employee Time)) × GraphState h parse).
          IfReturned (Updated id input t s.broker) out.0 out.1)
        e (whole.at s (record { tables_eq = refl; broker_eq = refl }))
