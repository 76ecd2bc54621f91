-- ===== src/Graph/Resolvers/Lookup.antt =====
-- A lookup of an employee by its id.
use sync_bridge.Base.{
  ◌≡◌, refl, sym, ap, subst, ◌∙◌, true, Option, none, some, [], ◌∷◌, map, Bool-cases, inl, inr,
}
use sync_bridge.Base.Int.{ℤ, eqb_ℤ, eqb_ℤ_iff}
use sync_bridge.Text.{Bytes}
use sync_bridge.Sql.Table.{Table, find, select}
use sync_bridge.Sql.Schema.{EmployeeRow, Tables}
use sync_bridge.Sql.Query.{Cursor, scanned, get_employee}
use sync_bridge.Sql.Engine.{Result, ok, err, IsSqlite}
use sync_bridge.Handlers.Action.{returned}
use sync_bridge.Handlers.Action.Laws.{IfReturned, Ensures}
use sync_bridge.Handlers.Host.{Host}
use sync_bridge.Handlers.History.Retry.{query-Same-at}
use sync_bridge.Graph.Broker.{EmployeeBroker}
use sync_bridge.Graph.Model.{Employee, scan_employee}
use sync_bridge.Graph.Resolvers.{GraphState, first_employee, get_employee_by_id}

module _ (h : Host) {Time : Type 0} (parse : Bytes → Bytes → Option Time) where
  open h use {unicode, engine}

  -- The employee that a row of the table shows.
  abbrev pub shown : ℤ → Option EmployeeRow → Option (Employee Time)
  shown id none = none
  shown id (some r) = some (scan_employee unicode parse (id, r))

  first_employee-select :
      (id : ℤ) (t : Table EmployeeRow) (c : Cursor (ℤ × EmployeeRow))
      → c.rows ≡ map scanned (select (λ j _. eqb_ℤ j id) t)
      → first_employee h parse (ok c) ≡ returned (shown id (find id t))
  unfolding first_employee select find
  first_employee-select id [] c e = rw e
  first_employee-select id ((j, r) ∷ t) c e = elim (Bool-cases (eqb_ℤ j id)) [
    | inl same ↦
        rw (e, same)
          (ap (λ i. returned (some (scan_employee unicode parse (i, r)))) ((eqb_ℤ_iff j id).0 same))
    | inr different ↦
        let rest : Cursor (ℤ × EmployeeRow) = record {
          rows = map scanned (select (λ j _. eqb_ℤ j id) t);
          complete = true;
        } in
        rw (e, different) (first_employee-select id t rest refl)
  ]

  -- The tables and the broker are the given ones.
  pub record Has (t : Tables) (b : EmployeeBroker (Employee Time)) (s : GraphState h parse)
      : Type 0 where
    pub tables_eq : engine.tables s.db ≡ t
    pub broker_eq : s.broker ≡ b

module _ (h : Host) {Time : Type 0} (parse : Bytes → Bytes → Option Time) (sql : IsSqlite h.engine)
    (reads : (id : ℤ) (s s' : h.engine.State) (c : Cursor (ℤ × EmployeeRow))
      → h.engine.query (get_employee id) s ≡ (ok c, s')
      → c.complete ≡ true) where
  open h use {unicode, engine}

  module _ (t : Tables) (b : EmployeeBroker (Employee Time)) where
    found-Has :
        (id : ℤ) (r : Result (Cursor (ℤ × EmployeeRow))) (s : GraphState h parse)
        (db : engine.State)
        → Has h parse t b s
        → engine.query (get_employee id) s.db ≡ (r, db)
        → IfReturned
            (λ o s'. Has h parse t b s' × (o ≡ shown h parse id (find id t.employees)))
            (first_employee h parse r)
            (record s { db = db })
    unfolding first_employee
    found-Has id (ok c) s db has e =
        let rows = sql.query_ok (get_employee id) s.db db c e (reads id s.db db c e) in
        let same = query-Same-at h sql (get_employee id) s.db (ok c) db e in
        let shows =
          first_employee-select h parse id (engine.tables s.db).employees c rows
          ∙ ap (λ (u : Tables). returned (shown h parse id (find id u.employees))) has.tables_eq in
        subst
          (λ o.
            IfReturned (λ o s'. Has h parse t b s' × (o ≡ shown h parse id (find id t.employees))) o
              (record s { db = db }))
          (sym shows)
          (record { tables_eq = same.tables_eq ∙ has.tables_eq; broker_eq = has.broker_eq }, refl)
    found-Has id (err text) s db has e = tt

    pub get_employee_by_id-Ensures :
        (id : ℤ)
        → Ensures
            (Has h parse t b)
            (get_employee_by_id h parse id)
            (λ o s. Has h parse t b s × (o ≡ shown h parse id (find id t.employees)))
    unfolding get_employee_by_id
    get_employee_by_id-Ensures id = record {
      at = λ s has. let r = engine.query (get_employee id) s.db in found-Has id r.0 s r.1 has refl;
    }
