-- ===== src/Graph/Resolvers/Delete.antt =====
-- A deletion of an employee takes its row out of the table, and says whether there was one.
use sync_bridge.Base.{
  ◌≡◌, refl, ap, subst, ◌∙◌, Bool, Option, Option-cases, inl, inr, none, is_some, [], ◌∷◌, arith,
  if◌then◌else◌, length, ltb,
}
use sync_bridge.Base.Int.{ℤ, eqb_ℤ}
use sync_bridge.Text.{Bytes}
use sync_bridge.Sql.Table.{Table, find, select, find-remove}
use sync_bridge.Sql.Schema.{Tables}
use sync_bridge.Sql.Statement.{delete_employee, effect, target_effect, has_id}
use sync_bridge.Sql.Engine.{Result, ok, err, Done, IsSqlite, Executed}
use sync_bridge.Handlers.Action.{Outcome, returned}
use sync_bridge.Handlers.Action.Laws.{IfReturned}
use sync_bridge.Handlers.Host.{Host}
use sync_bridge.Graph.Resolvers.{GraphState, any_affected, delete_employee_resolver}

any-find :
    {R : Type 0} (id : ℤ) (t : Table R)
    → ltb 0 (length (select (has_id id) t)) ≡ is_some (find id t)
unfolding select find
any-find id [] = refl
any-find id ((j, r) ∷ t) = ground (arith, any-find id t)

module _ (h : Host) {Time : Type 0} (parse : Bytes → Bytes → Option Time)
    (sql : IsSqlite h.engine) where
  open h use {engine}

  -- What a deletion says and leaves.
  pub record Dismissed (id : ℤ) (s : GraphState h parse) (gone : Bool) (s' : GraphState h parse)
      : Type 0 where
    pub answer : gone ≡ is_some (find id (engine.tables s.db).employees)
    pub employees :
        (i : ℤ)
        → find i (engine.tables s'.db).employees
          ≡ (if eqb_ℤ id i then none else find i (engine.tables s.db).employees)
    pub log_eq : (engine.tables s'.db).sync_history ≡ (engine.tables s.db).sync_history
    pub broker_eq : s'.broker ≡ s.broker

  Executed-Dismissed :
      (id : ℤ) (d : Done) (s : GraphState h parse) (db : engine.State)
      → Executed engine (delete_employee id) d s.db db
      → IfReturned (Dismissed id s) (any_affected h parse (ok d)) (record s { db = db })
  unfolding effect target_effect
  Executed-Dismissed id d s db x = elim (Option-cases d.affected_error) [
    | inl counted ↦ rw counted (record {
      answer = ap (ltb 0) x.count ∙ any-find id (engine.tables s.db).employees;
      employees = λ i.
          ap (λ (t : Tables). find i t.employees) x.tables_eq
          ∙ find-remove i id (engine.tables s.db).employees;
      log_eq = ap (λ (t : Tables). t.sync_history) x.tables_eq;
      broker_eq = refl;
    })
    | inr (text, failure) ↦ rw failure tt
  ]

  affected-Dismissed :
      (id : ℤ) (r : Result Done) (s : GraphState h parse) (db : engine.State)
      → engine.exec (delete_employee id) s.db ≡ (r, db)
      → IfReturned (Dismissed id s) (any_affected h parse r) (record s { db = db })
  affected-Dismissed id (ok d) s db e =
      Executed-Dismissed id d s db (sql.exec_ok (delete_employee id) s.db db d e)
  affected-Dismissed id (err text) s db e = tt

  -- If deleteEmployee returns, it says whether there was an employee with that id; afterwards there
  -- is none, and every other employee, the log of syncs and the broker are what they were. The
  -- database behaves as `IsSqlite` says.
  pub delete_employee_resolver-Dismissed :
      (id : ℤ) (s s' : GraphState h parse) (gone : Bool)
      → delete_employee_resolver h parse id s ≡ (returned gone, s')
      → Dismissed id s gone s'
  unfolding delete_employee_resolver
  delete_employee_resolver-Dismissed id s s' gone e =
      let r = engine.exec (delete_employee id) s.db in
      subst (λ (out : Outcome Bool × GraphState h parse). IfReturned (Dismissed id s) out.0 out.1) e
        (affected-Dismissed id r.0 s r.1 refl)
