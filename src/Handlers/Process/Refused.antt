-- ===== src/Handlers/Process/Refused.antt =====
-- The steps of `processItem` that fail only if the database does.
use sync_bridge.Base.{◌≡◌, refl, sym, ap, subst, Option, none, some, Option-cases, inl, inr}
use mathlib.Core.Option.{some_inj}
use sync_bridge.Base.Int.{ℤ}
use sync_bridge.Dto.{EmployeeDto}
use sync_bridge.Sql.Statement.{Statement}
use sync_bridge.Sql.Engine.{Result, ok, err, Done}
use sync_bridge.Handlers.Host.{Host}
use sync_bridge.Handlers.Process.{
  of_result, exec_tx, inserted_id, new_uuid, unmarshalled, save, save_employee,
}
use sync_bridge.Handlers.Process.DbFails.{
  at_exec, at_id, Served, serves, refused, Serves, Serves-pure, Serves-bind,
}

module _ (h : Host) where
  open h use {engine}

  exec_tx-Served :
      (st : Statement) (r : Result Done) (s s' : engine.State)
      → engine.exec st s ≡ (r, s')
      → Served h (λ _. Unit) (exec_tx h st) s
  unfolding exec_tx
  exec_tx-Served st (ok d) s s' e = serves d s' (ap (λ x. (of_result x.0, x.1)) e) tt
  exec_tx-Served st (err text) s s' e =
      refused text s' (ap (λ x. (of_result x.0, x.1)) e) (at_exec st s s' text e)

  pub exec_tx-Serves : (st : Statement) → Serves h (λ _. Unit) (exec_tx h st)
  exec_tx-Serves st = record { at = λ s. exec_tx-Served st _ s _ refl }

  inserted_id-Serves : (d : Done) → Serves h (λ _. Unit) (inserted_id h d)
  unfolding inserted_id
  inserted_id-Serves d = elim (Option-cases d.row_id_error) [
    | inl given ↦ record { at = λ s. serves d.row_id s (rw given refl) tt }
    | inr (text, f) ↦ record { at = λ s. refused text s (rw f refl) (at_id d s text f) }
  ]

  pub save-Serves :
      (o : Option ℤ) (upsert : ℤ → Statement) (insert : Statement)
      → Serves h (λ _. Unit) (save h o upsert insert)
  unfolding save
  save-Serves none upsert insert =
      Serves-bind h _ _ _ _ (exec_tx-Serves insert) λ d _. inserted_id-Serves d
  save-Serves (some id) upsert insert =
      Serves-bind h _ _ _ _ (exec_tx-Serves (upsert id)) λ d _. Serves-pure h _ id tt

  pub unmarshalled-Serves :
      {A : Type 0} (Q : A → Type 0) (o : Option A) (a : A)
      → o ≡ some a
      → Q a
      → Serves h Q (unmarshalled h o)
  unfolding unmarshalled
  unmarshalled-Serves Q none a e q = absurd (cc e)
  unmarshalled-Serves Q (some b) a e q = Serves-pure h Q b (subst Q (sym (some_inj.0 e)) q)

  pub save_employee-Serves :
      (e : EmployeeDto) (o : Option ℤ) → Serves h (λ _. Unit) (save_employee h e o)
  unfolding save_employee new_uuid
  save_employee-Serves e (some id) =
      Serves-bind h _ _ _ _ (exec_tx-Serves _) λ d _. Serves-pure h _ id tt
  save_employee-Serves e none =
      Serves-bind h (λ _. Unit) _ _ _ (record { at = λ s. serves _ s refl tt })
        λ u _. Serves-bind h _ _ _ _ (exec_tx-Serves _) λ d _. Serves-pure h _ _ tt
