-- ===== src/Handlers/Process/Rollback.antt =====
-- Whatever `processItem` does, the transaction that was pending can still be rolled back, or has
-- been rolled back already.
use sync_bridge.Base.{◌≡◌, refl, sym, ap, ◌∙◌, inl, inr, false, Option, none, some, List, [], ◌∷◌}
use mathlib.Core.Option.{some_inj}
use sync_bridge.Base.Int.{ℤ}
use sync_bridge.Text.{Bytes}
use sync_bridge.Errors.{GoError}
use sync_bridge.Errors.Validation.{parse_validation_error-code}
use sync_bridge.Json.{Json}
use sync_bridge.Dto.{OrderItemDto, EmployeeDto}
use sync_bridge.Dto.Rules.{Checked, validate}
use sync_bridge.Sql.Schema.{Tables}
use sync_bridge.Sql.Statement.{Statement, effect, writes_log, history_effect-writes_log}
use sync_bridge.Sql.Engine.{Result, ok, err, Done, last_insert_id, IsSqlite}
use sync_bridge.Handlers.Host.{Host}
use sync_bridge.Handlers.Process.{
  of_result, exec_tx, inserted_id, new_uuid, unmarshalled, or_invalid, validated, save,
  process_customer, process_product, sum_items, check_amount, order_amount, insert_items,
  replace_items, process_order, save_employee, process_employee, process_item,
}
use sync_bridge.Handlers.Process.Keeps.{
  Pending, CanRollBack, Keeps, Keeps-fail, Keeps-deref, Keeps-bind, keeps_rules,
}

module _ (h : Host) (sql : IsSqlite h.engine) (t : Tables) where
  open h use {engine}

  exec_tx-result :
      (st : Statement) (r : Result Done) (s s' : engine.State)
      → writes_log st ≡ false
      → engine.exec st s ≡ (r, s')
      → Pending engine t s
      → CanRollBack engine t (of_result r) s'
  unfolding effect
  exec_tx-result st (ok d) s s' free e p =
      let x = sql.exec_ok st s s' d e in
      record {
        saved_eq = x.saved_eq ∙ p.saved_eq;
        log_eq =
            ap (λ (u : Tables). u.sync_history) x.tables_eq
            ∙ history_effect-writes_log d.row_id (engine.clock s) st (engine.tables s).sync_history
                free
            ∙ p.log_eq;
      }
  exec_tx-result st (err text) s s' free e p = elim (sql.exec_err st s s' text e) [
    | inl same ↦ (
      tt,
      inl (record {
        saved_eq = same.saved_eq ∙ p.saved_eq;
        log_eq = ap (λ (u : Tables). u.sync_history) same.tables_eq ∙ p.log_eq;
      }),
    )
    | inr back ↦ (tt, inr (some_inj.0 (sym back.pending ∙ p.saved_eq), back.ended))
  ]

  Keeps-exec_tx : (st : Statement) → writes_log st ≡ false → Keeps engine t (exec_tx h st)
  unfolding exec_tx
  Keeps-exec_tx st free = record {
    at = λ s p. exec_tx-result st (engine.exec st s).0 s (engine.exec st s).1 free refl p;
  }

  Keeps-of_result :
      {A : Type 0} (r : Result A) (s : engine.State)
      → Pending engine t s
      → CanRollBack engine t (of_result r) s
  Keeps-of_result (ok a) s p = p
  Keeps-of_result (err text) s p = (tt, inl p)

  Keeps-inserted_id : (d : Done) → Keeps engine t (inserted_id h d)
  unfolding inserted_id
  Keeps-inserted_id d = record { at = λ s p. Keeps-of_result (last_insert_id d) s p }

  Keeps-new_uuid : Keeps engine t (new_uuid h)
  unfolding new_uuid
  Keeps-new_uuid = record { at = λ s p. p }

  Keeps-unmarshalled : {A : Type 0} (o : Option A) → Keeps engine t (unmarshalled h o)
  unfolding unmarshalled
  Keeps-unmarshalled none = Keeps-fail engine t _ refl
  Keeps-unmarshalled (some a) = search keeps_rules

  Keeps-or_invalid : (o : Option GoError) → Keeps engine t (or_invalid h o)
  Keeps-or_invalid none = search keeps_rules
  Keeps-or_invalid (some x) = Keeps-fail engine t _ (parse_validation_error-code h.unicode x)

  Keeps-validated : (cs : List Checked) → Keeps engine t (validated h cs)
  unfolding validated
  Keeps-validated cs = Keeps-or_invalid (validate h.validator cs)

  Keeps-save :
      (id : Option ℤ) (upsert : ℤ → Statement) (insert : Statement)
      → ((i : ℤ) → writes_log (upsert i) ≡ false)
      → writes_log insert ≡ false
      → Keeps engine t (save h id upsert insert)
  unfolding save
  Keeps-save none upsert insert free_upsert free_insert =
      search (keeps_rules, Keeps-exec_tx, Keeps-inserted_id)
  Keeps-save (some id) upsert insert free_upsert free_insert =
      search (keeps_rules, Keeps-exec_tx, free_upsert)

  Keeps-sum_items : (its : List OrderItemDto) (sum : ℤ) → Keeps engine t (sum_items h its sum)
  unfolding sum_items
  Keeps-sum_items [] sum = search keeps_rules
  Keeps-sum_items (it ∷ its) sum =
      let ih = Keeps-sum_items its in search (keeps_rules, Keeps-validated, ih)

  Keeps-check_amount : (o : Option ℤ) (sum : ℤ) → Keeps engine t (check_amount h o sum)
  unfolding check_amount
  Keeps-check_amount none sum = search keeps_rules
  Keeps-check_amount (some provided) sum = search keeps_rules

  Keeps-order_amount :
      (its : Option (List OrderItemDto)) (amount : Option ℤ)
      → Keeps engine t (order_amount h its amount)
  unfolding order_amount
  Keeps-order_amount (some []) amount = search keeps_rules
  Keeps-order_amount (some (it ∷ its)) amount =
      search (keeps_rules, Keeps-sum_items, Keeps-check_amount)
  Keeps-order_amount none none = search keeps_rules
  Keeps-order_amount none (some amount) = search keeps_rules

  Keeps-insert_items : (id : ℤ) (its : List OrderItemDto) → Keeps engine t (insert_items h id its)
  unfolding insert_items
  Keeps-insert_items id [] = search keeps_rules
  Keeps-insert_items id (it ∷ its) =
      Keeps-bind engine t _ _ (Keeps-deref engine t it.product_id) λ p.
        Keeps-bind engine t _ _ (Keeps-deref engine t it.qty) λ q.
          Keeps-bind engine t _ _ (Keeps-deref engine t it.unit_price)
            λ u. Keeps-bind engine t _ _ (Keeps-exec_tx _ refl) λ _. Keeps-insert_items id its

  Keeps-replace_items :
      (id : ℤ) (o : Option (List OrderItemDto)) → Keeps engine t (replace_items h id o)
  unfolding replace_items
  Keeps-replace_items id none = search keeps_rules
  Keeps-replace_items id (some its) = search (keeps_rules, Keeps-exec_tx, Keeps-insert_items)

  Keeps-save_employee :
      (item : EmployeeDto) (o : Option ℤ) → Keeps engine t (save_employee h item o)
  unfolding save_employee
  Keeps-save_employee item none = search (keeps_rules, Keeps-new_uuid, Keeps-exec_tx)
  Keeps-save_employee item (some id) = search (keeps_rules, Keeps-exec_tx)

  ruleset step_rules = (keeps_rules, Keeps-unmarshalled, Keeps-validated, Keeps-save, refl)

  Keeps-process_customer : (j : Json) → Keeps engine t (process_customer h j)
  unfolding process_customer
  Keeps-process_customer j = search step_rules depth 9

  Keeps-process_product : (j : Json) → Keeps engine t (process_product h j)
  unfolding process_product
  Keeps-process_product j = search step_rules depth 9

  Keeps-process_order : (j : Json) → Keeps engine t (process_order h j)
  unfolding process_order
  Keeps-process_order j = search (step_rules, Keeps-order_amount, Keeps-replace_items) depth 12

  Keeps-process_employee : (j : Json) → Keeps engine t (process_employee h j)
  unfolding process_employee
  Keeps-process_employee j = search (step_rules, Keeps-save_employee) depth 9

  -- Whatever the item, the transaction can still be rolled back afterwards, or has been.
  pub Keeps-process_item : (model : Bytes) (j : Json) → Keeps engine t (process_item h model j)
  unfolding process_item
  Keeps-process_item model j =
      search
        (
          keeps_rules, Keeps-process_customer, Keeps-process_product, Keeps-process_order,
          Keeps-process_employee,
        )
        depth 9
