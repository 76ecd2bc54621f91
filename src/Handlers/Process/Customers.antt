-- ===== src/Handlers/Process/Customers.antt =====
-- The row that a customer item leaves.
use sync_bridge.Base.{◌≡◌, refl, ap, subst, ◌∙◌, Option, some, get_or, Option-cases, inl, inr}
use sync_bridge.Base.Int.{ℤ}
use sync_bridge.Text.{str}
use sync_bridge.Json.{Json}
use sync_bridge.Dto.{CustomerDto}
use sync_bridge.Dto.Rules.{customer_rules}
use sync_bridge.Dto.Decode.{decode_customer}
use sync_bridge.Sql.Table.{find, find-add_self, find-upsert_new, find-upsert_old}
use sync_bridge.Sql.Schema.{CustomerRow, Tables}
use sync_bridge.Sql.Statement.{
  upsert_customer, insert_customer, new_customer, set_customer, effect, target_effect,
}
use sync_bridge.Sql.Engine.{IsSqlite, Done, Executed}
use sync_bridge.Handlers.Action.{Outcome, returned}
use sync_bridge.Handlers.Action.Laws.{IfReturned, Ensures, Ensures-pure, Ensures-bind}
use sync_bridge.Handlers.Host.{Host}
use sync_bridge.Handlers.Items.{SyncResult, created_or_updated, customer_values}
use sync_bridge.Handlers.Process.{validated, save, process_customer}
use sync_bridge.Handlers.Process.Saved.{save-Ensures}
use sync_bridge.Handlers.Process.Triples.{unmarshalled-Ensures, fact-Ensures, fact-kept}

-- The row has what the item says, and US dollars where it names no currency.
abbrev IsCustomer : CustomerDto → CustomerRow → Type 0
IsCustomer c row =
    (row.email ≡ c.email)
    × (row.first_name ≡ c.first_name)
    × (row.last_name ≡ c.last_name)
    × (row.default_currency ≡ get_or c.default_currency (str "USD"))

module _ (h : Host) (sql : IsSqlite h.engine) where
  open h use {engine}

  abbrev HasCustomer : CustomerDto → ℤ → engine.State → Type 0
  HasCustomer c id s =
      (row : CustomerRow) × (find id (engine.tables s).customers ≡ some row) × IsCustomer c row

  inserted-HasCustomer :
      (c : CustomerDto) (d : Done) (s s' : engine.State)
      → Executed engine (insert_customer (customer_values c)) d s s'
      → HasCustomer c d.row_id s'
  unfolding effect target_effect
  inserted-HasCustomer c d s s' x =
      let row = new_customer (customer_values c) (engine.clock s) in
      (
        row,
        ap (λ (t : Tables). find d.row_id t.customers) x.tables_eq
            ∙ find-add_self d.row_id row (engine.tables s).customers x.fresh,
        (refl, refl, refl, refl),
      )

  upserted-HasCustomer :
      (c : CustomerDto) (id : ℤ) (d : Done) (s s' : engine.State)
      → Executed engine (upsert_customer id (customer_values c)) d s s'
      → HasCustomer c id s'
  unfolding effect target_effect
  upserted-HasCustomer c id d s s' x =
      let v = customer_values c in
      let now = engine.clock s in
      let old = (engine.tables s).customers in
      let here = ap (λ (t : Tables). find id t.customers) x.tables_eq in
      elim (Option-cases (find id old)) [
        | inl new ↦ (
          new_customer v now,
          here ∙ find-upsert_new id (new_customer v now) (set_customer v now) old new,
          (refl, refl, refl, refl),
        )
        | inr (row, known) ↦ (
          set_customer v now row,
          here ∙ find-upsert_old id (new_customer v now) row (set_customer v now) old known,
          (refl, refl, refl, refl),
        )
      ]

  save-HasCustomer :
      (c : CustomerDto) (o : Option ℤ)
      → Ensures
          (λ s. Unit)
          (save h o
            (λ id. upsert_customer id (customer_values c))
            (insert_customer (customer_values c)))
          (HasCustomer c)
  save-HasCustomer c =
      save-Ensures h sql (λ id. upsert_customer id (customer_values c))
        (insert_customer (customer_values c)) (HasCustomer c) (upserted-HasCustomer c)
        (inserted-HasCustomer c)

  -- What an item stores, and says of it.
  abbrev pub Stored : Json → SyncResult → engine.State → Type 0
  Stored j r s =
      (c : CustomerDto) × (decode_customer h.unicode j ≡ some c)
      × (r.status ≡ created_or_updated c.id)
      × HasCustomer c r.id s

  process_customer-Ensures : (j : Json) → Ensures (λ s. Unit) (process_customer h j) (Stored j)
  unfolding process_customer
  process_customer-Ensures j =
      Ensures-bind _ _ _ _ _ (unmarshalled-Ensures h sql (decode_customer h.unicode j)) λ c.
        let F : Type 0 = decode_customer h.unicode j ≡ some c in
        Ensures-bind _ (λ _ s. F) _ _ _ (fact-kept h sql F (validated h (customer_rules c)))
          λ _.
            Ensures-bind _ _ _ _ _ (fact-Ensures h sql F _ _ (save-HasCustomer c c.id))
              λ id. Ensures-pure _ _ _ (λ s (decoded, has). (c, decoded, refl, has))

  -- If `processItem` returns a result for a customer, the item decodes to a customer, and under the
  -- id of the result there is a row with its email and names, and with its currency or USD; the
  -- result says whether the item had an id.
  pub process_customer-returned :
      (j : Json) (s s' : engine.State) (r : SyncResult)
      → process_customer h j s ≡ (returned r, s')
      → Stored j r s'
  process_customer-returned j s s' r e =
      subst (λ (out : Outcome SyncResult × engine.State). IfReturned (Stored j) out.0 out.1) e
        ((process_customer-Ensures j).at s tt)
