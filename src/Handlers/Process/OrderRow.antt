-- ===== src/Handlers/Process/OrderRow.antt =====
-- The row of `orders` that an order item leaves, with its amount.
use sync_bridge.Base.{
  ◌≡◌, refl, sym, ap, subst, ◌∙◌, Option, none, some, get_or, List, [], ◌∷◌, Option-cases, inl, inr,
}
use sync_bridge.Base.Int.{ℤ, wrap64}
use sync_bridge.Text.{Bytes, str}
use sync_bridge.Json.{Json}
use sync_bridge.Dto.{OrderItemDto, OrderDto}
use sync_bridge.Dto.Rules.{order_rules}
use sync_bridge.Dto.Decode.{decode_order}
use sync_bridge.Sql.Table.{find, find-add_self, find-upsert_new, find-upsert_old}
use sync_bridge.Sql.Schema.{OrderRow, Tables}
use sync_bridge.Sql.Statement.{
  Statement, upsert_order, insert_order, insert_order_item, delete_order_items, new_order,
  set_order, effect, target_effect,
}
use sync_bridge.Sql.Engine.{IsSqlite, Done, Executed}
use sync_bridge.Handlers.Action.{Outcome, returned, deref}
use sync_bridge.Handlers.Action.Laws.{
  IfReturned, Ensures, Ensures-pure, Ensures-fail, Ensures-bind, Ensures-weaken, Ensures-deref,
  Ensures-given,
}
use sync_bridge.Handlers.Host.{Host}
use sync_bridge.Handlers.Items.{SyncResult, order_values}
use sync_bridge.Handlers.Process.{
  exec_tx, validated, save, order_amount, insert_items, replace_items, process_order,
}
use sync_bridge.Handlers.Process.Amount.{total, order_amount-Ensures}
use sync_bridge.Handlers.Process.Triples.{
  Ensures-exec_tx, unmarshalled-Ensures, fact-Ensures, fact-kept,
}
use sync_bridge.Handlers.Process.Saved.{save-Ensures}

-- The amount of an order: of its items, if it lists any, and else the one it gives.
abbrev AmountOf : Option (List OrderItemDto) → Option ℤ → ℤ → Type 0
AmountOf none amount a = amount ≡ some a
AmountOf (some its) amount a = (a ≡ wrap64 (total its)) × (get_or amount a ≡ a)

abbrev IsAmount : OrderDto → ℤ → Type 0
IsAmount o a = AmountOf o.items o.amount a

abbrev IsOrder : OrderDto → OrderRow → Type 0
IsOrder o row =
    (row.order_number ≡ o.order_number)
    × (some row.customer_id ≡ o.customer_id)
    × (row.status ≡ o.status)
    × (row.currency ≡ get_or o.currency (str "USD"))
    × IsAmount o row.amount

module _ (h : Host) (sql : IsSqlite h.engine) where
  open h use {engine}

  abbrev HasOrder : OrderDto → ℤ → engine.State → Type 0
  HasOrder o id s = (row : OrderRow) × (find id (engine.tables s).orders ≡ some row) × IsOrder o row

  module _ (o : OrderDto) (customer amount : ℤ) (known : o.customer_id ≡ some customer)
      (due : IsAmount o amount) where
    inserted-HasOrder :
        (d : Done) (s s' : engine.State)
        → Executed engine (insert_order (order_values o customer amount)) d s s'
        → HasOrder o d.row_id s'
    unfolding effect target_effect
    inserted-HasOrder d s s' x =
        let row = new_order (order_values o customer amount) (engine.clock s) in
        (
          row,
          ap (λ (t : Tables). find d.row_id t.orders) x.tables_eq
              ∙ find-add_self d.row_id row (engine.tables s).orders x.fresh,
          (refl, sym known, refl, refl, due),
        )

    upserted-HasOrder :
        (id : ℤ) (d : Done) (s s' : engine.State)
        → Executed engine (upsert_order id (order_values o customer amount)) d s s'
        → HasOrder o id s'
    unfolding effect target_effect
    upserted-HasOrder id d s s' x =
        let v = order_values o customer amount in
        let now = engine.clock s in
        let old = (engine.tables s).orders in
        let here = ap (λ (t : Tables). find id t.orders) x.tables_eq in
        elim (Option-cases (find id old)) [
          | inl new ↦ (
            new_order v now,
            here ∙ find-upsert_new id (new_order v now) (set_order v now) old new,
            (refl, sym known, refl, refl, due),
          )
          | inr (row, there) ↦ (
            set_order v now row,
            here ∙ find-upsert_old id (new_order v now) row (set_order v now) old there,
            (refl, sym known, refl, refl, due),
          )
        ]

  -- A statement on the items leaves the orders as they are.
  items-keep :
      (o : OrderDto) (id : ℤ) (st : Statement)
      → ((new : ℤ) (now : Bytes) (t : Tables) → (effect new now st t).orders ≡ t.orders)
      → Ensures (HasOrder o id) (exec_tx h st) (λ _. HasOrder o id)
  items-keep o id st apart =
      Ensures-weaken _ _ _ _ _
        (λ s p. (
          p,
          λ d s' (t, (row, found, is), x). (
            row,
            ap (λ (u : Tables). find id u.orders) x.tables_eq
                ∙ ap (find id) (apart d.row_id (engine.clock t) (engine.tables t))
                ∙ found,
            is,
          ),
        ))
        (Ensures-exec_tx h sql st (HasOrder o id))

  insert_items-keep :
      (o : OrderDto) (id order : ℤ) (its : List OrderItemDto)
      → Ensures (HasOrder o id) (insert_items h order its) (λ _. HasOrder o id)
  unfolding insert_items effect target_effect
  insert_items-keep o id order [] = Ensures-pure _ _ tt (λ s p. p)
  insert_items-keep o id order (it ∷ its) = Ensures-bind _ _ _ _ _ (deref-keep it.product_id) λ p.
      Ensures-bind _ _ _ _ _ (deref-keep it.qty) λ q.
        Ensures-bind _ _ _ _ _ (deref-keep it.unit_price) λ u.
          Ensures-bind _ _ _ _ _ (items-keep o id (insert_order_item _) (λ new now t. refl))
            λ _. insert_items-keep o id order its
    where
      deref-keep : (x : Option ℤ) → Ensures (HasOrder o id) (deref x) (λ _. HasOrder o id)
      deref-keep x = Ensures-weaken _ _ _ _ _ (λ s p. (p, λ a s' (q, _). q)) (Ensures-deref _ x)

  replace_items-keep :
      (o : OrderDto) (id : ℤ) (its : Option (List OrderItemDto))
      → Ensures (HasOrder o id) (replace_items h id its) (λ _. HasOrder o id)
  unfolding replace_items effect target_effect
  replace_items-keep o id none = Ensures-pure _ _ tt (λ s p. p)
  replace_items-keep o id (some its) =
      Ensures-bind _ _ _ _ _ (items-keep o id (delete_order_items id) (λ new now t. refl))
        λ _. insert_items-keep o id id its

  replace_items-keep_any :
      (o : OrderDto) (id : ℤ) (its : Option (List OrderItemDto)) (F : Type 0)
      → Ensures (λ s. F × HasOrder o id s) (replace_items h id its) (λ _ s. F × HasOrder o id s)
  replace_items-keep_any o id its F =
      Ensures-weaken (HasOrder o id) _ (λ _. HasOrder o id) _ (replace_items h id its)
        (λ s (f, has). (has, λ _ s' has'. (f, has'))) (replace_items-keep o id its)

  amount-IsAmount :
      (o : OrderDto) → Ensures (λ s. Unit) (order_amount h o.items o.amount) (λ a s. IsAmount o a)
  unfolding order_amount
  amount-IsAmount o = given_by o.items o.amount
    where
      given_by :
          (its : Option (List OrderItemDto)) (amount : Option ℤ)
          → Ensures (λ s. Unit) (order_amount h its amount) (λ a s. AmountOf its amount a)
      given_by none none = Ensures-fail _ _ _
      given_by none (some a) = Ensures-pure _ _ a (λ s p. refl)
      given_by (some its) amount = order_amount-Ensures h sql its amount

  -- What an item stores.
  abbrev pub StoredOrder : Json → SyncResult → engine.State → Type 0
  StoredOrder j r s = (o : OrderDto) × (decode_order h.unicode j ≡ some o) × HasOrder o r.id s

  saved-HasOrder :
      (o : OrderDto) (customer amount : ℤ)
      → o.customer_id ≡ some customer
      → IsAmount o amount
      → Ensures
          (λ s. Unit)
          (save h o.id
            (λ id. upsert_order id (order_values o customer amount))
            (insert_order (order_values o customer amount)))
          (HasOrder o)
  saved-HasOrder o customer amount known due =
      save-Ensures h sql (λ id. upsert_order id (order_values o customer amount))
        (insert_order (order_values o customer amount)) (HasOrder o)
        (upserted-HasOrder o customer amount known due)
        (inserted-HasOrder o customer amount known due) o.id

  process_order-Stored : (j : Json) → Ensures (λ s. Unit) (process_order h j) (StoredOrder j)
  unfolding process_order
  process_order-Stored j =
      Ensures-bind _ _ _ _ _ (unmarshalled-Ensures h sql (decode_order h.unicode j)) λ o.
        let F : Type 0 = decode_order h.unicode j ≡ some o in
        Ensures-bind _ (λ _ s. F) _ _ _ (fact-kept h sql F (validated h (order_rules o)))
          λ _. Ensures-bind _ _ _ _ _ (fact-Ensures h sql F _ _ (amount-IsAmount o)) λ amount.
            Ensures-given _ _ _ _ λ due.
              Ensures-bind _ _ _ _ _ (Ensures-deref (λ _. F) o.customer_id) λ customer.
                Ensures-given _ _ _ _ λ known.
                  Ensures-bind _ _ _ _ _
                    (fact-Ensures h sql F _ _ (saved-HasOrder o customer amount known due))
                    λ id.
                      Ensures-bind _ _ _ _ _ (replace_items-keep_any o id o.items F)
                        λ _. Ensures-pure _ _ _ (λ s (decoded, has). (o, decoded, has))

  -- If `processItem` returns a result for an order, the item decodes to an order, and under the id
  -- of the result there is a row with its number, customer, status and currency (US dollars where
  -- it names none). The row's amount is the one the item gives where it lists no items; else it
  -- is the sum of quantity times unit price, wrapped around to 64 bits, and equal to the one that
  -- the item gives, if any.
  pub process_order-stores_row :
      (j : Json) (s s' : engine.State) (r : SyncResult)
      → process_order h j s ≡ (returned r, s')
      → StoredOrder j r s'
  process_order-stores_row j s s' r e =
      subst (λ (out : Outcome SyncResult × engine.State). IfReturned (StoredOrder j) out.0 out.1) e
        ((process_order-Stored j).at s tt)
