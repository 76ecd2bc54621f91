-- ===== src/Handlers/Process.antt =====
-- `processItem` of internal/handlers/sync.go: one item of a sync, written inside the transaction.
pub mod Keeps
pub mod Rollback
pub mod Safety
pub mod Triples
pub mod Orders
pub mod Amount
pub mod Saved
pub mod Customers
pub mod Products
pub mod Employees
pub mod OrderRow
pub mod Valid
pub mod DbFails
pub mod Refused
pub mod Served
mod Tests
use sync_bridge.Base.{◌≡◌, Bool, Option, none, some, List, [], ◌∷◌, ◌++◌, if◌then◌else◌}
use sync_bridge.Base.Int.{ℤ, pos, eqb_ℤ}
use sync_bridge.Text.{Bytes, str, eqb}
use sync_bridge.Text.Number.{parse_int}
use sync_bridge.Errors.{GoError, app, other, new_bad_request_error, parse_validation_error}
use sync_bridge.Json.{Json}
use sync_bridge.Dto.{CustomerDto, ProductDto, OrderItemDto, OrderDto, EmployeeDto}
use sync_bridge.Dto.Rules.{
  Checked, validate, customer_rules, product_rules, order_item_rules, order_rules, employee_rules,
}
use sync_bridge.Dto.Decode.{decode_customer, decode_product, decode_order, decode_employee}
use sync_bridge.Sql.Statement.{
  Statement, upsert_customer, insert_customer, upsert_product, insert_product, upsert_order,
  insert_order, delete_order_items, insert_order_item, upsert_employee, insert_employee,
  OrderValues,
}
use sync_bridge.Sql.Engine.{Result, ok, err, Done, last_insert_id}
use sync_bridge.Handlers.Action.{Outcome, returned, failed, Action, pure, fail, deref, ◌>>=◌, ◌>>◌}
use sync_bridge.Handlers.Host.{Host}
use sync_bridge.Handlers.Items.{
  SyncResult, created_or_updated, customer_values, product_values, order_values, upserted_employee,
  inserted_employee, add_price, amount_mismatch, random_id,
}

abbrev pub of_result : {A : Type 0} → Result A → Outcome A
of_result (ok a) = returned a
of_result (err text) = failed (other text)

abbrev bad_request : Bytes → GoError
bad_request msg = app (new_bad_request_error msg)

module _ (h : Host) where
  open h use {unicode, validator, engine, uuid}

  abbrev pub Tx : Type 0 → Type 0
  Tx A = Action engine.State A

  -- `tx.Exec`
  unfoldable pub exec_tx : Statement → Tx Done
  exec_tx st s = let (r, s') = engine.exec st s in (of_result r, s')

  -- `res.LastInsertId()`
  unfoldable pub inserted_id : Done → Tx ℤ
  inserted_id d s = (of_result (last_insert_id d), s)

  -- `uuid.New()`
  unfoldable pub new_uuid : Tx Bytes
  new_uuid s = (returned (uuid s), s)

  unfoldable pub unmarshalled : {A : Type 0} → Option A → Tx A
  unmarshalled none = fail (bad_request (str "Malformed item JSON"))
  unmarshalled (some a) = pure a

  abbrev pub or_invalid : Option GoError → Tx Unit
  or_invalid none = pure tt
  or_invalid (some e) = fail (app (parse_validation_error unicode e))

  unfoldable pub validated : List Checked → Tx Unit
  validated cs = or_invalid (validate validator cs)

  -- The row with the given id is written, or a new row with an id of the database's.
  unfoldable pub save : Option ℤ → (ℤ → Statement) → Statement → Tx ℤ
  save none upsert insert = do done ← exec_tx insert; inserted_id done
  save (some id) upsert insert = do exec_tx (upsert id); pure id

  unfoldable pub process_customer : Json → Tx SyncResult
  process_customer item_val = do
    item ← unmarshalled (decode_customer unicode item_val)
    validated (customer_rules item)
    let values = customer_values item
    id ← save item.id (λ id. upsert_customer id values) (insert_customer values)
    pure (record { id = id; status = created_or_updated item.id })

  unfoldable pub process_product : Json → Tx SyncResult
  process_product item_val = do
    item ← unmarshalled (decode_product unicode item_val)
    validated (product_rules item)
    price ← deref item.price
    let values = product_values item price
    id ← save item.id (λ id. upsert_product id values) (insert_product values)
    pure (record { id = id; status = created_or_updated item.id })

  -- the loop over an order's items that adds up their prices
  unfoldable pub sum_items : List OrderItemDto → ℤ → Tx ℤ
  sum_items [] sum = pure sum
  sum_items (it ∷ its) sum = do
    validated (order_item_rules it)
    qty ← deref it.qty
    unit_price ← deref it.unit_price
    sum_items its (add_price sum qty unit_price)

  unfoldable pub check_amount : Option ℤ → ℤ → Tx ℤ
  check_amount none sum = pure sum
  check_amount (some provided) sum =
      if eqb_ℤ provided sum then pure sum else fail (bad_request (amount_mismatch sum provided))

  -- `calculatedAmount`
  unfoldable pub order_amount : Option (List OrderItemDto) → Option ℤ → Tx ℤ
  order_amount (some []) amount = fail (bad_request (str "Order must include items or an amount"))
  order_amount (some (it ∷ its)) amount = do
    sum ← sum_items (it ∷ its) (pos 0)
    check_amount amount sum
  order_amount none none = fail (bad_request (str "Order must include items or an amount"))
  order_amount none (some amount) = pure amount

  unfoldable pub insert_items : ℤ → List OrderItemDto → Tx Unit
  insert_items id [] = pure tt
  insert_items id (it ∷ its) = do
    product_id ← deref it.product_id
    qty ← deref it.qty
    unit_price ← deref it.unit_price
    exec_tx (
        insert_order_item
          (record { order_id = id; product_id = product_id; qty = qty; unit_price = unit_price }))
    insert_items id its

  -- "Replace items cascade-style"
  unfoldable pub replace_items : ℤ → Option (List OrderItemDto) → Tx Unit
  replace_items id none = pure tt
  replace_items id (some its) = do exec_tx (delete_order_items id); insert_items id its

  unfoldable pub process_order : Json → Tx SyncResult
  process_order item_val = do
    item ← unmarshalled (decode_order unicode item_val)
    validated (order_rules item)
    amount ← order_amount item.items item.amount
    customer_id ← deref item.customer_id
    let values = order_values item customer_id amount
    id ← save item.id (λ id. upsert_order id values) (insert_order values)
    replace_items id item.items
    pure (record { id = id; status = created_or_updated item.id })

  unfoldable pub save_employee : EmployeeDto → Option ℤ → Tx ℤ
  save_employee item (some id) = do exec_tx (upsert_employee id (upserted_employee item)); pure id
  save_employee item none = do
    u ← new_uuid
    exec_tx (insert_employee (random_id u) (inserted_employee item))
    pure (random_id u)

  unfoldable pub process_employee : Json → Tx SyncResult
  process_employee item_val = do
    item ← unmarshalled (decode_employee unicode item_val)
    validated (employee_rules item)
    let parsed = parse_int item.id
    id ← save_employee item parsed
    pure (record { id = id; status = created_or_updated parsed })

  unfoldable pub process_item : Bytes → Json → Tx SyncResult
  process_item model item_val =
      if eqb model (str "customers")
      then process_customer item_val
      else if eqb model (str "products")
      then process_product item_val
      else if eqb model (str "orders")
      then process_order item_val
      else if eqb model (str "employees")
      then process_employee item_val
      else fail (bad_request (str "Invalid model: " ++ model))
