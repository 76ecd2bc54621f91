-- ===== src/Handlers/Process/Tests.antt =====
-- Runs of `processItem` on the database in memory, and its theorems at such runs.
use sync_bridge.Base.{◌≡◌, ◌≢◌, refl, none, some, get_or, List, [], ◌∷◌}
use sync_bridge.Base.Int.{pos, wrap64}
use sync_bridge.Text.{str}
use sync_bridge.Json.{Json, text, arr, obj, int, nil, cons, end, field}
use sync_bridge.Dto.{OrderItemDto, OrderDto}
use sync_bridge.Dto.Rules.{is_valid}
use sync_bridge.Dto.Decode.{decode_order}
use sync_bridge.Sql.Memory.{Memory, memory-IsSqlite}
use sync_bridge.Handlers.Action.{returned, panicked}
use sync_bridge.Handlers.Items.{SyncResult, created_or_updated}
use sync_bridge.Handlers.Example.{ascii_only, sample_host, empty, runs, rules_validator-IsValidator}
use sync_bridge.Handlers.Process.Products.{StoredProduct, process_product-returned}
use sync_bridge.Handlers.Process.Employees.{StoredEmployee, process_employee-returned}
use sync_bridge.Handlers.Process.OrderRow.{StoredOrder, process_order-stores_row}
use sync_bridge.Handlers.Process.{
  process_customer, process_product, process_employee, process_order, process_item, order_amount,
}
use sync_bridge.Handlers.Process.Safety.{process_item-ne-panicked}
use sync_bridge.Handlers.Process.Amount.{total, order_amount-returned}
use sync_bridge.Handlers.Process.Valid.{AllValid, order_amount-valid}
use sync_bridge.Handlers.Process.Customers.{Stored, process_customer-returned}
use sync_bridge.Handlers.Process.Orders.{HasItems, process_order-returned}

abbrev two_pens : Json
two_pens = obj (
    field (str "product_id") (int (pos 4))
      (field (str "qty") (int (pos 2)) (field (str "unit_price") (int (pos 150)) end)))

abbrev pens : Json
pens = obj (
    field (str "id") (int (pos 7)) (
      field (str "order_number") (text (str "A-1")) (
        field (str "customer_id") (int (pos 3)) (
          field (str "status") (text (str "paid"))
            (field (str "items") (arr (cons two_pens nil)) end)))))

abbrev pens_result : SyncResult
pens_result = record { id = pos 7; status = str "updated" }

abbrev after_pens : Memory
unfolding runs
after_pens = (process_order sample_host pens empty).1

pens-run : (process_order sample_host pens empty) ≡ (returned pens_result, after_pens)
unfolding runs
pens-run = refl

process_order-returned_example :
    (o : OrderDto) × (decode_order ascii_only pens ≡ some o)
    × (str "updated" ≡ created_or_updated o.id)
    × HasItems sample_host memory-IsSqlite o.items (pos 7) after_pens
process_order-returned_example =
    process_order-returned sample_host memory-IsSqlite pens empty after_pens pens_result pens-run

process_item-ne-panicked_example : (process_item sample_host (str "orders") pens empty).0 ≢ panicked
process_item-ne-panicked_example =
    process_item-ne-panicked sample_host rules_validator-IsValidator (str "orders") pens empty

abbrev pen_items : List OrderItemDto
pen_items =
    record { id = none; product_id = some (pos 4); qty = some (pos 2); unit_price = some (pos 150) }
    ∷ []

pen_items-run :
    order_amount sample_host (some pen_items) (some (pos 300)) empty ≡ (returned (pos 300), empty)
unfolding runs
pen_items-run = refl

order_amount-returned_example :
    (pos 300 ≡ wrap64 (total pen_items)) × (get_or (some (pos 300)) (pos 300) ≡ pos 300)
order_amount-returned_example =
    order_amount-returned sample_host memory-IsSqlite pen_items (some (pos 300)) (pos 300) empty
      empty pen_items-run

abbrev ada : Json
ada = obj (
    field (str "email") (text (str "ada@example.com")) (
      field (str "first_name") (text (str "Ada"))
        (field (str "last_name") (text (str "Lovelace")) end)))

abbrev ada_result : SyncResult
ada_result = record { id = pos 1; status = str "created" }

abbrev after_ada : Memory
unfolding runs
after_ada = (process_customer sample_host ada empty).1

ada-run : process_customer sample_host ada empty ≡ (returned ada_result, after_ada)
unfolding runs
ada-run = refl

process_customer-returned_example : Stored sample_host memory-IsSqlite ada ada_result after_ada
process_customer-returned_example =
    process_customer-returned sample_host memory-IsSqlite ada empty after_ada ada_result ada-run

pen_items-some : pen_items ≢ []
pen_items-some e = cc e

pen_items-AllValid : AllValid sample_host rules_validator-IsValidator pen_items
unfolding runs is_valid
pen_items-AllValid = (refl, tt)

pen_items-total : get_or (some (pos 300)) (wrap64 (total pen_items)) ≡ wrap64 (total pen_items)
unfolding runs total
pen_items-total = refl

order_amount-valid_example :
    order_amount sample_host (some pen_items) (some (pos 300)) empty
    ≡ (returned (wrap64 (total pen_items)), empty)
order_amount-valid_example =
    order_amount-valid sample_host rules_validator-IsValidator pen_items (some (pos 300)) empty
      pen_items-some pen_items-AllValid pen_items-total

process_order-stores_row_example :
    StoredOrder sample_host memory-IsSqlite pens pens_result after_pens
process_order-stores_row_example =
    process_order-stores_row sample_host memory-IsSqlite pens empty after_pens pens_result pens-run

abbrev pencil : Json
pencil = obj (
    field (str "id") (int (pos 9))
      (field (str "name") (text (str "Pencil")) (field (str "price") (int (pos 90)) end)))

abbrev pencil_result : SyncResult
pencil_result = record { id = pos 9; status = str "updated" }

abbrev after_pencil : Memory
unfolding runs
after_pencil = (process_product sample_host pencil empty).1

pencil-run : process_product sample_host pencil empty ≡ (returned pencil_result, after_pencil)
unfolding runs
pencil-run = refl

process_product-returned_example :
    StoredProduct sample_host memory-IsSqlite pencil pencil_result after_pencil
process_product-returned_example =
    process_product-returned sample_host memory-IsSqlite pencil empty after_pencil pencil_result
      pencil-run

abbrev grace : Json
grace = obj (
    field (str "id") (text (str "12")) (
      field (str "employeeId") (text (str "E-3")) (
        field (str "firstName") (text (str "Grace")) (
          field (str "lastName") (text (str "Hopper"))
            (field (str "email") (text (str "grace@example.com")) end)))))

abbrev grace_result : SyncResult
grace_result = record { id = pos 12; status = str "updated" }

abbrev after_grace : Memory
unfolding runs
after_grace = (process_employee sample_host grace empty).1

grace-run : process_employee sample_host grace empty ≡ (returned grace_result, after_grace)
unfolding runs
grace-run = refl

process_employee-returned_example :
    StoredEmployee sample_host memory-IsSqlite grace grace_result after_grace
process_employee-returned_example =
    process_employee-returned sample_host memory-IsSqlite grace empty after_grace grace_result
      grace-run
