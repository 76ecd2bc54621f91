-- ===== src/Sql/Statement.antt =====
-- The statements that the service executes, and what each does to the tables when it succeeds.
-- Which id an insert chooses and what time it is are the database's.
use sync_bridge.Base.{ℕ, ◌≡◌, refl, Bool, true, false, Option, none, some, length}
use sync_bridge.Base.Int.{ℤ, pos, eqb_ℤ}
use sync_bridge.Text.{Bytes, str, eqb}
use sync_bridge.Sql.Table.{Table, find, add, modify, remove, select, upsert}
use sync_bridge.Sql.Schema.{
  CustomerRow, ProductRow, OrderRow, OrderItemRow, EmployeeRow, HistoryRow, Targets, Tables,
}

-- The values bound to a statement's parameters: those of a customer, a product and an order.
pub record CustomerValues : Type 0 where
  pub email : Bytes
  pub first_name : Bytes
  pub last_name : Bytes
  pub default_currency : Bytes

pub record ProductValues : Type 0 where
  pub name : Bytes
  pub description : Option Bytes
  pub price : ℤ
  pub currency : Bytes
  pub active : ℤ
  pub weight_grams : Option ℤ

pub record OrderValues : Type 0 where
  pub order_number : Bytes
  pub customer_id : ℤ
  pub status : Bytes
  pub currency : Bytes
  pub amount : ℤ

-- the six columns that an update of an employee sets
pub record EmployeeUpdate : Type 0 where
  pub first_name : Bytes
  pub last_name : Bytes
  pub email : Bytes
  pub middle_name : Option Bytes
  pub company : Option Bytes
  pub job_title : Option Bytes

pub data Statement : Type 0 where
  -- internal/handlers/sync.go
  insert_history : Bytes → Statement
  mark_failed : ℤ → Bytes → Statement
  mark_successful : ℤ → Statement
  upsert_customer : ℤ → CustomerValues → Statement
  insert_customer : CustomerValues → Statement
  upsert_product : ℤ → ProductValues → Statement
  insert_product : ProductValues → Statement
  upsert_order : ℤ → OrderValues → Statement
  insert_order : OrderValues → Statement
  delete_order_items : ℤ → Statement
  insert_order_item : OrderItemRow → Statement
  upsert_employee : ℤ → EmployeeRow → Statement
  insert_employee : ℤ → EmployeeRow → Statement
  -- internal/handlers/history.go
  reset_history : ℤ → Statement
  delete_history : ℤ → Statement
  -- internal/handlers/health.go
  insert_probe : Bytes → Statement
  delete_probe : Bytes → Statement
  -- graph/schema.resolvers.go
  create_employee : ℤ → EmployeeRow → Statement
  update_employee : ℤ → EmployeeUpdate → Statement
  delete_employee : ℤ → Statement

abbrev pub new_customer : CustomerValues → Bytes → CustomerRow
new_customer v now = record {
  email = v.email;
  first_name = v.first_name;
  last_name = v.last_name;
  default_currency = v.default_currency;
  created_at = now;
  updated_at = now;
}

abbrev pub set_customer : CustomerValues → Bytes → CustomerRow → CustomerRow
set_customer v now r = record r {
  email = v.email;
  first_name = v.first_name;
  last_name = v.last_name;
  default_currency = v.default_currency;
  updated_at = now;
}

abbrev pub new_product : ProductValues → Bytes → ProductRow
new_product v now = record {
  name = v.name;
  description = v.description;
  price = v.price;
  currency = v.currency;
  active = v.active;
  weight_grams = v.weight_grams;
  created_at = now;
  updated_at = now;
}

abbrev pub set_product : ProductValues → Bytes → ProductRow → ProductRow
set_product v now r = record r {
  name = v.name;
  description = v.description;
  price = v.price;
  currency = v.currency;
  active = v.active;
  weight_grams = v.weight_grams;
  updated_at = now;
}

abbrev pub new_order : OrderValues → Bytes → OrderRow
new_order v now = record {
  order_number = v.order_number;
  customer_id = v.customer_id;
  status = v.status;
  currency = v.currency;
  amount = v.amount;
  placed_at = now;
  updated_at = now;
}

abbrev pub set_order : OrderValues → Bytes → OrderRow → OrderRow
set_order v now r = record r {
  order_number = v.order_number;
  customer_id = v.customer_id;
  status = v.status;
  currency = v.currency;
  amount = v.amount;
  updated_at = now;
}

abbrev pub pending_row : Bytes → Bytes → HistoryRow
pending_row payload now = record {
  payload = payload;
  status = str "PENDING_RETRY";
  failure_reason = none;
  retries = pos 0;
  created_at = now;
  updated_at = now;
}

abbrev pub probe_row : Bytes → Bytes → CustomerRow
probe_row email now = record {
  email = email;
  first_name = str "Health";
  last_name = str "Check";
  default_currency = str "USD";
  created_at = now;
  updated_at = now;
}

abbrev pub set_employee : EmployeeUpdate → EmployeeRow → EmployeeRow
set_employee v r = record r {
  first_name = v.first_name;
  last_name = v.last_name;
  email = v.email;
  middle_name = v.middle_name;
  company = v.company;
  job_title = v.job_title;
}

abbrev pub of_order : ℤ → ℤ → OrderItemRow → Bool
of_order id _ r = eqb_ℤ r.order_id id

abbrev pub has_email : Bytes → ℤ → CustomerRow → Bool
has_email email _ r = eqb r.email email

abbrev pub has_id {ℓ} : {R : Type ℓ} → ℤ → ℤ → R → Bool
has_id id j _ = eqb_ℤ j id

module _ (new : ℤ) (now : Bytes) where
  unfoldable pub target_effect : Statement → Targets → Targets
  target_effect (upsert_customer id v) t = record t {
    customers = upsert id (new_customer v now) (set_customer v now) t.customers;
  }
  target_effect (insert_customer v) t = record t {
    customers = add new (new_customer v now) t.customers;
  }
  target_effect (upsert_product id v) t = record t {
    products = upsert id (new_product v now) (set_product v now) t.products;
  }
  target_effect (insert_product v) t = record t {
    products = add new (new_product v now) t.products;
  }
  target_effect (upsert_order id v) t = record t {
    orders = upsert id (new_order v now) (set_order v now) t.orders;
  }
  target_effect (insert_order v) t = record t { orders = add new (new_order v now) t.orders }
  target_effect (delete_order_items id) t = record t {
    order_items = remove (of_order id) t.order_items;
  }
  target_effect (insert_order_item r) t = record t { order_items = add new r t.order_items }
  target_effect (upsert_employee id r) t = record t { employees = upsert id r (λ _. r) t.employees }
  target_effect (insert_employee id r) t = record t { employees = add id r t.employees }
  target_effect (insert_probe email) t = record t {
    customers = add new (probe_row email now) t.customers;
  }
  target_effect (delete_probe email) t = record t {
    customers = remove (has_email email) t.customers;
  }
  target_effect (create_employee id r) t = record t { employees = add id r t.employees }
  target_effect (update_employee id v) t = record t {
    employees = modify id (set_employee v) t.employees;
  }
  target_effect (delete_employee id) t = record t { employees = remove (has_id id) t.employees }
  target_effect _ t = t

  unfoldable pub history_effect : Statement → Table HistoryRow → Table HistoryRow
  history_effect (insert_history payload) t = add new (pending_row payload now) t
  history_effect (mark_failed id reason) t =
      modify id
        (λ r. record r { status = str "FAILED"; failure_reason = some reason; updated_at = now }) t
  history_effect (mark_successful id) t =
      modify id (λ r. record r { status = str "SUCCESSFUL"; updated_at = now }) t
  history_effect (reset_history id) t =
      modify id
        (λ r. record r { status = str "PENDING_RETRY"; failure_reason = none; updated_at = now }) t
  history_effect (delete_history id) t = remove (has_id id) t
  history_effect _ t = t

  unfoldable pub effect : Statement → Tables → Tables
  unfolding target_effect history_effect
  effect st t = record {
    targets = target_effect st t.targets;
    sync_history = history_effect st t.sync_history;
  }

-- The statements on `sync_history`.
abbrev pub writes_log : Statement → Bool
writes_log (insert_history _) = true
writes_log (mark_failed _ _) = true
writes_log (mark_successful _) = true
writes_log (reset_history _) = true
writes_log (delete_history _) = true
writes_log _ = false

pub history_effect-writes_log :
    (new : ℤ) (now : Bytes) (st : Statement) (t : Table HistoryRow)
    → writes_log st ≡ false
    → history_effect new now st t ≡ t
unfolding history_effect
history_effect-writes_log new now (insert_history _) t e = absurd (cc e)
history_effect-writes_log new now (mark_failed _ _) t e = absurd (cc e)
history_effect-writes_log new now (mark_successful _) t e = absurd (cc e)
history_effect-writes_log new now (reset_history _) t e = absurd (cc e)
history_effect-writes_log new now (delete_history _) t e = absurd (cc e)
history_effect-writes_log new now _ t e = refl

-- `RowsAffected`, of the deletions whose count the service reads.
abbrev pub IsCount : Statement → ℕ → Tables → Type 0
IsCount (delete_history id) n t = n ≡ length (select (has_id id) t.sync_history)
IsCount (delete_employee id) n t = n ≡ length (select (has_id id) t.employees)
IsCount _ n t = Unit

-- The id that AUTOINCREMENT chooses has no row yet, and neither has one that is inserted as given.
abbrev pub IsFresh : Statement → ℤ → Tables → Type 0
IsFresh (insert_history _) id t = find id t.sync_history ≡ none
IsFresh (insert_customer _) id t = find id t.customers ≡ none
IsFresh (insert_product _) id t = find id t.products ≡ none
IsFresh (insert_order _) id t = find id t.orders ≡ none
IsFresh (insert_order_item _) id t = find id t.order_items ≡ none
IsFresh (insert_probe _) id t = find id t.customers ≡ none
IsFresh (insert_employee id _) _ t = find id t.employees ≡ none
IsFresh (create_employee id _) _ t = find id t.employees ≡ none
IsFresh _ id t = Unit
