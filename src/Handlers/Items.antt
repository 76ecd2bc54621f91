-- ===== src/Handlers/Items.antt =====
-- The values that `processItem` computes from an item before it writes: defaults, the total of an
-- order, a random id.
pub mod RandomId
mod Tests
use sync_bridge.Base.{
  ℕ, zero, suc, ◌+◌, ◌-◌, ◌*◌, ◌/◌, ◌%◌, Bool, true, false, Option, none, some, List, [], ◌∷◌, ◌++◌,
  get_or, if◌then◌else◌, ◌==◌, ltb,
}
use sync_bridge.Base.Int.{ℤ, pos, negsuc, ◌+ℤ◌, ◌-ℤ◌, ◌*ℤ◌, wrap64, of_bits, modulus, ltb_ℤ}
use sync_bridge.Text.{Bytes, str}
use sync_bridge.Dto.{CustomerDto, ProductDto, OrderDto, EmployeeDto}
use sync_bridge.Sql.Schema.{EmployeeRow}
use sync_bridge.Sql.Statement.{CustomerValues, ProductValues, OrderValues}

pub record SyncResult : Type 0 where
  pub id : ℤ
  pub status : Bytes

abbrev currency_or_usd : Option Bytes → Bytes
currency_or_usd c = get_or c (str "USD")

abbrev pub created_or_updated : {A : Type 0} → Option A → Bytes
created_or_updated none = str "created"
created_or_updated (some id) = str "updated"

abbrev active_value : Option Bool → ℤ
active_value none = pos 1
active_value (some b) = if b then pos 1 else pos 0

abbrev pub customer_values : CustomerDto → CustomerValues
customer_values c = record {
  email = c.email;
  first_name = c.first_name;
  last_name = c.last_name;
  default_currency = currency_or_usd c.default_currency;
}

abbrev pub product_values : ProductDto → ℤ → ProductValues
product_values p price = record {
  name = p.name;
  description = p.description;
  price = price;
  currency = currency_or_usd p.currency;
  active = active_value p.active;
  weight_grams = p.weight_grams;
}

abbrev pub order_values : OrderDto → ℤ → ℤ → OrderValues
order_values o customer_id amount = record {
  order_number = o.order_number;
  customer_id = customer_id;
  status = o.status;
  currency = currency_or_usd o.currency;
  amount = amount;
}

-- the parameters of the INSERT with an id, which ON CONFLICT writes as well
abbrev pub upserted_employee : EmployeeDto → EmployeeRow
upserted_employee e = record {
  employee_id = e.employee_id;
  first_name = e.first_name;
  middle_name = e.middle_name;
  last_name = e.last_name;
  gender = e.gender;
  email = e.email;
  phone_number = e.phone_number;
  date_of_birth = e.date_of_birth;
  nationality = e.nationality;
  job_level = e.job_level;
  department = e.department;
  location = e.location;
  bank_account_number = e.bank_account_number;
  company = e.company;
  job_title = e.job_title;
  cost_center = e.cost_center;
  start_date = e.start_date;
  employee_status = e.employee_status;
  manager_id = e.manager_id;
  manager_email = e.manager_email;
  last_modified_on = e.last_modified_on;
  last_modified = e.last_modified;
}

-- the parameters of the INSERT with a random id
abbrev pub inserted_employee : EmployeeDto → EmployeeRow
inserted_employee e = record {
  employee_id = e.employee_id;
  first_name = e.first_name;
  middle_name = e.middle_name;
  last_name = e.last_name;
  gender = e.gender;
  email = e.email;
  phone_number = e.phone_number;
  date_of_birth = e.date_of_birth;
  nationality = e.nationality;
  job_level = e.job_level;
  department = e.department;
  location = e.location;
  bank_account_number = e.bank_account_number;
  company = e.company;
  job_title = e.job_title;
  cost_center = e.cost_center;
  start_date = e.start_date;
  employee_status = e.employee_status;
  manager_id = e.manager_id;
  manager_email = e.manager_email;
  last_modified_on = e.last_modified_on;
  last_modified = e.last_modified;
}

-- `sum += (*it.Qty) * (*it.UnitPrice)` on 64 bits
unfoldable pub add_price : ℤ → ℤ → ℤ → ℤ
add_price sum qty unit_price = wrap64 (sum +ℤ wrap64 (qty *ℤ unit_price))

-- `%d`: the decimal digits of a number of at most 20 digits, before those that are there already
decimal : ℕ → ℕ → Bytes → Bytes
decimal zero n after = after
decimal (suc fuel) n after =
    let now = (b'0' + n % 10) ∷ after in
    let more = decimal fuel (n / 10) now in if n / 10 == 0 then now else more

unfoldable pub show_int : ℤ → Bytes
unfolding decimal
show_int (pos n) = decimal 20 n []
show_int (negsuc n) = b'-' ∷ decimal 20 (suc n) []

abbrev pub amount_mismatch : ℤ → ℤ → Bytes
amount_mismatch sum provided =
    str "Order amount must equal the sum of item prices (qty * unit_price). Calculated="
    ++ (show_int sum ++ (str " provided=" ++ show_int provided))

-- `randID = (randID << 8) | int64(u[i])` for the first bytes of a UUID, on the bit pattern. The
-- shift clears the low byte, so that `|` adds.
unfoldable shift_in : ℕ → ℕ → Bytes → ℕ
shift_in zero bits u = bits
shift_in (suc n) bits [] = bits
shift_in (suc n) bits (b ∷ u) = shift_in n ((bits * 256 + b) % modulus) u

unfoldable pub random_id : Bytes → ℤ
unfolding shift_in
random_id u =
    let id = of_bits (shift_in 8 0 u) in if ltb_ℤ id (pos 0) then wrap64 (pos 0 -ℤ id) else id
