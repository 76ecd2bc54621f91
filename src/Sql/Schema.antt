-- ===== src/Sql/Schema.antt =====
-- The columns of each table of 001_init.sql beside `id`. A column that the service always fills is
-- not an `Option`, though the schema may allow NULL there.
use sync_bridge.Base.{Option}
use sync_bridge.Base.Int.{ℤ}
use sync_bridge.Text.{Bytes}
use sync_bridge.Sql.Table.{Table}

pub record CustomerRow : Type 0 where
  pub email : Bytes
  pub first_name : Bytes
  pub last_name : Bytes
  pub default_currency : Bytes
  pub created_at : Bytes
  pub updated_at : Bytes

pub record ProductRow : Type 0 where
  pub name : Bytes
  pub description : Option Bytes
  pub price : ℤ
  pub currency : Bytes
  pub active : ℤ
  pub weight_grams : Option ℤ
  pub created_at : Bytes
  pub updated_at : Bytes

pub record OrderRow : Type 0 where
  pub order_number : Bytes
  pub customer_id : ℤ
  pub status : Bytes
  pub currency : Bytes
  pub amount : ℤ
  pub placed_at : Bytes
  pub updated_at : Bytes

pub record OrderItemRow : Type 0 where
  pub order_id : ℤ
  pub product_id : ℤ
  pub qty : ℤ
  pub unit_price : ℤ

-- Texts are stored as they are given: that SQLite would turn a text that looks like a number, as
-- "007", into a number in the DATETIME columns `date_of_birth`, `start_date` and `last_modified_on`
-- is not modelled.
pub record EmployeeRow : Type 0 where
  pub employee_id : Bytes
  pub first_name : Bytes
  pub middle_name : Option Bytes
  pub last_name : Bytes
  pub gender : Option Bytes
  pub email : Bytes
  pub phone_number : Option Bytes
  pub date_of_birth : Option Bytes
  pub nationality : Option Bytes
  pub job_level : Option Bytes
  pub department : Option Bytes
  pub location : Option Bytes
  pub bank_account_number : Option Bytes
  pub company : Option Bytes
  pub job_title : Option Bytes
  pub cost_center : Option Bytes
  pub start_date : Option Bytes
  pub employee_status : Option Bytes
  pub manager_id : Option Bytes
  pub manager_email : Option Bytes
  pub last_modified_on : Option Bytes
  pub last_modified : Option ℤ

pub record HistoryRow : Type 0 where
  pub payload : Bytes
  pub status : Bytes
  pub failure_reason : Option Bytes
  pub retries : ℤ
  pub created_at : Bytes
  pub updated_at : Bytes

-- What a sync writes, apart from its log.
pub record Targets : Type 0 where
  pub customers : Table CustomerRow
  pub products : Table ProductRow
  pub orders : Table OrderRow
  pub order_items : Table OrderItemRow
  pub employees : Table EmployeeRow

pub record Tables : Type 0 where
  pub targets : Targets
  pub open targets use *
  pub sync_history : Table HistoryRow
