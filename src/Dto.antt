-- ===== src/Dto.antt =====
-- internal/dto/dto.go: the structs of requests, how JSON fills them, and their validation rules.
pub mod Rules
pub mod Decode
pub mod RoundTrip
mod Tests
use sync_bridge.Base.{Bool, Option, none, []}
use sync_bridge.Base.{List}
use sync_bridge.Base.Int.{ℤ}
use sync_bridge.Text.{Bytes}
use sync_bridge.Json.{Json}

-- A nil slice is `none`.
pub record SyncRequest : Type 0 where
  pub model : Bytes
  pub items : Option (List Json)

pub record CustomerDto : Type 0 where
  pub id : Option ℤ
  pub email : Bytes
  pub first_name : Bytes
  pub last_name : Bytes
  pub default_currency : Option Bytes

pub record ProductDto : Type 0 where
  pub id : Option ℤ
  pub name : Bytes
  pub description : Option Bytes
  pub price : Option ℤ
  pub currency : Option Bytes
  pub active : Option Bool
  pub weight_grams : Option ℤ

pub record OrderItemDto : Type 0 where
  pub id : Option ℤ
  pub product_id : Option ℤ
  pub qty : Option ℤ
  pub unit_price : Option ℤ

pub record OrderDto : Type 0 where
  pub id : Option ℤ
  pub order_number : Bytes
  pub customer_id : Option ℤ
  pub status : Bytes
  pub currency : Option Bytes
  pub amount : Option ℤ
  pub items : Option (List OrderItemDto)

pub record EmployeeDto : Type 0 where
  pub id : Bytes
  pub employee_id : Bytes
  pub first_name : Bytes
  pub middle_name : Option Bytes
  pub last_name : Bytes
  pub gender : Option Bytes
  pub email : Bytes
  pub phone_number : Option Bytes
  pub date_of_birth : Option Bytes
  pub nationality : Option Bytes
  pub job_level : Option Bytes
  pub department : Option Bytes
  pub location : Option Bytes
  pub bank_account_number : Option Bytes
  pub company : Option Bytes
  pub job_title : Option Bytes
  pub cost_center : Option Bytes
  pub start_date : Option Bytes
  pub employee_status : Option Bytes
  pub manager_id : Option Bytes
  pub manager_email : Option Bytes
  pub last_modified_on : Option Bytes
  pub last_modified : Option ℤ
