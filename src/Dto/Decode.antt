-- ===== src/Dto/Decode.antt =====
-- The `json:"…"` tags of dto.go: the keys of each struct's fields.
use sync_bridge.Base.{Option, none, some, List, [], ◌∷◌, String}
use sync_bridge.Text.{Bytes, str, Unicode}
use sync_bridge.Json.{
  Json, null, arr, Items, nil, cons, items_list, Setter, Schema, read_int, read_bool, read_text,
  into_text, into_ptr, unmarshal,
}
use sync_bridge.Dto.{SyncRequest, CustomerDto, ProductDto, OrderItemDto, OrderDto, EmployeeDto}

abbrev key : {S : Type 0} → String → Setter S → Bytes × Setter S
key name set = (str name, set)

-- `[]json.RawMessage`
into_raw : Setter SyncRequest
into_raw null s = some (record s { items = none })
into_raw (arr js) s = some (record s { items = some (items_list js) })
into_raw _ s = none

unfoldable pub decode_request : Unicode → Json → Option SyncRequest
unfolding into_raw
decode_request u =
    unmarshal u (key "model" (into_text (λ v s. record s { model = v })) ∷ key "data" into_raw ∷ [])
      (record { model = []; items = none })

unfoldable pub decode_customer : Unicode → Json → Option CustomerDto
decode_customer u =
    unmarshal u
      (key "id" (into_ptr read_int (λ v s. record s { id = v }))
        ∷ key "email" (into_text (λ v s. record s { email = v }))
        ∷ key "first_name" (into_text (λ v s. record s { first_name = v }))
        ∷ key "last_name" (into_text (λ v s. record s { last_name = v }))
        ∷ key "default_currency" (into_ptr read_text (λ v s. record s { default_currency = v }))
        ∷ [])
      (record { id = none; email = []; first_name = []; last_name = []; default_currency = none })

unfoldable pub decode_product : Unicode → Json → Option ProductDto
decode_product u =
    unmarshal u
      (key "id" (into_ptr read_int (λ v s. record s { id = v }))
        ∷ key "name" (into_text (λ v s. record s { name = v }))
        ∷ key "description" (into_ptr read_text (λ v s. record s { description = v }))
        ∷ key "price" (into_ptr read_int (λ v s. record s { price = v }))
        ∷ key "currency" (into_ptr read_text (λ v s. record s { currency = v }))
        ∷ key "active" (into_ptr read_bool (λ v s. record s { active = v }))
        ∷ key "weight_grams" (into_ptr read_int (λ v s. record s { weight_grams = v }))
        ∷ [])
      (record {
        id = none;
        name = [];
        description = none;
        price = none;
        currency = none;
        active = none;
        weight_grams = none;
      })

unfoldable pub decode_order_item : Unicode → Json → Option OrderItemDto
decode_order_item u =
    unmarshal u
      (key "id" (into_ptr read_int (λ v s. record s { id = v }))
        ∷ key "product_id" (into_ptr read_int (λ v s. record s { product_id = v }))
        ∷ key "qty" (into_ptr read_int (λ v s. record s { qty = v }))
        ∷ key "unit_price" (into_ptr read_int (λ v s. record s { unit_price = v }))
        ∷ [])
      (record { id = none; product_id = none; qty = none; unit_price = none })

unfoldable pub read_elements : Unicode → Items → Option (List OrderItemDto)
unfolding decode_order_item
read_elements u nil = some []
read_elements u (cons j js) = elim (decode_order_item u j) [
  | none ↦ none
  | some it ↦ elim (read_elements u js) [ none ↦ none | some its ↦ some (it ∷ its) ]
]

-- `[]OrderItemDto`; each element is decoded anew. encoding/json would decode the elements of a second
-- key `items` of one order onto those of the first, which is not modelled.
unfoldable pub read_order_items : Unicode → Json → Option (List OrderItemDto)
unfolding read_elements
read_order_items u (arr js) = read_elements u js
read_order_items u _ = none

unfoldable pub decode_order : Unicode → Json → Option OrderDto
unfolding read_order_items
decode_order u =
    unmarshal u
      (key "id" (into_ptr read_int (λ v s. record s { id = v }))
        ∷ key "order_number" (into_text (λ v s. record s { order_number = v }))
        ∷ key "customer_id" (into_ptr read_int (λ v s. record s { customer_id = v }))
        ∷ key "status" (into_text (λ v s. record s { status = v }))
        ∷ key "currency" (into_ptr read_text (λ v s. record s { currency = v }))
        ∷ key "amount" (into_ptr read_int (λ v s. record s { amount = v }))
        ∷ key "items" (into_ptr (read_order_items u) (λ v s. record s { items = v }))
        ∷ [])
      (record {
        id = none;
        order_number = [];
        customer_id = none;
        status = [];
        currency = none;
        amount = none;
        items = none;
      })

-- a field of type `*string`
abbrev optional : String → (Option Bytes → EmployeeDto → EmployeeDto) → Bytes × Setter EmployeeDto
optional name put = key name (into_ptr read_text put)

employee_keys : Schema EmployeeDto
employee_keys =
    key "id" (into_text (λ v s. record s { id = v }))
    ∷ key "employeeId" (into_text (λ v s. record s { employee_id = v }))
    ∷ key "firstName" (into_text (λ v s. record s { first_name = v }))
    ∷ optional "middleName" (λ v s. record s { middle_name = v })
    ∷ key "lastName" (into_text (λ v s. record s { last_name = v }))
    ∷ optional "gender" (λ v s. record s { gender = v })
    ∷ key "email" (into_text (λ v s. record s { email = v }))
    ∷ optional "phoneNumber" (λ v s. record s { phone_number = v })
    ∷ optional "dateOfBirth" (λ v s. record s { date_of_birth = v })
    ∷ optional "nationality" (λ v s. record s { nationality = v })
    ∷ optional "jobLevel" (λ v s. record s { job_level = v })
    ∷ optional "department" (λ v s. record s { department = v })
    ∷ optional "location" (λ v s. record s { location = v })
    ∷ optional "bankAccountNumber" (λ v s. record s { bank_account_number = v })
    ∷ optional "company" (λ v s. record s { company = v })
    ∷ optional "jobTitle" (λ v s. record s { job_title = v })
    ∷ optional "costCenter" (λ v s. record s { cost_center = v })
    ∷ optional "startDate" (λ v s. record s { start_date = v })
    ∷ optional "employeeStatus" (λ v s. record s { employee_status = v })
    ∷ optional "managerId" (λ v s. record s { manager_id = v })
    ∷ optional "managerEmail" (λ v s. record s { manager_email = v })
    ∷ optional "lastModifiedOn" (λ v s. record s { last_modified_on = v })
    ∷ key "lastModified" (into_ptr read_int (λ v s. record s { last_modified = v }))
    ∷ []

unfoldable pub decode_employee : Unicode → Json → Option EmployeeDto
unfolding employee_keys
decode_employee u = unmarshal u employee_keys (record {
  id = [];
  employee_id = [];
  first_name = [];
  middle_name = none;
  last_name = [];
  gender = none;
  email = [];
  phone_number = none;
  date_of_birth = none;
  nationality = none;
  job_level = none;
  department = none;
  location = none;
  bank_account_number = none;
  company = none;
  job_title = none;
  cost_center = none;
  start_date = none;
  employee_status = none;
  manager_id = none;
  manager_email = none;
  last_modified_on = none;
  last_modified = none;
})
