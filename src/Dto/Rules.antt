-- ===== src/Dto/Rules.antt =====
-- The `validate:"…"` tags of dto.go, and the validator package that reads them, which is a
-- parameter: `check` returns its `ValidationErrors` (none: the struct is valid).
use sync_bridge.Base.{
  ℕ, suc, String, ◌≡◌, ◌↔◌, Bool, true, false, ◌&&◌, ◌||◌, not, Option, none, some, List, [], ◌∷◌,
  ltb, leb, ◌==◌, if◌then◌else◌, is_some, length,
}
use sync_bridge.Base.Int.{ℤ}
use sync_bridge.Text.{Bytes, str, eqb}
use sync_bridge.Errors.{FieldError, GoError, validation}
use sync_bridge.Dto.{SyncRequest, CustomerDto, ProductDto, OrderItemDto, OrderDto, EmployeeDto}

pub data Rule : Type 0 where
  required email omitempty : Rule
  one_of : List Bytes → Rule
  min_items len_is : ℕ → Rule

-- The values that carry rules: a slice counts by its length.
pub data Value : Type 0 where
  string : Bytes → Value
  string_ptr : Option Bytes → Value
  int_ptr : Option ℤ → Value
  slice : Option ℕ → Value

pub record Checked : Type 0 where
  pub name : Bytes
  pub value : Value
  pub rules : List Rule

abbrev checked : String → Value → List Rule → Checked
checked name value rules = record { name = str name; value = value; rules = rules }

abbrev slice_length {ℓ} : {A : Type ℓ} → Option (List A) → Option ℕ
slice_length none = none
slice_length (some xs) = some (length xs)

unfoldable pub request_rules : SyncRequest → List Checked
request_rules s =
    checked "Model" (string s.model) (
      required
      ∷ one_of (str "customers" ∷ str "products" ∷ str "orders" ∷ str "employees" ∷ [])
      ∷ [])
    ∷ checked "Data" (slice (slice_length s.items)) (required ∷ min_items 1 ∷ [])
    ∷ []

unfoldable pub customer_rules : CustomerDto → List Checked
customer_rules c =
    checked "Email" (string c.email) (required ∷ email ∷ [])
    ∷ checked "FirstName" (string c.first_name) (required ∷ [])
    ∷ checked "LastName" (string c.last_name) (required ∷ [])
    ∷ checked "DefaultCurrency" (string_ptr c.default_currency) (omitempty ∷ len_is 3 ∷ [])
    ∷ []

unfoldable pub product_rules : ProductDto → List Checked
product_rules p =
    checked "Name" (string p.name) (required ∷ [])
    ∷ checked "Price" (int_ptr p.price) (required ∷ [])
    ∷ checked "Currency" (string_ptr p.currency) (omitempty ∷ len_is 3 ∷ [])
    ∷ []

unfoldable pub order_item_rules : OrderItemDto → List Checked
order_item_rules o =
    checked "ProductID" (int_ptr o.product_id) (required ∷ [])
    ∷ checked "Qty" (int_ptr o.qty) (required ∷ [])
    ∷ checked "UnitPrice" (int_ptr o.unit_price) (required ∷ [])
    ∷ []

abbrev order_statuses : List Bytes
order_statuses =
    str "pending"
    ∷ str "paid"
    ∷ str "shipped"
    ∷ str "completed"
    ∷ str "cancelled"
    ∷ str "refunded"
    ∷ []

unfoldable pub order_rules : OrderDto → List Checked
order_rules o =
    checked "OrderNumber" (string o.order_number) (required ∷ [])
    ∷ checked "CustomerID" (int_ptr o.customer_id) (required ∷ [])
    ∷ checked "Status" (string o.status) (required ∷ one_of order_statuses ∷ [])
    ∷ checked "Currency" (string_ptr o.currency) (omitempty ∷ len_is 3 ∷ [])
    ∷ []

unfoldable pub employee_rules : EmployeeDto → List Checked
employee_rules e =
    checked "ID" (string e.id) (required ∷ [])
    ∷ checked "EmployeeID" (string e.employee_id) (required ∷ [])
    ∷ checked "FirstName" (string e.first_name) (required ∷ [])
    ∷ checked "LastName" (string e.last_name) (required ∷ [])
    ∷ checked "Email" (string e.email) (required ∷ email ∷ [])
    ∷ checked "ManagerEmail" (string_ptr e.manager_email) (omitempty ∷ email ∷ [])
    ∷ []

pub record Validator : Type 0 where
  pub check : List Checked → List FieldError
  -- `ValidationErrors.Error`
  pub text : List FieldError → Bytes
  -- the package's syntax of addresses
  pub is_email : Bytes → Bool

-- `Validate`: nil, or the errors
unfoldable pub validate : Validator → List Checked → Option GoError
validate v cs = elim (v.check cs) [
  | [] ↦ none
  | f ∷ fs ↦ some (validation (f ∷ fs) (v.text (f ∷ fs)))
]

-- The characters of a UTF-8 text: the bytes that do not continue one.
unfoldable rune_count : Bytes → ℕ
rune_count [] = 0
rune_count (c ∷ s) = let rest = rune_count s in if leb 128 c && ltb c 192 then rest else suc rest

unfoldable is_member : Bytes → List Bytes → Bool
is_member b [] = false
is_member b (x ∷ xs) = eqb b x || is_member b xs

-- What the package documents of each rule.
unfoldable obeys : (Bytes → Bool) → Rule → Value → Bool
unfolding rune_count is_member
obeys mail required (string b) = not (eqb b [])
obeys mail required (string_ptr o) = is_some o
obeys mail required (int_ptr o) = is_some o
obeys mail required (slice o) = is_some o
obeys mail email (string b) = mail b
obeys mail email (string_ptr (some b)) = mail b
obeys mail omitempty v = true
obeys mail (one_of xs) (string b) = is_member b xs
obeys mail (min_items n) (slice (some k)) = leb n k
obeys mail (len_is n) (string_ptr (some b)) = rune_count b == n
obeys mail _ _ = false

abbrev is_unset : Value → Bool
is_unset (string_ptr o) = not (is_some o)
is_unset (int_ptr o) = not (is_some o)
is_unset _ = false

-- The rules of a field, in order; `omitempty` ends them at an unset value.
unfoldable pub obeys_all : (Bytes → Bool) → List Rule → Value → Bool
unfolding obeys
obeys_all mail [] v = true
obeys_all mail (omitempty ∷ rules) v = is_unset v || obeys_all mail rules v
obeys_all mail (rule ∷ rules) v = obeys mail rule v && obeys_all mail rules v

unfoldable pub is_valid : (Bytes → Bool) → List Checked → Bool
unfolding obeys_all
is_valid mail [] = true
is_valid mail (c ∷ cs) = obeys_all mail c.rules c.value && is_valid mail cs

-- A struct passes exactly when each field obeys its rules.
pub record IsValidator (v : Validator) : Type 0 where
  pub check_iff : (cs : List Checked) → (v.check cs ≡ []) ↔ (is_valid v.is_email cs ≡ true)
