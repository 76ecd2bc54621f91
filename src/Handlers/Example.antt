-- ===== src/Handlers/Example.antt =====
-- A host for examples: the database in memory, a validator that reads the rules as documented
-- and reports every field that breaks one, and a fixed version 4 UUID.
use sync_bridge.Base.{Bool, ◌≡◌, ◌↔◌, refl, true, none, some, List, [], ◌∷◌, arith, if◌then◌else◌}
use sync_bridge.Base.Int.{wrap64, eqb_ℤ, ◌+ℤ◌, ◌-ℤ◌, ◌*ℤ◌}
use sync_bridge.Text.{
  Bytes, str, eqb, contains, has_prefix, strip_prefix, from_index, split, is_ascii, to_upper,
  to_lower, trim_space, take_word, Unicode,
}
use sync_bridge.Text.Number.{parse_int}
use sync_bridge.Json.{
  items_list, read_int, read_bool, read_text, into_text, into_ptr, store, unmarshal,
}
use sync_bridge.Dto.Decode.{
  decode_request, decode_customer, decode_product, decode_order_item, decode_order, decode_employee,
}
use sync_bridge.Sql.Table.{find, add, modify, remove, select, upsert}
use sync_bridge.Sql.Statement.{effect}
use sync_bridge.Sql.Query.{order_by_id, page, group_by_status, history_page}
use sync_bridge.Handlers.Action.{pure, fail, deref, continue, ◌>>=◌}
use sync_bridge.Handlers.Items.{add_price, show_int, random_id}
use sync_bridge.Handlers.Process.{
  exec_tx, inserted_id, new_uuid, unmarshalled, validated, save, process_customer, process_product,
  sum_items, check_amount, order_amount, insert_items, replace_items, process_order, save_employee,
  process_employee, process_item,
}
use sync_bridge.Errors.{FieldError, handle_db_error, tag_name, parse_validation_error}
use sync_bridge.Dto.Rules.{
  Checked, Validator, IsValidator, request_rules, customer_rules, product_rules, order_item_rules,
  order_rules, employee_rules, validate, obeys_all, is_valid,
}
use sync_bridge.Sql.Memory.{
  deleted, Memory, memory, exec_if, refuse, answer, rolled_back, memory-IsSqlite,
}
use sync_bridge.Handlers.Host.{Host, IsHost}

abbrev pub ascii_only : Unicode
ascii_only = record { upper = λ s. s; lower = λ s. s; fold = λ s. s; trim = λ s. s }

unfoldable pub has_at : Bytes → Bool
unfolding contains
has_at s = contains s (str "@")

unfoldable pub check_all : List Checked → List FieldError
unfolding obeys_all has_at
check_all [] = []
check_all (c ∷ cs) =
    let rest = check_all cs in
    if obeys_all has_at c.rules c.value
    then rest
    else record { field = c.name; tag = str "required" } ∷ rest

check_all_iff : (cs : List Checked) → (check_all cs ≡ []) ↔ (is_valid has_at cs ≡ true)
unfolding check_all is_valid
check_all_iff [] = (λ _. refl, λ _. refl)
check_all_iff (c ∷ cs) = ground (arith, check_all_iff cs)

abbrev pub rules_validator : Validator
rules_validator = record {
  check = check_all;
  text = λ fs. str "validation failed";
  is_email = has_at;
}

pub rules_validator-IsValidator : IsValidator rules_validator
rules_validator-IsValidator = record { check_iff = check_all_iff }

abbrev sample_uuid : Bytes
sample_uuid = 255 ∷ 1 ∷ 2 ∷ 3 ∷ 4 ∷ 5 ∷ 64 ∷ 7 ∷ 128 ∷ 9 ∷ 10 ∷ 11 ∷ 12 ∷ 13 ∷ 14 ∷ 15 ∷ []

abbrev pub sample_host : Host
sample_host = record {
  unicode = ascii_only;
  validator = rules_validator;
  engine = memory;
  uuid = λ m. sample_uuid;
  marshal = λ js. some (str "[]");
}

sample_host-IsHost : IsHost sample_host
sample_host-IsHost = record { validates = rules_validator-IsValidator; stores = memory-IsSqlite }

-- an empty database, outside a transaction
abbrev pub empty : Memory
empty = record {
  contents = record {
    targets = record {
      customers = [];
      products = [];
      orders = [];
      order_items = [];
      employees = [];
    };
    sync_history = [];
  };
  before = none;
}

-- Names what a run of `processItem` on this host computes with.
unfoldable pub runs : Unit {0}
unfolding wrap64 eqb_ℤ ◌+ℤ◌ ◌-ℤ◌ ◌*ℤ◌ str eqb contains has_prefix strip_prefix from_index split
    is_ascii to_upper to_lower trim_space take_word parse_int items_list read_int read_bool
    read_text into_text into_ptr store unmarshal decode_request decode_customer decode_product
    decode_order_item decode_order decode_employee find add modify remove select upsert effect
    deleted order_by_id page group_by_status history_page pure fail deref continue ◌>>=◌ add_price
    show_int random_id exec_tx inserted_id new_uuid unmarshalled validated save process_customer
    process_product sum_items check_amount order_amount insert_items replace_items process_order
    save_employee process_employee process_item handle_db_error tag_name parse_validation_error
    request_rules customer_rules product_rules order_item_rules order_rules employee_rules validate
    check_all exec_if refuse answer rolled_back
runs = tt
