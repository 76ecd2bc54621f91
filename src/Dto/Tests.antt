-- ===== src/Dto/Tests.antt =====
-- An order with one item, as a client writes it.
use sync_bridge.Base.{◌≡◌, none, some, [], ◌∷◌, arith}
use sync_bridge.Base.Int.{pos, negsuc}
use sync_bridge.Text.{str}
use sync_bridge.Dto.{OrderDto}
use sync_bridge.Dto.Decode.{decode_order}
use sync_bridge.Dto.RoundTrip.{order_json, OrderFits, decode_order-order_json}
use sync_bridge.Text.{Unicode}

abbrev plain : Unicode
plain = record { upper = λ s. s; lower = λ s. s; fold = λ s. s; trim = λ s. s }

abbrev sample_order : OrderDto
sample_order = record {
  id = some (pos 7);
  order_number = str "A-1";
  customer_id = some (pos 3);
  status = str "paid";
  currency = none;
  amount = some (negsuc 4);
  items =
      some (
        record { id = none; product_id = some (pos 4); qty = some (pos 2); unit_price = none }
        ∷ []);
}

sample_order-OrderFits : OrderFits sample_order
sample_order-OrderFits =
    (omega arith, omega arith, omega arith, ((tt, omega arith, omega arith, tt), tt))

decode_order-order_json_example : decode_order plain (order_json sample_order) ≡ some sample_order
decode_order-order_json_example = decode_order-order_json plain sample_order sample_order-OrderFits
