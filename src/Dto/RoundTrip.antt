-- ===== src/Dto/RoundTrip.antt =====
-- What a client writes for an order is what the service reads.
use sync_bridge.Base.{◌≡◌, refl, ap, ◌∙◌, true, Option, none, some, List, [], ◌∷◌, All, arith}
use mathlib.Core.Option.{some_inj}
use sync_bridge.Base.Int.{ℤ, InInt64, in_int64}
use sync_bridge.Text.{Bytes, str, eqb, Unicode}
use sync_bridge.Json.{
  Json, null, int, text, arr, obj, Items, nil, cons, end, field, read_int, read_text, into_text,
  into_ptr, find_exact, unmarshal,
}
use sync_bridge.Dto.{OrderItemDto, OrderDto}
use sync_bridge.Dto.Decode.{decode_order_item, read_elements, read_order_items, decode_order}

abbrev int_json : Option ℤ → Json
int_json none = null
int_json (some z) = int z

abbrev text_json : Option Bytes → Json
text_json none = null
text_json (some b) = text b

abbrev item_json : OrderItemDto → Json
item_json it = obj (
    field (str "id") (int_json it.id) (
      field (str "product_id") (int_json it.product_id) (
        field (str "qty") (int_json it.qty)
          (field (str "unit_price") (int_json it.unit_price) end))))

abbrev Fits : Option ℤ → Type 0
Fits none = Unit
Fits (some z) = InInt64 z

abbrev ItemFits : OrderItemDto → Type 0
ItemFits it = Fits it.id × Fits it.product_id × Fits it.qty × Fits it.unit_price

in_int64-InInt64 : (z : ℤ) → InInt64 z → in_int64 z ≡ true
in_int64-InInt64 z h = ground arith

module _ {S : Type 0} where
  into_ptr-int :
      (put : Option ℤ → S → S) (o : Option ℤ) (s : S)
      → Fits o
      → into_ptr read_int put (int_json o) s ≡ some (put o s)
  unfolding into_ptr read_int
  into_ptr-int put none s f = refl
  into_ptr-int put (some z) s f = rw (into_ptr, read_int, in_int64-InInt64 z f) refl

  into_ptr-text :
      (put : Option Bytes → S → S) (o : Option Bytes) (s : S)
      → into_ptr read_text put (text_json o) s ≡ some (put o s)
  unfolding into_ptr read_text
  into_ptr-text put none s = refl
  into_ptr-text put (some b) s = refl

  stored_next :
      (x : Option S) (s : S) (f : S → Option S)
      → x ≡ some s
      → elim x [ none ↦ none | some s' ↦ f s' ] ≡ f s
  stored_next none s f e = absurd (cc e)
  stored_next (some s') s f e = ap f (some_inj.0 e)

decode-item_json :
    (u : Unicode) (it : OrderItemDto) → ItemFits it → decode_order_item u (item_json it) ≡ some it
unfolding decode_order_item unmarshal find_exact eqb str
decode-item_json u it (id, product, qty, price) =
    stored_next _ _ _ (into_ptr-int _ it.id _ id)
    ∙ stored_next _ _ _ (into_ptr-int _ it.product_id _ product)
    ∙ stored_next _ _ _ (into_ptr-int _ it.qty _ qty)
    ∙ stored_next _ _ _ (into_ptr-int _ it.unit_price _ price)

abbrev items_json : List OrderItemDto → Items
items_json [] = nil
items_json (it ∷ its) = cons (item_json it) (items_json its)

abbrev items_value : Option (List OrderItemDto) → Json
items_value none = null
items_value (some its) = arr (items_json its)

-- An order as a client writes it, with null for what is not given.
unfoldable pub order_json : OrderDto → Json
order_json o = obj (
    field (str "id") (int_json o.id) (
      field (str "order_number") (text o.order_number) (
        field (str "customer_id") (int_json o.customer_id) (
          field (str "status") (text o.status) (
            field (str "currency") (text_json o.currency) (
              field (str "amount") (int_json o.amount)
                (field (str "items") (items_value o.items) end)))))))

abbrev AllFit : Option (List OrderItemDto) → Type 0
AllFit none = Unit
AllFit (some its) = All ItemFits its

-- The numbers of the order are numbers of an int64.
abbrev pub OrderFits : OrderDto → Type 0
OrderFits o = Fits o.id × Fits o.customer_id × Fits o.amount × AllFit o.items

elements_next :
    {A : Type 0} (x : Option A) (y : Option (List A)) (a : A) (l : List A)
    → x ≡ some a
    → y ≡ some l
    → elim x [ none ↦ none | some b ↦ elim y [ none ↦ none | some bs ↦ some (b ∷ bs) ] ]
      ≡ some (a ∷ l)
elements_next none y a l e f = absurd (cc e)
elements_next (some b) none a l e f = absurd (cc f)
elements_next (some b) (some bs) a l e f = cc (some_inj.0 e, some_inj.0 f)

read-items_json :
    (u : Unicode) (its : List OrderItemDto)
    → All ItemFits its
    → read_elements u (items_json its) ≡ some its
unfolding read_elements
read-items_json u [] f = refl
read-items_json u (it ∷ its) (f, fs) =
    elements_next (decode_order_item u (item_json it)) (read_elements u (items_json its)) it its
      (decode-item_json u it f) (read-items_json u its fs)

into_ptr-items :
    {S : Type 0} (u : Unicode) (put : Option (List OrderItemDto) → S → S)
    (o : Option (List OrderItemDto)) (s : S)
    → AllFit o
    → into_ptr (read_order_items u) put (items_value o) s ≡ some (put o s)
unfolding into_ptr read_order_items
into_ptr-items u put none s f = refl
into_ptr-items u put (some its) s f = rw (into_ptr, read_order_items, read-items_json u its f) refl

-- An order whose numbers are numbers of an int64, written as a JSON object with the keys of
-- `OrderDTO`, with or without items, is decoded to that order.
pub decode_order-order_json :
    (u : Unicode) (o : OrderDto) → OrderFits o → decode_order u (order_json o) ≡ some o
unfolding decode_order order_json unmarshal find_exact eqb str into_text
decode_order-order_json u o (id, customer, amount, its) =
    stored_next _ _ _ (into_ptr-int _ o.id _ id)
    ∙ stored_next _ _ _ (into_ptr-int _ o.customer_id _ customer)
    ∙ stored_next _ _ _ (into_ptr-text _ o.currency _)
    ∙ stored_next _ _ _ (into_ptr-int _ o.amount _ amount)
    ∙ stored_next _ _ _ (into_ptr-items u _ o.items _ its)
