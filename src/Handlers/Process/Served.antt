-- ===== src/Handlers/Process/Served.antt =====
-- An item that obeys its rules is refused by the database only.
use sync_bridge.Base.{
  ◌≡◌, ◌≢◌, sym, subst, Option, none, some, List, [], ◌∷◌, get_or, true, is_some,
}
use sync_bridge.Base.Int.{ℤ, wrap64}
use sync_bridge.Text.{Bytes, str, eqb}
use sync_bridge.Text.Number.{parse_int}
use sync_bridge.Json.{Json}
use sync_bridge.Dto.{CustomerDto, ProductDto, OrderItemDto, OrderDto, EmployeeDto}
use sync_bridge.Dto.Rules.{
  Checked, IsValidator, is_valid, customer_rules, product_rules, order_rules, employee_rules,
}
use sync_bridge.Dto.Decode.{decode_customer, decode_product, decode_order, decode_employee}
use sync_bridge.Handlers.Host.{Host}
use sync_bridge.Handlers.Process.{
  validated, process_customer, process_product, order_amount, insert_items, replace_items,
  process_order, process_employee, process_item,
}
use sync_bridge.Handlers.Process.DbFails.{
  Serves, Serves-pure, Serves-deref, Serves-known, Serves-bind,
}
use sync_bridge.Handlers.Process.Refused.{
  exec_tx-Serves, save-Serves, unmarshalled-Serves, save_employee-Serves,
}
use sync_bridge.Handlers.Process.Amount.{total}
use sync_bridge.Handlers.Process.Safety.{
  order_item_rules-IsComplete, product_rules-price, order_rules-customer_id,
}
use sync_bridge.Handlers.Process.Valid.{AllValid, validated-returned, order_amount-valid}

module _ (h : Host) (v : IsValidator h.validator) where
  open h use {unicode, validator, engine}

  abbrev IsValid : List Checked → Type 0
  IsValid cs = is_valid validator.is_email cs ≡ true

  -- The order has items that obey their rules and no amount but theirs, or just an amount.
  abbrev IsPayable : Option (List OrderItemDto) → Option ℤ → Type 0
  IsPayable none amount = is_some amount ≡ true
  IsPayable (some its) amount =
      (its ≢ []) × AllValid h v its × (get_or amount (wrap64 (total its)) ≡ wrap64 (total its))

  -- An item that the service can process: it decodes and obeys its rules.
  pub data IsReady (model : Bytes) (j : Json) : Type 0 where
    ready_customer :
        (c : CustomerDto)
        → model ≡ str "customers"
        → decode_customer unicode j ≡ some c
        → IsValid (customer_rules c)
        → IsReady model j
    ready_product :
        (p : ProductDto)
        → model ≡ str "products"
        → decode_product unicode j ≡ some p
        → IsValid (product_rules p)
        → IsReady model j
    ready_order :
        (o : OrderDto)
        → model ≡ str "orders"
        → decode_order unicode j ≡ some o
        → IsValid (order_rules o)
        → IsPayable o.items o.amount
        → IsReady model j
    ready_employee :
        (e : EmployeeDto)
        → model ≡ str "employees"
        → decode_employee unicode j ≡ some e
        → IsValid (employee_rules e)
        → IsReady model j

module _ (h : Host) (v : IsValidator h.validator) where
  open h use {unicode, validator, engine}

  validated-Serves : (cs : List Checked) → IsValid h v cs → Serves h (λ _. Unit) (validated h cs)
  validated-Serves cs e = Serves-known h _ _ tt (λ s. validated-returned h v cs s e) tt

  order_amount-Serves :
      (its : Option (List OrderItemDto)) (amount : Option ℤ)
      → IsPayable h v its amount
      → Serves h (λ _. Unit) (order_amount h its amount)
  unfolding order_amount
  order_amount-Serves none none e = absurd (cc e)
  order_amount-Serves none (some a) e = Serves-pure h _ a tt
  order_amount-Serves (some its) amount (filled, valid, due) =
      Serves-known h _ (order_amount h (some its) amount) (wrap64 (total its))
        (λ s. order_amount-valid h v its amount s filled valid due) tt

  insert_items-Serves :
      (id : ℤ) (its : List OrderItemDto)
      → AllValid h v its
      → Serves h (λ _. Unit) (insert_items h id its)
  unfolding insert_items
  insert_items-Serves id [] all = Serves-pure h _ tt tt
  insert_items-Serves id (it ∷ its) (e, all) =
      let c = order_item_rules-IsComplete validator.is_email it e in
      Serves-bind h _ _ _ _ (Serves-deref h it.product_id c.0) λ p _.
        Serves-bind h _ _ _ _ (Serves-deref h it.qty c.1) λ q _.
          Serves-bind h _ _ _ _ (Serves-deref h it.unit_price c.2)
            λ u _. Serves-bind h _ _ _ _ (exec_tx-Serves h _) λ d _. insert_items-Serves id its all

  replace_items-Serves :
      (id : ℤ) (its : Option (List OrderItemDto)) (amount : Option ℤ)
      → IsPayable h v its amount
      → Serves h (λ _. Unit) (replace_items h id its)
  unfolding replace_items
  replace_items-Serves id none amount e = Serves-pure h _ tt tt
  replace_items-Serves id (some its) amount (filled, valid, due) =
      Serves-bind h _ _ _ _ (exec_tx-Serves h _) λ d _. insert_items-Serves id its valid

  process_customer-Serves :
      (j : Json) (c : CustomerDto)
      → decode_customer unicode j ≡ some c
      → IsValid h v (customer_rules c)
      → Serves h (λ _. Unit) (process_customer h j)
  unfolding process_customer
  process_customer-Serves j c e valid =
      Serves-bind h _ _ _ _
        (unmarshalled-Serves h (λ c. IsValid h v (customer_rules c)) (decode_customer unicode j) c e
          valid)
        λ c valid.
          Serves-bind h _ _ _ _ (validated-Serves (customer_rules c) valid)
            λ _ _. Serves-bind h _ _ _ _ (save-Serves h c.id _ _) λ id _. Serves-pure h _ _ tt

  process_product-Serves :
      (j : Json) (p : ProductDto)
      → decode_product unicode j ≡ some p
      → IsValid h v (product_rules p)
      → Serves h (λ _. Unit) (process_product h j)
  unfolding process_product
  process_product-Serves j p e valid =
      Serves-bind h _ _ _ _
        (unmarshalled-Serves h (λ p. IsValid h v (product_rules p)) (decode_product unicode j) p e
          valid)
        λ p valid. Serves-bind h _ _ _ _ (validated-Serves (product_rules p) valid) λ _ _.
          Serves-bind h _ _ _ _
            (Serves-deref h p.price (product_rules-price validator.is_email p valid))
            λ price _. Serves-bind h _ _ _ _ (save-Serves h p.id _ _) λ id _. Serves-pure h _ _ tt

  process_order-Serves :
      (j : Json) (o : OrderDto)
      → decode_order unicode j ≡ some o
      → IsValid h v (order_rules o)
      → IsPayable h v o.items o.amount
      → Serves h (λ _. Unit) (process_order h j)
  unfolding process_order
  process_order-Serves j o e valid due =
      Serves-bind h _ _ _ _
        (unmarshalled-Serves h (λ o. IsValid h v (order_rules o) × IsPayable h v o.items o.amount)
          (decode_order unicode j) o e (valid, due))
        λ o (valid, due). Serves-bind h _ _ _ _ (validated-Serves (order_rules o) valid) λ _ _.
          Serves-bind h _ _ _ _ (order_amount-Serves o.items o.amount due) λ amount _.
            Serves-bind h _ _ _ _
              (Serves-deref h o.customer_id (order_rules-customer_id validator.is_email o valid))
              λ customer _. Serves-bind h _ _ _ _ (save-Serves h o.id _ _) λ id _.
                Serves-bind h _ _ _ _ (replace_items-Serves id o.items o.amount due)
                  λ _ _. Serves-pure h _ _ tt

  process_employee-Serves :
      (j : Json) (e : EmployeeDto)
      → decode_employee unicode j ≡ some e
      → IsValid h v (employee_rules e)
      → Serves h (λ _. Unit) (process_employee h j)
  unfolding process_employee
  process_employee-Serves j e d valid =
      Serves-bind h _ _ _ _
        (unmarshalled-Serves h (λ e. IsValid h v (employee_rules e)) (decode_employee unicode j) e d
          valid)
        λ e valid. Serves-bind h _ _ _ _ (validated-Serves (employee_rules e) valid) λ _ _.
          Serves-bind h _ _ _ _ (save_employee-Serves h e (parse_int e.id))
            λ id _. Serves-pure h _ _ tt

  pub process_item-Serves :
      (model : Bytes) (j : Json)
      → IsReady h v model j
      → Serves h (λ _. Unit) (process_item h model j)
  unfolding process_item eqb str
  process_item-Serves model j (ready_customer c m e valid) =
      subst (λ model. Serves h (λ _. Unit) (process_item h model j)) (sym m)
        (process_customer-Serves j c e valid)
  process_item-Serves model j (ready_product p m e valid) =
      subst (λ model. Serves h (λ _. Unit) (process_item h model j)) (sym m)
        (process_product-Serves j p e valid)
  process_item-Serves model j (ready_order o m e valid due) =
      subst (λ model. Serves h (λ _. Unit) (process_item h model j)) (sym m)
        (process_order-Serves j o e valid due)
  process_item-Serves model j (ready_employee x m e valid) =
      subst (λ model. Serves h (λ _. Unit) (process_item h model j)) (sym m)
        (process_employee-Serves j x e valid)
