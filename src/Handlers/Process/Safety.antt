-- ===== src/Handlers/Process/Safety.antt =====
-- `processItem` never dereferences a nil pointer: validation comes first.
use sync_bridge.Base.{
  ◌≡◌, refl, ◌≢◌, Bool, true, Option, none, some, List, [], ◌∷◌, arith, is_some, All,
}
use sync_bridge.Base.Int.{ℤ}
use sync_bridge.Text.{Bytes}
use sync_bridge.Errors.{GoError}
use sync_bridge.Json.{Json}
use sync_bridge.Dto.{ProductDto, OrderItemDto, OrderDto, EmployeeDto}
use sync_bridge.Dto.Rules.{
  Checked, IsValidator, validate, product_rules, order_item_rules, order_rules, is_valid,
}
use sync_bridge.Sql.Statement.{Statement}
use sync_bridge.Sql.Engine.{Result, ok, err, Done, last_insert_id}
use sync_bridge.Handlers.Action.{Outcome, returned, failed, panicked}
use sync_bridge.Handlers.Host.{Host}
use sync_bridge.Handlers.Items.{add_price}
use sync_bridge.Handlers.Process.{
  of_result, exec_tx, inserted_id, new_uuid, unmarshalled, or_invalid, validated, save,
  process_customer, process_product, sum_items, check_amount, order_amount, insert_items,
  replace_items, process_order, save_employee, process_employee, process_item,
}
use sync_bridge.Handlers.Action.Gives.{
  Anything, Gives, Gives-bind, Gives-deref, Gives-fail, Gives-if, Gives-pure, Gives-weaken, IsSafe,
}

-- The pointers of an item that the code reads.
abbrev IsComplete : OrderItemDto → Type 0
IsComplete it =
    (is_some it.product_id ≡ true) × (is_some it.qty ≡ true) × (is_some it.unit_price ≡ true)

pub order_item_rules-IsComplete :
    (mail : Bytes → Bool) (it : OrderItemDto)
    → is_valid mail (order_item_rules it) ≡ true
    → IsComplete it
unfolding is_valid order_item_rules
order_item_rules-IsComplete mail it e = ground arith

pub product_rules-price :
    (mail : Bytes → Bool) (p : ProductDto)
    → is_valid mail (product_rules p) ≡ true
    → is_some p.price ≡ true
unfolding is_valid product_rules
product_rules-price mail p e = ground arith

pub order_rules-customer_id :
    (mail : Bytes → Bool) (o : OrderDto)
    → is_valid mail (order_rules o) ≡ true
    → is_some o.customer_id ≡ true
unfolding is_valid order_rules
order_rules-customer_id mail o e = ground arith

module _ (h : Host) (v : IsValidator h.validator) where
  open h use {engine, validator}

  abbrev mail : Bytes → Bool
  mail = validator.is_email

  Gives-of_result : {A : Type 0} (r : Result A) → IsSafe Anything (of_result r)
  Gives-of_result (ok a) = tt
  Gives-of_result (err text) = tt

  Gives-exec_tx : (st : Statement) → Gives Anything (exec_tx h st)
  unfolding exec_tx
  Gives-exec_tx st = record { at = λ s. Gives-of_result (engine.exec st s).0 }

  Gives-inserted_id : (d : Done) → Gives Anything (inserted_id h d)
  unfolding inserted_id
  Gives-inserted_id d = record { at = λ s. Gives-of_result (last_insert_id d) }

  Gives-new_uuid : Gives Anything (new_uuid h)
  unfolding new_uuid
  Gives-new_uuid = record { at = λ s. tt }

  Gives-unmarshalled : {A : Type 0} (o : Option A) → Gives Anything (unmarshalled h o)
  unfolding unmarshalled
  Gives-unmarshalled none = Gives-fail Anything _
  Gives-unmarshalled (some a) = Gives-pure Anything a tt

  Gives-or_invalid :
      (P : Type 0) (o : Option GoError) → (o ≡ none → P) → Gives (λ _. P) (or_invalid h o)
  Gives-or_invalid P none p = Gives-pure (λ _. P) tt (p refl)
  Gives-or_invalid P (some x) p = Gives-fail (λ _. P) _

  validate-is_valid : (cs : List Checked) → validate validator cs ≡ none → is_valid mail cs ≡ true
  unfolding validate
  validate-is_valid cs e = (v.check_iff cs).0 (ground arith)

  -- What passes validation obeys its rules.
  Gives-validated : (cs : List Checked) → Gives (λ _. is_valid mail cs ≡ true) (validated h cs)
  unfolding validated
  Gives-validated cs =
      Gives-or_invalid (is_valid mail cs ≡ true) (validate validator cs) (validate-is_valid cs)

  Gives-save :
      (id : Option ℤ) (upsert : ℤ → Statement) (insert : Statement)
      → Gives Anything (save h id upsert insert)
  unfolding save
  Gives-save none upsert insert =
      Gives-bind Anything Anything _ _ (Gives-exec_tx insert) λ d _. Gives-inserted_id d
  Gives-save (some id) upsert insert =
      Gives-bind Anything Anything _ _ (Gives-exec_tx (upsert id)) λ _ _. Gives-pure Anything id tt

  Gives-sum_items :
      (its : List OrderItemDto) (sum : ℤ) → Gives (λ _. All IsComplete its) (sum_items h its sum)
  unfolding sum_items
  Gives-sum_items [] sum = Gives-pure _ sum tt
  Gives-sum_items (it ∷ its) sum = Gives-bind _ _ _ _ (Gives-validated (order_item_rules it)) λ _ e.
      let c = order_item_rules-IsComplete mail it e in
      Gives-bind Anything _ _ _ (Gives-deref it.qty c.1) λ qty _.
        Gives-bind Anything _ _ _ (Gives-deref it.unit_price c.2) λ unit_price _.
          Gives-weaken _ _ (sum_items h its (add_price sum qty unit_price)) (λ _ cs. (c, cs))
            (Gives-sum_items its (add_price sum qty unit_price))

  Gives-check_amount :
      (P : Type 0) (o : Option ℤ) (sum : ℤ) → P → Gives (λ _. P) (check_amount h o sum)
  unfolding check_amount
  Gives-check_amount P none sum p = Gives-pure (λ _. P) sum p
  Gives-check_amount P (some provided) sum p =
      Gives-if (λ _. P) _ _ _ (Gives-pure (λ _. P) sum p) (Gives-fail (λ _. P) _)

  abbrev AllComplete : Option (List OrderItemDto) → Type 0
  AllComplete none = Unit
  AllComplete (some its) = All IsComplete its

  Gives-order_amount :
      (o : Option (List OrderItemDto)) (amount : Option ℤ)
      → Gives (λ _. AllComplete o) (order_amount h o amount)
  unfolding order_amount
  Gives-order_amount none none = Gives-fail _ _
  Gives-order_amount none (some amount) = Gives-pure _ amount tt
  Gives-order_amount (some []) amount = Gives-fail _ _
  Gives-order_amount (some (it ∷ its)) amount =
      Gives-bind _ _ _ _ (Gives-sum_items (it ∷ its) _)
        λ sum c. Gives-check_amount (AllComplete (some (it ∷ its))) amount sum c

  Gives-insert_items :
      (id : ℤ) (its : List OrderItemDto)
      → All IsComplete its
      → Gives Anything (insert_items h id its)
  unfolding insert_items
  Gives-insert_items id [] c = Gives-pure Anything tt tt
  Gives-insert_items id (it ∷ its) (c, cs) =
      Gives-bind Anything Anything _ _ (Gives-deref it.product_id c.0) λ p _.
        Gives-bind Anything Anything _ _ (Gives-deref it.qty c.1) λ q _.
          Gives-bind Anything Anything _ _ (Gives-deref it.unit_price c.2) λ u _.
            Gives-bind Anything Anything _ _ (Gives-exec_tx _) λ _ _. Gives-insert_items id its cs

  Gives-replace_items :
      (id : ℤ) (o : Option (List OrderItemDto))
      → AllComplete o
      → Gives Anything (replace_items h id o)
  unfolding replace_items
  Gives-replace_items id none c = Gives-pure Anything tt tt
  Gives-replace_items id (some its) c =
      Gives-bind Anything Anything _ _ (Gives-exec_tx _) λ _ _. Gives-insert_items id its c

  Gives-save_employee :
      (item : EmployeeDto) (o : Option ℤ) → Gives Anything (save_employee h item o)
  unfolding save_employee
  Gives-save_employee item none =
      Gives-bind Anything Anything _ _ Gives-new_uuid
        λ u _. Gives-bind Anything Anything _ _ (Gives-exec_tx _) λ _ _. Gives-pure Anything _ tt
  Gives-save_employee item (some id) =
      Gives-bind Anything Anything _ _ (Gives-exec_tx _) λ _ _. Gives-pure Anything id tt

  Gives-process_customer : (j : Json) → Gives Anything (process_customer h j)
  unfolding process_customer
  Gives-process_customer j = Gives-bind Anything Anything _ _ (Gives-unmarshalled _) λ c _.
      Gives-bind _ Anything _ _ (Gives-validated _) λ _ _.
        Gives-bind Anything Anything _ _ (Gives-save c.id _ _) λ _ _. Gives-pure Anything _ tt

  Gives-process_product : (j : Json) → Gives Anything (process_product h j)
  unfolding process_product
  Gives-process_product j = Gives-bind Anything Anything _ _ (Gives-unmarshalled _) λ p _.
      Gives-bind _ Anything _ _ (Gives-validated (product_rules p)) λ _ e.
        Gives-bind Anything Anything _ _ (Gives-deref p.price (product_rules-price mail p e))
          λ price _.
            Gives-bind Anything Anything _ _ (Gives-save p.id _ _) λ _ _. Gives-pure Anything _ tt

  Gives-process_order : (j : Json) → Gives Anything (process_order h j)
  unfolding process_order
  Gives-process_order j = Gives-bind Anything Anything _ _ (Gives-unmarshalled _) λ o _.
      Gives-bind _ Anything _ _ (Gives-validated (order_rules o)) λ _ e.
        Gives-bind _ Anything _ _ (Gives-order_amount o.items o.amount) λ amount c.
          Gives-bind Anything Anything _ _
            (Gives-deref o.customer_id (order_rules-customer_id mail o e))
            λ customer _. Gives-bind Anything Anything _ _ (Gives-save o.id _ _) λ id _.
              Gives-bind Anything Anything _ _ (Gives-replace_items id o.items c)
                λ _ _. Gives-pure Anything _ tt

  Gives-process_employee : (j : Json) → Gives Anything (process_employee h j)
  unfolding process_employee
  Gives-process_employee j = Gives-bind Anything Anything _ _ (Gives-unmarshalled _) λ e _.
      Gives-bind _ Anything _ _ (Gives-validated _) λ _ _.
        Gives-bind Anything Anything _ _ (Gives-save_employee e _) λ _ _. Gives-pure Anything _ tt

  Gives-process_item : (model : Bytes) (j : Json) → Gives Anything (process_item h model j)
  unfolding process_item
  Gives-process_item model j = Gives-if Anything _ _ _ (Gives-process_customer j) (
      Gives-if Anything _ _ _ (Gives-process_product j) (
        Gives-if Anything _ _ _ (Gives-process_order j)
          (Gives-if Anything _ _ _ (Gives-process_employee j) (Gives-fail Anything _))))

  ne-panicked : {A : Type 0} (r : Outcome A) → IsSafe Anything r → r ≢ panicked
  ne-panicked (returned a) p e = cc e
  ne-panicked (failed x) p e = cc e
  ne-panicked panicked p e = p

  -- `processItem` never panics, whatever the database does: each pointer that it dereferences (a
  -- product's price, an order's customer, an item's product, quantity and price) has been validated
  -- to be there, by a validator that passes exactly the structs whose fields obey their rules.
  pub process_item-ne-panicked :
      (model : Bytes) (j : Json) (s : engine.State) → (process_item h model j s).0 ≢ panicked
  process_item-ne-panicked model j s =
      ne-panicked (process_item h model j s).0 ((Gives-process_item model j).at s)
