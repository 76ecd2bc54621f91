-- ===== src/Handlers/Process/Orders.antt =====
-- What a processed order leaves in the table of order items.
use sync_bridge.Base.{
  ◌≡◌, refl, sym, ap, subst, ◌∙◌, true, Option, none, some, List, [], ◌∷◌, ◌++◌, arith,
  if◌then◌else◌,
}
use mathlib.Core.List.{append-nil, append_assoc}
use sync_bridge.Base.Int.{ℤ, eqb_ℤ, eqb_ℤ_refl}
use sync_bridge.Json.{Json}
use sync_bridge.Dto.{OrderItemDto, OrderDto}
use sync_bridge.Dto.Rules.{order_rules}
use sync_bridge.Dto.Decode.{decode_order}
use sync_bridge.Sql.Table.{Table, add, remove}
use sync_bridge.Sql.Schema.{OrderItemRow, Tables}
use sync_bridge.Sql.Statement.{delete_order_items, insert_order_item, of_order, effect}
use sync_bridge.Sql.Engine.{Done, IsSqlite, Executed}
use sync_bridge.Handlers.Action.{Outcome, returned, deref}
use sync_bridge.Handlers.Action.Laws.{
  IfReturned, Ensures, Ensures-pure, Ensures-deref, Ensures-bind, Ensures-weaken,
}
use sync_bridge.Handlers.Host.{Host}
use sync_bridge.Handlers.Items.{SyncResult, created_or_updated}
use sync_bridge.Handlers.Process.Triples.{
  Ensures-exec_tx, unmarshalled-Ensures, fact-Ensures, fact-kept,
}
use sync_bridge.Handlers.Process.{
  validated, save, order_amount, insert_items, replace_items, process_order,
}

-- The rows of one order, in the order of the table.
unfoldable pub stored : ℤ → Table OrderItemRow → List OrderItemRow
stored id [] = []
stored id ((_, r) ∷ t) = let rest = stored id t in if eqb_ℤ r.order_id id then r ∷ rest else rest

stored-add :
    (id n : ℤ) (r : OrderItemRow) (t : Table OrderItemRow)
    → eqb_ℤ r.order_id id ≡ true
    → stored id (add n r t) ≡ stored id t ++ r ∷ []
unfolding stored add
stored-add id n r [] h = rw h
stored-add id n r ((j, q) ∷ t) h = ground (arith, stored-add id n r t h)

stored-remove : (id : ℤ) (t : Table OrderItemRow) → stored id (remove (of_order id) t) ≡ []
unfolding stored remove
stored-remove id [] = refl
stored-remove id ((j, q) ∷ t) = ground (arith, stored-remove id t)

-- A row holds what an item of the request says.
abbrev IsRowOf : ℤ → OrderItemDto → OrderItemRow → Type 0
IsRowOf id it r =
    (r.order_id ≡ id)
    × (it.product_id ≡ some r.product_id)
    × (it.qty ≡ some r.qty)
    × (it.unit_price ≡ some r.unit_price)

abbrev AreRowsOf : ℤ → List OrderItemDto → List OrderItemRow → Type 0
AreRowsOf id [] [] = Unit
AreRowsOf id [] (_ ∷ _) = ⊥
AreRowsOf id (_ ∷ _) [] = ⊥
AreRowsOf id (it ∷ its) (r ∷ rs) = IsRowOf id it r × AreRowsOf id its rs

module _ (h : Host) (sql : IsSqlite h.engine) where
  open h use {engine}

  abbrev items_of : ℤ → engine.State → List OrderItemRow
  items_of id s = stored id (engine.tables s).order_items

  -- the rows of the order are those of before and one for each item
  abbrev HasRows : ℤ → List OrderItemRow → List OrderItemDto → engine.State → Type 0
  HasRows id old its s =
      (rs : List OrderItemRow) × (items_of id s ≡ old ++ rs) × AreRowsOf id its rs

  HasRows-cons :
      (id : ℤ) (old : List OrderItemRow) (it : OrderItemDto) (its : List OrderItemDto)
      (r : OrderItemRow) (s : engine.State)
      → IsRowOf id it r
      → HasRows id (old ++ r ∷ []) its s
      → HasRows id old (it ∷ its) s
  HasRows-cons id old it its r s is (rs, e, are) =
      (r ∷ rs, e ∙ append_assoc old (r ∷ []) rs, (is, are))

  insert_item-stored :
      (id : ℤ) (r : OrderItemRow) (d : Done) (s s' : engine.State)
      → eqb_ℤ r.order_id id ≡ true
      → Executed engine (insert_order_item r) d s s'
      → items_of id s' ≡ items_of id s ++ r ∷ []
  unfolding effect
  insert_item-stored id r d s s' same x =
      ap (λ (t : Tables). stored id t.order_items) x.tables_eq
      ∙ stored-add id d.row_id r (engine.tables s).order_items same

  insert_items-Ensures :
      (id : ℤ) (its : List OrderItemDto) (old : List OrderItemRow)
      → Ensures (λ s. items_of id s ≡ old) (insert_items h id its) (λ _. HasRows id old its)
  unfolding insert_items
  insert_items-Ensures id [] old = Ensures-pure _ _ tt (λ s p. ([], p ∙ sym (append-nil old), tt))
  insert_items-Ensures id (it ∷ its) old =
      Ensures-bind _ _ _ _ _ (Ensures-deref (λ s. items_of id s ≡ old) it.product_id) λ p.
        Ensures-bind _ _ _ _ _ (Ensures-deref _ it.qty) λ q.
          Ensures-bind _ _ _ _ _ (Ensures-deref _ it.unit_price) λ u.
            let row : OrderItemRow = record {
              order_id = id;
              product_id = p;
              qty = q;
              unit_price = u;
            } in
            Ensures-bind _ _ _ _ _ (Ensures-exec_tx h sql (insert_order_item row) _) λ d.
              Ensures-weaken _ _ _ _ (insert_items h id its)
                (λ s (t, (((same, ep), eq), eu), x). (
                  insert_item-stored id row d t s (eqb_ℤ_refl id) x ∙ ap (λ l. l ++ row ∷ []) same,
                  λ _ s' more. HasRows-cons id old it its row s' (refl, ep, eq, eu) more,
                ))
                (insert_items-Ensures id its (old ++ row ∷ []))

  delete_items-stored :
      (id : ℤ) (d : Done) (s s' : engine.State)
      → Executed engine (delete_order_items id) d s s'
      → items_of id s' ≡ []
  unfolding effect
  delete_items-stored id d s s' x =
      ap (λ (t : Tables). stored id t.order_items) x.tables_eq
      ∙ stored-remove id (engine.tables s).order_items

  -- Where an order lists items, and its items are replaced without an error, the table holds
  -- exactly one row for each of them, in their order, and none of those that were there.
  replace_items-Ensures :
      (id : ℤ) (its : List OrderItemDto)
      → Ensures
          (λ s. Unit)
          (replace_items h id (some its))
          (λ _ s'. AreRowsOf id its (items_of id s'))
  unfolding replace_items
  replace_items-Ensures id its =
      Ensures-bind _ _ _ _ _ (Ensures-exec_tx h sql (delete_order_items id) (λ s. Unit)) λ d.
        Ensures-weaken _ _ _ _ (insert_items h id its)
          (λ s (t, _, x). (
            delete_items-stored id d t s x,
            λ _ s' (rs, e, are). subst (AreRowsOf id its) (sym e) are,
          ))
          (insert_items-Ensures id its [])

  -- The rows of an order after an item that lists its items, or leaves them out.
  abbrev pub HasItems : Option (List OrderItemDto) → ℤ → engine.State → Type 0
  HasItems none id s = Unit
  HasItems (some its) id s = AreRowsOf id its (items_of id s)

  replace_any-Ensures :
      (o : Option (List OrderItemDto)) (id : ℤ)
      → Ensures (λ s. Unit) (replace_items h id o) (λ _ s'. HasItems o id s')
  unfolding replace_items
  replace_any-Ensures none id = Ensures-pure _ _ tt (λ s p. tt)
  replace_any-Ensures (some its) id = replace_items-Ensures id its

  process_order-Ensures :
      (j : Json)
      → Ensures
          (λ s. Unit)
          (process_order h j)
          (λ res s'.
            (o : OrderDto) × (decode_order h.unicode j ≡ some o)
            × (res.status ≡ created_or_updated o.id)
            × HasItems o.items res.id s')
  unfolding process_order
  process_order-Ensures j =
      Ensures-bind _ _ _ _ _ (unmarshalled-Ensures h sql (decode_order h.unicode j)) λ o.
        let F : Type 0 = decode_order h.unicode j ≡ some o in
        Ensures-bind _ (λ _ s. F) _ _ _ (fact-kept h sql F (validated h (order_rules o)))
          λ _.
            Ensures-bind _ (λ _ s. F) _ _ _ (fact-kept h sql F (order_amount h o.items o.amount))
              λ amount.
                Ensures-bind _ (λ _ s. F) _ _ _ (fact-kept h sql F (deref o.customer_id))
                  λ customer.
                    Ensures-bind _ (λ _ s. F) _ _ _ (fact-kept h sql F (save h o.id _ _))
                      λ id.
                        Ensures-bind _ (λ _ s. F × HasItems o.items id s) _ _ _
                          (fact-Ensures h sql F (λ _ s. HasItems o.items id s)
                            (replace_items h id o.items) (replace_any-Ensures o.items id))
                          λ _. Ensures-pure _ _ _ (λ s (dec, items). (o, dec, refl, items))

  -- If `processItem` returns a result for an order, the request decodes to an order, the result says
  -- whether it had an id, and, if the order lists items, the rows of `order_items` under the id of
  -- the result are exactly those items in their order: what was stored under it before is gone.
  pub process_order-returned :
      (j : Json) (s s' : engine.State) (r : SyncResult)
      → process_order h j s ≡ (returned r, s')
      → (o : OrderDto) × (decode_order h.unicode j ≡ some o)
        × (r.status ≡ created_or_updated o.id)
        × HasItems o.items r.id s'
  process_order-returned j s s' r e =
      subst
        (λ (out : Outcome SyncResult × engine.State).
          IfReturned
            (λ r s'.
              (o : OrderDto) × (decode_order h.unicode j ≡ some o)
              × (r.status ≡ created_or_updated o.id)
              × HasItems o.items r.id s')
            out.0 out.1)
        e ((process_order-Ensures j).at s tt)
