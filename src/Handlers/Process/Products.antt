-- ===== src/Handlers/Process/Products.antt =====
-- The row that a product item leaves.
use sync_bridge.Base.{
  ◌≡◌, refl, sym, ap, subst, ◌∙◌, Option, none, some, get_or, Bool, true, Option-cases, inl, inr,
  if◌then◌else◌,
}
use sync_bridge.Base.Int.{ℤ, pos}
use sync_bridge.Text.{str}
use sync_bridge.Json.{Json}
use sync_bridge.Dto.{ProductDto}
use sync_bridge.Dto.Rules.{product_rules}
use sync_bridge.Dto.Decode.{decode_product}
use sync_bridge.Sql.Table.{find, find-add_self, find-upsert_new, find-upsert_old}
use sync_bridge.Sql.Schema.{ProductRow, Tables}
use sync_bridge.Sql.Statement.{
  upsert_product, insert_product, new_product, set_product, effect, target_effect,
}
use sync_bridge.Sql.Engine.{IsSqlite, Done, Executed}
use sync_bridge.Handlers.Action.{Outcome, returned}
use sync_bridge.Handlers.Action.Laws.{
  IfReturned, Ensures, Ensures-pure, Ensures-bind, Ensures-deref, Ensures-given,
}
use sync_bridge.Handlers.Host.{Host}
use sync_bridge.Handlers.Items.{SyncResult, created_or_updated, product_values}
use sync_bridge.Handlers.Process.{validated, save, process_product}
use sync_bridge.Handlers.Process.Triples.{unmarshalled-Ensures, fact-Ensures, fact-kept}
use sync_bridge.Handlers.Process.Saved.{save-Ensures}

-- The row has what the item says: US dollars where it names no currency, and 0 in the column
-- `active` only where the item says that the product is not active.
abbrev IsProduct : ProductDto → ProductRow → Type 0
IsProduct p row =
    (row.name ≡ p.name)
    × (row.description ≡ p.description)
    × (some row.price ≡ p.price)
    × (row.currency ≡ get_or p.currency (str "USD"))
    × (row.active ≡ (if get_or p.active true then pos 1 else pos 0))
    × (row.weight_grams ≡ p.weight_grams)

active-get_or :
    (o : Option Bool) (p : ProductDto)
    → p.active ≡ o
    → (product_values p (pos 0)).active ≡ (if get_or o true then pos 1 else pos 0)
active-get_or none p e = rw e
active-get_or (some b) p e = rw e

module _ (h : Host) (sql : IsSqlite h.engine) where
  open h use {engine}

  abbrev HasProduct : ProductDto → ℤ → engine.State → Type 0
  HasProduct p id s =
      (row : ProductRow) × (find id (engine.tables s).products ≡ some row) × IsProduct p row

  module _ (p : ProductDto) (price : ℤ) (priced : p.price ≡ some price) where
    inserted-HasProduct :
        (d : Done) (s s' : engine.State)
        → Executed engine (insert_product (product_values p price)) d s s'
        → HasProduct p d.row_id s'
    unfolding effect target_effect
    inserted-HasProduct d s s' x =
        let row = new_product (product_values p price) (engine.clock s) in
        (
          row,
          ap (λ (t : Tables). find d.row_id t.products) x.tables_eq
              ∙ find-add_self d.row_id row (engine.tables s).products x.fresh,
          (refl, refl, sym priced, refl, active-get_or p.active p refl, refl),
        )

    upserted-HasProduct :
        (id : ℤ) (d : Done) (s s' : engine.State)
        → Executed engine (upsert_product id (product_values p price)) d s s'
        → HasProduct p id s'
    unfolding effect target_effect
    upserted-HasProduct id d s s' x =
        let v = product_values p price in
        let now = engine.clock s in
        let old = (engine.tables s).products in
        let here = ap (λ (t : Tables). find id t.products) x.tables_eq in
        elim (Option-cases (find id old)) [
          | inl new ↦ (
            new_product v now,
            here ∙ find-upsert_new id (new_product v now) (set_product v now) old new,
            (refl, refl, sym priced, refl, active-get_or p.active p refl, refl),
          )
          | inr (row, known) ↦ (
            set_product v now row,
            here ∙ find-upsert_old id (new_product v now) row (set_product v now) old known,
            (refl, refl, sym priced, refl, active-get_or p.active p refl, refl),
          )
        ]

    save-HasProduct :
        (o : Option ℤ)
        → Ensures
            (λ s. Unit)
            (save h o
              (λ id. upsert_product id (product_values p price))
              (insert_product (product_values p price)))
            (HasProduct p)
    save-HasProduct =
        save-Ensures h sql (λ id. upsert_product id (product_values p price))
          (insert_product (product_values p price)) (HasProduct p) upserted-HasProduct
          inserted-HasProduct

  -- What an item stores, and says of it.
  abbrev pub StoredProduct : Json → SyncResult → engine.State → Type 0
  StoredProduct j r s =
      (p : ProductDto) × (decode_product h.unicode j ≡ some p)
      × (r.status ≡ created_or_updated p.id)
      × HasProduct p r.id s

  process_product-Ensures : (j : Json) → Ensures (λ s. Unit) (process_product h j) (StoredProduct j)
  unfolding process_product
  process_product-Ensures j =
      Ensures-bind _ _ _ _ _ (unmarshalled-Ensures h sql (decode_product h.unicode j)) λ p.
        let F : Type 0 = decode_product h.unicode j ≡ some p in
        Ensures-bind _ (λ _ s. F) _ _ _ (fact-kept h sql F (validated h (product_rules p)))
          λ _. Ensures-bind _ _ _ _ _ (Ensures-deref (λ _. F) p.price) λ price.
            Ensures-given _ _ _ _ λ priced.
              Ensures-bind _ _ _ _ _
                (fact-Ensures h sql F _ _ (save-HasProduct p price priced p.id))
                λ id. Ensures-pure _ _ _ (λ s (decoded, has). (p, decoded, refl, has))

  -- If `processItem` returns a result for a product, the item decodes to a product, and under the
  -- id of the result there is a row with its values; the result says whether the item had an id.
  pub process_product-returned :
      (j : Json) (s s' : engine.State) (r : SyncResult)
      → process_product h j s ≡ (returned r, s')
      → StoredProduct j r s'
  process_product-returned j s s' r e =
      subst (λ (out : Outcome SyncResult × engine.State). IfReturned (StoredProduct j) out.0 out.1)
        e ((process_product-Ensures j).at s tt)
