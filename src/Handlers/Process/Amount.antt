-- ===== src/Handlers/Process/Amount.antt =====
-- The amount of an order is the exact sum of its items' prices, wrapped around once.
use sync_bridge.Base.{
  ◌≡◌, refl, sym, ap, ◌∙◌, subst, Option, none, some, List, [], ◌∷◌, get_or, inl, inr, Bool-cases,
  arith,
}
use sync_bridge.Base.Int.{
  ℤ, pos, ◌+ℤ◌, ◌*ℤ◌, wrap64, eqb_ℤ, eqb_ℤ_iff, InInt64, wrap64-eq_of_InInt64, wrap64-InInt64,
}
use sync_bridge.Base.Int.Wrap.{
  add_assoc, add_right_comm, zero_add, add_zero, wrap64-add, wrap64-add_left,
}
use sync_bridge.Dto.{OrderItemDto}
use sync_bridge.Dto.Rules.{order_item_rules}
use sync_bridge.Sql.Engine.{IsSqlite}
use sync_bridge.Handlers.Action.{Outcome, returned}
use sync_bridge.Handlers.Action.Laws.{
  IfReturned, Ensures, Ensures-pure, Ensures-fail, Ensures-deref, Ensures-bind, Ensures-weaken,
}
use sync_bridge.Handlers.Host.{Host}
use sync_bridge.Handlers.Items.{add_price}
use sync_bridge.Handlers.Process.{validated, sum_items, check_amount, order_amount}
use sync_bridge.Handlers.Process.Triples.{anything-Ensures}

-- The exact price of an item, and of all items.
unfoldable pub price : OrderItemDto → ℤ
price it = get_or it.qty (pos 0) *ℤ get_or it.unit_price (pos 0)

unfoldable pub total : List OrderItemDto → ℤ
unfolding price
total [] = pos 0
total (it ∷ its) = price it +ℤ total its

-- A step of the loop, then the rest in exact numbers.
pub add_price-total :
    (sum q p rest : ℤ) → wrap64 (add_price sum q p +ℤ rest) ≡ wrap64 (sum +ℤ ((q *ℤ p) +ℤ rest))
unfolding add_price
add_price-total sum q p rest =
    wrap64-add_left (sum +ℤ wrap64 (q *ℤ p)) rest
    ∙ ap wrap64 (add_right_comm sum (wrap64 (q *ℤ p)) rest)
    ∙ wrap64-add (sum +ℤ rest) (q *ℤ p)
    ∙ ap wrap64 (add_right_comm sum rest (q *ℤ p) ∙ add_assoc sum (q *ℤ p) rest)

pub add_price-InInt64 : (sum q p : ℤ) → InInt64 (add_price sum q p)
unfolding add_price
add_price-InInt64 sum q p = wrap64-InInt64 (sum +ℤ wrap64 (q *ℤ p))

pub price-some :
    (it : OrderItemDto) (q p : ℤ) → it.qty ≡ some q → it.unit_price ≡ some p → q *ℤ p ≡ price it
unfolding price
price-some it q p has_q has_p = rw (has_q, has_p)

module _ (h : Host) (sql : IsSqlite h.engine) where
  open h use {engine}

  sum_items-Ensures :
      (its : List OrderItemDto) (sum : ℤ)
      → InInt64 sum
      → Ensures (λ s. Unit) (sum_items h its sum) (λ r s. r ≡ wrap64 (sum +ℤ total its))
  unfolding sum_items total
  sum_items-Ensures [] sum fits =
      Ensures-pure _ _ sum (λ s p. sym (ap wrap64 (add_zero sum) ∙ wrap64-eq_of_InInt64 sum fits))
  sum_items-Ensures (it ∷ its) sum fits =
      Ensures-bind _ (λ _ _. Unit) _ _ _
        (anything-Ensures h sql (validated h (order_item_rules it)))
        λ _. Ensures-bind _ _ _ _ _ (Ensures-deref (λ _. Unit) it.qty) λ q.
          Ensures-bind _ _ _ _ _ (Ensures-deref (λ _. Unit × (it.qty ≡ some q)) it.unit_price) λ p.
            Ensures-weaken _ _ _ _ _
              (λ s ((_, has_q), has_p). (
                tt,
                λ a s' e.
                    e
                    ∙ add_price-total sum q p (total its)
                    ∙ ap (λ x. wrap64 (sum +ℤ (x +ℤ total its))) (price-some it q p has_q has_p),
              ))
              (sum_items-Ensures its (add_price sum q p) (add_price-InInt64 sum q p))

  check_amount-Ensures :
      (t : ℤ) (amount : Option ℤ) (sum : ℤ)
      → Ensures (λ s. sum ≡ t) (check_amount h amount sum) (λ a s. (a ≡ t) × (get_or amount a ≡ a))
  unfolding check_amount
  check_amount-Ensures t none sum = Ensures-pure _ _ sum (λ s e. (e, refl))
  check_amount-Ensures t (some provided) sum = elim (Bool-cases (eqb_ℤ provided sum)) [
    | inl same ↦ rw same (Ensures-pure _ _ sum (λ s e. (e, (eqb_ℤ_iff provided sum).0 same)))
    | inr other ↦ rw other (Ensures-fail _ _ _)
  ]

  pub order_amount-Ensures :
      (its : List OrderItemDto) (amount : Option ℤ)
      → Ensures
          (λ s. Unit)
          (order_amount h (some its) amount)
          (λ a s. (a ≡ wrap64 (total its)) × (get_or amount a ≡ a))
  unfolding order_amount check_amount
  order_amount-Ensures [] amount = Ensures-fail _ _ _
  order_amount-Ensures (it ∷ its) amount =
      Ensures-bind _ (λ r s. r ≡ wrap64 (total (it ∷ its))) _ _ _
        (Ensures-weaken _ _ _ _ _
          (λ s p. (p, λ a s' e. e ∙ ap wrap64 (zero_add (total (it ∷ its)))))
          (sum_items-Ensures (it ∷ its) (pos 0) (omega arith)))
        λ sum. check_amount-Ensures (wrap64 (total (it ∷ its))) amount sum

  -- If an order with items gets an amount, it is the sum of quantity times unit price over its
  -- items, taken exactly and wrapped around to 64 bits once, however the sums of the loop wrapped;
  -- and if the request provides an amount, it is that one.
  pub order_amount-returned :
      (its : List OrderItemDto) (amount : Option ℤ) (a : ℤ) (s s' : engine.State)
      → order_amount h (some its) amount s ≡ (returned a, s')
      → (a ≡ wrap64 (total its)) × (get_or amount a ≡ a)
  order_amount-returned its amount a s s' e =
      subst
        (λ (out : Outcome ℤ × engine.State).
          IfReturned (λ a s'. (a ≡ wrap64 (total its)) × (get_or amount a ≡ a)) out.0 out.1)
        e ((order_amount-Ensures its amount).at s tt)
