-- ===== src/Handlers/Process/Valid.antt =====
-- Valid items get an amount.
use sync_bridge.Base.{
  ◌≡◌, ◌≢◌, refl, sym, ap, ◌∙◌, Option, none, some, List, [], ◌∷◌, get_or, true, is_some, All,
  arith,
}
use sync_bridge.Base.Int.{ℤ, pos, ◌+ℤ◌, wrap64, eqb_ℤ_refl, InInt64, wrap64-eq_of_InInt64}
use sync_bridge.Base.Int.Wrap.{add_zero, zero_add}
use sync_bridge.Dto.{OrderItemDto}
use sync_bridge.Dto.Rules.{Checked, IsValidator, validate, is_valid, order_item_rules}
use sync_bridge.Handlers.Action.{returned, Action, pure, deref, continue, ◌>>=◌}
use sync_bridge.Handlers.Host.{Host}
use sync_bridge.Handlers.Items.{add_price}
use sync_bridge.Handlers.Process.{or_invalid, validated, sum_items, check_amount, order_amount}
use sync_bridge.Handlers.Process.Amount.{total, add_price-total, add_price-InInt64, price-some}
use sync_bridge.Handlers.Process.Safety.{order_item_rules-IsComplete}

pub bind-returned :
    {S A B : Type 0} (m : Action S A) (f : A → Action S B) (a : A) (s s' : S)
    → m s ≡ (returned a, s')
    → (m >>= f) s ≡ f a s'
unfolding ◌>>=◌ continue
bind-returned m f a s s' e = rw e

present : {A : Type 0} (o : Option A) → is_some o ≡ true → (a : A) × (o ≡ some a)
present none e = absurd (cc e)
present (some a) e = (a, refl)

deref-some :
    {S A : Type 0} (o : Option A) (a : A) (s : S) → o ≡ some a → deref o s ≡ (returned a, s)
unfolding deref
deref-some o a s e = rw e

module _ (h : Host) (v : IsValidator h.validator) where
  open h use {validator, engine}

  validate-none :
      (cs : List Checked) → is_valid validator.is_email cs ≡ true → validate validator cs ≡ none
  unfolding validate
  validate-none cs e = rw ((v.check_iff cs).1 e, validate)

  pub validated-returned :
      (cs : List Checked) (s : engine.State)
      → is_valid validator.is_email cs ≡ true
      → validated h cs s ≡ (returned tt, s)
  unfolding validated pure
  validated-returned cs s e = ap (λ o. or_invalid h o s) (validate-none cs e)

  abbrev pub AllValid : List OrderItemDto → Type 0
  AllValid its = All (λ it. is_valid validator.is_email (order_item_rules it) ≡ true) its

  sum_items-valid :
      (its : List OrderItemDto) (sum : ℤ) (s : engine.State)
      → InInt64 sum
      → AllValid its
      → sum_items h its sum s ≡ (returned (wrap64 (sum +ℤ total its)), s)
  unfolding sum_items total pure
  sum_items-valid [] sum s fits valid =
      ap (λ a. (returned a, s)) (sym (ap wrap64 (add_zero sum) ∙ wrap64-eq_of_InInt64 sum fits))
  sum_items-valid (it ∷ its) sum s fits (e, valid) =
      let (_, has_qty, has_price) = order_item_rules-IsComplete validator.is_email it e in
      let (q, is_q) = present it.qty has_qty in
      let (p, is_p) = present it.unit_price has_price in
      bind-returned _ _ tt s s (validated-returned (order_item_rules it) s e)
      ∙ bind-returned _ _ q s s (deref-some it.qty q s is_q)
      ∙ bind-returned _ _ p s s (deref-some it.unit_price p s is_p)
      ∙ sum_items-valid its (add_price sum q p) s (add_price-InInt64 sum q p) valid
      ∙ ap (λ a. (returned a, s))
          (add_price-total sum q p (total its)
            ∙ ap (λ x. wrap64 (sum +ℤ (x +ℤ total its))) (price-some it q p is_q is_p))

  check_amount-valid :
      (amount : Option ℤ) (sum : ℤ) (s : engine.State)
      → get_or amount sum ≡ sum
      → check_amount h amount sum s ≡ (returned sum, s)
  unfolding check_amount pure
  check_amount-valid none sum s e = refl
  check_amount-valid (some provided) sum s e = rw (e, eqb_ℤ_refl)

  -- An order with at least one item, all of whose items obey their rules, and without an amount or
  -- with the right one, gets the exact sum of quantity times unit price, wrapped around to 64 bits
  -- once, and the database is not touched.
  pub order_amount-valid :
      (its : List OrderItemDto) (amount : Option ℤ) (s : engine.State)
      → its ≢ []
      → AllValid its
      → get_or amount (wrap64 (total its)) ≡ wrap64 (total its)
      → order_amount h (some its) amount s ≡ (returned (wrap64 (total its)), s)
  unfolding order_amount
  order_amount-valid [] amount s some_item valid right = absurd (some_item refl)
  order_amount-valid (it ∷ its) amount s some_item valid right =
      let t = total (it ∷ its) in
      bind-returned _ _ (wrap64 t) s s (
        sum_items-valid (it ∷ its) (pos 0) s (omega arith) valid
        ∙ ap (λ a. (returned (wrap64 a), s)) (zero_add t))
      ∙ check_amount-valid amount (wrap64 t) s right
