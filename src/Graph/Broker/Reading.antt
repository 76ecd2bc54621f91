-- ===== src/Graph/Broker/Reading.antt =====
-- What a publication leaves of the subscribers, and what a subscriber's reading changes.
use sync_bridge.Base.{
  ℕ, ◌≡◌, refl, sym, ap, false, Option, none, some, ◌==◌, arith, Option-cases, inl, inr,
}
use mathlib.Core.Option.{some_inj}
use sync_bridge.Graph.Broker.{Channel, EmployeeBroker, take_first, receive}

module _ {A : Type 0} where
  pub put_back-subscribers :
      (b b' : EmployeeBroker A) (o : Option (ℕ → Option (Channel A)))
      → elim o [ none ↦ none | some channels ↦ some (record b { channels = channels }) ] ≡ some b'
      → b'.subscribers ≡ b.subscribers
  put_back-subscribers b b' none e = absurd (cc e)
  put_back-subscribers b b' (some channels) e =
      sym (ap (λ (x : EmployeeBroker A). x.subscribers) (some_inj.0 e))

  pub received-channel :
      (k : ℕ) (b : EmployeeBroker A) (c : Channel A)
      → b.channels k ≡ some c
      → (receive k b).channels k ≡ some (take_first c)
  unfolding receive
  received-channel k b c e = rw (e, receive) (ground arith)

  pub received-subscribers :
      (k : ℕ) (b : EmployeeBroker A) → (receive k b).subscribers ≡ b.subscribers
  unfolding receive
  received-subscribers k b = elim (Option-cases (b.channels k)) [
    | inl nothing ↦ rw (nothing, receive) refl
    | inr (c, e) ↦ rw (e, receive) refl
  ]

  pub received-elsewhere :
      (ch k : ℕ) (b : EmployeeBroker A)
      → (ch == k) ≡ false
      → (receive k b).channels ch ≡ b.channels ch
  unfolding receive
  received-elsewhere ch k b other = elim (Option-cases (b.channels k)) [
    | inl nothing ↦ rw (nothing, receive) refl
    | inr (c, e) ↦ rw (e, receive) (ground arith)
  ]
