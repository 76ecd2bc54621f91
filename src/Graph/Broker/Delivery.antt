-- ===== src/Graph/Broker/Delivery.antt =====
-- The broker never panics, and hands each employee once to every subscriber that has room.
use sync_bridge.Base.{
  ℕ, ◌≡◌, refl, ap, true, false, Option, none, some, List, [], ◌∷◌, if◌then◌else◌, arith,
}
use sync_bridge.Graph.Broker.{Channel, is_subscribed, put_channel, offer, publish_to}

abbrev pub IsDistinct : List ℕ → Type 0
IsDistinct [] = Unit
IsDistinct (k ∷ ks) = (is_subscribed k ks ≡ false) × IsDistinct ks

module _ {A : Type 0} where
  abbrev pub IsOpen : ℕ → (ℕ → Option (Channel A)) → Type 0
  IsOpen k channels = (c : Channel A) × (channels k ≡ some c) × (c.closed ≡ false)

  abbrev pub offered : A → Option (Channel A) → Option (Channel A)
  offered emp none = none
  offered emp (some c) = some (offer emp c)

  -- What a publication makes of the channel of each number.
  abbrev pub Delivered : A → List ℕ → (ℕ → Option (Channel A)) → (ℕ → Option (Channel A)) → Type 0
  Delivered emp ks before after =
      (j : ℕ) → after j ≡ (if is_subscribed j ks then offered emp (before j) else before j)

  still-IsOpen :
      (k j : ℕ) (ks : List ℕ) (c : Channel A) (channels : ℕ → Option (Channel A))
      → is_subscribed k ks ≡ false
      → is_subscribed j ks ≡ true
      → IsOpen j channels
      → IsOpen j (put_channel k c channels)
  still-IsOpen k j ks c channels new sub (d, e, open_) =
      (d, ground (arith, ap (λ i. is_subscribed i ks) {x = k} {y = j}), open_)

  pub publish_to-Delivered :
      (emp : A) (ks : List ℕ) (channels : ℕ → Option (Channel A))
      → IsDistinct ks
      → ((k : ℕ) → is_subscribed k ks ≡ true → IsOpen k channels)
      → (after : ℕ → Option (Channel A)) × (publish_to emp ks channels ≡ some after)
        × Delivered emp ks channels after
  unfolding publish_to is_subscribed
  publish_to-Delivered emp [] channels d o = (channels, refl, λ j. refl)
  publish_to-Delivered emp (k ∷ ks) channels (new, d) o =
      let (c, e, op) = o k (ground arith) in
      let (after, run, del) =
        publish_to-Delivered emp ks (put_channel k (offer emp c) channels) d
          (λ j sub. still-IsOpen k j ks (offer emp c) channels new sub (o j (ground arith))) in
      (after, ground arith, λ j. ground (arith, del j))
