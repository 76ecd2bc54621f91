-- ===== src/Graph/Broker.antt =====
-- graph/resolver.go: the broker that hands new employees to the subscribers. A channel is known by
-- a number, each call runs under the mutex and so is one step, and `none` is a panic.
pub mod Delivery
pub mod Invariant
pub mod Reading
pub mod Order
mod Tests
use sync_bridge.Base.{
  ℕ, suc, ◌+◌, ◌≡◌, Bool, true, false, Option, none, some, List, [], ◌∷◌, ◌++◌, if◌then◌else◌, ◌==◌,
  ltb, length,
}

-- a channel made with a capacity of 10
pub record Channel (A : Type 0) : Type 0 where
  pub buffer : List A
  pub closed : Bool

-- How many channels have been made, what they hold, and the keys of the map `subscribers`.
pub record EmployeeBroker (A : Type 0) : Type 0 where
  pub made : ℕ
  pub channels : ℕ → Option (Channel A)
  pub subscribers : List ℕ

unfoldable pub is_subscribed : ℕ → List ℕ → Bool
is_subscribed ch [] = false
is_subscribed ch (k ∷ ks) = if k == ch then true else is_subscribed ch ks

-- `delete(m, ch)`
unfoldable pub delete_key : ℕ → List ℕ → List ℕ
delete_key ch [] = []
delete_key ch (k ∷ ks) = let rest = delete_key ch ks in if k == ch then rest else k ∷ rest

module _ {A : Type 0} where
  -- the store with one channel changed
  abbrev pub put_channel : ℕ → Channel A → (ℕ → Option (Channel A)) → ℕ → Option (Channel A)
  put_channel ch c channels k = if k == ch then some c else channels k

  unfoldable pub new_employee_broker : EmployeeBroker A
  new_employee_broker = record { made = 0; channels = λ k. none; subscribers = [] }

  unfoldable pub subscribe : EmployeeBroker A → EmployeeBroker A × ℕ
  subscribe b = (
    record {
      made = suc b.made;
      channels = put_channel b.made (record { buffer = []; closed = false }) b.channels;
      subscribers = b.made ∷ b.subscribers;
    },
    b.made,
  )

  -- `close`, which panics at a nil channel and at a closed one
  unfoldable close_channel : ℕ → (ℕ → Option (Channel A)) → Option (ℕ → Option (Channel A))
  close_channel ch channels = elim (channels ch) [
    | none ↦ none
    | some c ↦
        if c.closed then none else some (put_channel ch (record c { closed = true }) channels)
  ]

  unfoldable pub unsubscribe : ℕ → EmployeeBroker A → Option (EmployeeBroker A)
  unfolding close_channel delete_key
  unsubscribe ch b = elim (close_channel ch b.channels) [
    | none ↦ none
    | some channels ↦
        some (record b { channels = channels; subscribers = delete_key ch b.subscribers })
  ]

  -- a send that is dropped where the buffer is full
  unfoldable pub offer : A → Channel A → Channel A
  offer emp c = if ltb (length c.buffer) 10 then record c { buffer = c.buffer ++ emp ∷ [] } else c

  -- the loop of `Publish`; a send on a closed channel panics
  unfoldable pub publish_to :
      A → List ℕ → (ℕ → Option (Channel A)) → Option (ℕ → Option (Channel A))
  unfolding offer
  publish_to emp [] channels = some channels
  publish_to emp (ch ∷ chs) channels = elim (channels ch) [
    | none ↦ publish_to emp chs channels
    | some c ↦
        let rest = publish_to emp chs (put_channel ch (offer emp c) channels) in
        if c.closed then none else rest
  ]

  unfoldable pub publish : A → EmployeeBroker A → Option (EmployeeBroker A)
  unfolding publish_to
  publish emp b = elim (publish_to emp b.subscribers b.channels) [
    | none ↦ none
    | some channels ↦ some (record b { channels = channels })
  ]

  -- the subscriber takes the oldest employee out of its channel
  abbrev pub take_first : Channel A → Channel A
  take_first c = elim c.buffer [ [] ↦ c | emp ∷ rest ↦ record c { buffer = rest } ]

  unfoldable pub receive : ℕ → EmployeeBroker A → EmployeeBroker A
  receive ch b = elim (b.channels ch) [
    | none ↦ b
    | some c ↦ record b { channels = put_channel ch (take_first c) b.channels }
  ]
