-- ===== src/Graph/Broker/Tests.antt =====
-- A service with one subscriber of the employees (here numbers), who is handed two of them.
use sync_bridge.Base.{ℕ, ◌≡◌, refl, true, false, none, some, [], ◌∷◌}
use sync_bridge.Graph.Broker.{
  EmployeeBroker, is_subscribed, new_employee_broker, subscribe, unsubscribe,
}
use sync_bridge.Graph.Broker.Order.{opens, hears, Follows, Stream-Follows}
use sync_bridge.Graph.Broker.Invariant.{
  IsValid, new_employee_broker-IsValid, subscribe-IsValid, publish-Delivered, unsubscribe-closes,
  subscribes, Reach, start, then_, Reach-IsValid,
}

abbrev one : EmployeeBroker ℕ
one = (subscribe new_employee_broker).0

one-IsValid : IsValid one
one-IsValid = subscribe-IsValid new_employee_broker new_employee_broker-IsValid

one-subscribed : is_subscribed 0 one.subscribers ≡ true
unfolding is_subscribed subscribe new_employee_broker
one-subscribed = refl

unsubscribe-closes_example :
    (b' : EmployeeBroker ℕ) × (unsubscribe 0 one ≡ some b')
    × IsValid b'
    × (is_subscribed 0 b'.subscribers ≡ false)
    × (unsubscribe 0 b' ≡ none)
unsubscribe-closes_example = unsubscribe-closes 0 one one-IsValid one-subscribed

one-Reach : Reach one
one-Reach = then_ start subscribes

Reach-IsValid_example : IsValid one
Reach-IsValid_example = Reach-IsValid one-Reach

Stream-Follows_example : Follows 0 [] (5 ∷ []) (publish-Delivered 5 one one-IsValid).0
unfolding new_employee_broker
Stream-Follows_example =
    Stream-Follows (hears 5 (opens start refl) (publish-Delivered 5 one one-IsValid).1)
