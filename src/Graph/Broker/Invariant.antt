-- ===== src/Graph/Broker/Invariant.antt =====
-- The states that the calls of a service lead to, and that no call panics there.
use sync_bridge.Base.{
  ℕ, ◌≤◌, ◌<◌, ◌≡◌, refl, subst, sym, ◌∙◌, Bool, true, false, Option, none, some, List, [], ◌∷◌,
  if◌then◌else◌, ◌==◌, length, arith, Bool-cases, Option-cases, inl, inr, length-append,
}
use mathlib.Core.Option.{some_inj}
use sync_bridge.Graph.Broker.{
  Channel, EmployeeBroker, is_subscribed, delete_key, put_channel, new_employee_broker, subscribe,
  unsubscribe, offer, publish, take_first, receive,
}
use sync_bridge.Graph.Broker.Delivery.{IsDistinct, IsOpen, Delivered, offered, publish_to-Delivered}

pub subscribed-delete_key :
    (ch j : ℕ) (ks : List ℕ)
    → is_subscribed j (delete_key ch ks) ≡ (if j == ch then false else is_subscribed j ks)
unfolding is_subscribed delete_key
subscribed-delete_key ch j [] = ground arith
subscribed-delete_key ch j (k ∷ ks) = ground (arith, subscribed-delete_key ch j ks)

delete_key-IsDistinct : (ch : ℕ) (ks : List ℕ) → IsDistinct ks → IsDistinct (delete_key ch ks)
unfolding delete_key
delete_key-IsDistinct ch [] d = tt
delete_key-IsDistinct ch (k ∷ ks) (new, d) =
    ground (arith, delete_key-IsDistinct ch ks d, subscribed-delete_key ch k ks)

module _ {A : Type 0} where
  -- The subscribers are distinct, their channels are open and were made here, and no buffer holds
  -- more than its capacity.
  pub record IsValid (b : EmployeeBroker A) : Type 0 where
    pub distinct : IsDistinct b.subscribers
    pub opened : (k : ℕ) → is_subscribed k b.subscribers ≡ true → IsOpen k b.channels
    pub made_here : (k : ℕ) → is_subscribed k b.subscribers ≡ true → k < b.made
    pub bounded : (k : ℕ) (c : Channel A) → b.channels k ≡ some c → length c.buffer ≤ 10

  pub new_employee_broker-IsValid : IsValid new_employee_broker
  unfolding new_employee_broker is_subscribed
  new_employee_broker-IsValid = record {
    distinct = tt;
    opened = λ k h. cc h;
    made_here = λ k h. cc h;
    bounded = λ k c h. cc h;
  }

  fresh : (b : EmployeeBroker A) → IsValid b → is_subscribed b.made b.subscribers ≡ false
  fresh b v = elim (Bool-cases (is_subscribed b.made b.subscribers)) [
    | inl known ↦ absurd (omega (arith, v.made_here b.made known))
    | inr new ↦ new
  ]

  pub subscribe-IsValid : (b : EmployeeBroker A) → IsValid b → IsValid (subscribe b).0
  unfolding subscribe is_subscribed
  subscribe-IsValid b v = record {
    distinct = (fresh b v, v.distinct);
    opened = λ k h. elim (Bool-cases (b.made == k)) [
      | inl same ↦ (record { buffer = []; closed = false }, ground arith, refl)
      | inr other ↦ let (c, e, o) = v.opened k (ground arith) in (c, ground arith, o)
    ];
    made_here = λ k h. ground (arith, v.made_here k);
    bounded = λ k c h. ground (arith, v.bounded k c);
  }

  length-offer : (emp : A) (c : Channel A) → length c.buffer ≤ 10 → length (offer emp c).buffer ≤ 10
  unfolding offer
  length-offer emp c h = ground (arith, length-append c.buffer (emp ∷ []))

  closed-offer : (emp : A) (c : Channel A) → (offer emp c).closed ≡ c.closed
  unfolding offer
  closed-offer emp c = ground arith

  length-offered :
      (emp : A) (o : Option (Channel A)) (c : Channel A)
      → ((d : Channel A) → o ≡ some d → length d.buffer ≤ 10)
      → offered emp o ≡ some c
      → length c.buffer ≤ 10
  length-offered emp none c k h = cc h
  length-offered emp (some d) c k h = ground (arith, length-offer emp d, k d refl)

  pub publish-Delivered :
      (emp : A) (b : EmployeeBroker A)
      → IsValid b
      → (b' : EmployeeBroker A) × (publish emp b ≡ some b')
        × Delivered emp b.subscribers b.channels b'.channels
        × IsValid b'
  unfolding publish
  publish-Delivered emp b v =
      let (after, run, del) =
        publish_to-Delivered emp b.subscribers b.channels v.distinct v.opened in
      (
        record b { channels = after },
        ground arith,
        del,
        record {
          distinct = v.distinct;
          opened = λ k h.
              let (c, e, o) = v.opened k h in
              (offer emp c, ground (arith, del k), closed-offer emp c ∙ o);
          made_here = v.made_here;
          bounded = λ k c h. elim (Bool-cases (is_subscribed k b.subscribers)) [
            | inl sub ↦
                length-offered emp (b.channels k) c (λ d. v.bounded k d) (ground (arith, del k))
            | inr other ↦ v.bounded k c (ground (arith, del k))
          ];
        },
      )

  -- In a valid state the call that ends a subscription does not panic; afterwards the subscriber is
  -- no longer listed, its channel is closed, and to end it again would panic.
  pub unsubscribe-closes :
      (ch : ℕ) (b : EmployeeBroker A)
      → IsValid b
      → is_subscribed ch b.subscribers ≡ true
      → (b' : EmployeeBroker A) × (unsubscribe ch b ≡ some b')
        × IsValid b'
        × (is_subscribed ch b'.subscribers ≡ false)
        × (unsubscribe ch b' ≡ none)
  unfolding unsubscribe
  unsubscribe-closes ch b v sub =
      let (c, e, o) = v.opened ch sub in
      let shut : Channel A = record c { closed = true } in
      (
        record b {
          channels = put_channel ch shut b.channels;
          subscribers = delete_key ch b.subscribers;
        },
        ground arith,
        record {
          distinct = delete_key-IsDistinct ch b.subscribers v.distinct;
          opened = λ k h.
              let gone = subscribed-delete_key ch k b.subscribers in
              let (d, f, p) = v.opened k (ground (arith, gone)) in (d, ground (arith, gone), p);
          made_here =
              λ k h. v.made_here k (ground (arith, subscribed-delete_key ch k b.subscribers));
          bounded = λ k d h. ground (arith, v.bounded k d, v.bounded ch c e);
        },
        ground (arith, subscribed-delete_key ch ch b.subscribers),
        ground arith,
      )

  -- A channel after its first employee is taken.
  Taken : Channel A → Channel A → Type 0
  Taken c d = (d.closed ≡ c.closed) × (length d.buffer ≤ length c.buffer)

  take_first-Taken :
      (l : List A) (x : Bool)
      → let c : Channel A = record { buffer = l; closed = x } in Taken c (take_first c)
  unfolding Taken
  take_first-Taken [] x = (refl, omega arith)
  take_first-Taken (emp ∷ l) x = (refl, omega arith)

  put-Taken-IsValid :
      (ch : ℕ) (b : EmployeeBroker A) (c d : Channel A)
      → IsValid b
      → b.channels ch ≡ some c
      → Taken c d
      → IsValid (record b { channels = put_channel ch d b.channels })
  unfolding Taken
  put-Taken-IsValid ch b c d v e t = record {
    distinct = v.distinct;
    opened = λ k h. elim (Bool-cases (k == ch)) [
      | inl same ↦ let (c', e', o) = v.opened k h in (d, ground arith, ground arith)
      | inr other ↦ let (c', e', o) = v.opened k h in (c', ground arith, o)
    ];
    made_here = v.made_here;
    bounded = λ k f h. ground (arith, v.bounded k f, v.bounded ch c e);
  }

  -- A received employee leaves its channel.
  pub receive-IsValid : (ch : ℕ) (b : EmployeeBroker A) → IsValid b → IsValid (receive ch b)
  unfolding receive
  receive-IsValid ch b v = elim (Option-cases (b.channels ch)) [
    | inl nothing ↦ rw (nothing, receive) v
    | inr (c, e) ↦
        rw (e, receive)
          (put-Taken-IsValid ch b c (take_first c) v e (take_first-Taken c.buffer c.closed))
  ]

  -- What clients cause: a subscription, its end (once, by the goroutine that awaits the end of its
  -- request), a publication by CreateEmployee, and the reading of a subscriber.
  pub data Step (b : EmployeeBroker A) : EmployeeBroker A → Type 0 where
    subscribes : Step b (subscribe b).0
    unsubscribes :
        (ch : ℕ) {b' : EmployeeBroker A}
        → is_subscribed ch b.subscribers ≡ true
        → unsubscribe ch b ≡ some b'
        → Step b b'
    publishes : (emp : A) {b' : EmployeeBroker A} → publish emp b ≡ some b' → Step b b'
    receives : (ch : ℕ) → Step b (receive ch b)

  pub data Reach : EmployeeBroker A → Type 0 where
    start : Reach new_employee_broker
    then_ : {b b' : EmployeeBroker A} → Reach b → Step b b' → Reach b'

  Step-IsValid : {b b' : EmployeeBroker A} → Step b b' → IsValid b → IsValid b'
  Step-IsValid {b} subscribes v = subscribe-IsValid b v
  Step-IsValid {b} (unsubscribes ch sub run) v =
      let (c, ran, valid, gone, again) = unsubscribe-closes ch b v sub in
      subst IsValid (some_inj.0 (sym ran ∙ run)) valid
  Step-IsValid {b} (publishes emp run) v =
      let (c, ran, del, valid) = publish-Delivered emp b v in
      subst IsValid (some_inj.0 (sym ran ∙ run)) valid
  Step-IsValid {b} (receives ch) v = receive-IsValid ch b v

  -- Every state that calls lead to is valid, in whatever order they come.
  pub Reach-IsValid : {b : EmployeeBroker A} → Reach b → IsValid b
  Reach-IsValid start = new_employee_broker-IsValid
  Reach-IsValid (then_ r st) = Step-IsValid st (Reach-IsValid r)
