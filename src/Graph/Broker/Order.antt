-- ===== src/Graph/Broker/Order.antt =====
-- What a subscriber receives: the employees published since it subscribed, in their order, and all
-- of them while there are few.
use sync_bridge.Base.{
  ℕ, ◌≤◌, ◌≡◌, refl, sym, ap, subst, ◌∙◌, true, false, some, List, [], ◌∷◌, ◌++◌, if◌then◌else◌,
  ◌==◌, ltb, length, arith, Bool-cases, inl, inr, length-append,
}
use mathlib.Core.Option.{some_inj}
use mathlib.Core.List.{append-nil, append_assoc, Sublistᴰ}
use mathlib.Core.List.Sublistᴰ
use mathlib.Core.List.Sublistᴰ.{slnil, nil-sublist}
use sync_bridge.Graph.Broker.{
  Channel, EmployeeBroker, is_subscribed, delete_key, put_channel, subscribe, unsubscribe, offer,
  publish, publish_to, receive,
}
use sync_bridge.Graph.Broker.Delivery.{offered}
use sync_bridge.Graph.Broker.Reading.{
  put_back-subscribers, received-channel, received-subscribers, received-elsewhere,
}
use sync_bridge.Graph.Broker.Invariant.{
  IsValid, Reach, Reach-IsValid, publish-Delivered, subscribe-IsValid, receive-IsValid,
  unsubscribe-closes, subscribed-delete_key,
}

module _ {A : Type 0} where
  -- The life of one subscription among the calls of a service: what its subscriber has taken, and
  -- what has been published since it began.
  pub data Stream (ch : ℕ) : List A → List A → EmployeeBroker A → Type 0 where
    opens : {b : EmployeeBroker A} → Reach b → ch ≡ b.made → Stream ch [] [] (subscribe b).0
    hears :
        {taken sent : List A} {b b' : EmployeeBroker A} (emp : A)
        → Stream ch taken sent b
        → publish emp b ≡ some b'
        → Stream ch taken (sent ++ emp ∷ []) b'
    takes :
        {taken sent : List A} {b : EmployeeBroker A} (c : Channel A) (emp : A) (rest : List A)
        → Stream ch taken sent b
        → b.channels ch ≡ some c
        → c.buffer ≡ emp ∷ rest
        → Stream ch (taken ++ emp ∷ []) sent (receive ch b)
    another_joins :
        {taken sent : List A} {b : EmployeeBroker A}
        → Stream ch taken sent b
        → Stream ch taken sent (subscribe b).0
    another_leaves :
        {taken sent : List A} {b b' : EmployeeBroker A} (k : ℕ)
        → Stream ch taken sent b
        → (ch == k) ≡ false
        → is_subscribed k b.subscribers ≡ true
        → unsubscribe k b ≡ some b'
        → Stream ch taken sent b'
    another_takes :
        {taken sent : List A} {b : EmployeeBroker A} (k : ℕ)
        → Stream ch taken sent b
        → (ch == k) ≡ false
        → Stream ch taken sent (receive k b)

  -- What was taken, followed by what waits, is a part of what was published, in the same order, and
  -- all of it if no more than ten employees were published.
  pub record InOrder (taken waiting sent : List A) : Type 0 where
    pub part : Sublistᴰ (taken ++ waiting) sent
    pub whole : length sent ≤ 10 → taken ++ waiting ≡ sent

  pub record Follows (ch : ℕ) (taken sent : List A) (b : EmployeeBroker A) : Type 0 where
    pub valid : IsValid b
    pub subscribed : is_subscribed ch b.subscribers ≡ true
    pub channel : Channel A
    pub here : b.channels ch ≡ some channel
    pub in_order : InOrder taken channel.buffer sent

  offered-InOrder :
      (taken sent : List A) (c : Channel A) (emp : A)
      → InOrder taken c.buffer sent
      → InOrder taken (offer emp c).buffer (sent ++ emp ∷ [])
  unfolding offer
  offered-InOrder taken sent c emp o = elim (Bool-cases (ltb (length c.buffer) 10)) [
    | inl room ↦ rw room (record {
      part =
          subst (λ l. Sublistᴰ l (sent ++ emp ∷ [])) (append_assoc taken c.buffer (emp ∷ []))
            (Sublistᴰ.append o.part (Sublistᴰ.cons-cons refl slnil));
      whole = λ few.
          sym (append_assoc taken c.buffer (emp ∷ []))
          ∙ ap (λ l. l ++ emp ∷ []) (o.whole (omega (arith, few, length-append sent (emp ∷ []))));
    })
    | inr full ↦ rw full (record {
      part =
          subst (λ l. Sublistᴰ l (sent ++ emp ∷ [])) (append-nil (taken ++ c.buffer))
            (Sublistᴰ.append o.part (nil-sublist (emp ∷ [])));
      whole = λ few. absurd (
          let all = o.whole (omega (arith, few, length-append sent (emp ∷ []))) in
          ground (
            arith,
            few,
            full,
            ap length all,
            length-append sent (emp ∷ []),
            length-append taken c.buffer,
          ));
    })
  ]

  taken-InOrder :
      (taken sent rest : List A) (emp : A)
      → InOrder taken (emp ∷ rest) sent
      → InOrder (taken ++ emp ∷ []) rest sent
  taken-InOrder taken sent rest emp o = record {
    part = subst (λ l. Sublistᴰ l sent) (sym (append_assoc taken (emp ∷ []) rest)) o.part;
    whole = λ few. append_assoc taken (emp ∷ []) rest ∙ o.whole few;
  }

  opened-Follows : (b : EmployeeBroker A) → IsValid b → Follows b.made [] [] (subscribe b).0
  unfolding subscribe is_subscribed
  opened-Follows b v = record {
    valid = subscribe-IsValid b v;
    subscribed = ground arith;
    channel = record { buffer = []; closed = false };
    here = ground arith;
    in_order = record { part = slnil; whole = λ few. refl };
  }

  heard-Follows :
      (ch : ℕ) (taken sent : List A) (b b' : EmployeeBroker A) (emp : A)
      → Follows ch taken sent b
      → publish emp b ≡ some b'
      → Follows ch taken (sent ++ emp ∷ []) b'
  unfolding publish
  heard-Follows ch taken sent b b' emp f run =
      let (c, ran, del, valid) = publish-Delivered emp b f.valid in
      subst (Follows ch taken (sent ++ emp ∷ [])) (some_inj.0 (sym ran ∙ run)) (record {
        valid = valid;
        subscribed =
            ap (is_subscribed ch)
              (put_back-subscribers b c (publish_to emp b.subscribers b.channels) ran)
            ∙ f.subscribed;
        channel = offer emp f.channel;
        here =
            del ch
            ∙ ap (λ s. if s then offered emp (b.channels ch) else b.channels ch) f.subscribed
            ∙ ap (offered emp) f.here;
        in_order = offered-InOrder taken sent f.channel emp f.in_order;
      })

  taken-Follows :
      (ch : ℕ) (taken sent rest : List A) (b : EmployeeBroker A) (c : Channel A) (emp : A)
      → Follows ch taken sent b
      → b.channels ch ≡ some c
      → c.buffer ≡ emp ∷ rest
      → Follows ch (taken ++ emp ∷ []) sent (receive ch b)
  taken-Follows ch taken sent rest b c emp f e first =
      let same = ap (λ (x : Channel A). x.buffer) (some_inj.0 (sym f.here ∙ e)) ∙ first in
      record {
        valid = receive-IsValid ch b f.valid;
        subscribed = ap (is_subscribed ch) (received-subscribers ch b) ∙ f.subscribed;
        channel = record c { buffer = rest };
        here =
            received-channel ch b c e
            ∙ ap some (ap (λ l. elim l [ [] ↦ c | x ∷ more ↦ record c { buffer = more } ]) first);
        in_order =
            taken-InOrder taken sent rest emp (subst (λ l. InOrder taken l sent) same f.in_order);
      }

  joined-Follows :
      (ch : ℕ) (taken sent : List A) (b : EmployeeBroker A)
      → Follows ch taken sent b
      → Follows ch taken sent (subscribe b).0
  unfolding subscribe is_subscribed
  joined-Follows ch taken sent b f = record {
    valid = subscribe-IsValid b f.valid;
    subscribed = ground (arith, f.subscribed);
    channel = f.channel;
    here = ground (arith, f.here, f.valid.made_here ch f.subscribed);
    in_order = f.in_order;
  }

  left-Follows :
      (ch k : ℕ) (taken sent : List A) (b b' : EmployeeBroker A)
      → Follows ch taken sent b
      → (ch == k) ≡ false
      → is_subscribed k b.subscribers ≡ true
      → unsubscribe k b ≡ some b'
      → Follows ch taken sent b'
  unfolding unsubscribe
  left-Follows ch k taken sent b b' f other sub run =
      let (c, e, open_) = f.valid.opened k sub in
      let (c', ran, valid, gone, again) = unsubscribe-closes k b f.valid sub in
      let left : EmployeeBroker A = record b {
        channels = put_channel k (record c { closed = true }) b.channels;
        subscribers = delete_key k b.subscribers;
      } in
      let here : unsubscribe k b ≡ some left = ground arith in
      subst (Follows ch taken sent) (some_inj.0 (sym here ∙ run)) (record {
        valid = subst IsValid (some_inj.0 (sym ran ∙ here)) valid;
        subscribed = subscribed-delete_key k ch b.subscribers ∙ ground (arith, other, f.subscribed);
        channel = f.channel;
        here = ground (arith, other, f.here);
        in_order = f.in_order;
      })

  elsewhere-Follows :
      (ch k : ℕ) (taken sent : List A) (b : EmployeeBroker A)
      → Follows ch taken sent b
      → (ch == k) ≡ false
      → Follows ch taken sent (receive k b)
  elsewhere-Follows ch k taken sent b f other = record {
    valid = receive-IsValid k b f.valid;
    subscribed = ap (is_subscribed ch) (received-subscribers k b) ∙ f.subscribed;
    channel = f.channel;
    here = received-elsewhere ch k b other ∙ f.here;
    in_order = f.in_order;
  }

  -- Whatever other subscribers do, what a subscriber has taken, followed by what waits in its
  -- channel, is a part of what has been published since it subscribed, in the same order, and all of
  -- it as long as no more than ten employees have been published. The broker stays valid.
  pub Stream-Follows :
      {ch : ℕ} {taken sent : List A} {b : EmployeeBroker A}
      → Stream ch taken sent b
      → Follows ch taken sent b
  Stream-Follows (opens {b} r e) =
      subst (λ ch. Follows ch [] [] (subscribe b).0) (sym e) (opened-Follows b (Reach-IsValid r))
  Stream-Follows {ch} (hears {taken} {sent} {b} {b'} emp s run) =
      heard-Follows ch taken sent b b' emp (Stream-Follows s) run
  Stream-Follows {ch} {sent = sent} (takes {taken} {b = b} c emp rest s e first) =
      taken-Follows ch taken sent rest b c emp (Stream-Follows s) e first
  Stream-Follows {ch} {taken} {sent} (another_joins {b = b} s) =
      joined-Follows ch taken sent b (Stream-Follows s)
  Stream-Follows {ch} {taken} {sent} (another_leaves {b = b} {b'} k s other sub run) =
      left-Follows ch k taken sent b b' (Stream-Follows s) other sub run
  Stream-Follows {ch} {taken} {sent} (another_takes {b = b} k s other) =
      elsewhere-Follows ch k taken sent b (Stream-Follows s) other
