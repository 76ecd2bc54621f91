-- ===== src/Server/Example.antt =====
-- A router that looks through the table of routes.
use sync_bridge.Base.{
  ◌≡◌, ◌≢◌, refl, sym, ap, ◌∙◌, inl, inr, Bool-cases, Option, none, some, List, [], ◌∷◌,
  if◌then◌else◌,
}
use mathlib.Core.Option.{some_inj}
use mathlib.Core.List.{Memᴰ}
use mathlib.Core.List.Memᴰ.{head, tail}
use sync_bridge.Text.{Bytes, eqb, strip_prefix}
use sync_bridge.Text.Laws.{eqb_iff, strip_prefix-eq}
use sync_bridge.Server.{
  Endpoint, Pattern, exact, with_id, with_rest, Route, Matches, Router, IsRouter,
}

abbrev unless_empty : Bytes → Option Bytes
unless_empty [] = none
unless_empty (c ∷ s) = some (c ∷ s)

abbrev value_of : Pattern → Bytes → Option Bytes
value_of (exact p) path = if eqb path p then some [] else none
value_of (with_id p) path = elim (strip_prefix path p) [
  | none ↦ none
  | some value ↦ unless_empty value
]
value_of (with_rest p) path = strip_prefix path p

unless_empty-some : (s value : Bytes) → unless_empty s ≡ some value → (s ≡ value) × (value ≢ [])
unless_empty-some [] value e = absurd (cc e)
unless_empty-some (c ∷ s) value e = (some_inj.0 e, λ f. cc (some_inj.0 e, f))

id-Matches :
    (p path value : Bytes) (o : Option Bytes)
    → strip_prefix path p ≡ o
    → elim o [ none ↦ none | some value ↦ unless_empty value ] ≡ some value
    → Matches (with_id p) path value
id-Matches p path value none stripped e = absurd (cc e)
id-Matches p path value (some s) stripped e =
    let (same, filled) = unless_empty-some s value e in
    (strip_prefix-eq path p value (stripped ∙ ap some same), filled)

value_of-Matches :
    (r : Pattern) (path value : Bytes) → value_of r path ≡ some value → Matches r path value
value_of-Matches (exact p) path value e = elim (Bool-cases (eqb path p)) [
  | inl same ↦ (eqb_iff path p).0 same
  | inr other ↦ absurd (cc (sym (ap (λ b. if b then some [] else none) other) ∙ e))
]
value_of-Matches (with_id p) path value e = id-Matches p path value (strip_prefix path p) refl e
value_of-Matches (with_rest p) path value e = strip_prefix-eq path p value e

abbrev try_route : Route → Bytes → Bytes → Option (Endpoint × Bytes) → Option (Endpoint × Bytes)
try_route r method path others = elim (value_of r.pattern path) [
  | none ↦ others
  | some value ↦ if eqb method r.method then some (r.endpoint, value) else others
]

unfoldable pub look_up : Router
look_up [] method path = none
look_up (r ∷ table) method path =
    let others = look_up table method path in try_route r method path others

abbrev IsFound : List Route → Bytes → Bytes → Endpoint → Bytes → Type 0
IsFound table method path e value =
    (r : Route) × Memᴰ r table
    × (r.method ≡ method)
    × (r.endpoint ≡ e)
    × Matches r.pattern path value

try_route-IsFound :
    (r : Route) (table : List Route) (method path : Bytes) (o : Option Bytes)
    (others : Option (Endpoint × Bytes)) (e : Endpoint) (value : Bytes)
    → value_of r.pattern path ≡ o
    → (others ≡ some (e, value) → IsFound table method path e value)
    → elim o [
      | none ↦ others
      | some value ↦ if eqb method r.method then some (r.endpoint, value) else others
    ]
      ≡ some (e, value)
    → IsFound (r ∷ table) method path e value
try_route-IsFound r table method path none others e value v k found =
    let (q, m, of, leads, matches) = k found in (q, tail m, of, leads, matches)
try_route-IsFound r table method path (some id) others e value v k found =
    elim (Bool-cases (eqb method r.method)) [
      | inl same ↦
          let here =
            some_inj.0 (sym (ap (λ b. if b then some (r.endpoint, id) else others) same) ∙ found) in
          (
            r,
            head refl,
            sym ((eqb_iff method r.method).0 same),
            ap (λ x. x.0) here,
            value_of-Matches r.pattern path value
                (v ∙ ap (λ (x : Endpoint × Bytes). some x.1) here),
          )
      | inr other ↦
          let (q, m, of, leads, matches) =
            k (sym (ap (λ b. if b then some (r.endpoint, id) else others) other) ∙ found) in
          (q, tail m, of, leads, matches)
    ]

look_up-IsFound :
    (table : List Route) (method path : Bytes) (e : Endpoint) (value : Bytes)
    → look_up table method path ≡ some (e, value)
    → IsFound table method path e value
unfolding look_up
look_up-IsFound [] method path e value found = absurd (cc found)
look_up-IsFound (r ∷ table) method path e value found =
    try_route-IsFound r table method path (value_of r.pattern path) (look_up table method path) e
      value refl (look_up-IsFound table method path e value) found

pub look_up-IsRouter : IsRouter look_up
look_up-IsRouter = record { sound = look_up-IsFound }
