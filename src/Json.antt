-- ===== src/Json.antt =====
-- What the service uses of encoding/json: values are decoded into structs field by field. The
-- text of a document is not modelled, only its tree.
use sync_bridge.Base.{Bool, Option, none, some, List, [], ◌∷◌, if◌then◌else◌, map}
use sync_bridge.Base.Int.{ℤ, in_int64}
use sync_bridge.Text.{Bytes, eqb, is_ascii, upper_byte, Unicode}

-- A number is `int` if its literal has no fraction and no exponent, and else `frac` with its text.
mutual
  pub data Json : Type 0 where
    null : Json
    bool : Bool → Json
    int : ℤ → Json
    frac : Bytes → Json
    text : Bytes → Json
    arr : Items → Json
    obj : Fields → Json

  pub data Items : Type 0 where
    nil : Items
    cons : Json → Items → Items

  pub data Fields : Type 0 where
    end : Fields
    field : Bytes → Json → Fields → Fields

unfoldable pub items_list : Items → List Json
items_list nil = []
items_list (cons j js) = j ∷ items_list js

-- How a value is stored into one field of a struct; `none` is an `UnmarshalTypeError`.
abbrev pub Setter : Type 0 → Type 0
Setter S = Json → S → Option S

abbrev pub Schema : Type 0 → Type 0
Schema S = List (Bytes × Setter S)

-- An `int` and an `int64` have 64 bits.
unfoldable pub read_int : Json → Option ℤ
read_int (int z) = if in_int64 z then some z else none
read_int _ = none

unfoldable pub read_bool : Json → Option Bool
read_bool (bool b) = some b
read_bool _ = none

unfoldable pub read_text : Json → Option Bytes
read_text (text b) = some b
read_text _ = none

-- `foldName`: keys match without regard to case
unfoldable fold_name : Unicode → Bytes → Bytes
unfolding is_ascii
fold_name u s = if is_ascii s then map upper_byte s else u.fold s

module _ {S : Type 0} where
  -- a field of type `string`, which null leaves alone
  unfoldable pub into_text : (Bytes → S → S) → Setter S
  into_text put null s = some s
  into_text put (text b) s = some (put b s)
  into_text put _ s = none

  -- a pointer, which null sets to nil
  unfoldable pub into_ptr : {A : Type 0} → (Json → Option A) → (Option A → S → S) → Setter S
  into_ptr read put null s = some (put none s)
  into_ptr read put j s = elim (read j) [ none ↦ none | some a ↦ some (put (some a) s) ]

  unfoldable pub find_exact : Bytes → Schema S → Option (Setter S)
  find_exact key [] = none
  find_exact key ((name, set) ∷ schema) = if eqb name key then some set else find_exact key schema

  unfoldable find_folded : Unicode → Bytes → Schema S → Option (Setter S)
  unfolding fold_name
  find_folded u key [] = none
  find_folded u key ((name, set) ∷ schema) =
      if eqb (fold_name u name) (fold_name u key) then some set else find_folded u key schema

  -- A key that no field has is ignored.
  unfoldable pub store : Unicode → Schema S → Bytes → Setter S
  unfolding find_exact find_folded
  store u schema key j s = elim (find_exact key schema) [
    | some set ↦ set j s
    | none ↦ elim (find_folded u key schema) [ some set ↦ set j s | none ↦ some s ]
  ]

  unfoldable decode_fields : Unicode → Schema S → Fields → S → Option S
  unfolding store
  decode_fields u schema end s = some s
  decode_fields u schema (field key j fs) s = elim (store u schema key j s) [
    | none ↦ none
    | some s' ↦ decode_fields u schema fs s'
  ]

  -- `json.Unmarshal` into a struct
  unfoldable pub unmarshal : Unicode → Schema S → S → Json → Option S
  unfolding decode_fields
  unmarshal u schema s null = some s
  unmarshal u schema s (obj fs) = decode_fields u schema fs s
  unmarshal u schema s _ = none
