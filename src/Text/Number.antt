-- ===== src/Text/Number.antt =====
-- `strconv.ParseInt(s, 10, 64)`, of which the service uses the value and whether there is an error.
use sync_bridge.Base.{
  ℕ, zero, suc, ◌+◌, ◌-◌, ◌*◌, ◌≡◌, ◌&&◌, Option, none, some, [], ◌∷◌, leb, ◌==◌, if◌then◌else◌,
  arith,
}
use sync_bridge.Base.Int.{ℤ, pos, negsuc, InInt64, in_int64}
use sync_bridge.Text.{Bytes}

-- The number that decimal digits spell, after the digits read before them.
unfoldable digits : ℕ → Bytes → Option ℕ
digits n [] = some n
digits n (c ∷ s) =
    let rest = digits (n * 10 + (c - b'0')) s in if leb b'0' c && leb c b'9' then rest else none

unfoldable magnitude : Bytes → Option ℕ
unfolding digits
magnitude [] = none
magnitude (c ∷ s) = digits 0 (c ∷ s)

abbrev negate_ℕ : ℕ → ℤ
negate_ℕ zero = pos 0
negate_ℕ (suc n) = negsuc n

unfoldable signed : Bytes → Option ℤ
unfolding magnitude
signed [] = none
signed (c ∷ s) =
    if c == b'-'
    then elim (magnitude s) [ none ↦ none | some n ↦ some (negate_ℕ n) ]
    else if c == b'+'
    then elim (magnitude s) [ none ↦ none | some n ↦ some (pos n) ]
    else elim (magnitude (c ∷ s)) [ none ↦ none | some n ↦ some (pos n) ]

-- `none` stands for the syntax and range errors.
abbrev in_range : Option ℤ → Option ℤ
in_range none = none
in_range (some z) = if in_int64 z then some z else none

unfoldable pub parse_int : Bytes → Option ℤ
unfolding signed
parse_int s = in_range (signed s)

-- What is parsed fits an `int64`.
parse_int-InInt64 : (s : Bytes) (z : ℤ) → parse_int s ≡ some z → InInt64 z
unfolding parse_int
parse_int-InInt64 s z h = let go = in_range-InInt64 (signed s) z in go h
  where
    in_range-InInt64 : (o : Option ℤ) (z : ℤ) → in_range o ≡ some z → InInt64 z
    in_range-InInt64 none z h = ground arith
    in_range-InInt64 (some (pos n)) z h = ground arith
    in_range-InInt64 (some (negsuc n)) z h = ground arith
