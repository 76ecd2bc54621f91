-- ===== src/Handlers/Items/RandomId.antt =====
-- The id that `processItem` makes for an employee without a numeric one.
use sync_bridge.Base.{ℕ, ◌≤◌, ◌<◌, ◌∷◌, arith}
use sync_bridge.Base.Int.{ℤ, pos, negsuc, ◌-ℤ◌, wrap64, max_int64}
use sync_bridge.Text.{Bytes}
use sync_bridge.Handlers.Items.{random_id}

-- Positive, and an `int64`.
abbrev pub IsPositive : ℤ → Type 0
IsPositive (pos n) = (1 ≤ n) × (n ≤ max_int64)
IsPositive (negsuc n) = ⊥

-- The bytes of a version 4 UUID: the high half of byte 6 is 4.
abbrev pub eight : ℕ → ℕ → ℕ → ℕ → ℕ → ℕ → ℕ → ℕ → Bytes → Bytes
eight a b c d e f g h rest = a ∷ b ∷ c ∷ d ∷ e ∷ f ∷ g ∷ h ∷ rest

-- The random id is positive and fits an `int64` for every version 4 UUID.
pub random_id-IsPositive :
    (a b c d e f g h : ℕ) (rest : Bytes)
    → a < 256
    → b < 256
    → c < 256
    → d < 256
    → e < 256
    → f < 256
    → 64 ≤ g
    → g < 80
    → h < 256
    → IsPositive (random_id (eight a b c d e f g h rest))
unfolding random_id wrap64 ◌-ℤ◌
random_id-IsPositive a b c d e f g h rest ha hb hc hd he hf g4 hg hh = ground arith
