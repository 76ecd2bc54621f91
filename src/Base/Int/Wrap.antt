-- ===== src/Base/Int/Wrap.antt =====
-- Sums that wrap around at each step wrap around like the exact sum.
use sync_bridge.Base.{◌+◌, ◌%◌, ◌≡◌, ◌∙◌, sym, ap, arith}
use sync_bridge.Base.Int.{ℤ, pos, negsuc, ◌+ℤ◌, modulus, to_bits, of_bits, wrap64}

add_comm : (a b : ℤ) → a +ℤ b ≡ b +ℤ a
unfolding ◌+ℤ◌
add_comm a b = ground arith

pub add_assoc : (a b c : ℤ) → (a +ℤ b) +ℤ c ≡ a +ℤ (b +ℤ c)
unfolding ◌+ℤ◌
add_assoc a b c = ground arith

pub add_right_comm : (a b c : ℤ) → (a +ℤ b) +ℤ c ≡ (a +ℤ c) +ℤ b
unfolding ◌+ℤ◌
add_right_comm a b c = ground arith

pub zero_add : (a : ℤ) → pos 0 +ℤ a ≡ a
unfolding ◌+ℤ◌
zero_add a = ground arith

pub add_zero : (a : ℤ) → a +ℤ pos 0 ≡ a
unfolding ◌+ℤ◌
add_zero a = ground arith

to_bits-wrap64 : (a : ℤ) → to_bits (wrap64 a) ≡ to_bits a
unfolding wrap64
to_bits-wrap64 a = ground arith

-- The bits of a sum are determined by the bits of its parts.
to_bits-add : (a b : ℤ) → to_bits (a +ℤ b) ≡ (to_bits a + to_bits b) % modulus
unfolding ◌+ℤ◌
to_bits-add (pos a) (pos b) = ground arith
to_bits-add (pos a) (negsuc b) = ground arith
to_bits-add (negsuc a) (pos b) = ground arith
to_bits-add (negsuc a) (negsuc b) = ground arith

pub wrap64-add : (a b : ℤ) → wrap64 (a +ℤ wrap64 b) ≡ wrap64 (a +ℤ b)
unfolding wrap64
wrap64-add a b = ap of_bits (
    to_bits-add a (wrap64 b)
    ∙ ap (λ k. (to_bits a + k) % modulus) (to_bits-wrap64 b)
    ∙ sym (to_bits-add a b))

pub wrap64-add_left : (a b : ℤ) → wrap64 (wrap64 a +ℤ b) ≡ wrap64 (a +ℤ b)
wrap64-add_left a b = ap wrap64 (add_comm (wrap64 a) b) ∙ wrap64-add b a ∙ ap wrap64 (add_comm b a)
