-- ===== src/Text/Laws.antt =====
-- Laws of the string functions.
use sync_bridge.Base.{◌≡◌, refl, ◌↔◌, true, false, some, [], ◌∷◌, ◌++◌, arith, all, and-eq-true}
use mathlib.Core.Option.{some_inj}
use sync_bridge.Text.{Bytes, eqb, has_prefix, strip_prefix, contains, is_word, take_word}

pub eqb_refl : (s : Bytes) → eqb s s ≡ true
unfolding eqb
eqb_refl [] = refl
eqb_refl (c ∷ s) = ground (arith, eqb_refl s)

eqb-eq : (s t : Bytes) → eqb s t ≡ true → s ≡ t
unfolding eqb
eqb-eq [] [] h = refl
eqb-eq [] (_ ∷ _) h = cc
eqb-eq (_ ∷ _) [] h = cc
eqb-eq (a ∷ s) (b ∷ t) h = ground (arith, eqb-eq s t)

pub eqb_iff : (s t : Bytes) → (eqb s t ≡ true) ↔ (s ≡ t)
eqb_iff s t = (eqb-eq s t, λ e. rw e (eqb_refl t))

pub has_prefix-append : (p s : Bytes) → has_prefix (p ++ s) p ≡ true
unfolding has_prefix
has_prefix-append [] s = refl
has_prefix-append (c ∷ p) s = ground (arith, has_prefix-append p s)

pub strip_prefix-append : (p s : Bytes) → strip_prefix (p ++ s) p ≡ some s
unfolding strip_prefix
strip_prefix-append [] s = refl
strip_prefix-append (c ∷ p) s = ground (arith, strip_prefix-append p s)

-- What is left after a prefix, put behind the prefix, is the text.
pub strip_prefix-eq : (s p v : Bytes) → strip_prefix s p ≡ some v → s ≡ p ++ v
unfolding strip_prefix
strip_prefix-eq s [] v e = some_inj.0 e
strip_prefix-eq [] (b ∷ p) v e = absurd (cc e)
strip_prefix-eq (a ∷ s) (b ∷ p) v e = ground (arith, e, strip_prefix-eq s p v)

-- Where a text begins with `p`, it contains `p`.
pub contains-prefix : (s p : Bytes) → has_prefix s p ≡ true → contains s p ≡ true
unfolding contains
contains-prefix [] p h = h
contains-prefix (c ∷ s) p h = rw h

pub contains-append : (pre s p : Bytes) → contains s p ≡ true → contains (pre ++ s) p ≡ true
unfolding contains
contains-append [] s p h = h
contains-append (c ∷ pre) s p h = ground (arith, contains-append pre s p h)

-- A non-word character, or the end, ends a word.
abbrev pub EndsWord : Bytes → Type 0
EndsWord [] = Unit
EndsWord (c ∷ s) = is_word c ≡ false

pub take_word-append :
    (w s : Bytes) → all is_word w ≡ true → EndsWord s → take_word (w ++ s) ≡ (w, s)
unfolding take_word
take_word-append [] [] hw hs = refl
take_word-append [] (c ∷ s) hw hs = rw hs
take_word-append (c ∷ w) s hw hs =
    let (h, t) = and-eq-true (is_word c) (all is_word w) hw in rw (take_word-append w s t hs, h)
