-- ===== src/Text.antt =====
-- Go's strings and what the service uses of the packages `strings` and `strconv`: a string is the
-- list of its bytes, and a literal of the source (all are ASCII) is `str "…"`.
pub mod Number
pub mod Laws
use Prim.Native.Char.{code}
use sync_bridge.Base.{
  ℕ, zero, suc, ◌+◌, ◌-◌, String, ◌≡◌, Bool, true, false, ◌&&◌, ◌||◌, Option, none, some, List, [],
  ◌∷◌, ◌++◌, map, reverse, ltb, leb, ◌==◌, if◌then◌else◌, all,
}

abbrev pub Bytes : Type 0
Bytes = List ℕ

unfoldable pub str : String → Bytes
str String.[] = []
str (String.◌∷◌ c s) = code c ∷ str s

-- `s == t`
unfoldable pub eqb : Bytes → Bytes → Bool
eqb [] [] = true
eqb [] (_ ∷ _) = false
eqb (_ ∷ _) [] = false
eqb (a ∷ s) (b ∷ t) = a == b && eqb s t

unfoldable pub has_prefix : Bytes → Bytes → Bool
has_prefix s [] = true
has_prefix [] (_ ∷ _) = false
has_prefix (a ∷ s) (b ∷ p) = a == b && has_prefix s p

unfoldable pub has_suffix : Bytes → Bytes → Bool
unfolding has_prefix
has_suffix s p = has_prefix (reverse s) (reverse p)

-- `s[len(p):]`, if `s` has the prefix `p`
unfoldable pub strip_prefix : Bytes → Bytes → Option Bytes
strip_prefix s [] = some s
strip_prefix [] (_ ∷ _) = none
strip_prefix (a ∷ s) (b ∷ p) = let rest = strip_prefix s p in if a == b then rest else none

-- `s[strings.Index(s, sub):]`, or `none` where the index is -1
unfoldable pub from_index : Bytes → Bytes → Option Bytes
unfolding has_prefix
from_index [] sub = if has_prefix [] sub then some [] else none
from_index (c ∷ s) sub =
    let later = from_index s sub in if has_prefix (c ∷ s) sub then some (c ∷ s) else later

unfoldable pub contains : Bytes → Bytes → Bool
unfolding has_prefix
contains [] sub = has_prefix [] sub
contains (c ∷ s) sub = has_prefix (c ∷ s) sub || contains s sub

-- `strings.Split` at a separator of one byte: the part before the first one, and the later parts
unfoldable split_parts : ℕ → Bytes → Bytes × List Bytes
split_parts sep [] = ([], [])
split_parts sep (c ∷ s) =
    let (first, more) = split_parts sep s in
    if c == sep then ([], first ∷ more) else (c ∷ first, more)

unfoldable pub split : ℕ → Bytes → List Bytes
unfolding split_parts
split sep s = let (first, more) = split_parts sep s in first ∷ more

-- `strings.Join`
unfoldable pub join : Bytes → List Bytes → Bytes
join sep [] = []
join sep (s ∷ []) = s
join sep (s ∷ t ∷ rest) = s ++ (sep ++ join sep (t ∷ rest))

unfoldable pub is_ascii : Bytes → Bool
is_ascii s = all (λ c. ltb c 128) s

abbrev pub upper_byte : ℕ → ℕ
upper_byte c = if leb b'a' c && leb c b'z' then c - 32 else c

abbrev lower_byte : ℕ → ℕ
lower_byte c = if leb b'A' c && leb c b'Z' then c + 32 else c

abbrev is_space : ℕ → Bool
is_space c = (leb 9 c && leb c 13) || c == 32

-- `\w` of a regular expression
abbrev pub is_word : ℕ → Bool
is_word c =
    (leb b'0' c && leb c b'9')
    || (leb b'A' c && leb c b'Z')
    || (leb b'a' c && leb c b'z')
    || c == b'_'

-- The Unicode tables of the standard library, which serve text that is not ASCII.
pub record Unicode : Type 0 where
  pub upper : Bytes → Bytes
  pub lower : Bytes → Bytes
  pub fold : Bytes → Bytes
  pub trim : Bytes → Bytes

unfoldable pub to_upper : Unicode → Bytes → Bytes
unfolding is_ascii
to_upper u s = if is_ascii s then map upper_byte s else u.upper s

unfoldable pub to_lower : Unicode → Bytes → Bytes
unfolding is_ascii
to_lower u s = if is_ascii s then map lower_byte s else u.lower s

unfoldable trim_left : Bytes → Bytes
trim_left [] = []
trim_left (c ∷ s) = let rest = trim_left s in if is_space c then rest else c ∷ s

unfoldable pub trim_space : Unicode → Bytes → Bytes
unfolding is_ascii trim_left
trim_space u s = if is_ascii s then reverse (trim_left (reverse (trim_left s))) else u.trim s

-- The longest prefix of word characters, and what follows it.
unfoldable pub take_word : Bytes → Bytes × Bytes
take_word [] = ([], [])
take_word (c ∷ s) =
    let (word, rest) = take_word s in if is_word c then (c ∷ word, rest) else ([], c ∷ s)
