-- ===== src/Common/Text.antt =====
-- Text: the string methods that the interface uses, over the characters of a `String`.
pub mod Splits
use Prim.Native.Nat.{ℕ, zero, suc, ◌/◌, ◌%◌}
use Prim.Native.Char.{code}
use Prim.Native.String
use Prim.Native.String.{String, [], ◌∷◌}
use mathlib.Core.Bool.{Bool, true, false, ◌&&◌, ◌||◌, not}
use mathlib.Core.List.{List}
use text.Mathlib.Text.{◌==◌ as str_eq}
use cuttlefish.Common.Tests.{◌==◌, if◌then◌else◌, leb}
use cuttlefish.Common.Lists.{filter}

-- The template literal `${a}${b}`.
infixr 66 ◌<>◌
abbrev pub ◌<>◌ : String → String → String
a <> b = String.◌++◌ a b

-- `!!s`: a text is falsy exactly when it is empty.
abbrev pub is_truthy : String → Bool
is_truthy s = not (str_eq s "")

-- `s.includes(c)` for a text of one character.
unfoldable pub includes : ℕ → String → Bool
includes k [] = false
includes k (c ∷ s) = code c == k || includes k s

-- `s.startsWith(p)`
unfoldable pub starts_with : String → String → Bool
starts_with s String.[] = true
starts_with String.[] (String.◌∷◌ d p) = false
starts_with (String.◌∷◌ c s) (String.◌∷◌ d p) = (code c == code d) && starts_with s p

-- The parts of `s.split('/')`, the part under way first.
unfoldable pub split_from : String → String → List String
split_from cur [] = List.◌∷◌ cur List.[]
split_from cur (c ∷ s) =
    let closed = List.◌∷◌ cur (split_from "" s) in
    let longer = split_from (cur <> (c ∷ [])) s in if code c == b'/' then closed else longer

unfoldable pub split : String → List String
unfolding split_from
split s = split_from "" s

-- `s.split('/').filter(Boolean)`
unfoldable pub segments : String → List String
unfolding split
segments s = filter is_truthy (split s)

-- `parts.join(sep)`
unfoldable pub join : String → List String → String
join sep List.[] = ""
join sep (List.◌∷◌ a List.[]) = a
join sep (List.◌∷◌ a (List.◌∷◌ b r)) = a <> sep <> join sep (List.◌∷◌ b r)

-- White space and line ends, as `trim` takes them.
abbrev pub is_space : ℕ → Bool
is_space k =
    (leb 9 k && leb k 13)
    || k == 32
    || k == 160
    || k == 5760
    || (leb 8192 k && leb k 8202)
    || k == 8232
    || k == 8233
    || k == 8239
    || k == 8287
    || k == 12288
    || k == 65279

-- `s.trimStart()`
unfoldable pub trim_start : String → String
trim_start [] = []
trim_start (c ∷ s) = let rest = trim_start s in if is_space (code c) then rest else c ∷ s

-- `s.trimEnd()`
unfoldable pub trim_end : String → String
trim_end [] = []
trim_end (c ∷ s) =
    let rest = trim_end s in if str_eq rest "" && is_space (code c) then [] else c ∷ rest

unfoldable pub trim : String → String
unfolding trim_start trim_end
trim s = trim_end (trim_start s)

-- `s.charAt(n)`
unfoldable pub char_at : String → ℕ → String
char_at [] n = []
char_at (c ∷ s) zero = c ∷ []
char_at (c ∷ s) (suc n) = char_at s n

abbrev digit : ℕ → String
digit n = char_at "0123456789" n

-- The decimal digits of a number below `10 ^ fuel`.
show_fuel : ℕ → ℕ → String
unfolding char_at
show_fuel zero n = ""
show_fuel (suc f) n =
    let rest = show_fuel f (n / 10) in if leb n 9 then digit n else rest <> digit (n % 10)

-- `String(n)` of a whole number: one round of fuel more than the number is enough.
unfoldable pub show : ℕ → String
unfolding show_fuel
show n = show_fuel (suc n) n

-- The number of characters.
unfoldable pub text_length : String → ℕ
text_length [] = 0
text_length (c ∷ s) = suc (text_length s)
