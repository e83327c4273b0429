-- ===== src/Api/Url.antt =====
-- `encodeURIComponent`: a character of the unreserved set stands for itself, any other is written
-- as the bytes of its UTF-8 form, each a percent sign and two hexadecimal digits.
use cuttlefish.Common.{
  ℕ, ◌+◌, ◌/◌, ◌%◌, String, Bool, ◌&&◌, ◌||◌, leb, ltb, ◌==◌, if◌then◌else◌, code,
}
use cuttlefish.Common.Text.{◌<>◌, char_at}

-- The letters, the digits and - _ . ! ~ * ' ( )
abbrev pub is_unreserved : ℕ → Bool
is_unreserved k =
    (leb b'a' k && leb k b'z')
    || (leb b'A' k && leb k b'Z')
    || (leb b'0' k && leb k b'9')
    || (k == b'-')
    || (k == b'_')
    || (k == b'.')
    || (k == b'!')
    || (k == b'~')
    || (k == b'*')
    || (k == 39)
    || (k == b'(')
    || (k == b')')

unfoldable pub hex_digit : ℕ → String
unfolding char_at
hex_digit n = char_at "0123456789ABCDEF" n

unfoldable pub percent_byte : ℕ → String
unfolding hex_digit
percent_byte b = "%" <> hex_digit (b / 16) <> hex_digit (b % 16)

-- The UTF-8 bytes of a code point.
unfoldable pub percent : ℕ → String
unfolding percent_byte
percent k =
    if ltb k 128
    then percent_byte k
    else if ltb k 2048
    then percent_byte (192 + k / 64) <> percent_byte (128 + k % 64)
    else if ltb k 65536
    then percent_byte (224 + k / 4096)
      <> percent_byte (128 + k / 64 % 64)
      <> percent_byte (128 + k % 64)
    else percent_byte (240 + k / 262144)
      <> percent_byte (128 + k / 4096 % 64)
      <> percent_byte (128 + k / 64 % 64)
      <> percent_byte (128 + k % 64)

unfoldable pub encode_uri_component : String → String
unfolding percent
encode_uri_component String.[] = ""
encode_uri_component (String.◌∷◌ c s) =
    (if is_unreserved (code c) then String.◌∷◌ c String.[] else percent (code c))
    <> encode_uri_component s
