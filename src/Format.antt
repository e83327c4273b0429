-- ===== src/Format.antt =====
-- fs_ui/src/format.ts: sizes, numbers, shares and dates as text.
-- What JavaScript prints for a fraction, a grouped number or a date is the parameter `Print`; whole
-- numbers and the choices between the texts are modelled.
pub mod Units
mod Tests
use cuttlefish.Common.{
  ℕ, ◌*◌, Bool, ◌&&◌, String, List, [], ◌∷◌, Option, none, some, get_elem?, ltb, ◌==◌,
  if◌then◌else◌,
}
use cuttlefish.Common.Int.{ℤ, pos, negsuc}
use cuttlefish.Common.Text.{◌<>◌}

pub record Print : Type 0 where
  -- `Math.floor(Math.log(n) / Math.log(1024))`
  pub log_1024 : ℕ → ℕ
  -- `parseFloat((n / Math.pow(1024, i)).toFixed(2))`
  pub two_places : ℕ → ℕ → String
  -- `parseFloat((a / b * 100).toFixed(1))`
  pub one_place : ℕ → ℕ → String
  -- `n.toLocaleString()`
  pub grouped : ℕ → String
  -- `new Date(s * 1000).toLocaleString()`
  pub locale_date : ℤ → String
  -- `new Date(s * 1000).toISOString()`
  pub iso_date : ℤ → String

abbrev pub sizes : List String
sizes = "B" ∷ "KB" ∷ "MB" ∷ "GB" ∷ "TB" ∷ "PB" ∷ []

-- `' ' + sizes[i]`: past the end of the array the text reads "undefined".
abbrev pub unit_text : Option String → String
unit_text none = "undefined"
unit_text (some u) = u

unfoldable pub format_bytes : Print → ℕ → String
format_bytes p bytes =
    if bytes == 0
    then "0 B"
    else p.two_places bytes (p.log_1024 bytes)
      <> " "
      <> unit_text (get_elem? sizes (p.log_1024 bytes))

unfoldable pub format_number : Print → ℕ → String
format_number p n = p.grouped n

-- The ratio part / whole: a share above 0 and below 0.1 % is not shown as 0 %.
unfoldable pub format_percent : Print → ℕ → ℕ → String
format_percent p part whole =
    if ltb 0 part && ltb (1000 * part) whole then "<0.1%" else p.one_place part whole <> "%"

-- A time that is 0 counts as missing.
abbrev pub is_time : ℤ → Bool
is_time (pos n) = ltb 0 n
is_time (negsuc n) = Bool.true

unfoldable pub format_date : Print → ℤ → String
format_date p seconds = if is_time seconds then p.locale_date seconds else "—"

unfoldable pub type_label : ℕ → String
type_label file_type =
    if file_type == 2
    then "Directory"
    else if file_type == 1
    then "File"
    else if file_type == 3
    then "Symlink"
    else "Other"
