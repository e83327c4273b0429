-- ===== src/Browser.antt =====
-- fs_ui/src/components/Header.tsx, fs_ui/src/pages/FileBrowserPage.tsx and
-- fs_ui/src/components/FileList.tsx: the crumbs, the URL's path, and the order of a directory's rows.
pub mod Prefixes
pub mod Sorted
pub mod Page
pub mod Table
pub mod Scans
pub mod Users
pub mod Trail
pub mod Usages
pub mod Durations
mod Tests
use cuttlefish.Common.{
  ℕ, zero, suc, ◌+◌, ◌-◌, ◌*◌, ◌/◌, ◌%◌, ◌==◌, Bool, true, false, ◌&&◌, ◌||◌, not, String, List, [],
  ◌∷◌, ◌++◌, Option, none, some, map, foldl, any, find?, length, take, sum_by, ltb, leb, str_eq,
  if◌then◌else◌, get_elem?, code, get_last?,
}
use cuttlefish.Common.Int.{ℤ, pos, negsuc, ltb_ℤ, ◌-ℤ◌}
use cuttlefish.Common.Sort.{sort}
use cuttlefish.Common.Text.{starts_with, ◌<>◌, segments, join, show, is_truthy}
use cuttlefish.Types.{
  Entry, EntryKey, path_key, size_key, type_key, permissions_key, uid_key, gid_key, user_key,
  group_key, mtime_key, atime_key, ctime_key, aggregates_key, SortConfig, Direction, asc, desc, Me,
  Role, admin, viewer, restricted, UserStats, IdType, uid_type, gid_type, ScanStatus, running,
  success, failed,
}
use cuttlefish.Api.{Outcome, resolved, rejected, Failure, api_error, plain_error, no_error}
use cuttlefish.Treemap.{effective_size}

-- `s.endsWith('/')`
unfoldable pub ends_with_slash : String → Bool
ends_with_slash String.[] = false
ends_with_slash (String.◌∷◌ c s) = if is_truthy s then ends_with_slash s else code c == b'/'

abbrev pub with_slash : String → String
with_slash p = if ends_with_slash p then p else p <> "/"

unfoldable pub under_prefix : String → String → Bool
unfolding starts_with ends_with_slash
under_prefix path prefix = str_eq path prefix || starts_with path (with_slash prefix)

pub record Crumb : Type 0 where
  pub label : String
  pub path : String

-- The crumbs behind the first, whose parts are `before`.
unfoldable pub crumbs_from : List String → List String → List Crumb
crumbs_from before [] = []
crumbs_from before (seg ∷ segs) =
    record { label = seg; path = "/" <> join "/" (before ++ seg ∷ []) }
    ∷ crumbs_from (before ++ seg ∷ []) segs

unfoldable pub crumbs : String → List Crumb
unfolding crumbs_from
crumbs current = record { label = "/"; path = "/" } ∷ crumbs_from [] (segments current)

abbrev pub outside : Option (List String) → String → Bool
outside none path = false
outside (some prefixes) path = not (any (under_prefix path) prefixes)

-- Whether the i-th crumb is a button that does nothing.
unfoldable pub is_inert : Option (List String) → List Crumb → ℕ → Crumb → Bool
is_inert prefixes all i c = (suc i == length all) || outside prefixes c.path

abbrev pub is_restricted : Role → Bool
is_restricted restricted = true
is_restricted admin = false
is_restricted viewer = false

-- The page with its browser's prefixes, or the note that nothing was granted.
pub data BrowserPage : Type 0 where
  nothing_granted : BrowserPage
  browser : Option (List String) → BrowserPage

abbrev pub granted : List String → BrowserPage
granted [] = nothing_granted
granted (p ∷ ps) = browser (some (p ∷ ps))

unfoldable pub browser_page : Me → BrowserPage
browser_page me = if is_restricted me.role then granted me.prefixes else browser none

abbrev pub first_prefix : Option (List String) → String
first_prefix (some (p ∷ ps)) = if is_truthy p then p else "/"
first_prefix _ = "/"

-- `searchParams.get('path') || prefixes?.[0] || '/'`
unfoldable pub url_path : Option String → Option (List String) → String
url_path none prefixes = first_prefix prefixes
url_path (some path) prefixes = if is_truthy path then path else first_prefix prefixes

-- Opening a path reloads it or pushes it to the URL.
pub data Opening : Type 0 where
  reload : String → Opening
  push : String → Opening

unfoldable pub open_path : String → String → Opening
open_path current path = if str_eq path current then reload path else push path

abbrev pub key_name : EntryKey → String
key_name path_key = "path"
key_name size_key = "size_bytes"
key_name type_key = "file_type"
key_name permissions_key = "permissions"
key_name uid_key = "uid"
key_name gid_key = "gid"
key_name user_key = "user"
key_name group_key = "group"
key_name mtime_key = "mtime"
key_name atime_key = "atime"
key_name ctime_key = "ctime"
key_name aggregates_key = "aggregates"

abbrev pub is_key : Option EntryKey → EntryKey → Bool
is_key none k = false
is_key (some j) k = str_eq (key_name j) (key_name k)

abbrev pub is_asc : Direction → Bool
is_asc asc = true
is_asc desc = false

-- A second click on a column turns its direction.
unfoldable pub request_sort : EntryKey → SortConfig → SortConfig
request_sort key config = record {
  key = some key;
  direction = if is_key config.key key && is_asc config.direction then desc else asc;
}

unfoldable pub total_size : List Entry → ℕ
total_size entries = sum_by effective_size entries

abbrev pub larger_of : Entry → Entry → Entry
larger_of a e = if ltb (effective_size a) (effective_size e) then e else a

unfoldable pub largest : List Entry → Option Entry
largest [] = none
largest (e ∷ entries) = some (foldl larger_of e entries)

-- The parts of `localeCompare` with the options of the table: the result is negative, or positive.
pub record Collation : Type 0 where
  pub below : String → String → Bool
  pub above : String → String → Bool

-- What `a[key]` is: a text, a number, or an object or nothing, which is not ordered.
pub data Value : Type 0 where
  text : String → Value
  number : ℤ → Value
  unordered : Value

unfoldable pub value_at : EntryKey → Entry → Value
value_at path_key e = text e.path
value_at size_key e = number (pos (effective_size e))
value_at type_key e = number (pos e.file_type)
value_at permissions_key e = text e.permissions
value_at uid_key e = number (pos e.uid)
value_at gid_key e = number (pos e.gid)
value_at user_key e = text e.user
value_at group_key e = text e.group
value_at mtime_key e = number e.mtime
value_at atime_key e = number e.atime
value_at ctime_key e = number e.ctime
value_at aggregates_key e = unordered

abbrev pub value_before : Collation → Direction → Value → Value → Bool
value_before c asc (text s) (text t) = c.below s t
value_before c desc (text s) (text t) = c.above s t
value_before c asc (number a) (number b) = ltb_ℤ a b
value_before c desc (number a) (number b) = ltb_ℤ b a
value_before c d _ _ = false

-- The comparison of the table is negative.
abbrev pub key_before : Collation → Option EntryKey → Direction → Entry → Entry → Bool
key_before c none d a b = false
key_before c (some key) d a b = value_before c d (value_at key a) (value_at key b)

unfoldable pub sort_entries : Collation → SortConfig → List Entry → List Entry
unfolding value_at
sort_entries c config entries = sort (key_before c config.key config.direction) entries
