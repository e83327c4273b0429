-- ===== src/Detail/Selection.antt =====
-- fs_ui/src/components/DetailPanel.tsx: what is selected, and what the buttons do.
use cuttlefish.Common.{
  ℕ, Bool, false, ◌==◌, String, Option, none, some, if◌then◌else◌, get_last?, get_or_else,
}
use cuttlefish.Common.Text.{◌<>◌, segments}
use cuttlefish.Types.{DirAggregates, Entry, UserStats}
use cuttlefish.Format.{}
use cuttlefish.Api.Url.{encode_uri_component}

-- `siblingsTotal` may be left out.
pub data DetailSelection : Type 0 where
  entry : Entry → Option ℕ → DetailSelection
  user : UserStats → DetailSelection

abbrev pub is_directory : Entry → Bool
is_directory e = e.file_type == 2

-- `selected?.kind === 'entry' && selected.entry.file_type === 2`
unfoldable pub is_dir : Option DetailSelection → Bool
is_dir (some (entry e siblings)) = is_directory e
is_dir _ = false

unfoldable pub entry_path : Option DetailSelection → Option String
entry_path (some (entry e siblings)) = some e.path
entry_path _ = none

-- `path.split('/').filter(Boolean).pop() || path`
unfoldable pub last_name : String → String
unfolding segments
last_name path = get_or_else (get_last? (segments path)) path

abbrev pub total_of : Option DirAggregates → ℕ
total_of none = 0
total_of (some a) = a.total_size_bytes

unfoldable pub size_of : Entry → ℕ
size_of c = if is_directory c then total_of c.aggregates else c.size_bytes

-- The other button: what the page gives, or a link to the search of the entry's path.
pub data Secondary : Type 0 where
  action : String → Secondary
  view_in_search : Secondary

unfoldable pub secondary_label : Secondary → String
secondary_label (action label) = label
secondary_label view_in_search = "View in Search"

unfoldable pub search_link : Entry → String
unfolding encode_uri_component
search_link e = "/search?path=" <> encode_uri_component e.path

-- What a press of that button navigates to; the page's own action is called with the entry.
unfoldable pub secondary_target : Secondary → Entry → Option String
unfolding search_link
secondary_target (action label) e = none
secondary_target view_in_search e = some (search_link e)
