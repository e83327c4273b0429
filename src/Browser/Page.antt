-- ===== src/Browser/Page.antt =====
-- fs_ui/src/pages/FileBrowserPage.tsx: the browser's page over `useFileSystem` and the URL's `path`.
-- `setSearchParams` and Back or Forward set the URL; the hook's effect runs when its path is another.
pub mod Url
mod Tests
use cuttlefish.Common.{
  ℕ, Bool, true, false, ◌&&◌, ◌==◌, not, String, List, [], ◌∷◌, Option, none, some, map, any, find?,
  length, ltb, str_eq, if◌then◌else◌, get_or_else,
}
use cuttlefish.Common.Text.{is_truthy}
use cuttlefish.Types.{Entry, EntryKey}
use cuttlefish.Format.{Print, format_bytes, format_number}
use cuttlefish.Api.{Outcome}
use cuttlefish.FileSystem.{FileSystem, start}
use cuttlefish.FileSystem
use cuttlefish.Detail.Selection.{DetailSelection, entry, last_name}
use cuttlefish.Browser.{
  under_prefix, url_path, Opening, reload, push, open_path, request_sort, total_size, largest,
}

pub data ViewMode : Type 0 where
  table treemap : ViewMode

pub record Page : Type 0 where
  pub url : Option String
  pub prefixes : Option (List String)
  pub files : FileSystem
  pub view_mode : ViewMode
  pub jump_path : String

unfoldable pub path_of : Page → String
unfolding url_path
path_of p = url_path p.url p.prefixes

-- An event of the hook.
abbrev pub files_step : FileSystem.Event → Page → Page
files_step e p = record p { files = FileSystem.step p.files e }

-- The first render and its effect.
unfoldable pub opened : Option String → Option (List String) → Page
opened url prefixes = files_step (FileSystem.navigate (url_path url prefixes)) (record {
  url = url;
  prefixes = prefixes;
  files = start (url_path url prefixes);
  view_mode = table;
  jump_path = "";
})

unfoldable pub set_url : Option String → Page → Page
unfolding path_of
set_url url p =
    if str_eq (url_path url p.prefixes) (path_of p)
    then record p { url = url }
    else files_step (FileSystem.navigate (url_path url p.prefixes)) (record p { url = url })

abbrev pub opening : Opening → Page → Page
opening (reload path) p = files_step (FileSystem.navigate path) p
opening (push path) p = set_url (some path) p

-- `openPath`, of the crumbs, the rows, the tiles and the granted roots.
unfoldable pub opens : String → Page → Page
unfolding open_path set_url
opens path p = opening (open_path (path_of p) path) p

unfoldable pub jump : Page → Page
unfolding opens
jump p = if is_truthy p.jump_path then opens p.jump_path p else p

pub data Event : Type 0 where
  open_at : String → Event
  set_jump : String → Event
  go : Event
  location : Option String → Event
  set_view : ViewMode → Event
  sort_by : EntryKey → Event
  select : Entry → Event
  close : Event
  list_reply : ℕ → Outcome (List Entry) → Event
  detail_reply : ℕ → Outcome Entry → Event

unfoldable pub step : Page → Event → Page
unfolding opens jump set_url request_sort
step p (open_at path) = opens path p
step p (set_jump path) = record p { jump_path = path }
step p go = jump p
step p (location url) = set_url url p
step p (set_view mode) = record p { view_mode = mode }
step p (sort_by key) = files_step (FileSystem.sort (request_sort key p.files.sort_config)) p
step p (select e) = files_step (FileSystem.select e) p
step p close = files_step FileSystem.close p
step p (list_reply i o) = files_step (FileSystem.list_reply i o) p
step p (detail_reply i o) = files_step (FileSystem.detail_reply i o) p

unfoldable pub run : Page → List Event → Page
unfolding step
run p [] = p
run p (e ∷ es) = run (step p e) es

-- What the detail panel is given.
unfoldable pub selected : FileSystem → Option DetailSelection
unfolding total_size
selected s = elim s.selected_item [
  | none ↦ none
  | some e ↦ some (entry e (if e.file_type == 2 then none else some (total_size s.entries)))
]

-- The choice among the granted roots, if there is one: its value, and whether it offers "Granted
-- roots…".
unfoldable pub root_choice : Page → Option (String × Bool)
unfolding under_prefix
root_choice p = elim p.prefixes [
  | none ↦ none
  | some prefixes ↦
      let holds = under_prefix p.files.current_path in
      if ltb 1 (length prefixes)
      then some (get_or_else (find? holds prefixes) "", not (any holds prefixes))
      else none
]

abbrev pub is_some {ℓ} : {A : Type ℓ} → Option A → Bool
is_some none = false
is_some (some a) = true

-- An error's text that is empty is no error.
abbrev pub has_error : Option String → Bool
has_error none = false
has_error (some e) = is_truthy e

abbrev pub is_empty : List Entry → Bool
is_empty [] = true
is_empty (e ∷ entries) = false

abbrev largest_name : Option Entry → String
largest_name none = "—"
largest_name (some e) = last_name e.path

-- The figures above the list: label and value.
unfoldable pub figures : Print → FileSystem → List (String × String)
unfolding total_size largest
figures p s =
    if has_error s.error && is_empty s.entries
    then []
    else ("Total Size", format_bytes p (total_size s.entries))
      ∷ ("Items", format_number p (length s.entries))
      ∷ ("Largest Item", largest_name (largest s.entries))
      ∷ []

pub data Body : Type 0 where
  loading : Body
  only_error : Body
  empty_directory : Body
  listed : ViewMode → Body

unfoldable pub body : Page → Body
body p =
    if p.files.is_loading && is_empty p.files.entries
    then loading
    else if is_empty p.files.entries && has_error p.files.error
    then only_error
    else if is_empty p.files.entries
    then empty_directory
    else listed p.view_mode
