-- ===== src/Browser/Page/Tests.antt =====
-- The browser's page at concrete runs, and the theorem there.
use cuttlefish.Common.{
  map, false, true, String, List, [], ◌∷◌, Option, none, some, ◌≡◌, refl, ◌⊎◌, inl, inr,
}
use cuttlefish.Common.Int.{pos}
use cuttlefish.Types.{Entry}
use cuttlefish.Api.{resolved}
use cuttlefish.FileSystem.{start}
use cuttlefish.FileSystem
use cuttlefish.FileSystem.Refinement.{view}
use cuttlefish.Browser.{url_path, open_path}
use cuttlefish.Common.Text.{segments, join}
use cuttlefish.Browser.{crumbs, under_prefix}
use cuttlefish.Browser.Trail.{CrumbButton, trail}
use cuttlefish.Browser.Table.{row_double_click, navigates}
use cuttlefish.Browser.Page.{
  select, detail_reply, Page, path_of, opened, Event, open_at, location, list_reply, run,
}
use cuttlefish.Browser.Page.Url.{run-current_path}

abbrev file_at : String → Entry
file_at path = record {
  path = path;
  size_bytes = 1;
  file_type = 1;
  permissions = "";
  uid = 0;
  gid = 0;
  user = "root";
  group = "root";
  mtime = pos 0;
  atime = pos 0;
  ctime = pos 0;
  aggregates = none;
}

abbrev dir_at : String → Entry
dir_at path = record (file_at path) { file_type = 2 }

abbrev roots : Option (List String)
roots = some ("/data" ∷ "/srv" ∷ [])

-- Into a directory and Back; the replies come in the other order.
abbrev there_and_back : List Event
there_and_back =
    open_at "/srv"
    ∷ location none
    ∷ list_reply 0 (resolved (file_at "/data/a" ∷ []))
    ∷ list_reply 0 (resolved (file_at "/srv/b" ∷ []))
    ∷ []

abbrev back : Page
back = run (opened none roots) there_and_back

rows_of_data : back.files.entries ≡ file_at "/data/a" ∷ []
unfolding run opened start FileSystem.step url_path open_path path_of
rows_of_data = refl

-- The listings of a server that has a file in one directory only.
abbrev IsListing : String → List Entry → Type 0
IsListing path rows = (path ≡ "/data") ⊎ (rows ≡ file_at "/srv/b" ∷ [])

run-current_path_example :
    (back.files.current_path ≡ path_of back)
    × (((view back.files).awaits ≡ true) ⊎ IsListing (path_of back) back.files.entries)
run-current_path_example = run-current_path IsListing none roots there_and_back (
    unfold run opened start FileSystem.step url_path open_path path_of in
    (tt, (tt, (inl refl, (inr refl, tt)))))

-- A double click on a directory's row: the click selects it, and its details land in the directory
-- that was opened.
abbrev double_clicked : Page
double_clicked = run (opened none none) (
    list_reply 0 (resolved (dir_at "/srv" ∷ []))
    ∷ select (dir_at "/srv")
    ∷ open_at "/srv"
    ∷ detail_reply 1 (resolved (dir_at "/srv"))
    ∷ [])

selects_itself : double_clicked.files.selected_item ≡ some (dir_at "/srv")
unfolding run opened start FileSystem.step url_path open_path path_of
selects_itself = refl

-- Under a granted root, the crumbs above it do nothing.
disabled_crumbs :
    map (λ (b : CrumbButton). b.disabled) (trail (some ("/srv/a" ∷ [])) none "/srv/a/b/c")
    ≡ true ∷ true ∷ false ∷ false ∷ true ∷ []
unfolding trail crumbs under_prefix segments join
disabled_crumbs = refl

double_click_opens : row_double_click (dir_at "/srv") ≡ navigates "/srv"
unfolding row_double_click
double_click_opens = refl
