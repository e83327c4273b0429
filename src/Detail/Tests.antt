-- ===== src/Detail/Tests.antt =====
-- Runs of the detail panel, and the theorems at concrete directories.
use mathlib.Core.List.{Perm}
use cuttlefish.Common.{
  ℕ, ◌≡◌, refl, ◌⊎◌, inl, inr, ◌++◌, min, length, map, String, List, [], ◌∷◌, some, none,
}
use cuttlefish.Common.Sort.{sort}
use cuttlefish.Common.Int.{pos}
use cuttlefish.Types.{Entry}
use cuttlefish.Format.{Print}
use cuttlefish.Api.{resolved, rejected, no_error}
use cuttlefish.Detail.Selection.{entry, is_dir, entry_path}
use cuttlefish.Detail.Breakdown.{BreakdownItem, breakdown_total, Part, part_of, breakdown}
use cuttlefish.Detail.Rows.{title}
use cuttlefish.Detail.Children.{Event, selects, reply, opened, run}
use cuttlefish.Detail.Children.Fresh.{Shown, run-Shown}
use cuttlefish.Detail.Largest.{IsAbove, face_of, shown_face, breakdown-IsAbove}

abbrev print : Print
print = record {
  log_1024 = λ n. 0;
  two_places = λ n i. "2";
  one_place = λ a b. "1";
  grouped = λ n. "n";
  locale_date = λ s. "date";
  iso_date = λ s. "2025-01-01T00:00:00.000Z";
}

abbrev item : String → ℕ → ℕ → Entry
item path file_type size = record {
  path = path;
  size_bytes = size;
  file_type = file_type;
  permissions = "";
  uid = 0;
  gid = 0;
  user = "root";
  group = "root";
  mtime = pos 0;
  atime = pos 0;
  ctime = pos 0;
  aggregates = none;
}

abbrev home : Entry
home = item "/home" 2 0

abbrev etc : Entry
etc = item "/etc" 2 0

abbrev some_files : List Entry
some_files =
    item "/home/a" 1 5
    ∷ item "/home/b" 1 9
    ∷ item "/home/c" 1 0
    ∷ item "/home/d" 1 7
    ∷ item "/home/e" 1 6
    ∷ []

four_largest :
    map
      (λ (b : BreakdownItem). b.flex)
      (breakdown print (some (entry home none)) (some some_files)).items
    ≡ 9 ∷ 7 ∷ 6 ∷ 5 ∷ []
unfolding breakdown sort
four_largest = refl

share_of_file :
    map
      (λ (b : BreakdownItem). b.flex)
      (breakdown print (some (entry (item "/home/a" 1 5) (some 20))) none).items
    ≡ 5 ∷ 15 ∷ []
unfolding breakdown
share_of_file = refl

name_of_root : title (some (entry (item "/" 2 0) none)) ≡ "/"
unfolding title
name_of_root = refl

breakdown-IsAbove_example :
    (shown : List Part) × (hidden : List Part) × Perm (shown ++ hidden) (map part_of some_files)
    × (length shown ≡ min 4 (length some_files))
    × IsAbove shown hidden
    × (map shown_face (breakdown print (some (entry home none)) (some some_files)).items
        ≡ map (face_of print (breakdown_total home (shown ++ hidden))) shown)
breakdown-IsAbove_example = breakdown-IsAbove print home none some_files refl

-- The reply for the first directory comes when the second is selected.
abbrev late_reply : List Event
late_reply =
    selects (some (entry etc none))
    ∷ reply 1 (resolved some_files)
    ∷ reply 0 (rejected no_error)
    ∷ []

late_reply_dropped : (run (opened (some (entry home none))) late_reply).children ≡ some []
unfolding run opened is_dir entry_path
late_reply_dropped = refl

-- The listings of a server that has files in one directory only.
abbrev IsListing : String → List Entry → Type 0
IsListing path rows = (path ≡ "/home") ⊎ (rows ≡ [])

run-Shown_example :
    let s = run (opened (some (entry home none))) late_reply in
    Shown IsListing s.selected s.children
run-Shown_example =
    run-Shown IsListing (some (entry home none)) late_reply
      (unfold run opened is_dir entry_path in (inl refl, (inr refl, tt)))
