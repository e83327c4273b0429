-- ===== src/Browser/Sorted.antt =====
-- fs_ui/src/components/FileList.tsx and fs_ui/src/pages/UserBrowserPage.tsx: the order of the rows.
use mathlib.Core.List.{Perm}
use mathlib.Core.Path.{fun_ext}
use cuttlefish.Common.{some, Bool, List, ◌++◌, ◌≡◌, arith, ltb}
use cuttlefish.Common.Sort.{IsSorted, IsOrder, sort-IsSorted, sort-perm}
use cuttlefish.Types.{Entry, size_key, Direction, asc, desc, UserStats}
use cuttlefish.Api.{resolved}
use cuttlefish.Treemap.{effective_size}
use cuttlefish.Browser.{Collation, value_at, key_before, sort_entries}
use cuttlefish.Browser.Usages.{Usage, uses_more, finish_usage}

-- Which of two entries comes first by size.
abbrev pub size_before : Direction → Entry → Entry → Bool
size_before asc a b = ltb (effective_size a) (effective_size b)
size_before desc a b = ltb (effective_size b) (effective_size a)

size_before-IsOrder : (d : Direction) → IsOrder (size_before d)
size_before-IsOrder asc = record {
  asym = λ x y h. ground arith;
  trans_not = λ x y z h k. ground arith;
}
size_before-IsOrder desc = record {
  asym = λ x y h. ground arith;
  trans_not = λ x y z h k. ground arith;
}

key_before-size : (c : Collation) (d : Direction) → key_before c (some size_key) d ≡ size_before d
unfolding value_at
key_before-size c asc = fun_ext (λ a. fun_ext (λ b. ground arith))
key_before-size c desc = fun_ext (λ a. fun_ext (λ b. ground arith))

uses_more-IsOrder : IsOrder uses_more
uses_more-IsOrder = record { asym = λ x y h. ground arith; trans_not = λ x y z h k. ground arith }

-- The table of a directory, sorted by size, has the entries that it was given, and none stands
-- behind one that is larger, if it goes up, or smaller, if it goes down; a directory counts with the
-- total below it.
sort_entries-size :
    (c : Collation) (d : Direction) (entries : List Entry)
    → IsSorted
        (size_before d)
        (sort_entries c (record { key = some size_key; direction = d }) entries)
      × Perm (sort_entries c (record { key = some size_key; direction = d }) entries) entries
unfolding sort_entries
sort_entries-size c d entries = rw (key_before-size c d) (
  sort-IsSorted (size_before d) (size_before-IsOrder d) entries,
  sort-perm (size_before d) entries,
)

-- The page of users and groups, once both lists have come, shows each of them, and none behind one
-- that uses less.
finish_usage-IsSorted :
    (users groups : List UserStats) (u : Usage)
    → IsSorted uses_more (finish_usage (resolved (users, groups)) u).stats
      × Perm (finish_usage (resolved (users, groups)) u).stats (users ++ groups)
unfolding finish_usage
finish_usage-IsSorted users groups u = (
  sort-IsSorted uses_more uses_more-IsOrder (users ++ groups),
  sort-perm uses_more (users ++ groups),
)
