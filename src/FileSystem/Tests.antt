-- ===== src/FileSystem/Tests.antt =====
-- Runs of the file browser's state, and the theorems at concrete runs.
use cuttlefish.Common.{
  remove_at, ◌≡◌, refl, true, false, [], ◌∷◌, some, none, List, any, ◌⊎◌, String,
}
use cuttlefish.Common.Int.{pos}
use cuttlefish.Types.{Entry}
use cuttlefish.Api.{resolved, rejected, api_error}
use cuttlefish.FileSystem.{
  FileSystem, Event, listing, start, navigate, list_reply, step, run, describe,
}
use cuttlefish.FileSystem.Invariant.{is_live}
use cuttlefish.FileSystem.Refinement.{Moves, view, run_refines}
use cuttlefish.FileSystem.Stale.{Shows, list_reply-fresh, is_loading-waits}

abbrev file_at : String → Entry
file_at path = record {
  path = path;
  size_bytes = 4096;
  file_type = 1;
  permissions = "rw-r--r--";
  uid = 0;
  gid = 0;
  user = "root";
  group = "root";
  mtime = pos 1;
  atime = pos 1;
  ctime = pos 1;
  aggregates = none;
}

-- Two directories are opened one after the other.
abbrev two_opened : List Event
two_opened = navigate "/usr/lib" ∷ navigate "/etc" ∷ []

-- The reply for the first comes last and is dropped.
abbrev late : FileSystem
late = run (start "/") (
    navigate "/usr/lib"
    ∷ navigate "/etc"
    ∷ list_reply 0 (resolved (file_at "/etc/fstab" ∷ []))
    ∷ list_reply 0 (resolved (file_at "/usr/lib/x" ∷ []))
    ∷ [])

slow_reply : late.entries ≡ file_at "/etc/fstab" ∷ []
unfolding run start
slow_reply = refl

not_indexed :
    (run
      (start "/")
      (navigate "/x" ∷ list_reply 0 (rejected (api_error "not found" 404)) ∷ [])).error
    ≡ some "/x is not in the index. It may have been added since the last scan, or never scanned."
unfolding run start describe
not_indexed = refl

list_reply-fresh_example :
    let s = run (start "/") two_opened in
    (("/etc" ≡ s.current_path)
      × Shows s.current_path (resolved []) (step s (list_reply 0 (resolved []))))
    ⊎ (step s (list_reply 0 (resolved [])) ≡ record s { flights = remove_at 0 s.flights })
list_reply-fresh_example =
    list_reply-fresh "/" two_opened 0 (resolved [])
      (record { controller = 1; aborted = false; target = listing; path = "/etc" })
      (unfold run start in refl) refl

is_loading-waits_example : any is_live (run (start "/") two_opened).flights ≡ true
is_loading-waits_example = is_loading-waits "/" two_opened (unfold run start in refl)

run_refines_example : Moves two_opened (view (start "/")) (view (run (start "/") two_opened))
run_refines_example = run_refines "/" two_opened
