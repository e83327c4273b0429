-- ===== src/Server/Paths.antt =====
-- fs_api/auth.go and fs_api/admin.go: canonical paths, as `path.Clean` of Go's library makes them. A text
-- is taken by its characters, where Go goes by bytes: slashes, dots and beginnings are the same.
use mathlib.Core.List.{reverse, tail}
use cuttlefish.Common.{Bool, ◌&&◌, ◌||◌, String, List, [], ◌∷◌, str_eq, if◌then◌else◌}
use cuttlefish.Common.Text.{◌<>◌, join, split, starts_with}
pub mod Canonical

-- One part of a path; what was taken stands in front, the last first.
unfoldable pub push_part : List String → String → List String
push_part done s =
    if str_eq s "" || str_eq s "." then done else if str_eq s ".." then tail done else s ∷ done

unfoldable pub resolve : List String → List String → List String
resolve done [] = reverse done
resolve done (s ∷ parts) = resolve (push_part done s) parts

-- `path.Clean(p)` of a path that starts with a slash; no other is cleaned.
unfoldable pub clean : String → String
unfolding push_part resolve split
clean p = "/" <> join "/" (resolve [] (split p))

-- `strings.HasPrefix(p, "/") && path.Clean(p) == p`
unfoldable pub is_canonical : String → Bool
unfolding clean starts_with
is_canonical p = starts_with p "/" && str_eq (clean p) p
