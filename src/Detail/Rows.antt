-- ===== src/Detail/Rows.antt =====
-- fs_ui/src/components/DetailPanel.tsx: the metadata, the sizes and the times that the panel shows.
use cuttlefish.Common.{
  Bool, true, false, ◌==◌, String, List, [], ◌∷◌, Option, none, some, length, sum_by, if◌then◌else◌,
}
use cuttlefish.Common.Int.{ℤ}
use cuttlefish.Common.Text.{◌<>◌, show, is_truthy}
use cuttlefish.Types.{DirAggregates, Entry, IdType, uid_type, gid_type}
use cuttlefish.Format.{Print, format_bytes, format_number, format_date, is_time, type_label}
use cuttlefish.Detail.Selection.{
  DetailSelection, entry, user, is_directory, last_name, total_of, size_of,
}

pub record TimeRow : Type 0 where
  pub label : String
  pub value : String

pub record RangeRow : Type 0 where
  pub label : String
  pub oldest : String
  pub newest : String

pub record Compare : Type 0 where
  pub show_contents : Bool
  pub own_size_label : String
  pub own_times : List TimeRow
  pub contents_size_label : Option String
  pub contents_count_label : Option String
  pub contents_times : Option (List RangeRow)

abbrev time_or_dash : Print → Option ℤ → String
time_or_dash p none = "—"
time_or_dash p (some t) = if is_time t then format_date p t else "—"

unfoldable pub range_row : Print → String → Option ℤ → Option ℤ → RangeRow
range_row p label first last = record {
  label = label;
  oldest = time_or_dash p first;
  newest = time_or_dash p last;
}

abbrev row : String → String → TimeRow
row label value = record { label = label; value = value }

-- `id_type.toUpperCase()`
abbrev upper : IdType → String
upper uid_type = "UID"
upper gid_type = "GID"

-- `s || '—'`
abbrev or_dash : String → String
or_dash s = if is_truthy s then s else "—"

unfoldable pub metadata_rows : Print → Option DetailSelection → List TimeRow
metadata_rows p none = []
metadata_rows p (some (user u)) =
    row "ID type" (upper u.id_type)
    ∷ row "Total size" (format_bytes p u.total_size_bytes)
    ∷ row "File count" (format_number p u.file_count)
    ∷ []
metadata_rows p (some (entry e siblings)) =
    row "Type" (type_label e.file_type)
    ∷ row "Owner" (e.user <> ":" <> e.group)
    ∷ row "UID / GID" (show e.uid <> " / " <> show e.gid)
    ∷ row "Permissions" (or_dash e.permissions)
    ∷ []

unfoldable pub title : Option DetailSelection → String
unfolding last_name
title none = ""
title (some (user u)) = u.name
title (some (entry e siblings)) = last_name e.path

abbrev pub times : Print → Entry → List TimeRow
times p e =
    row "Modified" (format_date p e.mtime)
    ∷ row "Accessed" (format_date p e.atime)
    ∷ row "Changed" (format_date p e.ctime)
    ∷ []

-- `aggregates?.f`
abbrev at : Option DirAggregates → (DirAggregates → ℤ) → Option ℤ
at none f = none
at (some a) f = some (f a)

abbrev ranges : Print → Option DirAggregates → List RangeRow
ranges p a =
    range_row p "Modified" (at a (λ x. x.mtime_first)) (at a (λ x. x.mtime_last))
    ∷ range_row p "Accessed" (at a (λ x. x.atime_first)) (at a (λ x. x.atime_last))
    ∷ range_row p "Changed" (at a (λ x. x.ctime_first)) (at a (λ x. x.ctime_last))
    ∷ []

unfoldable pub contents_size_label : Print → Option (List Entry) → String
contents_size_label p none = "…"
contents_size_label p (some children) = format_bytes p (sum_by size_of children)

unfoldable pub contents_count_label : Print → Option (List Entry) → String
contents_count_label p none = "…"
contents_count_label p (some children) =
    format_number p (length children) <> " " <> (if length children == 1 then "item" else "items")

unfoldable pub compare_entry : Print → Entry → Option (List Entry) → Compare
unfolding range_row contents_size_label contents_count_label
compare_entry p e children =
    if is_directory e
    then record {
      show_contents = true;
      own_size_label = format_bytes p (total_of e.aggregates);
      own_times = times p e;
      contents_size_label = some (contents_size_label p children);
      contents_count_label = some (contents_count_label p children);
      contents_times = some (ranges p e.aggregates);
    }
    else record {
      show_contents = false;
      own_size_label = format_bytes p e.size_bytes;
      own_times = times p e;
      contents_size_label = none;
      contents_count_label = none;
      contents_times = none;
    }

unfoldable pub compare : Print → Option DetailSelection → Option (List Entry) → Option Compare
unfolding compare_entry
compare p (some (entry e siblings)) children = some (compare_entry p e children)
compare p _ children = none
