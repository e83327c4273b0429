-- ===== src/Detail/Breakdown.antt =====
-- fs_ui/src/components/DetailPanel.tsx: the bar of a directory's largest children, or of a file's share.
use cuttlefish.Common.{
  ℕ, suc, ◌-◌, ◌%◌, Bool, ◌==◌, String, List, [], ◌∷◌, Option, none, some, map, max, take, sum_by,
  ltb, if◌then◌else◌, get_elem?, get_or_else,
}
use cuttlefish.Common.Sort.{sort}
use cuttlefish.Common.Text.{◌<>◌}
use cuttlefish.Types.{Entry}
use cuttlefish.Format.{Print, format_percent}
use cuttlefish.Detail.Selection.{
  DetailSelection, entry, user, is_directory, last_name, total_of, size_of,
}

pub record BreakdownItem : Type 0 where
  pub name : String
  pub pct_label : String
  pub color : String
  pub flex : ℕ

-- A child in the breakdown: its name, and its size, for a directory the recursive total.
pub record Part : Type 0 where
  pub name : String
  pub size : ℕ

unfoldable pub part_of : Entry → Part
unfolding last_name size_of
part_of c = record { name = last_name c.path; size = size_of c }

abbrev pub larger : Part → Part → Bool
larger a b = ltb b.size a.size

unfoldable pub sized : List Entry → List Part
unfolding part_of
sized children = sort larger (map part_of children)

-- `a || b` on numbers.
abbrev pub or_number : ℕ → ℕ → ℕ
or_number a b = if a == 0 then b else a

unfoldable pub breakdown_total : Entry → List Part → ℕ
breakdown_total e parts =
    or_number (total_of e.aggregates) (or_number (sum_by (λ (c : Part). c.size) parts) 1)

abbrev pub breakdown_colors : List String
breakdown_colors =
    "var(--cf-accent)" ∷ "var(--cf-accent-400)" ∷ "var(--cf-neutral-400)" ∷ "var(--cf-neutral-300)"
    ∷ []

abbrev pub color_at : ℕ → String
color_at i = get_or_else (get_elem? breakdown_colors (i % 4)) "undefined"

abbrev pub breakdown_item : Print → ℕ → ℕ → Part → BreakdownItem
breakdown_item p total i c = record {
  name = c.name;
  pct_label = format_percent p c.size total;
  color = color_at i;
  flex = max c.size 1;
}

-- `.map((c, i) => …)`, from index i on.
unfoldable pub breakdown_items : Print → ℕ → ℕ → List Part → List BreakdownItem
breakdown_items p total i [] = []
breakdown_items p total i (c ∷ cs) = breakdown_item p total i c ∷ breakdown_items p total (suc i) cs

pub record Breakdown : Type 0 where
  pub heading : String
  pub items : List BreakdownItem

abbrev pub no_breakdown : Breakdown
no_breakdown = record { heading = "Breakdown"; items = [] }

-- A directory: its four largest children, once they are known.
unfoldable pub contents_breakdown : Print → Entry → Option (List Entry) → Breakdown
unfolding sized breakdown_total breakdown_items
contents_breakdown p e none = no_breakdown
contents_breakdown p e (some children) =
    let parts = sized children in
    record {
      heading = "Contents breakdown";
      items = breakdown_items p (breakdown_total e parts) 0 (take 4 parts);
    }

abbrev share_items : Print → Entry → ℕ → List BreakdownItem
share_items p e total =
    record {
      name = last_name e.path;
      pct_label = format_percent p e.size_bytes total <> " of directory";
      color = "var(--cf-accent)";
      flex = max e.size_bytes 1;
    }
    ∷ record {
      name = "Rest of directory";
      pct_label = "";
      color = "var(--cf-neutral-300)";
      flex = max (total - e.size_bytes) 1;
    }
    ∷ []

-- Anything else: its share of the directory that it is in, if the page knows that.
unfoldable pub share_breakdown : Print → Entry → Option ℕ → Breakdown
share_breakdown p e none = no_breakdown
share_breakdown p e (some siblings) = if siblings == 0 then no_breakdown else record {
  heading = "Share of parent directory";
  items = share_items p e (max (max siblings e.size_bytes) 1);
}

unfoldable pub breakdown : Print → Option DetailSelection → Option (List Entry) → Breakdown
unfolding contents_breakdown share_breakdown
breakdown p none children = no_breakdown
breakdown p (some (user u)) children = no_breakdown
breakdown p (some (entry e siblings)) children =
    if is_directory e then contents_breakdown p e children else share_breakdown p e siblings
