-- ===== src/Format/Tests.antt =====
-- Texts of sizes, shares and types, and the theorems at concrete sizes.
use cuttlefish.Common.{ℕ, ◌≡◌, refl}
use cuttlefish.Format.{Print, format_percent, type_label}

-- A printer for the sizes whose logarithm is given.
abbrev print : ℕ → Print
print log = record {
  log_1024 = λ n. log;
  two_places = λ n i. "2";
  one_place = λ a b. "1";
  grouped = λ n. "n";
  locale_date = λ s. "date";
  iso_date = λ s. "2025-01-01T00:00:00.000Z";
}

small_share : format_percent (print 0) 1 5000 ≡ "<0.1%"
unfolding format_percent
small_share = refl

symlink : type_label 3 ≡ "Symlink"
unfolding type_label
symlink = refl
