-- ===== src/Browser/Tests.antt =====
-- The pages at concrete inputs, and the theorems there.
use cuttlefish.Common.{true, false, String, List, [], ◌∷◌, none, some, ◌≡◌, refl}
use cuttlefish.Common.Int.{pos}
use cuttlefish.Common.Text.{show}
use cuttlefish.Types.{Entry, UserStats, uid_type, success}
use cuttlefish.Browser.{under_prefix, Collation}
use cuttlefish.Browser.Usages.{Usage}
use cuttlefish.Browser.Durations.{format_duration}

beside : under_prefix "/data2/x" "/data" ≡ false
unfolding under_prefix
beside = refl

abbrev below_data : String
below_data = "/data/x"

abbrev by_nothing : Collation
by_nothing = record { below = λ s t. false; above = λ s t. false }

abbrev file : String → Entry
file path = record {
  path = path;
  size_bytes = 4096;
  file_type = 1;
  permissions = "rw-r--r--";
  uid = 0;
  gid = 0;
  user = "root";
  group = "root";
  mtime = pos 1;
  atime = pos 1;
  ctime = pos 1;
  aggregates = none;
}

abbrev two_files : List Entry
two_files = file "/a" ∷ record (file "/b") { size_bytes = 9000 } ∷ []

abbrev usage_of : String → UserStats
usage_of name = record {
  id_type = uid_type;
  id_value = 7;
  total_size_bytes = 10;
  file_count = 1;
  name = name;
}

abbrev loading : Usage
loading = record { stats = []; is_loading = true; error = none; selected_key = none }

an_hour : format_duration (pos 9000) (pos 1000) (some (pos 4725)) success ≡ "1h 2m"
unfolding format_duration show
an_hour = refl
