-- ===== src/Search/Fields.antt =====
-- fs_ui/src/pages/SearchPage.tsx: the tables of fields, operators and sort keys, and the limit.
use cuttlefish.Common.{
  ℕ, Bool, String, List, [], ◌∷◌, Option, none, some, find?, any, leb, min, str_eq, if◌then◌else◌,
}
use cuttlefish.Common.Int.{ℤ, pos, negsuc}
use cuttlefish.Types.{
  SearchField, path_field, uid_field, gid_field, user_field, group_field, file_type_field,
  size_field, mtime_field, atime_field, ctime_field, dir_total_size_field, dir_file_count_field,
  dir_mtime_first_field, dir_mtime_last_field, dir_atime_first_field, dir_atime_last_field,
  dir_ctime_first_field, dir_ctime_last_field,
}

pub data FieldKind : Type 0 where
  text number size timestamp file_type : FieldKind

-- The spelling of a field in a request, a saved query and a sort key.
abbrev pub field_name : SearchField → String
field_name path_field = "path"
field_name uid_field = "uid"
field_name gid_field = "gid"
field_name user_field = "user"
field_name group_field = "group"
field_name file_type_field = "file_type"
field_name size_field = "size_bytes"
field_name mtime_field = "mtime"
field_name atime_field = "atime"
field_name ctime_field = "ctime"
field_name dir_total_size_field = "dir_total_size"
field_name dir_file_count_field = "dir_file_count"
field_name dir_mtime_first_field = "dir_mtime_first"
field_name dir_mtime_last_field = "dir_mtime_last"
field_name dir_atime_first_field = "dir_atime_first"
field_name dir_atime_last_field = "dir_atime_last"
field_name dir_ctime_first_field = "dir_ctime_first"
field_name dir_ctime_last_field = "dir_ctime_last"

pub record FieldOption : Type 0 where
  pub value : SearchField
  pub label : String
  pub kind : FieldKind

abbrev pub field_option : SearchField → String → FieldKind → FieldOption
field_option value label kind = record { value = value; label = label; kind = kind }

abbrev pub fields : List FieldOption
fields =
    field_option path_field "Path" text
    ∷ field_option uid_field "UID" number
    ∷ field_option user_field "Username" text
    ∷ field_option gid_field "GID" number
    ∷ field_option group_field "Group Name" text
    ∷ field_option file_type_field "Type" file_type
    ∷ field_option size_field "Size" size
    ∷ field_option mtime_field "Modified" timestamp
    ∷ field_option atime_field "Accessed" timestamp
    ∷ field_option ctime_field "Changed" timestamp
    ∷ field_option dir_total_size_field "Dir: Total Size" size
    ∷ field_option dir_file_count_field "Dir: File Count" number
    ∷ field_option dir_mtime_first_field "Dir: Earliest Modified" timestamp
    ∷ field_option dir_mtime_last_field "Dir: Latest Modified" timestamp
    ∷ field_option dir_atime_first_field "Dir: Earliest Accessed" timestamp
    ∷ field_option dir_atime_last_field "Dir: Latest Accessed" timestamp
    ∷ field_option dir_ctime_first_field "Dir: Earliest Changed" timestamp
    ∷ field_option dir_ctime_last_field "Dir: Latest Changed" timestamp
    ∷ []

-- An entry of a drop-down list: what it stands for and what it reads.
pub record Choice : Type 0 where
  pub value : String
  pub label : String

abbrev pub choice : String → String → Choice
choice value label = record { value = value; label = label }

abbrev pub text_operators : List Choice
text_operators =
    choice "contains" "contains"
    ∷ choice "equals" "equals"
    ∷ choice "starts_with" "starts with"
    ∷ choice "ends_with" "ends with"
    ∷ choice "regex" "regex"
    ∷ choice "regex_i" "regex (ignore case)"
    ∷ []

abbrev pub number_operators : List Choice
number_operators = choice "equals" "=" ∷ choice "gt" ">" ∷ choice "lt" "<" ∷ []

abbrev pub timestamp_operators : List Choice
timestamp_operators = choice "gt" "after" ∷ choice "lt" "before" ∷ choice "equals" "equals" ∷ []

abbrev pub file_type_operators : List Choice
file_type_operators = choice "equals" "is" ∷ []

abbrev pub file_types : List Choice
file_types =
    choice "1" "File" ∷ choice "2" "Directory" ∷ choice "3" "Symlink" ∷ choice "0" "Other" ∷ []

abbrev pub sort_options : List Choice
sort_options =
    choice "path" "Path"
    ∷ choice "size_bytes" "Size"
    ∷ choice "uid" "UID"
    ∷ choice "gid" "GID"
    ∷ choice "file_type" "Type"
    ∷ choice "mtime" "Modified"
    ∷ choice "atime" "Accessed"
    ∷ choice "ctime" "Changed"
    ∷ choice "dir_total_size" "Dir: Total Size"
    ∷ choice "dir_file_count" "Dir: File Count"
    ∷ choice "dir_mtime_first" "Dir: Earliest Modified"
    ∷ choice "dir_mtime_last" "Dir: Latest Modified"
    ∷ choice "dir_atime_first" "Dir: Earliest Accessed"
    ∷ choice "dir_atime_last" "Dir: Latest Accessed"
    ∷ choice "dir_ctime_first" "Dir: Earliest Changed"
    ∷ choice "dir_ctime_last" "Dir: Latest Changed"
    ∷ []

-- `options.some(o => o.value === key)`
unfoldable pub offers : List Choice → String → Bool
offers options key = any (λ o. str_eq o.value key) options

abbrev pub max_limit : ℕ
max_limit = 10000

abbrev pub default_limit : ℕ
default_limit = 400

-- `clampLimit` on `Math.floor(Number(value))`, which is `none` where it is not finite.
unfoldable pub clamp_limit : Option ℤ → ℕ → ℕ
clamp_limit none fallback = fallback
clamp_limit (some (negsuc n)) fallback = fallback
clamp_limit (some (pos n)) fallback = if leb 1 n then min n max_limit else fallback

-- `a === b` on fields
abbrev pub same_field : SearchField → SearchField → Bool
same_field a b = str_eq (field_name a) (field_name b)

abbrev pub kind_of_option : Option FieldOption → FieldKind
kind_of_option none = text
kind_of_option (some f) = f.kind

unfoldable pub field_kind : SearchField → FieldKind
field_kind field = kind_of_option (find? (λ f. same_field f.value field) fields)

abbrev pub operators_of_kind : FieldKind → List Choice
operators_of_kind text = text_operators
operators_of_kind timestamp = timestamp_operators
operators_of_kind file_type = file_type_operators
operators_of_kind number = number_operators
operators_of_kind size = number_operators

unfoldable pub operators_for : SearchField → List Choice
unfolding field_kind
operators_for field = operators_of_kind (field_kind field)

-- `ops[0].value`; no list of operators is empty.
abbrev pub first_value : List Choice → String
first_value [] = ""
first_value (o ∷ os) = o.value

unfoldable pub default_operator : SearchField → String
unfolding operators_for
default_operator field = first_value (operators_for field)
