-- ===== src/Types.antt =====
-- fs_ui/src/types.ts: the records that the server's replies and the pages share. Sizes, counts and
-- identifiers are whole numbers; times are whole seconds, before or after 1970.
use cuttlefish.Common.{ℕ, String, Bool, List, Option}
use cuttlefish.Common.Int.{ℤ}

pub record DirAggregates : Type 0 where
  pub total_size_bytes : ℕ
  pub file_count : ℕ
  pub mtime_first : ℤ
  pub mtime_last : ℤ
  pub atime_first : ℤ
  pub atime_last : ℤ
  pub ctime_first : ℤ
  pub ctime_last : ℤ

pub data IdType : Type 0 where
  uid_type gid_type : IdType

pub record UserStats : Type 0 where
  pub id_type : IdType
  pub id_value : ℕ
  pub total_size_bytes : ℕ
  pub file_count : ℕ
  pub name : String

pub record Entry : Type 0 where
  pub path : String
  pub size_bytes : ℕ
  pub file_type : ℕ
  pub permissions : String
  pub uid : ℕ
  pub gid : ℕ
  pub user : String
  pub group : String
  pub mtime : ℤ
  pub atime : ℤ
  pub ctime : ℤ
  pub aggregates : Option DirAggregates

-- `keyof Entry`
pub data EntryKey : Type 0 where
  path_key size_key type_key permissions_key uid_key gid_key : EntryKey
  user_key group_key mtime_key atime_key ctime_key aggregates_key : EntryKey

pub data Direction : Type 0 where
  asc desc : Direction

pub record SortConfig : Type 0 where
  pub key : Option EntryKey
  pub direction : Direction

pub data SearchField : Type 0 where
  path_field uid_field gid_field user_field group_field file_type_field size_field : SearchField
  mtime_field atime_field ctime_field : SearchField
  dir_total_size_field dir_file_count_field : SearchField
  dir_mtime_first_field dir_mtime_last_field : SearchField
  dir_atime_first_field dir_atime_last_field : SearchField
  dir_ctime_first_field dir_ctime_last_field : SearchField

pub data SearchConnector : Type 0 where
  and_connector or_connector : SearchConnector

-- `negate?: boolean` may be left out.
pub record SearchRule : Type 0 where
  pub field : SearchField
  pub operator : String
  pub value : String
  pub connector : SearchConnector
  pub negate : Option Bool

pub data SearchOrder : Type 0 where
  ascending descending : SearchOrder

pub record SearchRequest : Type 0 where
  pub rules : List SearchRule
  pub sort_by : String
  pub order : SearchOrder
  pub limit : ℕ
  pub offset : ℕ

pub data ScanType : Type 0 where
  indexer aggregator : ScanType

pub data ScanStatus : Type 0 where
  running success failed : ScanStatus

pub record ScanSession : Type 0 where
  pub session_id : String
  pub scan_type : ScanType
  pub status : ScanStatus
  pub started_at : ℤ
  pub ended_at : Option ℤ
  pub files_scanned : ℕ

pub data Role : Type 0 where
  admin viewer restricted : Role

pub record Me : Type 0 where
  pub user : String
  pub role : Role
  pub prefixes : List String
  pub unix_user : Option String

pub record IdentityRule : Type 0 where
  pub id : ℕ
  pub match_suffix : String
  pub replace_with : String
  pub created_by : String
  pub created_at : String

pub data GroupType : Type 0 where
  idp unix : GroupType

pub record MatchedGrant : Type 0 where
  pub group_type : GroupType
  pub group_name : String
  pub path_prefix : String
  pub path : String

pub data GroupsSource : Type 0 where
  given session no_source : GroupsSource

pub record IdentityPreview : Type 0 where
  pub identity : String
  pub unix_user : String
  pub uid : Option ℕ
  pub groups : List String
  pub idp_groups : List String
  pub idp_groups_source : GroupsSource
  pub role : Role
  pub grants : List MatchedGrant

pub record Grant : Type 0 where
  pub id : ℕ
  pub group_type : GroupType
  pub group_name : String
  pub path_prefix : String
  pub created_by : String
  pub created_at : String
