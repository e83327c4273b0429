-- ===== src/Api.antt =====
-- fs_ui/src/api.ts: what each call asks of the server, and what it makes of the reply.
-- A call yields its outcome and whether it fired the hook that App registers for a 401. `fetch` is a
-- parameter: it takes a request to a rejection or to a response with its decoded body.
pub mod Url
mod Tests
use cuttlefish.Common.{
  ℕ, String, Bool, true, false, ◌&&◌, List, [], Option, none, some, leb, ltb, ◌==◌, str_eq,
  if◌then◌else◌,
}
use cuttlefish.Common.Text.{◌<>◌, show, is_truthy}
use cuttlefish.Types.{
  Entry, GroupType, Grant, IdentityPreview, IdentityRule, ScanSession, SearchRequest, UserStats,
  IdType, uid_type, gid_type,
}
use Url.{encode_uri_component}

-- What a promise rejects with: an `ApiError`, another `Error`, or a value that is no `Error`.
pub data Failure : Type 0 where
  api_error : String → ℕ → Failure
  plain_error : String → Failure
  no_error : Failure

pub data Outcome (A : Type 0) : Type 0 where
  resolved : A → Outcome A
  rejected : Failure → Outcome A

-- The body as `res.json()` reads it: not JSON (with the parser's message), an array, an object with
-- an `error` text, the object that the endpoint documents, or any other value.
pub data Body (A : Type 0) : Type 0 where
  not_json : String → Body A
  array : List A → Body A
  error_object : String → Body A
  object : A → Body A
  other : Body A

pub record Response (A : Type 0) : Type 0 where
  pub status : ℕ
  pub body : Body A

pub data Payload : Type 0 where
  no_payload : Payload
  search_payload : SearchRequest → Payload
  grant_payload : GroupType → String → String → Payload
  rule_payload : String → String → Payload

pub data Method : Type 0 where
  get post delete : Method

pub record Request : Type 0 where
  pub method : Method
  pub url : String
  pub payload : Payload

-- What the call did: its outcome, and whether `onUnauthorized` ran.
pub record Call (A : Type 0) : Type 0 where
  pub outcome : Outcome A
  pub unauthorized : Bool

-- `fetch` of a request; it rejects when the network fails or the signal is aborted.
abbrev pub Fetch : Type 0 → Type 0
Fetch A = Request → Outcome (Response A)

-- `res.ok`
abbrev pub is_ok : ℕ → Bool
is_ok status = leb 200 status && ltb status 300

-- `body?.error`, if the server sent one and it is not empty.
abbrev pub server_message : {A : Type 0} → Body A → Option String
server_message (error_object m) = if is_truthy m then some m else none
server_message (not_json m) = none
server_message (array xs) = none
server_message (object a) = none
server_message other = none

abbrev pub message_or : Option String → String → String
message_or (some m) fallback = m
message_or none fallback = fallback

unfoldable pub fail : {A B : Type 0} → Response A → String → Call B
fail res fallback = record {
  outcome = rejected (
      api_error (message_or (server_message res.body) (fallback <> ": " <> show res.status))
        res.status);
  unauthorized = res.status == 401;
}

-- The tail of the calls that list: anything but an array is read as no items.
abbrev pub list_of_body : {A : Type 0} → Body A → Outcome (List A)
list_of_body (not_json m) = rejected (plain_error m)
list_of_body (array xs) = resolved xs
list_of_body (error_object m) = resolved []
list_of_body (object a) = resolved []
list_of_body other = resolved []

-- The tail of the calls that return the body as it came, whatever the server sent.
abbrev pub value_of_body : {A : Type 0} → Body A → Outcome (Body A)
value_of_body (not_json m) = rejected (plain_error m)
value_of_body (array xs) = resolved (array xs)
value_of_body (error_object m) = resolved (error_object m)
value_of_body (object a) = resolved (object a)
value_of_body other = resolved other

-- The tail of the calls that return nothing and leave the body unread.
abbrev pub no_body : {A : Type 0} → Body A → Outcome (Unit {0})
no_body b = resolved tt

-- Awaits the response, and goes on with its body if it is a 2xx.
unfoldable pub receive :
    {A B : Type 0} → Outcome (Response A) → String → (Body A → Outcome B) → Call B
unfolding fail
receive (rejected e) fallback read = record { outcome = rejected e; unauthorized = false }
receive (resolved res) fallback read =
    if is_ok res.status
    then record { outcome = read res.body; unauthorized = false }
    else fail res fallback

abbrev pub api_base : String
api_base = "/api"

-- A boolean in a template literal.
abbrev pub show_bool : Bool → String
show_bool true = "true"
show_bool false = "false"

abbrev pub get_request : String → Request
get_request url = record { method = get; url = url; payload = no_payload }

abbrev pub post_request : String → Payload → Request
post_request url payload = record { method = post; url = url; payload = payload }

abbrev pub delete_request : String → Request
delete_request url = record { method = delete; url = url; payload = no_payload }

-- The query of the calls that name a path.
unfoldable pub path_query : String → Bool → String
path_query path include_stats =
    "?path=" <> encode_uri_component path <> "&include_stats=" <> show_bool include_stats

unfoldable pub list_entries : Fetch Entry → String → Bool → Call (List Entry)
unfolding path_query receive
list_entries fetch path include_stats =
    receive (fetch (get_request (api_base <> "/list" <> path_query path include_stats)))
      "Server error" list_of_body

-- Directories have an endpoint of their own; every other type shares one.
unfoldable pub entry_stats_endpoint : ℕ → String
entry_stats_endpoint file_type =
    if file_type == 2 then api_base <> "/dir/stats" else api_base <> "/file/stats"

unfoldable pub get_entry_stats : Fetch Entry → String → ℕ → Bool → Call (Body Entry)
unfolding path_query receive entry_stats_endpoint
get_entry_stats fetch path file_type include_stats =
    receive (fetch (get_request (entry_stats_endpoint file_type <> path_query path include_stats)))
      "API error" value_of_body

unfoldable pub search : Fetch Entry → SearchRequest → Call (List Entry)
unfolding receive
search fetch request =
    receive (fetch (post_request (api_base <> "/search") (search_payload request))) "Server error"
      list_of_body

unfoldable pub identity_endpoint : IdType → String
identity_endpoint uid_type = api_base <> "/user/list"
identity_endpoint gid_type = api_base <> "/group/list"

unfoldable pub list_identity_stats : Fetch UserStats → IdType → Call (List UserStats)
unfolding receive identity_endpoint
list_identity_stats fetch id_type =
    receive (fetch (get_request (identity_endpoint id_type))) "API error" list_of_body

unfoldable pub list_scans : Fetch ScanSession → ℕ → Call (List ScanSession)
unfolding receive
list_scans fetch limit =
    receive (fetch (get_request (api_base <> "/scans?limit=" <> show limit))) "API error"
      list_of_body

unfoldable pub list_grants : Fetch Grant → Call (List Grant)
unfolding receive
list_grants fetch =
    receive (fetch (get_request (api_base <> "/admin/grants"))) "API error" list_of_body

unfoldable pub add_grant : Fetch Grant → GroupType → String → String → Call (Body Grant)
unfolding receive
add_grant fetch group_type group_name path_prefix =
    receive
      (fetch (
        post_request (api_base <> "/admin/grants")
          (grant_payload group_type group_name path_prefix)))
      "API error" value_of_body

unfoldable pub delete_grant : Fetch Grant → ℕ → Call (Unit {0})
unfolding receive
delete_grant fetch id =
    receive (fetch (delete_request (api_base <> "/admin/grants?id=" <> show id))) "API error"
      no_body

unfoldable pub list_identity_rules : Fetch IdentityRule → Call (List IdentityRule)
unfolding receive
list_identity_rules fetch =
    receive (fetch (get_request (api_base <> "/admin/identity-rules"))) "API error" list_of_body

unfoldable pub add_identity_rule : Fetch IdentityRule → String → String → Call (Body IdentityRule)
unfolding receive
add_identity_rule fetch match_suffix replace_with =
    receive
      (fetch (
        post_request (api_base <> "/admin/identity-rules")
          (rule_payload match_suffix replace_with)))
      "API error" value_of_body

unfoldable pub delete_identity_rule : Fetch IdentityRule → ℕ → Call (Unit {0})
unfolding receive
delete_identity_rule fetch id =
    receive (fetch (delete_request (api_base <> "/admin/identity-rules?id=" <> show id)))
      "API error" no_body

-- The query of the identity preview.
unfoldable pub preview_query : String → String → String
preview_query identity groups =
    "?preview=" <> encode_uri_component identity <> "&groups=" <> encode_uri_component groups

unfoldable pub preview_identity :
    Fetch IdentityPreview → String → String → Call (Body IdentityPreview)
unfolding receive preview_query
preview_identity fetch identity groups =
    receive
      (fetch (get_request (api_base <> "/admin/identity-rules" <> preview_query identity groups)))
      "API error" value_of_body
