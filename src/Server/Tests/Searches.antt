-- ===== src/Server/Tests/Searches.antt =====
-- A search at a concrete session, from the cookie to a row, and the theorem there.
use cuttlefish.Common.{false, [], ◌∷◌, some}
use cuttlefish.Common.Int.{pos}
use cuttlefish.Types.{idp}
use cuttlefish.Server.Resolve.{Tables}
use cuttlefish.Server.Query.{text_value, and_then}
use cuttlefish.Server.Search.{Statement, group, within, one_of}
use cuttlefish.Server.Sessions.{run}
use cuttlefish.Server.Requests.{Setting, Request}
use cuttlefish.Server.Tests.{up, go, plain, named}

abbrev setting : Setting
setting = record {
  admin_groups = "admins" ∷ [];
  viewer_groups = [];
  lower = plain;
  go = go;
  run = up;
}

-- Everyone of the staff may see the directory of their own name.
abbrev tables : Tables
tables = record {
  grants =
      record {
        id = 1;
        group_type = idp;
        group_name = "staff";
        path_prefix = "/home/{user}";
        created_by = "root";
        created_at = "";
      }
      ∷ [];
  rules = [];
  unix_groups = λ name. [];
}

abbrev searched : Request
searched = record {
  method = "POST";
  body = some (record {
    rules = named ∷ [];
    sort_by = "path";
    order = "ASC";
    limit = pos 10;
    offset = pos 0;
  });
}

abbrev sent : Statement
sent = record {
  rows_where =
      (
        and_then,
        group ((and_then, record { column = "f.path"; op = "="; param = 1; negated = false }) ∷ []),
      )
      ∷ (and_then, within (one_of (record { exact = 2; below = 3 } ∷ [])))
      ∷ [];
  column = "f.path";
  is_descending = false;
  limit = 10;
  offset = 0;
  values = text_value "/x" ∷ text_value "/home/joshua" ∷ text_value "/home/joshua/%" ∷ [];
  joins_dir_stats = false;
}
