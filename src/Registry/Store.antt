-- ===== src/Registry/Store.antt =====
-- The registry over PostgreSQL: internal/registry/pgregistry/pgregistry.go and schema.sql. JSONB values
-- are compared as texts, and the JSON of a configured server is given with it.
pub mod Upserts
pub mod Laws
use fracta.Common.{
  ℕ, ◌+◌, Time, pos, ◌==ℤ◌, String, same, same_refl, Bool, true, false, not, ◌&&◌, ◌||◌, Option,
  none, some, List, [], ◌∷◌, ◌++◌, map, if◌then◌else◌, find_row, exists_row, update_row,
  update_rows, select_rows, sort_rows, text_leb,
}
use fracta.World.{
  World, Error, db_error, server_not_found, tool_not_found, Outcome, ok, err, Action, pure, ◌>>◌,
  call, now, transaction,
}
use fracta.Registry.{Server, Tool, AuditEntry, ServerFilter, ToolFilter}

-- `defaultJSON`
abbrev pub default_json : Option String → Option String
default_json none = some "{}"
default_json (some t) = some t

-- A column with a value for the empty text.
abbrev pub or_default : String → String → String
or_default default t = if same t "" then default else t

abbrev pub is_server : String → Server → Bool
is_server name s = same s.name name

abbrev pub is_tool : String → String → Tool → Bool
is_tool server tool t = same t.server_name server && same t.tool_name tool

-- INSERT … ON CONFLICT of rows with a key: the row that is there is changed by `f`, or `r` is added.
abbrev pub upsert : {A : Type 0} → (A → Bool) → (A → A) → A → List A → List A
upsert is_key f r rs = if exists_row is_key rs then update_row is_key f rs else rs ++ (r ∷ [])

-- The row of `UpsertServer` at the time `at`, and its SET clause.
abbrev pub server_row : Time → Server → Server
server_row at s = record s {
  transport_type = or_default "stdio" s.transport_type;
  connection_config = default_json s.connection_config;
  secret_refs = default_json s.secret_refs;
  server_capabilities = default_json s.server_capabilities;
  status = or_default "pending" s.status;
  last_discovered_at = none;
  created_by = or_default "api" s.created_by;
  created_at = at;
  updated_at = at;
}

abbrev pub overwritten_by : Server → Server → Server
overwritten_by new old = record new {
  last_discovered_at = old.last_discovered_at;
  created_by = old.created_by;
  created_at = old.created_at;
}

-- `UpsertServer`: the columns `transport_type` and `status` are checked.
abbrev pub is_transport_type : String → Bool
is_transport_type t = same t "stdio" || (same t "http" || same t "streamable_http")

abbrev pub is_server_status : String → Bool
is_server_status t =
    same t "pending"
    || (same t "active"
        || (same t "degraded"
            || (same t "paused"
                || (same t "error" || (same t "auth_failed" || same t "unreachable")))))

unfoldable pub upsert_server : Server → Action (Unit {0})
upsert_server s w =
    let r = server_row (now w) s in
    call
      (λ w'.
        if is_transport_type r.transport_type && is_server_status r.status
        then (
          ok tt,
          record w' { servers = upsert (is_server r.name) (overwritten_by r) r w'.servers },
        )
        else (err db_error, w'))
      w

-- `DeleteServer`: the tools of the server go with it.
unfoldable pub delete_server : String → Action (Unit {0})
delete_server name = call (λ w.
    if exists_row (is_server name) w.servers
    then (
      ok tt,
      record w {
        servers = select_rows (λ s. not (is_server name s)) w.servers;
        tools = select_rows (λ t. not (same t.server_name name)) w.tools;
      },
    )
    else (err server_not_found, w))

-- The SET clauses of `UpdateServerHealth`.
abbrev pub with_health : String → String → Option Time → Time → Server → Server
with_health status message none at s = record s {
  status = status;
  health_message = message;
  updated_at = at;
}
with_health status message (some discovered) at s = record s {
  status = status;
  health_message = message;
  last_discovered_at = some discovered;
  updated_at = at;
}

-- `UpdateServerHealth`: no row need be there.
unfoldable pub update_server_health : String → String → String → Option Time → Action (Unit {0})
update_server_health name status message discovered w =
    let at = now w in
    call
      (λ w'.
        if exists_row (is_server name) w'.servers && not (is_server_status status)
        then (err db_error, w')
        else (
          ok tt,
          record w' {
            servers =
                update_row (is_server name) (with_health status message discovered at) w'.servers;
          },
        ))
      w

-- The row for a tool that is new, and the SET clause for one that is there: it leaves `enabled`.
abbrev pub tool_row : String → Time → Tool → Tool
tool_row server at t = record t {
  server_name = server;
  enabled = true;
  last_seen_at = at;
  metadata = default_json t.metadata;
}

abbrev pub seen_again : Tool → Tool → Tool
seen_again new old = record new { enabled = old.enabled }

-- One round of the loop of `ReplaceDiscoveredTools`: the server must be there.
unfoldable pub upsert_tool : String → Time → Tool → Action (Unit {0})
upsert_tool server at t = call (λ w.
    let r = tool_row server at t in
    if exists_row (is_server server) w.servers
    then (ok tt, record w { tools = upsert (is_tool server t.tool_name) (seen_again r) r w.tools })
    else (err db_error, w))

unfoldable pub upsert_tools : String → Time → List Tool → Action (Unit {0})
unfolding upsert_tool
upsert_tools server at [] = pure tt
upsert_tools server at (t ∷ ts) = upsert_tool server at t >> upsert_tools server at ts

-- `tool_name = ANY(names)`
abbrev pub is_discovered : List Tool → Tool → Bool
is_discovered ts t = exists_row (λ d. same d.tool_name t.tool_name) ts

-- The tools that the two DELETE statements leave.
unfoldable pub is_kept : String → List Tool → Tool → Bool
is_kept server [] t = not (same t.server_name server)
is_kept server (d ∷ ds) t = not (same t.server_name server && not (is_discovered (d ∷ ds) t))

unfoldable pub delete_stale : String → List Tool → Action (Unit {0})
unfolding is_kept
delete_stale server ts =
    call (λ w. (ok tt, record w { tools = select_rows (is_kept server ts) w.tools }))

-- `ReplaceDiscoveredTools`
unfoldable pub replace_discovered_tools : String → List Tool → Action (Unit {0})
unfolding upsert_tools upsert_tool delete_stale is_kept
replace_discovered_tools server ts w =
    transaction (λ w'. (upsert_tools server (now w') ts >> delete_stale server ts) w') w

-- The conditions of the filters: an option that is not given is no condition.
abbrev pub bool_matches : Option Bool → Bool → Bool
bool_matches none b = true
bool_matches (some true) b = b
bool_matches (some false) b = not b

abbrev pub tool_matches : ToolFilter → Tool → Bool
tool_matches f t =
    (same f.server_name "" || same t.server_name f.server_name) && bool_matches f.enabled t.enabled

-- ORDER BY name, and ORDER BY server_name, tool_name: texts in the order of their characters.
abbrev pub server_before : Server → Server → Bool
server_before a b = text_leb a.name b.name

abbrev pub tool_before : Tool → Tool → Bool
tool_before a b =
    if same a.server_name b.server_name
    then text_leb a.tool_name b.tool_name
    else text_leb a.server_name b.server_name

-- `ListTools`
unfoldable pub list_tools : ToolFilter → Action (List Tool)
unfolding sort_rows
list_tools f = call (λ w. (ok (sort_rows tool_before (select_rows (tool_matches f) w.tools)), w))

abbrev pub status_matches : Option String → String → Bool
status_matches none t = true
status_matches (some s) t = same t s

abbrev pub server_matches : ServerFilter → Server → Bool
server_matches f s =
    status_matches f.status s.status && bool_matches f.proxy_enabled s.proxy_enabled

-- `ListServers` and `GetServer`.
unfoldable pub list_servers : ServerFilter → Action (List Server)
unfolding sort_rows
list_servers f =
    call (λ w. (ok (sort_rows server_before (select_rows (server_matches f) w.servers)), w))

unfoldable pub get_server : String → Action (Option Server)
get_server name = call (λ w. (ok (find_row (is_server name) w.servers), w))

-- `SetToolEnabled`
unfoldable pub set_tool_enabled : String → String → Bool → Action (Unit {0})
set_tool_enabled server tool b = call (λ w.
    if exists_row (is_tool server tool) w.tools
    then (
      ok tt,
      record w { tools = update_row (is_tool server tool) (λ t. record t { enabled = b }) w.tools },
    )
    else (err tool_not_found, w))

-- `LogAudit`: a zero time is replaced by that of the call.
abbrev pub logged_entry : AuditEntry → ℕ → Time → AuditEntry
logged_entry e n at = record e {
  id = n;
  detail = default_json e.detail;
  timestamp = if e.timestamp ==ℤ pos 0 then at else e.timestamp;
}

unfoldable pub log_audit : AuditEntry → Action (Unit {0})
log_audit e w =
    call
      (λ w'. (
        ok tt,
        record w' {
          audit_log = logged_entry e w'.next_audit (now w) ∷ w'.audit_log;
          next_audit = w'.next_audit + 1;
        },
      ))
      w
