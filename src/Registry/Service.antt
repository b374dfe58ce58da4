-- ===== src/Registry/Service.antt =====
-- The registry behind the authorizer: internal/registry/service.go. The subject is that of the context,
-- if there is one.
pub mod Laws
mod Tests
use fracta.Common.{Time, String, ◌⧺◌, Bool, true, false, Option, none, some, if◌then◌else◌}
use fracta.World.{
  World, Error, unauthorized, forbidden, Outcome, ok, err, Action, pure, raise, ◌>>=◌, ◌>>◌, now,
}
use fracta.Registry.{Server, AuditEntry}
use fracta.Registry.Store.{upsert_server, delete_server, set_tool_enabled, log_audit}
use fracta.Authz.{
  Operation, operation_name, Subject, subject_type_name, ResourceType, Resource, ForbiddenError,
}

-- `requireSubject`
unfoldable pub require_subject : Option Subject → Action Subject
require_subject none = raise unauthorized
require_subject (some s) = pure s

-- `audit`
abbrev pub audit_entry : Subject → String → String → String → Option String → Time → AuditEntry
audit_entry sub action kind name detail at = record {
  id = 0;
  actor = sub.id;
  actor_type = subject_type_name sub.subject_type;
  action = action;
  resource_type = kind;
  resource_name = name;
  detail = detail;
  timestamp = at;
}

unfoldable pub audit : Subject → String → String → String → Option String → Action (Unit {0})
unfolding log_audit
audit sub action kind name detail w = log_audit (audit_entry sub action kind name detail (now w)) w

-- `authz.Authorizer`
abbrev pub Authorizer : Type 0
Authorizer = Subject → Operation → Resource → Option ForbiddenError

abbrev pub check : Option ForbiddenError → Action (Unit {0})
check none = pure tt
check (some e) = raise (forbidden e)

abbrev pub server_called : String → Resource
server_called name = record { resource_type = ResourceType.server_resource; name = name }

abbrev pub tool_called : String → String → Resource
tool_called server tool = record {
  resource_type = ResourceType.tool_resource;
  name = server ⧺ "/" ⧺ tool;
}

-- `json.Marshal` of the map with the key "enabled".
abbrev pub enabled_detail : Bool → Option String
enabled_detail true = some "{\"enabled\":true}"
enabled_detail false = some "{\"enabled\":false}"

module _ (authorizer : Authorizer) where
  -- `RegisterServer`, `UpdateServer`, `DeleteServer` and `SetToolEnabled` of `RegistryService`.
  unfoldable pub register_server : Option Subject → Server → Action (Unit {0})
  unfolding require_subject upsert_server audit log_audit
  register_server caller s = require_subject caller >>= λ sub.
      check (authorizer sub Operation.register_server (server_called s.name))
      >> (upsert_server s >> audit sub "RegisterServer" "server" s.name none)

  unfoldable pub update_server : Option Subject → Server → Action (Unit {0})
  unfolding require_subject upsert_server audit log_audit
  update_server caller s = require_subject caller >>= λ sub.
      check (authorizer sub Operation.update_server (server_called s.name))
      >> (upsert_server s >> audit sub "UpdateServer" "server" s.name none)

  unfoldable pub remove_server : Option Subject → String → Action (Unit {0})
  unfolding require_subject delete_server audit log_audit
  remove_server caller name = require_subject caller >>= λ sub.
      check (authorizer sub Operation.delete_server (server_called name))
      >> (delete_server name >> audit sub "DeleteServer" "server" name none)

  unfoldable pub enable_or_disable : Option Subject → String → String → Bool → Action (Unit {0})
  unfolding require_subject set_tool_enabled audit log_audit
  enable_or_disable caller server tool b =
      let act = if b then Operation.enable_tool else Operation.disable_tool in
      require_subject caller >>= λ sub.
      check (authorizer sub act (tool_called server tool))
      >> (set_tool_enabled server tool b
          >> audit sub (operation_name act) "tool" (server ⧺ "/" ⧺ tool) (enabled_detail b))
