-- ===== src/Authz.antt =====
-- Authorization: internal/authz. A role is a text; the actions are the constants of action.go.
pub mod Laws
mod Tests
use fracta.Common.{
  String, same, same_refl, Bool, true, false, ◌||◌, Option, none, some, List, [], ◌∷◌, put, lookup,
  if◌then◌else◌,
}

-- `Action`
pub data Operation : Type 0 where
  register_server update_server delete_server enable_tool disable_tool : Operation
  view_catalog search_tool view_status call_tool refresh_discovery bind_secret : Operation

-- `==` on actions: each has a text of its own.
abbrev pub operation_name : Operation → String
operation_name register_server = "RegisterServer"
operation_name update_server = "UpdateServer"
operation_name delete_server = "DeleteServer"
operation_name enable_tool = "EnableTool"
operation_name disable_tool = "DisableTool"
operation_name view_catalog = "ViewCatalog"
operation_name search_tool = "SearchTool"
operation_name view_status = "ViewStatus"
operation_name call_tool = "CallTool"
operation_name refresh_discovery = "RefreshDiscovery"
operation_name bind_secret = "BindSecret"

pub data SubjectType : Type 0 where
  admin operator viewer agent service : SubjectType

abbrev pub subject_type_name : SubjectType → String
subject_type_name admin = "admin"
subject_type_name operator = "operator"
subject_type_name viewer = "viewer"
subject_type_name agent = "agent"
subject_type_name service = "service"

-- `Subject` and `Resource`
pub record Subject : Type 0 where
  pub subject_type : SubjectType
  pub id : String
  pub roles : List String

pub data ResourceType : Type 0 where
  server_resource tool_resource secret_resource catalog_resource : ResourceType

pub record Resource : Type 0 where
  pub resource_type : ResourceType
  pub name : String

-- `HasRole`
unfoldable pub has_role : List String → String → Bool
has_role [] role = false
has_role (r ∷ rs) role = let rest = has_role rs role in if same r role then true else rest

-- The sets of actions that `permissions` holds, by the action's text.
abbrev allowed : List Operation → List (String × Bool)
allowed [] = []
allowed (a ∷ rest) = (operation_name a, true) ∷ allowed rest

-- `permissions` of rules.go
unfoldable pub permissions : List (String × List (String × Bool))
permissions =
    (
      "admin",
      allowed (
          Operation.view_catalog ∷ Operation.search_tool ∷ Operation.view_status
          ∷ Operation.call_tool ∷ Operation.refresh_discovery ∷ Operation.enable_tool
          ∷ Operation.disable_tool ∷ Operation.register_server ∷ Operation.update_server
          ∷ Operation.delete_server ∷ Operation.bind_secret ∷ []),
    )
    ∷ (
      "operator",
      allowed (
          Operation.view_catalog ∷ Operation.search_tool ∷ Operation.view_status
          ∷ Operation.refresh_discovery ∷ Operation.enable_tool ∷ Operation.disable_tool ∷ []),
    )
    ∷ (
      "viewer",
      allowed (Operation.view_catalog ∷ Operation.search_tool ∷ Operation.view_status ∷ []),
    )
    ∷ ("agent", allowed (Operation.view_catalog ∷ Operation.search_tool ∷ Operation.call_tool ∷ []))
    ∷ []

-- Reading a map of Booleans: a missing key is false.
abbrev pub true_or_missing : Option Bool → Bool
true_or_missing none = false
true_or_missing (some b) = b

abbrev pub perms_allow : Operation → Option (List (String × Bool)) → Bool
unfolding lookup
perms_allow act none = false
perms_allow act (some perms) = true_or_missing (lookup (operation_name act) perms)

-- `roleAllows`
unfoldable pub role_allows : String → Operation → Bool
unfolding permissions lookup
role_allows role act = perms_allow act (lookup role permissions)

-- `ForbiddenError`
pub record ForbiddenError : Type 0 where
  pub subject : Subject
  pub action : Operation
  pub resource : Resource
  pub reason : String

-- The loop of `Authorize`.
unfoldable pub some_role_allows : List String → Operation → Bool
unfolding role_allows permissions lookup
some_role_allows [] act = false
some_role_allows (r ∷ rs) act =
    let rest = some_role_allows rs act in if role_allows r act then true else rest

-- `Authorize` of `DefaultAuthorizer`: none is nil.
unfoldable pub authorize : Subject → Operation → Resource → Option ForbiddenError
unfolding some_role_allows role_allows permissions lookup
authorize sub act res =
    if some_role_allows sub.roles act
    then none
    else some (record {
      subject = sub;
      action = act;
      resource = res;
      reason = "no role grants this action";
    })
