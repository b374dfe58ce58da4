-- ===== src/Registry/Service/Laws.antt =====
-- Who may change the registry, and what is logged of it: internal/registry/service.go.
use fracta.Common.{
  String, Bool, Option, none, some, ◌∷◌, ◌≡◌, refl, Option-cases, inl, inr, if◌then◌else◌, false,
}
use fracta.World.{World, Error, unauthorized, forbidden, err, Action, ◌>>=◌, ◌>>◌}
use fracta.Authz.{Operation, operation_name, Subject, Resource, authorize, has_role}
use fracta.Authz.Laws.{ManagesServers, managing_needs_admin}
use fracta.Registry.{Server, AuditEntry}
use fracta.Registry.Store.{upsert_server, delete_server, set_tool_enabled}
use fracta.Registry.Service.{
  require_subject, audit, Authorizer, check, server_called, tool_called, enabled_detail,
  register_server, update_server, remove_server, enable_or_disable,
}

-- The calls of the service.
pub data ServiceCall : Type 0 where
  registers updates : Server → ServiceCall
  removes : String → ServiceCall
  switches : String → String → Bool → ServiceCall

abbrev pub perform : Authorizer → Option Subject → ServiceCall → Action (Unit {0})
perform az caller (registers s) = register_server az caller s
perform az caller (updates s) = update_server az caller s
perform az caller (removes name) = remove_server az caller name
perform az caller (switches server tool b) = enable_or_disable az caller server tool b

-- What each asks the authorizer, what it changes and what it logs.
abbrev pub operation_of : ServiceCall → Operation
operation_of (registers s) = Operation.register_server
operation_of (updates s) = Operation.update_server
operation_of (removes name) = Operation.delete_server
operation_of (switches server tool b) = if b then Operation.enable_tool else Operation.disable_tool

abbrev pub target_of : ServiceCall → Resource
target_of (registers s) = server_called s.name
target_of (updates s) = server_called s.name
target_of (removes name) = server_called name
target_of (switches server tool b) = tool_called server tool

abbrev pub change_of : ServiceCall → Action (Unit {0})
change_of (registers s) = upsert_server s
change_of (updates s) = upsert_server s
change_of (removes name) = delete_server name
change_of (switches server tool b) = set_tool_enabled server tool b

abbrev pub kind_of : ServiceCall → String
kind_of (switches server tool b) = "tool"
kind_of _ = "server"

abbrev pub detail_of : ServiceCall → Option String
detail_of (switches server tool b) = enabled_detail b
detail_of _ = none

module _ (az : Authorizer) where
  -- The common form of the four.
  abbrev logs : ServiceCall → Subject → Action (Unit {0})
  logs c sub =
      audit sub (operation_name (operation_of c)) (kind_of c) (target_of c).name (detail_of c)

  abbrev permitted_change : ServiceCall → Subject → Action (Unit {0})
  permitted_change c sub =
      check (az sub (operation_of c) (target_of c)) >> (change_of c >> logs c sub)

  perform-guarded :
      (caller : Option Subject) (c : ServiceCall)
      → perform az caller c ≡ (require_subject caller >>= permitted_change c)
  unfolding register_server update_server remove_server enable_or_disable
  perform-guarded caller (registers s) = refl
  perform-guarded caller (updates s) = refl
  perform-guarded caller (removes name) = refl
  perform-guarded caller (switches server tool b) = refl

  -- Whether the authorizer lets the caller do it.
  abbrev pub Permitted : Option Subject → ServiceCall → Type 0
  Permitted none c = ⊥
  Permitted (some sub) c = az sub (operation_of c) (target_of c) ≡ none

  abbrev pub IsAuthzError : Error → Type 0
  IsAuthzError unauthorized = Unit
  IsAuthzError (forbidden e) = Unit
  IsAuthzError _ = ⊥

  -- A call that the authorizer does not permit fails with an error of internal/authz and changes
  -- nothing: it makes no statement.
  pub perform-refused :
      (caller : Option Subject) (c : ServiceCall) (w : World)
      → (Permitted caller c → ⊥)
      → (e : Error) × IsAuthzError e × (perform az caller c w ≡ (err e, w))
  unfolding require_subject
  perform-refused none c w refused = (unauthorized, tt, rw (perform-guarded none c) refl)
  perform-refused (some sub) c w refused =
      elim (Option-cases (az sub (operation_of c) (target_of c))) [
        | inl permitted ↦ absurd (refused permitted)
        | inr (e, denied) ↦ (forbidden e, tt, rw (perform-guarded (some sub) c, denied) refl)
      ]

  -- The entry that a call of the subject adds to the log.
  abbrev pub Logged : Subject → ServiceCall → World → World → Type 0
  Logged sub c v w' =
      (e : AuditEntry) × (w'.audit_log ≡ e ∷ v.audit_log)
      × (e.actor ≡ sub.id)
      × (e.action ≡ operation_name (operation_of c))
      × (e.resource_type ≡ kind_of c)
      × (e.resource_name ≡ (target_of c).name)

-- With the roles of internal/authz a subject without the role "admin" can neither register, change nor
-- delete a server: the call fails and nothing changes.
pub only_admin-perform :
    (sub : Subject) (c : ServiceCall) (w : World)
    → ManagesServers (operation_of c)
    → has_role sub.roles "admin" ≡ false
    → (e : Error) × IsAuthzError authorize e × (perform authorize (some sub) c w ≡ (err e, w))
only_admin-perform sub c w m h =
    perform-refused authorize (some sub) c w
      (λ permitted. cc (managing_needs_admin sub (operation_of c) (target_of c) m permitted, h))
