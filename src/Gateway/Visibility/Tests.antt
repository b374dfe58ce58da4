-- ===== src/Gateway/Visibility/Tests.antt =====
-- A gateway with the tools of one server, a policy for it, and a scope for one agent.
use fracta.Common.{
  pos, String, Bool, true, false, none, some, List, [], ◌∷◌, ◌≡◌, ◌≢◌, ◌↔◌, ◌⊎◌, inr, refl, In,
  select_rows, lookup,
}
use fracta.World.{World, db_error, err}
use fracta.Samples.{world}
use fracta.Registry.Store.{list_tools}
use fracta.Gateway.{ToolPolicy, CatalogEntry, AgentScope, Gateway}
use fracta.Gateway.Policy.{policy_allowed}
use fracta.Gateway.Policy.Laws.{SomeMatches, policy_allowed_iff}
use fracta.Gateway.Visibility.{
  begin_build, build_visible_set, read_and_end, after_reading, is_tool_visible, visible_in,
}
use fracta.Gateway.Visibility.Laws.{build_visible_set-failed}
use fracta.Gateway.Visibility.Shown.{Answers, Shown, read_and_end-Shown}
use fracta.Registry.{Tool}
use fracta.Gateway.Visibility.Agents.{
  visible_tools_for_agent, is_tool_visible_for_agent, filter_tools_for_agent,
}
use fracta.Gateway.Visibility.Agents.Laws.{offered, filter_tools_for_agent-offered}
use fracta.Gateway.Visibility.Agents.Entries.{key_of, visible_tools_for_agent-In}

abbrev policy : ToolPolicy
policy = record { deny = "delete_*" ∷ []; allow_only = [] }

policy_allowed_iff_example : (policy_allowed (some policy) "delete_index" ≡ true) ↔ (
    (SomeMatches policy.deny "delete_index" → ⊥)
    × ((policy.allow_only ≡ []) ⊎ SomeMatches policy.allow_only "delete_index"))
policy_allowed_iff_example = policy_allowed_iff policy "delete_index"

abbrev entry : String → CatalogEntry
entry name = record { server_name = "elastic"; original_name = name; description = "" }

abbrev scope : AgentScope
scope = record {
  agent_task = "root";
  allowed_tools = ("elastic.search", true) ∷ [];
  expires_at = pos 2;
}

abbrev shown : List (String × Bool)
shown = ("elastic.search", true) ∷ ("elastic.count", true) ∷ ("elastic.delete_index", false) ∷ []

abbrev gateway : Gateway
gateway = record {
  catalog =
      ("elastic.search", entry "search")
      ∷ ("elastic.count", entry "count")
      ∷ ("elastic.delete_index", entry "delete_index")
      ∷ [];
  has_registry = true;
  tool_policies = ("elastic", some policy) ∷ [];
  visible_set = some shown;
  visible_gen = 3;
  scopes = ("root", scope) ∷ [];
}

-- The registry says that counting is disabled; a tool is taken out of the catalog during the build.
abbrev counting : Tool
counting = record {
  server_name = "elastic";
  tool_name = "count";
  description = "";
  input_schema = none;
  schema_hash = "";
  enabled = false;
  last_seen_at = pos 1;
  metadata = none;
}

abbrev registry_world : World
registry_world = record world { tools = counting ∷ [] }

abbrev at_end : Gateway
at_end = record gateway { visible_gen = 4; catalog = ("elastic.count", entry "count") ∷ [] }

answers : Answers gateway registry_world (counting ∷ [])
unfolding list_tools
answers = inr refl

latest : at_end.visible_gen ≡ (begin_build gateway).0.gen
unfolding begin_build
latest = refl

read_and_end-Shown_example :
    (is_tool_visible
        (read_and_end
          (begin_build gateway).0.entries
          (begin_build gateway).0
          at_end
          registry_world).0
        "elastic.count"
      ≡ true)
    ↔ Shown gateway at_end (counting ∷ []) "elastic.count"
read_and_end-Shown_example =
    read_and_end-Shown gateway at_end registry_world (counting ∷ []) "elastic.count" answers latest

abbrev unreachable : World
unreachable = record world { fault = λ _. true }

abbrev after_failure : World
after_failure = (list_tools (record { server_name = ""; enabled = none }) unreachable).1

still_shown : is_tool_visible (build_visible_set gateway unreachable).0 "elastic.search" ≡ true
unfolding build_visible_set begin_build read_and_end list_tools after_reading is_tool_visible
    visible_in lookup
still_shown = refl

unread :
    list_tools (record { server_name = ""; enabled = none }) unreachable
    ≡ (err db_error, after_failure)
unfolding list_tools
unread = refl

build_visible_set-failed_example : is_tool_visible gateway "elastic.search" ≡ true
build_visible_set-failed_example =
    build_visible_set-failed gateway unreachable "elastic.search" refl unread still_shown

-- The scope has not expired at 1, nor expires it then.
not_now : (s : AgentScope) → lookup "root" gateway.scopes ≡ some s → pos 1 ≢ s.expires_at
unfolding lookup
not_now s e k = cc (e, k)

filter_tools_for_agent-offered_example :
    filter_tools_for_agent gateway
      (pos 1)
      (some "root")
      ("spawn" ∷ "elastic.search" ∷ "elastic.count" ∷ [])
    ≡ select_rows
        (offered gateway (pos 1) "root" {set = shown} refl not_now)
        ("spawn" ∷ "elastic.search" ∷ "elastic.count" ∷ [])
filter_tools_for_agent-offered_example =
    filter_tools_for_agent-offered gateway (pos 1) "root" {set = shown} refl not_now
      ("spawn" ∷ "elastic.search" ∷ "elastic.count" ∷ [])

visible_tools_for_agent-In_example :
    In (entry "search") (visible_tools_for_agent gateway (pos 1) "root") ↔ (
      In (key_of (entry "search"), entry "search") gateway.catalog
      × (is_tool_visible_for_agent gateway (pos 1) "root" (key_of (entry "search")) ≡ true))
visible_tools_for_agent-In_example =
    visible_tools_for_agent-In gateway (pos 1) "root" {set = shown} refl (refl, (refl, (refl, tt)))
      (entry "search")
