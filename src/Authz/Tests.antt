-- ===== src/Authz/Tests.antt =====
-- The matrix of roles at some of its entries.
use fracta.Common.{true, false, ◌≡◌, refl, lookup}
use fracta.Authz.{Operation, permissions, role_allows}

operator_enables : role_allows "operator" Operation.enable_tool ≡ true
unfolding role_allows permissions lookup
operator_enables = refl

agent_calls : role_allows "agent" Operation.call_tool ≡ true
unfolding role_allows permissions lookup
agent_calls = refl

viewer_does_not_call : role_allows "viewer" Operation.call_tool ≡ false
unfolding role_allows permissions lookup
viewer_does_not_call = refl

unknown_role : role_allows "unknown" Operation.view_catalog ≡ false
unfolding role_allows permissions lookup
unknown_role = refl
