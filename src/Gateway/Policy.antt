-- ===== src/Gateway/Policy.antt =====
-- Which tools a server's policy allows: internal/gateway/policy.go. A nil policy is none.
pub mod Laws
use Prim.Native.String.{slice, len}
use fracta.Common.{
  ◌-◌, String, same, text_leb, starts_with, Bool, true, false, not, ◌&&◌, ◌||◌, Option, none, some,
  List, [], ◌∷◌, if◌then◌else◌, sort_rows,
}
use fracta.Gateway.{ToolPolicy}

-- `strings.HasSuffix(p, "*")` and `p[:len(p)-1]`
unfoldable pub has_star : String → Bool
has_star p = same (slice p (len p - 1) (len p)) "*"

unfoldable pub before_star : String → String
before_star p = slice p 0 (len p - 1)

-- The two tests of the loop's body.
unfoldable pub matches : String → String → Bool
unfolding has_star before_star
matches p name = (same p "*" || same p name) || (has_star p && starts_with name (before_star p))

-- `matchesAny`
unfoldable pub matches_any : List String → String → Bool
unfolding matches has_star before_star
matches_any [] name = false
matches_any (p ∷ ps) name = let rest = matches_any ps name in if matches p name then true else rest

abbrev pub is_empty : List String → Bool
is_empty [] = true
is_empty (p ∷ ps) = false

-- `PolicyAllowed`
unfoldable pub policy_allowed : Option ToolPolicy → String → Bool
unfolding matches_any matches has_star before_star
policy_allowed none name = true
policy_allowed (some p) name =
    if not (is_empty p.allow_only) && not (matches_any p.allow_only name)
    then false
    else if matches_any p.deny name
    then false
    else true

-- `PolicyServerSummary` and `PolicySummary`: the map has the policies of the servers, of which a nil
-- one is left out.
pub record PolicyServerSummary : Type 0 where
  pub server : String
  pub deny : List String
  pub allow_only : List String

abbrev pub summaries : List (String × Option ToolPolicy) → List PolicyServerSummary
summaries [] = []
summaries ((name, none) ∷ m) = summaries m
summaries ((name, some p) ∷ m) =
    record { server = name; deny = p.deny; allow_only = p.allow_only } ∷ summaries m

unfoldable pub policy_summary : List (String × Option ToolPolicy) → List PolicyServerSummary
unfolding sort_rows
policy_summary m = sort_rows (λ a b. text_leb a.server b.server) (summaries m)
