-- ===== src/Registry/Store/Upserts.antt =====
-- The inserts of a discovery: `ReplaceDiscoveredTools` of internal/registry/pgregistry/pgregistry.go.
use fracta.Common.{
  String, Time, same, same_refl, same→≡, Bool, true, false, ◌&&◌, Bool-cases, both, Option, none,
  some, List, [], ◌∷◌, ◌≡◌, refl, sym, ap, ◌∙◌, inl, inr, if◌then◌else◌, find_row, exists_row,
  exists_row-none, find_row-exists_row, find_row-update_row, find_row-append_other,
  find_row-append_new, find_row-update_row_other,
}
use fracta.World.{World, ok}
use fracta.World.Laws.{>>=-eq-ok}
use fracta.Registry.{Tool}
use fracta.Registry.Store.{
  is_tool, is_server, upsert, tool_row, seen_again, upsert_tool, upsert_tools,
}

abbrev pub enabled_found : Option Tool → Option Bool
enabled_found none = none
enabled_found (some t) = some t.enabled

-- Whether a tool is enabled, if it is known.
abbrev pub enabled_of : String → String → List Tool → Option Bool
enabled_of server tool ts = enabled_found (find_row (is_tool server tool) ts)

-- A tool that was not known is enabled when it is discovered.
abbrev pub or_enabled : Option Bool → Option Bool
or_enabled none = some true
or_enabled (some b) = some b

abbrev pub is_listed : String → List Tool → Bool
is_listed tool ts = exists_row (λ d. same d.tool_name tool) ts

pub is_tool-true :
    (s n : String) (t : Tool) → is_tool s n t ≡ true → (t.server_name ≡ s) × (t.tool_name ≡ n)
is_tool-true s n t h =
    let (a, b) = both (same t.server_name s) (same t.tool_name n) h in
    (same→≡ t.server_name s a, same→≡ t.tool_name n b)

module _ (server : String) (at : Time) (d : Tool) where
  -- The row of the discovered tool: what is enabled stays so, and what is not stays so as well.
  pub upsert-same :
      (ts : List Tool)
      → enabled_of server d.tool_name (
          upsert
            (is_tool server d.tool_name)
            (seen_again (tool_row server at d))
            (tool_row server at d)
            ts)
        ≡ or_enabled (enabled_of server d.tool_name ts)
  upsert-same ts = elim (Bool-cases (exists_row (is_tool server d.tool_name) ts)) [
    | inl there_is ↦
        let (r, e) = find_row-exists_row (is_tool server d.tool_name) ts there_is in
        rw (
          there_is,
          e,
          find_row-update_row (is_tool server d.tool_name) (seen_again (tool_row server at d)) ts r
              e (rw (same_refl server, same_refl d.tool_name)),
        )
    | inr none_is ↦
        let e = exists_row-none (is_tool server d.tool_name) ts none_is in
        rw (
          none_is,
          e,
          find_row-append_new (is_tool server d.tool_name) ts (tool_row server at d) e
              (rw (same_refl server, same_refl d.tool_name)),
        )
  ]

  -- Every other tool is left as it is.
  pub upsert-other :
      (s n : String) (ts : List Tool)
      → same server s && same d.tool_name n ≡ false
      → find_row (is_tool s n) (
          upsert
            (is_tool server d.tool_name)
            (seen_again (tool_row server at d))
            (tool_row server at d)
            ts)
        ≡ find_row (is_tool s n) ts
  upsert-other s n ts h = elim (Bool-cases (exists_row (is_tool server d.tool_name) ts)) [
    | inl there_is ↦ rw there_is (
        find_row-update_row_other (is_tool s n) (is_tool server d.tool_name)
          (seen_again (tool_row server at d)) ts
          (λ r e. let (a, b) = is_tool-true server d.tool_name r e in rw (a, b) h) (λ r e. h))
    | inr none_is ↦ rw none_is (find_row-append_other (is_tool s n) ts (tool_row server at d) h)
  ]

  pub upsert_tool-ok :
      (w : World) {v : World}
      → upsert_tool server at d w ≡ (ok tt, v)
      → v.tools
        ≡ upsert
            (is_tool server d.tool_name)
            (seen_again (tool_row server at d))
            (tool_row server at d)
            w.tools
  unfolding upsert_tool
  upsert_tool-ok w h = elim (Bool-cases (w.fault w.calls)) [
    | inl fails ↦ cc (rw fails at h)
    | inr passes ↦ elim (Bool-cases (exists_row (is_server server) w.servers)) [
      | inl there_is ↦ sym (ap (λ p. p.1.tools) (rw (passes, there_is) at h))
      | inr none_is ↦ cc (rw (passes, none_is) at h)
    ]
  ]

pub or_enabled_twice : (o : Option Bool) → or_enabled (or_enabled o) ≡ or_enabled o
or_enabled_twice none = refl
or_enabled_twice (some b) = refl

module _ (server : String) (at : Time) where
  pub upsert_tools-enabled :
      (ts : List Tool) (n : String) (w : World) {v : World}
      → upsert_tools server at ts w ≡ (ok tt, v)
      → enabled_of server n v.tools ≡ (
          if is_listed n ts
          then or_enabled (enabled_of server n w.tools)
          else enabled_of server n w.tools)
  unfolding upsert_tools
  upsert_tools-enabled [] n w h = sym (ap (λ p. enabled_of server n p.1.tools) h)
  upsert_tools-enabled (d ∷ ts) n w {v = v} h =
      let (_, u, first, rest) =
        >>=-eq-ok (upsert_tool server at d) (λ _. upsert_tools server at ts) w h in
      let later = upsert_tools-enabled ts n u {v = v} rest in
      let e = upsert_tool-ok server at d w first in
      elim (Bool-cases (same d.tool_name n)) [
        | inl hit ↦
            let now_enabled : enabled_of server n u.tools
                ≡ or_enabled (enabled_of server n w.tools) =
              rw (e, sym (same→≡ d.tool_name n hit)) (upsert-same server at d w.tools) in
            elim (Bool-cases (is_listed n ts)) [
              | inl again ↦ rw hit (
                  (rw again at later)
                  ∙ ap or_enabled now_enabled
                  ∙ or_enabled_twice (enabled_of server n w.tools))
              | inr once ↦ rw hit ((rw once at later) ∙ now_enabled)
            ]
        | inr miss ↦
            let kept : enabled_of server n u.tools ≡ enabled_of server n w.tools = rw e (
              ap enabled_found
                (upsert-other server at d server n w.tools (rw (same_refl server, miss) refl))) in
            rw (miss, sym kept) later
      ]

  pub upsert_tools-other :
      (ts : List Tool) (s n : String) (w : World) {v : World}
      → same server s ≡ false
      → upsert_tools server at ts w ≡ (ok tt, v)
      → find_row (is_tool s n) v.tools ≡ find_row (is_tool s n) w.tools
  unfolding upsert_tools
  upsert_tools-other [] s n w k h = sym (ap (λ p. find_row (is_tool s n) p.1.tools) h)
  upsert_tools-other (d ∷ ts) s n w k h =
      let (_, u, first, rest) =
        >>=-eq-ok (upsert_tool server at d) (λ _. upsert_tools server at ts) w h in
      upsert_tools-other ts s n u k rest
      ∙ (rw (upsert_tool-ok server at d w first) (upsert-other server at d s n w.tools (rw k refl)))
