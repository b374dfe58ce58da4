-- ===== src/Authz/Laws.antt =====
-- What the matrix of roles grants: internal/authz/policy.go and rules.go.
use fracta.Common.{
  String, same, same→≡, ≡→same, true, false, Bool-cases, none, List, [], ◌∷◌, ◌≡◌, refl, sym, inl,
  inr, ◌↔◌, In, here, there, arith, lookup,
}
use fracta.Authz.{
  Operation, Subject, Resource, has_role, permissions, role_allows, some_role_allows, authorize,
}

some_role_allows-In :
    (rs : List String) (act : Operation)
    → some_role_allows rs act ≡ true
    → (r : String) × In r rs × (role_allows r act ≡ true)
unfolding some_role_allows
some_role_allows-In [] act h = cc
some_role_allows-In (r ∷ rs) act h = elim (Bool-cases (role_allows r act)) [
  | inl granted ↦ (r, here refl, granted)
  | inr denied ↦ let (s, i, g) = some_role_allows-In rs act (rw denied at h) in (s, there i, g)
]

In-some_role_allows :
    (rs : List String) (r : String) (act : Operation)
    → In r rs
    → role_allows r act ≡ true
    → some_role_allows rs act ≡ true
unfolding some_role_allows
In-some_role_allows [] r act i h = elim i [ ]
In-some_role_allows (s ∷ rs) r act (here e) h =
    let g : role_allows s act ≡ true = rw (sym e) h in rw g
In-some_role_allows (s ∷ rs) r act (there i) h = elim (Bool-cases (role_allows s act)) [
  | inl granted ↦ rw granted
  | inr denied ↦ rw denied (In-some_role_allows rs r act i h)
]

-- A subject may do what one of its roles allows, and nothing else.
pub authorize-granted :
    (sub : Subject) (act : Operation) (res : Resource)
    → (authorize sub act res ≡ none) ↔ ((r : String) × In r sub.roles × (role_allows r act ≡ true))
unfolding authorize
authorize-granted sub act res = (
  λ h. elim (Bool-cases (some_role_allows sub.roles act)) [
    | inl granted ↦ some_role_allows-In sub.roles act granted
    | inr denied ↦ cc (rw denied at h)
  ],
  λ g. rw (In-some_role_allows sub.roles g.0 act g.1 g.2),
)

In-has_role : (rs : List String) (r : String) → In r rs → has_role rs r ≡ true
unfolding has_role
In-has_role [] r i = elim i [ ]
In-has_role (s ∷ rs) r (here e) = rw (≡→same s r (sym e))
In-has_role (s ∷ rs) r (there i) = elim (Bool-cases (same s r)) [
  | inl hit ↦ rw hit
  | inr miss ↦ rw miss (In-has_role rs r i)
]

-- The actions that change which servers there are or what secrets they use.
abbrev pub ManagesServers : Operation → Type 0
ManagesServers Operation.register_server = Unit
ManagesServers Operation.update_server = Unit
ManagesServers Operation.delete_server = Unit
ManagesServers Operation.bind_secret = Unit
ManagesServers _ = ⊥

refused_without_admin :
    (r : String) (act : Operation)
    → ManagesServers act
    → same "admin" r ≡ false
    → role_allows r act ≡ false
unfolding role_allows permissions lookup
refused_without_admin r Operation.register_server m h = ground arith
refused_without_admin r Operation.update_server m h = ground arith
refused_without_admin r Operation.delete_server m h = ground arith
refused_without_admin r Operation.bind_secret m h = ground arith
refused_without_admin r Operation.enable_tool m h = elim m [ ]
refused_without_admin r Operation.disable_tool m h = elim m [ ]
refused_without_admin r Operation.view_catalog m h = elim m [ ]
refused_without_admin r Operation.search_tool m h = elim m [ ]
refused_without_admin r Operation.view_status m h = elim m [ ]
refused_without_admin r Operation.call_tool m h = elim m [ ]
refused_without_admin r Operation.refresh_discovery m h = elim m [ ]

-- Whoever may change the servers or bind their secrets has the role "admin".
pub managing_needs_admin :
    (sub : Subject) (act : Operation) (res : Resource)
    → ManagesServers act
    → authorize sub act res ≡ none
    → has_role sub.roles "admin" ≡ true
managing_needs_admin sub act res m h =
    let (r, i, g) = (authorize-granted sub act res).0 h in
    elim (Bool-cases (same "admin" r)) [
      | inl hit ↦ In-has_role sub.roles "admin" (rw (same→≡ "admin" r hit) i)
      | inr miss ↦ cc (g, refused_without_admin r act m miss)
    ]
