-- ===== src/Gateway/Visibility/Shown.antt =====
-- What a build makes visible, by the registry's answer: `BuildVisibleSet` of internal/gateway/gateway.go.
use fracta.Common.{
  String, same, same→≡, ≡→same, Bool, true, false, Bool-cases, none, some, List, [], ◌∷◌, ◌++◌, ◌≡◌,
  ◌≢◌, refl, sym, ap, ◌∙◌, ◌↔◌, ◌⊎◌, inl, inr, All, put, lookup, lookup-put, lookup-put_other,
  if◌then◌else◌,
}
use mathlib.Core.Path.{subst}
use fracta.World.{World, Outcome, ok, err}
use fracta.Registry.{Tool, ToolFilter}
use fracta.Registry.Store.{list_tools}
use fracta.Gateway.{CatalogEntry, Gateway}
use fracta.Gateway.Policy.{policy_allowed}
use fracta.Gateway.Visibility.{
  namespaced, is_key, policy_or_nil, begin_build, enabled_map, end_build, after_reading,
  read_and_end, is_tool_visible,
}
use fracta.Gateway.Visibility.Laws.{ShownBy, end_build-ShownBy}

abbrev key_of : Tool → String
key_of t = namespaced t.server_name t.tool_name

-- The last of the registry's tools with the name is disabled.
abbrev pub Disabled : List Tool → String → Type 0
Disabled ts ns =
    (before : List Tool) × (after : List Tool) × (t : Tool) × (ts ≡ before ++ (t ∷ after))
    × (key_of t ≡ ns)
    × (t.enabled ≡ false)
    × All (λ u. key_of u ≢ ns) after

module _ (ns : String) where
  not_listed :
      (ts : List Tool) (m : List (String × Bool))
      → All (λ u. key_of u ≢ ns) ts
      → lookup ns (enabled_map ts m) ≡ lookup ns m
  unfolding enabled_map
  not_listed [] m a = refl
  not_listed (t ∷ ts) m a =
      not_listed ts (put (key_of t) t.enabled m) a.1 ∙ elim (Bool-cases (same (key_of t) ns)) [
        | inl equal ↦ absurd (a.0 (same→≡ (key_of t) ns equal))
        | inr other ↦ lookup-put_other ns (key_of t) t.enabled m other
      ]

  Disabled-lookup :
      (before after : List Tool) (t : Tool) (m : List (String × Bool))
      → key_of t ≡ ns
      → t.enabled ≡ false
      → All (λ u. key_of u ≢ ns) after
      → lookup ns (enabled_map (before ++ (t ∷ after)) m) ≡ some false
  unfolding enabled_map
  Disabled-lookup [] after t m k off a =
      not_listed after (put (key_of t) t.enabled m) a
      ∙ ap (λ x. lookup x (put (key_of t) t.enabled m)) (sym k)
      ∙ lookup-put (key_of t) t.enabled m
      ∙ ap some off
  Disabled-lookup (u ∷ before) after t m k off a =
      Disabled-lookup before after t (put (key_of u) u.enabled m) k off a

  lookup-Disabled :
      (ts : List Tool) (m : List (String × Bool))
      → lookup ns (enabled_map ts m) ≡ some false
      → Disabled ts ns ⊎ ((lookup ns m ≡ some false) × All (λ u. key_of u ≢ ns) ts)
  unfolding enabled_map
  lookup-Disabled [] m h = inr (h, tt)
  lookup-Disabled (t ∷ ts) m h = elim (lookup-Disabled ts (put (key_of t) t.enabled m) h) [
    | inl (before, after, u, e, k, off, a) ↦
        inl (t ∷ before, after, u, ap (λ r. t ∷ r) e, k, off, a)
    | inr (found, a) ↦ elim (Bool-cases (same (key_of t) ns)) [
      | inl equal ↦
          let k : key_of t ≡ ns = same→≡ (key_of t) ns equal in
          let e : some t.enabled ≡ some false =
            sym (lookup-put (key_of t) t.enabled m)
            ∙ ap (λ x. lookup x (put (key_of t) t.enabled m)) k
            ∙ found in
          let off : t.enabled ≡ false = cc e in inl ([], ts, t, refl, k, off, a)
      | inr other ↦ inr (
        sym (lookup-put_other ns (key_of t) t.enabled m other) ∙ found,
        (λ k. cc (other, ≡→same (key_of t) ns k), a),
      )
    ]
  ]

  empty_map : lookup ns [] ≢ some false
  unfolding lookup
  empty_map h = cc

  told_off : (ts : List Tool) → (lookup ns (enabled_map ts []) ≡ some false) ↔ Disabled ts ns
  told_off ts = (
    λ h. elim (lookup-Disabled ts [] h) [ inl d ↦ d | inr (e, a) ↦ absurd (empty_map e) ],
    λ (before, after, t, e, k, off, a).
        ap (λ r. lookup ns (enabled_map r [])) e ∙ Disabled-lookup before after t [] k off a,
  )

if_cases :
    {A : Type 0} (P : A → Type 0) (b : Bool) {x y : A}
    → (b ≡ true → P x)
    → (b ≡ false → P y)
    → P (if b then x else y)
if_cases P true h k = h refl
if_cases P false h k = k refl

abbrev pub all_tools : ToolFilter
all_tools = record { server_name = ""; enabled = none }

-- There is no registry, or its list of tools is read.
abbrev pub Answers : Gateway → World → List Tool → Type 0
Answers g w ts = (g.has_registry ≡ false) ⊎ ((list_tools all_tools w).0 ≡ ok ts)

-- The tool is in the catalog at the beginning and at the end, the policy of its server allows it, and
-- there is no registry or its answer does not disable it.
abbrev pub Shown : Gateway → Gateway → List Tool → String → Type 0
Shown g h ts ns =
    (e : CatalogEntry) × (lookup ns g.catalog ≡ some e)
    × (is_key (lookup ns h.catalog) ≡ true)
    × (policy_allowed (policy_or_nil (lookup e.server_name g.tool_policies)) e.original_name ≡ true)
    × ((g.has_registry ≡ false) ⊎ ¬ Disabled ts ns)

module _ (g h : Gateway) (w : World) (ts : List Tool) (ns : String) where
  -- How a build ends, and with which map.
  abbrev EndsBy : List (String × CatalogEntry) → Gateway → Type 0
  EndsBy m result =
      (enabled : List (String × Bool)) × (result ≡ end_build (begin_build g).0 enabled h)
      × ((m ≡ []) ⊎ ((g.has_registry ≡ false) ⊎ (enabled ≡ enabled_map ts [])))

  after_reading-EndsBy :
      (m : List (String × CatalogEntry)) (p : Outcome (List Tool) × World)
      → p.0 ≡ ok ts
      → EndsBy m (after_reading (begin_build g).0 h p).0
  unfolding after_reading
  after_reading-EndsBy m (err e, v) k = cc k
  after_reading-EndsBy m (ok us, v) k =
      let e : us ≡ ts = cc k in (enabled_map us [], refl, inr (inr (ap (λ r. enabled_map r []) e)))

  read_and_end-EndsBy :
      (m : List (String × CatalogEntry))
      → Answers g w ts
      → EndsBy m (read_and_end m (begin_build g).0 h w).0
  unfolding read_and_end begin_build
  read_and_end-EndsBy [] answers = ([], refl, inl refl)
  read_and_end-EndsBy (x ∷ m) answers =
      if_cases (λ (p : Gateway × World). EndsBy (x ∷ m) p.0) g.has_registry
        (λ r. elim answers [
          | inl without ↦ cc (r, without)
          | inr read ↦ after_reading-EndsBy (x ∷ m) (list_tools all_tools w) read
        ])
        (λ r. ([], refl, inr (inl r)))

  in_empty : (e : CatalogEntry) → lookup ns [] ≢ some e
  unfolding lookup
  in_empty e k = cc

  ShownBy-Shown :
      (enabled : List (String × Bool))
      → (g.catalog ≡ []) ⊎ ((g.has_registry ≡ false) ⊎ (enabled ≡ enabled_map ts []))
      → ShownBy g h enabled ns ↔ Shown g h ts ns
  unfolding lookup
  ShownBy-Shown enabled (inl empty) = (
    λ (e, found, _, _, _). absurd (in_empty e (sym (ap (lookup ns) empty) ∙ found)),
    λ (e, found, _, _, _). absurd (in_empty e (sym (ap (lookup ns) empty) ∙ found)),
  )
  ShownBy-Shown enabled (inr (inl r)) = (
    λ (e, found, listed, allowed, on). (e, found, listed, allowed, inl r),
    λ (e, found, listed, allowed, on). (e, found, listed, allowed, inl r),
  )
  ShownBy-Shown enabled (inr (inr d)) = (
    λ (e, found, listed, allowed, on). (
      e,
      found,
      listed,
      allowed,
      elim on [
        | inl r ↦ inl r
        | inr k ↦ inr (λ off. k (ap (lookup ns) d ∙ (told_off ns ts).1 off))
      ],
    ),
    λ (e, found, listed, allowed, on). (
      e,
      found,
      listed,
      allowed,
      elim on [
        | inl r ↦ inl r
        | inr k ↦ inr (λ off. k ((told_off ns ts).0 (sym (ap (lookup ns) d) ∙ off)))
      ],
    ),
  )

  -- If the registry, where there is one, answers, a build that no newer one overtakes makes a tool
  -- visible just where it was in the catalog at its beginning and is at its end, the policy that its
  -- server had at the beginning allows it, and the registry's answer, if there is a registry, does not
  -- disable it; whatever other calls have changed in between.
  pub read_and_end-Shown :
      Answers g w ts
      → h.visible_gen ≡ (begin_build g).0.gen
      → (is_tool_visible (read_and_end (begin_build g).0.entries (begin_build g).0 h w).0 ns ≡ true)
        ↔ Shown g h ts ns
  unfolding begin_build
  read_and_end-Shown answers latest =
      let (enabled, e, how) = read_and_end-EndsBy g.catalog answers in
      let by = end_build-ShownBy g h enabled ns latest in
      let as_told = ShownBy-Shown enabled how in
      (
        λ v. as_told.0 (by.0 (subst (λ k. is_tool_visible k ns ≡ true) e v)),
        λ s. subst (λ k. is_tool_visible k ns ≡ true) (sym e) (by.1 (as_told.1 s)),
      )
