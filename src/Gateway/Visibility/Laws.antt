-- ===== src/Gateway/Visibility/Laws.antt =====
-- What the visible set holds: `BuildVisibleSet` and `IsToolVisible` of internal/gateway/gateway.go.
use fracta.Common.{
  ℕ, ◌==◌, String, Bool, true, false, ◌&&◌, both, Bool-cases, Option, none, some, List, [], ◌∷◌,
  ◌≡◌, ◌≢◌, refl, ap, ◌∙◌, ◌↔◌, ◌⊎◌, inl, inr, if◌then◌else◌, arith, lookup, lookup-map_values,
}
use mathlib.Core.Path.{subst}
use mathlib.Core.Option.{map as map_option}
use fracta.World.{World, Error, Outcome, ok, err}
use fracta.Registry.{Tool}
use fracta.Registry.Store.{list_tools}
use fracta.Gateway.{CatalogEntry, Gateway}
use fracta.Gateway.Policy.{policy_allowed}
use fracta.Gateway.Visibility.{
  true_or_missing, is_key, policy_or_nil, Build, begin_build, enabled_map, enabled_unless_told,
  shows, end_build, after_reading, read_and_end, build_visible_set, visible_in, is_tool_visible,
}

-- A build that ends after another has begun changes nothing.
pub end_build-overtaken :
    (b : Build) (enabled : List (String × Bool)) (g : Gateway)
    → g.visible_gen ≢ b.gen
    → end_build b enabled g ≡ g
unfolding end_build
end_build-overtaken b enabled g h = elim (Bool-cases (g.visible_gen == b.gen)) [
  | inl equal ↦ absurd (h (ground arith))
  | inr newer ↦ rw newer
]

eq_self : (n : ℕ) → n == n ≡ true
eq_self n = ground arith

unless_told : (o : Option Bool) → (enabled_unless_told o ≡ true) ↔ (o ≢ some false)
unless_told none = (λ h e. cc, λ h. refl)
unless_told (some true) = (λ h e. cc, λ h. refl)
unless_told (some false) = (λ h e. cc, λ h. absurd (h refl))

-- `g` is the gateway at the beginning of a build, and `h` the one at its end.
module _ (g h : Gateway) (enabled : List (String × Bool)) (ns : String) where
  abbrev built : Build
  built = (begin_build g).0

  -- What the end of the build makes visible, by the map of the enabled tools.
  abbrev pub ShownBy : Type 0
  ShownBy =
      (e : CatalogEntry) × (lookup ns g.catalog ≡ some e)
      × (is_key (lookup ns h.catalog) ≡ true)
      × (policy_allowed (policy_or_nil (lookup e.server_name g.tool_policies)) e.original_name
          ≡ true)
      × ((g.has_registry ≡ false) ⊎ (lookup ns enabled ≢ some false))

  found-ShownBy :
      (o : Option CatalogEntry)
      → lookup ns g.catalog ≡ o
      → is_key (lookup ns h.catalog) && true_or_missing (map_option (shows built enabled ns) o)
        ≡ true
      → ShownBy
  unfolding begin_build shows
  found-ShownBy none found k = let (_, b) = both (is_key (lookup ns h.catalog)) false k in cc b
  found-ShownBy (some e) found k =
      let allowed =
        policy_allowed (policy_or_nil (lookup e.server_name g.tool_policies)) e.original_name in
      let on = if g.has_registry then enabled_unless_told (lookup ns enabled) else true in
      let (listed, value) = both (is_key (lookup ns h.catalog)) (on && allowed) k in
      let (a, b) = both on allowed value in
      (
        e,
        found,
        listed,
        b,
        elim (Bool-cases g.has_registry) [
          | inl r ↦ inr ((unless_told (lookup ns enabled)).0 (rw r at a))
          | inr r ↦ inl r
        ],
      )

  ShownBy-found :
      ShownBy
      → is_key (lookup ns h.catalog)
          && true_or_missing (map_option (shows built enabled ns) (lookup ns g.catalog))
        ≡ true
  unfolding begin_build shows
  ShownBy-found (e, found, listed, allowed, on) =
      rw (found, listed, allowed)
        (elim on [
          | inl r ↦ rw r refl
          | inr k ↦ elim (Bool-cases g.has_registry) [
            | inl r ↦ rw (r, (unless_told (lookup ns enabled)).1 k) refl
            | inr r ↦ rw r refl
          ]
        ])

  pub end_build-ShownBy :
      h.visible_gen ≡ built.gen → (is_tool_visible (end_build built enabled h) ns ≡ true) ↔ ShownBy
  unfolding end_build is_tool_visible visible_in begin_build
  end_build-ShownBy latest =
      rw
        (
          latest,
          eq_self (begin_build g).0.gen,
          lookup-map_values (shows built enabled) ns g.catalog,
        )
        (found-ShownBy (lookup ns g.catalog) refl, ShownBy-found)

if_true : {A : Type 0} (b : Bool) (x y : A) → b ≡ true → (if b then x else y) ≡ x
if_true true x y h = refl
if_true false x y h = cc

if_either : {A : Type 0} (P : A → Type 0) (b : Bool) {x y : A} → P x → P y → P (if b then x else y)
if_either P true h k = h
if_either P false h k = k

-- Before the set is built, and when the registry cannot be read.
module _ (g : Gateway) (w : World) (ns : String) where
  abbrev reading : Outcome (List Tool) × World
  reading = list_tools (record { server_name = ""; enabled = none }) w

  failed_reading :
      (b : Build) (h : Gateway) (p : Outcome (List Tool) × World) {e : Error} {v : World}
      → p ≡ (err e, v)
      → (after_reading b h p).0 ≡ h
  unfolding after_reading
  failed_reading b h (err _, _) k = refl
  failed_reading b h (ok _, _) k = cc

  build-failed :
      (m : List (String × CatalogEntry)) (b : Build) (h : Gateway) {e : Error} {v : World}
      → h.catalog ≡ m
      → b.gen ≡ h.visible_gen
      → b.has_store ≡ true
      → reading ≡ (err e, v)
      → is_tool_visible (read_and_end m b h w).0 ns ≡ true
      → is_tool_visible h ns ≡ true
  unfolding read_and_end is_tool_visible visible_in end_build
  build-failed [] b h c n r k t = cc (rw (n, eq_self h.visible_gen, c) at t)
  build-failed (x ∷ m) b h c n r k t =
      let e : (read_and_end (x ∷ m) b h w).0 ≡ h =
        ap (λ p. p.0) (if_true b.has_store (after_reading b h reading) (end_build b [] h, w) r)
        ∙ failed_reading b h reading k in
      subst (λ k. is_tool_visible k ns ≡ true) e t

  -- When the registry cannot be read a build makes no tool visible that was not.
  pub build_visible_set-failed :
      {e : Error} {v : World}
      → g.has_registry ≡ true
      → reading ≡ (err e, v)
      → is_tool_visible (build_visible_set g w).0 ns ≡ true
      → is_tool_visible g ns ≡ true
  unfolding build_visible_set begin_build is_tool_visible
  build_visible_set-failed r k t =
      build-failed g.catalog (begin_build g).0 (begin_build g).1 refl refl r k t

-- A build leaves the catalog.
end_build-catalog :
    (b : Build) (enabled : List (String × Bool)) (g : Gateway)
    → (end_build b enabled g).catalog ≡ g.catalog
unfolding end_build
end_build-catalog b enabled g = elim (Bool-cases (g.visible_gen == b.gen)) [
  | inl latest ↦ rw latest refl
  | inr older ↦ rw older refl
]

after_reading-catalog :
    (b : Build) (g : Gateway) (p : Outcome (List Tool) × World)
    → (after_reading b g p).0.catalog ≡ g.catalog
unfolding after_reading
after_reading-catalog b g (err e, w) = refl
after_reading-catalog b g (ok ts, w) = end_build-catalog b (enabled_map ts []) g

read_and_end-catalog :
    (m : List (String × CatalogEntry)) (b : Build) (g : Gateway) (w : World)
    → (read_and_end m b g w).0.catalog ≡ g.catalog
unfolding read_and_end
read_and_end-catalog [] b g w = end_build-catalog b [] g
read_and_end-catalog (x ∷ m) b g w =
    if_either (λ (p : Gateway × World). p.0.catalog ≡ g.catalog) b.has_store
      (after_reading-catalog b g (list_tools (record { server_name = ""; enabled = none }) w))
      (end_build-catalog b [] g)

pub build_visible_set-catalog :
    (g : Gateway) (w : World) → (build_visible_set g w).0.catalog ≡ g.catalog
unfolding build_visible_set begin_build
build_visible_set-catalog g w =
    read_and_end-catalog (begin_build g).0.entries (begin_build g).0 (begin_build g).1 w
