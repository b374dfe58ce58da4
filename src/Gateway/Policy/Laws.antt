-- ===== src/Gateway/Policy/Laws.antt =====
-- What the patterns and the policies mean: internal/gateway/policy.go.
use Prim.Native.String.{len, []}
use text.Mathlib.TextBridge.{IsPrefix}
use text.Mathlib.TextEquality.{starts_with_iff}
use text.Mathlib.TextPositions.{len-append, slice-append_left, slice-append_right}
use text.Mathlib.TextLemmas.{append_cancel_right, nil-append}
use fracta.Common.{
  ◌+◌, ◌-◌, String, ◌⧺◌, same, same→≡, ≡→same, ◌||◌, Bool, true, false, not, ◌&&◌, Bool-cases, some,
  List, [], ◌∷◌, ◌≡◌, ◌≢◌, refl, sym, ◌∙◌, ◌↔◌, ◌⊎◌, inl, inr, In, here, there, if◌then◌else◌,
  arith,
}
use fracta.Gateway.{ToolPolicy}
use fracta.Gateway.Policy.{has_star, before_star, matches, matches_any, is_empty, policy_allowed}

length_glob : (q : String) → len (q ⧺ "*") ≡ len q + 1
length_glob q = len-append q "*"

before_star_glob : (q : String) → before_star (q ⧺ "*") ≡ q
unfolding before_star
before_star_glob q =
    let e : len (q ⧺ "*") - 1 ≡ len q = let h = length_glob q in omega arith in
    rw e (slice-append_left q "*")

has_star_glob : (q : String) → has_star (q ⧺ "*") ≡ true
unfolding has_star
has_star_glob q =
    let e : len (q ⧺ "*") - 1 ≡ len q = let h = length_glob q in omega arith in
    ≡→same _ "*" (rw (e, length_glob q) (slice-append_right q "*"))

or_true : (b : Bool) → b || true ≡ true
or_true true = refl
or_true false = refl

star_has_star : (p : String) → p ≡ "*" → has_star p ≢ false
unfolding has_star
star_has_star p e h = cc (rw e at h)

-- A pattern that ends with a star matches the names that begin with the rest of it.
pub matches-prefix : (q name : String) → (matches (q ⧺ "*") name ≡ true) ↔ IsPrefix q name
unfolding matches
matches-prefix q name = (
  λ h. elim (Bool-cases (same (q ⧺ "*") "*")) [
    | inl everything ↦
        let e : q ≡ "" =
          append_cancel_right q "" "*" (same→≡ (q ⧺ "*") "*" everything ∙ sym (nil-append "*")) in
        (name, rw e (nil-append name))
    | inr all_star ↦ elim (Bool-cases (same (q ⧺ "*") name)) [
      | inl exact ↦ ("*", same→≡ (q ⧺ "*") name exact)
      | inr exact_not ↦
          (starts_with_iff name q).0
            (rw (all_star, exact_not, has_star_glob q, before_star_glob q) at h)
    ]
  ],
  λ p.
      rw (has_star_glob q, before_star_glob q, (starts_with_iff name q).1 p)
        (or_true (same (q ⧺ "*") "*" || same (q ⧺ "*") name)),
)

-- A pattern that does not end with a star matches its own name.
pub matches-exact : (p name : String) → has_star p ≡ false → (matches p name ≡ true) ↔ (p ≡ name)
unfolding matches
matches-exact p name h = (
  λ k. elim (Bool-cases (same p name)) [
    | inl exact ↦ same→≡ p name exact
    | inr other ↦ elim (Bool-cases (same p "*")) [
      | inl star ↦ absurd (star_has_star p (same→≡ p "*" star) h)
      | inr other_star ↦ cc (rw (h, other, other_star) at k)
    ]
  ],
  λ e. rw (≡→same p name e) (ground arith),
)

-- Some pattern of the list matches.
matches_any-In :
    (ps : List String) (name : String)
    → (matches_any ps name ≡ true) ↔ ((p : String) × In p ps × (matches p name ≡ true))
unfolding matches_any
matches_any-In [] name = (λ h. cc, λ g. elim g.1 [ ])
matches_any-In (q ∷ ps) name = (
  λ h. elim (Bool-cases (matches q name)) [
    | inl hit ↦ (q, here refl, hit)
    | inr miss ↦ let (p, i, m) = (matches_any-In ps name).0 (rw miss at h) in (p, there i, m)
  ],
  λ g. elim (Bool-cases (matches q name)) [
    | inl hit ↦ rw hit
    | inr miss ↦ rw miss ((matches_any-In ps name).1 (later g.0 g.1 g.2 miss))
  ],
)
  where
    later :
        (p : String)
        → In p (q ∷ ps)
        → matches p name ≡ true
        → matches q name ≡ false
        → (r : String) × In r ps × (matches r name ≡ true)
    later p (here e) m miss = cc (rw e at m, miss)
    later p (there i) m miss = (p, i, m)

tests_passed :
    (a b d : Bool)
    → (if not a && not b then false else if d then false else true) ≡ true
    → (d ≡ false) × ((a ≡ true) ⊎ (b ≡ true))
tests_passed a b true h = ground arith
tests_passed true b false h = (refl, inl refl)
tests_passed false true false h = (refl, inr refl)
tests_passed false false false h = cc

empty-nil : (ps : List String) → is_empty ps ≡ true → ps ≡ []
empty-nil [] h = refl
empty-nil (p ∷ ps) h = cc

-- Some pattern of the list matches the name.
abbrev pub SomeMatches : List String → String → Type 0
SomeMatches ps name = (p : String) × In p ps × (matches p name ≡ true)

-- A policy allows a tool just where no pattern of `deny` matches it and, unless `allow_only` is empty,
-- one of its patterns does.
pub policy_allowed_iff :
    (p : ToolPolicy) (name : String)
    → (policy_allowed (some p) name ≡ true)
      ↔ ((SomeMatches p.deny name → ⊥) × ((p.allow_only ≡ []) ⊎ SomeMatches p.allow_only name))
unfolding policy_allowed
policy_allowed_iff p name = (
  λ h.
      let (denied, listed) =
        tests_passed (is_empty p.allow_only) (matches_any p.allow_only name)
          (matches_any p.deny name) h in
      (
        λ some_denied. cc ((matches_any-In p.deny name).1 some_denied, denied),
        elim listed [
          | inl empty ↦ inl (empty-nil p.allow_only empty)
          | inr matched ↦ inr ((matches_any-In p.allow_only name).0 matched)
        ],
      ),
  λ g.
      let denied : matches_any p.deny name ≡ false = elim (Bool-cases (matches_any p.deny name)) [
        | inl hit ↦ absurd (g.0 ((matches_any-In p.deny name).0 hit))
        | inr miss ↦ miss
      ] in
      elim g.1 [
        | inl empty ↦ rw (empty, denied) refl
        | inr matched ↦ rw ((matches_any-In p.allow_only name).1 matched, denied) (ground arith)
      ],
)
