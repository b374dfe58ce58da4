-- ===== src/Common/Texts.antt =====
-- Texts are compared whole: keys, names and identifiers.
use Prim.Native.Nat.{ℕ, zero, suc, ◌+◌, ◌/◌, ◌%◌, ◌<◌}
use Prim.Native.String.{String, ◌++◌ as ◌⧺◌, slice, compare}
use text.Mathlib.Text.{◌==◌ as str_eq, is_le, starts_with as str_starts_with}
use text.Mathlib.TextEquality.{eq_iff}
use text.Mathlib.TextPositions.{eq_refl}
use mathlib.Core.Path.{◌≡◌, sym}
use mathlib.Core.Bool.{Bool, true, false}
use mathlib.Core.Logic.{inl, inr}
use native.Mathlib.Omega.{arith}
use fracta.Common.Tests.{ltb, if◌then◌else◌, Bool-cases}
use fracta.Common.Int.{ℤ, pos, negsuc}

abbrev pub same : String → String → Bool
same = str_eq

pub same_refl : (s : String) → same s s ≡ true
same_refl s = eq_refl s

pub same→≡ : (s t : String) → same s t ≡ true → s ≡ t
same→≡ s t h = (eq_iff s t).0 h

pub ≡→same : (s t : String) → s ≡ t → same s t ≡ true
≡→same s t h = (eq_iff s t).1 h

pub same_swap : (s t : String) → same s t ≡ false → same t s ≡ false
same_swap s t h = elim (Bool-cases (same t s)) [
  | inl equal ↦ cc (≡→same s t (sym (same→≡ t s equal)), h)
  | inr different ↦ different
]

abbrev pub starts_with : String → String → Bool
starts_with = str_starts_with

-- `<=` on texts.
abbrev pub text_leb : String → String → Bool
text_leb s t = is_le (compare s t)

abbrev digit : ℕ → String
digit d = slice "0123456789" d (d + 1)

-- The decimal digits of a number in front of a text.
digits_before : ℕ → ℕ → String → String
digits_before zero n acc = acc
digits_before (suc fuel) n acc =
    let rest = digits_before fuel (n / 10) (digit (n % 10) ⧺ acc) in
    if ltb n 10 then digit n ⧺ acc else rest

-- More fuel than the number itself makes no difference.
digits_before_fuel :
    (f g n : ℕ) (acc : String) → n < f → n < g → digits_before f n acc ≡ digits_before g n acc
unfolding digits_before
digits_before_fuel zero g n acc h k = elim h [ ]
digits_before_fuel (suc f) zero n acc h k = elim k [ ]
digits_before_fuel (suc f) (suc g) n acc h k = elim (Bool-cases (ltb n 10)) [
  | inl small ↦ rw small
  | inr large ↦
      rw large
        (digits_before_fuel f g (n / 10) (digit (n % 10) ⧺ acc) (ground arith) (ground arith))
]

-- `%d` of a number that is not negative, and of any.
unfoldable pub decimal : ℕ → String
unfolding digits_before
decimal n = digits_before (suc n) n ""

-- The digits do not depend on the fuel, as long as it is more than the number.
decimal_fuel : (f n : ℕ) → n < f → digits_before f n "" ≡ decimal n
unfolding decimal
decimal_fuel f n h = digits_before_fuel f (suc n) n "" h (omega arith)

unfoldable pub decimal_int : ℤ → String
unfolding decimal
decimal_int (pos n) = decimal n
decimal_int (negsuc n) = "-" ⧺ decimal (suc n)
