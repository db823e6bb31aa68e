-- ===== src/Float.antt =====
-- Rust's `f64`. A number is its bit pattern; arithmetic, comparison, literals and printing are the
-- hardware's and the standard library's, and enter as the record `Floats`, which the definitions
-- that compute with floats take as an argument.
use Prim.Native.Nat.{Ordering}
use jw_swarm.Common.{ℕ, Bool, true, false, String, Option, none, some, ◌≡◌}

pub record F64 : Type 0 where
  pub bits : ℕ

pub record Floats : Type 0 where
  -- `literal m k` is the float nearest to m / 10^k
  pub literal : ℕ → ℕ → F64
  pub neg_infinity : F64
  -- `n as f64`
  pub of_ℕ : ℕ → F64
  pub add : F64 → F64 → F64
  pub sub : F64 → F64 → F64
  pub mul : F64 → F64 → F64
  pub div : F64 → F64 → F64
  -- `f64::min`
  pub min : F64 → F64 → F64
  pub partial_cmp : F64 → F64 → Option Ordering
  -- `{:.0}`
  pub print_rounded : F64 → String

-- The value of a comparison that answered, and of one that met a NaN.
abbrev pub is_greater : Option Ordering → Bool
is_greater none = false
is_greater (some Ordering.lt) = false
is_greater (some Ordering.eq) = false
is_greater (some Ordering.gt) = true

abbrev pub is_less_or_equal : Option Ordering → Bool
is_less_or_equal none = false
is_less_or_equal (some Ordering.lt) = true
is_less_or_equal (some Ordering.eq) = true
is_less_or_equal (some Ordering.gt) = false

module _ (fl : Floats) where
  abbrev pub zero_f : F64
  zero_f = fl.literal 0 0

  -- `a > b`
  abbrev pub gt : F64 → F64 → Bool
  gt a b = is_greater (fl.partial_cmp a b)

  -- `a <= b`
  abbrev pub le : F64 → F64 → Bool
  le a b = is_less_or_equal (fl.partial_cmp a b)

  -- Not a NaN: `a == a`.
  abbrev pub IsNumber : F64 → Type 0
  IsNumber a = fl.partial_cmp a a ≡ some Ordering.eq

  -- IEEE 754 comparison, on numbers that are not NaN.
  pub record CmpLaws : Type 0 where
    pub le_or_gt : (a b : F64) → IsNumber a → IsNumber b → le a b ≡ false → gt a b ≡ true
    pub gt-ge : (a b : F64) → gt a b ≡ true → le b a ≡ true
    pub le_trans : (a b c : F64) → le a b ≡ true → le b c ≡ true → le a c ≡ true
