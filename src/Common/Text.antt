-- ===== src/Common/Text.antt =====
-- Rust's `str` methods that the program calls, over the native texts.
use Prim.Native.Char.{Char, code}
use Prim.Native.String.{String, [], ◌∷◌}
use mathlib.Core.Bool.{Bool, true, false, ◌&&◌, ◌||◌}
use jw_swarm.Common.Int.{ℤ, pos, negsuc}
use mathlib.Core.Option.{Option, none, some}
use Prim.Native.Nat.{ℕ, zero, suc, ◌+◌, ◌*◌, ◌-◌, ◌^◌}
use jw_swarm.Common.Tests.{map_option}
use jw_swarm.Common.Tests.{leb, eqb, if◌then◌else◌}

-- The code points with the Unicode property White_Space.
unfoldable pub is_whitespace : Char → Bool
is_whitespace c =
    let n = code c in
    (leb 9 n && leb n 13)
    || eqb n 32
    || eqb n 133
    || eqb n 160
    || eqb n 5760
    || (leb 8192 n && leb n 8202)
    || eqb n 8232
    || eqb n 8233
    || eqb n 8239
    || eqb n 8287
    || eqb n 12288

abbrev pub is_empty : String → Bool
is_empty [] = true
is_empty (c ∷ s) = false

unfoldable pub trim_start : String → String
trim_start [] = []
trim_start (c ∷ s) = let rest = trim_start s in if is_whitespace c then rest else c ∷ s

-- Drops the trailing characters that pass the test.
unfoldable pub trim_end_matches : (Char → Bool) → String → String
trim_end_matches p [] = []
trim_end_matches p (c ∷ s) =
    let rest = trim_end_matches p s in if p c && is_empty rest then [] else c ∷ rest

unfoldable pub trim : String → String
unfolding is_whitespace trim_start trim_end_matches
trim s = trim_end_matches is_whitespace (trim_start s)

-- Decimal digits only, with no value past the limit: `None` where Rust's parser reports overflow.
pub digits_below : ℕ → ℕ → String → Option ℕ
digits_below limit n [] = some n
digits_below limit n (c ∷ s) =
    let d = code c in
    let rest = digits_below limit (n * 10 + (d - 48)) s in
    if leb 48 d && leb d 57 && leb (n * 10 + (d - 48)) limit then rest else none

-- At least one digit.
pub digits : ℕ → String → Option ℕ
unfolding digits_below
digits limit [] = none
digits limit (c ∷ s) = digits_below limit 0 (c ∷ s)

-- `parse::<u32>()`: an optional `+`, then decimal digits.
unfoldable pub parse_u32 : String → Option ℕ
unfolding digits
parse_u32 [] = none
parse_u32 (c ∷ s) = if eqb (code c) b'+' then digits (2 ^ 32 - 1) s else digits (2 ^ 32 - 1) (c ∷ s)

-- `parse::<u64>()`
unfoldable pub parse_u64 : String → Option ℕ
unfolding digits
parse_u64 [] = none
parse_u64 (c ∷ s) = if eqb (code c) b'+' then digits (2 ^ 64 - 1) s else digits (2 ^ 64 - 1) (c ∷ s)

negate : Option ℕ → Option ℤ
negate none = none
negate (some zero) = some (pos 0)
negate (some (suc n)) = some (negsuc n)

-- `parse::<i64>()`: an optional sign, then decimal digits.
unfoldable pub parse_i64 : String → Option ℤ
unfolding digits negate
parse_i64 [] = none
parse_i64 (c ∷ s) =
    if eqb (code c) b'+'
    then map_option pos (digits (2 ^ 63 - 1) s)
    else if eqb (code c) b'-'
    then negate (digits (2 ^ 63) s)
    else map_option pos (digits (2 ^ 63 - 1) (c ∷ s))

-- The ASCII letters A to Z as numbers, in lower case.
abbrev pub lower : ℕ → ℕ
lower n = if leb 65 n && leb n 90 then n + 32 else n

-- `a.to_ascii_lowercase() == b`, for a text b
unfoldable pub eq_lowercase : String → String → Bool
eq_lowercase [] [] = true
eq_lowercase [] (d ∷ t) = false
eq_lowercase (c ∷ s) [] = false
eq_lowercase (c ∷ s) (d ∷ t) = eqb (lower (code c)) (code d) && eq_lowercase s t

-- The rest of the text behind a prefix that is compared after `to_ascii_lowercase`.
unfoldable pub strip_prefix_lowercase : String → String → Option String
strip_prefix_lowercase s [] = some s
strip_prefix_lowercase [] (d ∷ t) = none
strip_prefix_lowercase (c ∷ s) (d ∷ t) =
    if eqb (lower (code c)) (code d) then strip_prefix_lowercase s t else none

-- `contains`
unfoldable pub starts : String → String → Bool
starts s [] = true
starts [] (d ∷ t) = false
starts (c ∷ s) (d ∷ t) = eqb (code c) (code d) && starts s t

unfoldable pub contains_text : String → String → Bool
unfolding starts
contains_text [] t = starts [] t
contains_text (c ∷ s) t = starts (c ∷ s) t || contains_text s t
