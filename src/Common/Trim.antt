-- ===== src/Common/Trim.antt =====
-- Trimming a trimmed text changes nothing.
use Prim.Native.Char.{Char}
use Prim.Native.String.{String, [], ◌∷◌}
use jw_swarm.Common.Text.{is_whitespace, trim_start, trim_end_matches, trim}
use mathlib.Core.Path.{◌≡◌, refl, ap, ◌∙◌}
use mathlib.Core.Bool.{Bool, false}
use native.Mathlib.Omega.{arith}

trim_end_matches_idem :
    (p : Char → Bool) (s : String)
    → trim_end_matches p (trim_end_matches p s) ≡ trim_end_matches p s
unfolding trim_end_matches
trim_end_matches_idem p [] = refl
trim_end_matches_idem p (c ∷ s) = ground (arith, trim_end_matches_idem p s)

-- A text that does not begin with white space.
abbrev Trimmed : String → Type 0
Trimmed [] = Unit
Trimmed (c ∷ s) = is_whitespace c ≡ false

trim_start-Trimmed : (s : String) → Trimmed (trim_start s)
unfolding trim_start
trim_start-Trimmed [] = tt
trim_start-Trimmed (c ∷ s) = ground (arith, trim_start-Trimmed s)

trim_start-trim_end :
    (s : String)
    → Trimmed s
    → trim_start (trim_end_matches is_whitespace s) ≡ trim_end_matches is_whitespace s
unfolding trim_start trim_end_matches
trim_start-trim_end [] t = refl
trim_start-trim_end (c ∷ s) t = ground (arith, t)

pub trim-trim : (s : String) → trim (trim s) ≡ trim s
unfolding trim
trim-trim s =
    ap (trim_end_matches is_whitespace) (trim_start-trim_end (trim_start s) (trim_start-Trimmed s))
    ∙ trim_end_matches_idem is_whitespace (trim_start s)
