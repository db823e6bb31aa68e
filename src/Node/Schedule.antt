-- ===== src/Node/Schedule.antt =====
-- The awake window of jw-swarm-nodes/linux/src/main.rs. The local time in minutes is an argument.
pub mod Windows
use Prim.Native.Char.{Char, code}
use jw_swarm.Common.{
  ℕ, ◌+◌, ◌*◌, String, Bool, true, false, ◌&&◌, ◌||◌, Option, none, some, and_then, map_option, eqb,
  leb, ltb, if◌then◌else◌,
}
use jw_swarm.Common.Text.{trim, parse_u32}

pub record Schedule : Type 0 where
  pub awake_from : String
  pub awake_until : String

-- `split_once(':')`
unfoldable pub split_once : String → Option (String × String)
split_once String.[] = none
split_once (String.◌∷◌ c s) =
    let rest = split_once s in
    if eqb (code c) b':'
    then some (String.[], s)
    else map_option (λ p. (String.◌∷◌ c p.0, p.1)) rest

-- The checks on hour and minute, and the minute of the day.
abbrev pub minute_of_day : ℕ → ℕ → Option ℕ
minute_of_day h m = if ltb 23 h || ltb 59 m then none else some (h * 60 + m)

unfoldable pub parse_hhmm : String → Option ℕ
unfolding split_once trim parse_u32
parse_hhmm v =
    and_then (split_once (trim v))
      λ p. and_then (parse_u32 p.0) λ h. and_then (parse_u32 p.1) λ m. minute_of_day h m

-- Whether the minute lies in the window.
abbrev pub in_window : ℕ → ℕ → ℕ → Bool
in_window from until cur =
    if eqb from until
    then true
    else if ltb from until
    then leb from cur && ltb cur until
    else leb from cur || ltb cur until

unfoldable pub is_awake : ℕ → Schedule → Bool
is_awake cur s = elim (parse_hhmm s.awake_from) [
  | none ↦ true
  | some from ↦ elim (parse_hhmm s.awake_until) [
    | none ↦ true
    | some until ↦ in_window from until cur
  ]
]
