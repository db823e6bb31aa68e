-- ===== src/Node/Schedule/Windows.antt =====
-- The windows that a schedule can name.
use jw_swarm.Common.{ℕ, ◌<◌, String, not, some, ◌≡◌, ◌≢◌, arith, Option-cases, inl, inr}
use jw_swarm.Common.Text.{trim, parse_u32}
use jw_swarm.Node.Schedule.{split_once, minute_of_day, parse_hhmm, is_awake}

minute_of_day_bound : (h m n : ℕ) → minute_of_day h m ≡ some n → n < 1440
minute_of_day_bound h m n e = ground arith

-- A text that is accepted names a minute of the day.
pub parse_hhmm_bound : (v : String) (n : ℕ) → parse_hhmm v ≡ some n → n < 1440
unfolding parse_hhmm
parse_hhmm_bound v n e = elim (Option-cases (split_once (trim v))) [
  | inl x ↦ ground (arith, e, x)
  | inr (p, ep) ↦ elim (Option-cases (parse_u32 p.0)) [
    | inl x ↦ ground (arith, e, ep, x)
    | inr (h, eh) ↦ elim (Option-cases (parse_u32 p.1)) [
      | inl x ↦ ground (arith, e, ep, eh, x)
      | inr (m, em) ↦ ground (arith, e, ep, eh, em, minute_of_day_bound h m n)
    ]
  ]
]

-- Two schedules whose bounds are readable, different and swapped divide the day: at every minute
-- exactly one of them is awake.
pub is_awake_swapped :
    (from until : String) (a b cur : ℕ)
    → parse_hhmm from ≡ some a
    → parse_hhmm until ≡ some b
    → a ≢ b
    → is_awake cur (record { awake_from = from; awake_until = until })
      ≡ not (is_awake cur (record { awake_from = until; awake_until = from }))
unfolding is_awake
is_awake_swapped from until a b cur p q ne = rw (is_awake, p, q) (ground (arith, ne))
