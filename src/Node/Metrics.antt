-- ===== src/Node/Metrics.antt =====
-- jw-swarm-nodes/linux/src/metrics.rs: what nvidia-smi reports. The command's output, if it ran and
-- succeeded, and the parser of floats are arguments.
use Prim.Native.Char.{Char, code}
use jw_swarm.Common.{
  String, List, [], ◌∷◌, Option, none, some, map, eqb, unwrap_or, and_then, if◌then◌else◌,
}
use jw_swarm.Common.Text.{trim, parse_u64}
use jw_swarm.Float.{F64, Floats, zero_f}
use jw_swarm.Proto.{Metrics}

abbrev cons_first : Char → List String → List String
cons_first c [] = String.◌∷◌ c String.[] ∷ []
cons_first c (s ∷ rest) = String.◌∷◌ c s ∷ rest

-- `split(',')`
unfoldable pub split_commas : String → List String
split_commas String.[] = String.[] ∷ []
split_commas (String.◌∷◌ c s) =
    let rest = split_commas s in if eqb (code c) b',' then String.[] ∷ rest else cons_first c rest

module _ (fl : Floats) (parse_f64 : String → Option F64) where
  -- At least three parts; the others are ignored.
  abbrev pub of_parts : List String → Option Metrics
  of_parts (used ∷ total ∷ util ∷ rest) = and_then (parse_u64 used) λ u.
      and_then (parse_u64 total) λ t. and_then (parse_f64 util) λ p. some (record {
        vram_used_mb = u;
        vram_total_mb = t;
        gpu_util_pct = p;
        tps = zero_f fl;
        latency_ms = zero_f fl;
        in_flight = 0;
      })
  of_parts _ = none

  unfoldable pub nvidia : Option String → Option Metrics
  unfolding split_commas parse_u64 trim
  nvidia output = and_then output λ s. of_parts (map trim (split_commas s))

  unfoldable pub collect : Option String → Metrics
  unfolding nvidia
  collect output = unwrap_or (nvidia output) (record {
    vram_used_mb = 0;
    vram_total_mb = 0;
    gpu_util_pct = zero_f fl;
    tps = zero_f fl;
    latency_ms = zero_f fl;
    in_flight = 0;
  })
