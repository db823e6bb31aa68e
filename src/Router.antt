-- ===== src/Router.antt =====
-- jw-swarm-fleet-manager/src/router.rs: the score of a node, and the choice of the best one.
pub mod Choice
use jw_swarm.Common.{
  ℕ, ◌-◌, String, List, [], ◌∷◌, Bool, true, false, ◌&&◌, Option, none, some, select, ltb,
  if◌then◌else◌, map_option,
}
use jw_swarm.Float.{F64, Floats, gt, zero_f}
use jw_swarm.Proto.{Metrics, is_awake}
use jw_swarm.Registry.{NodeState, can_serve}

pub record Weights : Type 0 where
  pub vram : F64
  pub tps : F64
  pub latency : F64
  pub load : F64

module _ (fl : Floats) where
  pub default : Weights
  default = record {
    vram = fl.literal 1 0;
    tps = fl.literal 1 0;
    latency = fl.literal 1 0;
    load = fl.literal 1 0;
  }

  metrics_score : Metrics → Weights → F64
  metrics_score m w =
      let free_vram = fl.of_ℕ (m.vram_total_mb - m.vram_used_mb) in
      let free_vram_norm =
        if ltb 0 m.vram_total_mb then fl.div free_vram (fl.of_ℕ m.vram_total_mb) else zero_f fl in
      let tps_norm = fl.min (fl.div m.tps (fl.literal 200 0)) (fl.literal 1 0) in
      let latency_norm = fl.min (fl.div m.latency_ms (fl.literal 1000 0)) (fl.literal 1 0) in
      let load_norm = fl.min (fl.div (fl.of_ℕ m.in_flight) (fl.literal 8 0)) (fl.literal 1 0) in
      fl.sub
        (fl.sub (fl.add (fl.mul w.vram free_vram_norm) (fl.mul w.tps tps_norm))
          (fl.mul w.latency latency_norm))
        (fl.mul w.load load_norm)

  unfoldable pub score : NodeState → Weights → F64
  unfolding metrics_score
  score n w = elim n.metrics [ none ↦ fl.neg_infinity | some m ↦ metrics_score m w ]

  -- `max_by` keeps the earlier of two only if it compares greater; what does not compare counts
  -- as equal, so then the later one is kept.
  pub max_from : Weights → NodeState → List NodeState → NodeState
  max_from w best [] = best
  max_from w best (n ∷ ns) = max_from w (if gt fl (score best w) (score n w) then best else n) ns

  pub max_by_score : Weights → List NodeState → Option NodeState
  unfolding max_from
  max_by_score w [] = none
  max_by_score w (n ∷ ns) = some (max_from w n ns)

  abbrev pub candidates : List NodeState → String → List NodeState
  candidates nodes model = select (λ n. is_awake n.schedule_state && can_serve n model) nodes

  unfoldable pub pick_node : List NodeState → String → Weights → Option String
  unfolding max_by_score
  pick_node nodes model w = map_option (λ n. n.node_id) (max_by_score w (candidates nodes model))
