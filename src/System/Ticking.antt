-- ===== src/System/Ticking.antt =====
-- What a node sends when its heartbeat is due, and what the Fleet Manager makes of it: run of
-- jw-swarm-nodes/linux/src/main.rs and handle_message of jw-swarm-fleet-manager/src/tunnel.rs.
use jw_swarm.Common.{String, Option, some, unwrap_or}
use jw_swarm.Common.HashMap
use jw_swarm.Float.{Floats, F64, zero_f}
use jw_swarm.Proto.{Metrics, ScheduleStateValue}
use jw_swarm.Registry.{Registry, NodeState}
use jw_swarm.Node.Metrics.{collect}
use jw_swarm.Node.Probe.{Probe}
use jw_swarm.Node.Coordinator.{State}

-- The registry's entry after a heartbeat.
abbrev pub beaten : Metrics → ScheduleStateValue → NodeState → NodeState
beaten m state n = record n { metrics = some m; schedule_state = state }

module _ (fl : Floats) (parse_f64 : String → Option F64) where
  -- What the node reports of itself.
  abbrev pub reported : Probe → F64 → Option F64 → Metrics
  reported p avg_tps latency = record (collect fl parse_f64 p.load_query) {
    tps = avg_tps;
    latency_ms = unwrap_or latency (zero_f fl);
  }
