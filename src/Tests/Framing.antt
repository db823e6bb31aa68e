-- ===== src/Tests/Framing.antt =====
-- Runs of the frames of the tunnel and of the start.
use jw_swarm.Common.{
  map, ltb, ap, arith, ℕ, List, [], ◌∷◌, ◌++◌, true, none, some, ◌≡◌, refl, map_option,
}
use jw_swarm.Serde.{Values, null, is_finite}
use jw_swarm.Proto.{PromptDispatch, Value}
use jw_swarm.Proto.Codec as FleetCodec
use jw_swarm.Proto.Parts.RoundTrip.{MetricsFits}
use jw_swarm.Proto.Schema.{is_valid}
use jw_swarm.Proto.Schema.Conformance.{in_schema, is_valid-to_value}
use jw_swarm.Proto as Fleet
use jw_swarm.Node.Proto.{heartbeat, awake, Heartbeat}
use jw_swarm.Node.Proto.Codec.{to_value, to_json, from_json}
use jw_swarm.Node.Proto.Same.Writing.{to_value_same}
use jw_swarm.Node.Proto.Same.{fleet_message, fleet_heartbeat, fleet_metrics, node_message}
use jw_swarm.Tunnel.{Moment, close, handle_socket, handle_message}
use jw_swarm.System.Frames.{
  from_json_same, from_json-to_json, handle_socket-to_json, frames, handle_each,
}
use jw_swarm.System.Written.{HasText, from_json-write_loop}
use jw_swarm.Tunnel.Writer.{write_loop}
use jw_swarm.System.{here, message}
use jw_swarm.System.Invariant.{IsSound}
use jw_swarm.System.Starting.{Host, start, born, runs, restarts, Lives-IsSound}
use jw_swarm.State.{AppState, new}
use jw_swarm.Db.Schema.{empty}
use jw_swarm.Catalog.{load}
use jw_swarm.Config.{from_env}
use jw_swarm.Tests.{fl, calm, machine, json_reader, state, tx, catalog, reg}

abbrev beat : Heartbeat
beat = record {
  node_id = "n1";
  metrics = record {
    vram_used_mb = 1000;
    vram_total_mb = 24000;
    gpu_util_pct = record { bits = 42000 };
    tps = record { bits = 80000 };
    latency_ms = record { bits = 120000 };
    in_flight = 1;
  };
  schedule_state = awake;
}

-- A serde_json that knows the texts of two messages.
abbrev values : Values
values = record {
  to_string = λ t. some "heartbeat";
  from_str = λ s. some (
      to_value
        (record {
          to_string = λ t. none;
          from_str = λ s. none;
          to_tree = λ v. null;
          of_tree = λ t. record { text = "null" };
        })
        (heartbeat beat));
  to_tree = λ v. null;
  of_tree = λ t. record { text = "null" };
}

from_json_same_example :
    from_json fl values "heartbeat"
    ≡ map_option node_message (FleetCodec.from_json fl values "heartbeat")
from_json_same_example = from_json_same fl values "heartbeat"

from_json-to_json_example :
    (FleetCodec.to_json values (fleet_message (heartbeat beat)) ≡ some "heartbeat")
    × (FleetCodec.from_json fl values "heartbeat" ≡ some (fleet_message (heartbeat beat)))
    × (from_json fl values "heartbeat" ≡ some (heartbeat beat))
unfolding to_json to_value is_finite fleet_message fleet_heartbeat fleet_metrics
from_json-to_json_example =
    from_json-to_json fl values (heartbeat beat) "heartbeat"
      (refl, refl, (omega arith, omega arith, refl, refl, refl, omega arith))

is_valid-to_value_example :
    is_valid fl (λ s. true) (FleetCodec.to_value values (fleet_message (heartbeat beat)))
    ≡ in_schema fl (λ s. true) values (fleet_message (heartbeat beat))
is_valid-to_value_example = is_valid-to_value fl (λ s. true) values (fleet_message (heartbeat beat))

abbrev moments : ℕ → Moment
moments i = record { unix_now_ms = record { bits = 9000 }; touching = calm; crediting = calm }

handle_socket-to_json_example :
    let after =
      handle_each fl values moments 0 tx (heartbeat beat ∷ heartbeat beat ∷ []) (state, none) in
    handle_socket fl
      (FleetCodec.from_json fl values)
      state
      tx
      none
      (frames fl values moments 0 ("heartbeat" ∷ "heartbeat" ∷ []) ++ (moments 2, close) ∷ [])
    ≡ handle_socket fl (FleetCodec.from_json fl values) after.0 tx after.1 ((moments 2, close) ∷ [])
unfolding to_json to_value is_finite fleet_message fleet_heartbeat fleet_metrics
handle_socket-to_json_example =
    let fits : MetricsFits (fleet_metrics beat.metrics) =
      (omega arith, omega arith, refl, refl, refl, omega arith) in
    handle_socket-to_json fl values moments 0 tx (heartbeat beat ∷ heartbeat beat ∷ [])
      ("heartbeat" ∷ "heartbeat" ∷ []) ((moments 2, close) ∷ []) state none
      ((refl, refl, fits), ((refl, refl, fits), tt))

abbrev beats : List Fleet.Message
beats = fleet_message (heartbeat beat) ∷ fleet_message (heartbeat beat) ∷ []

from_json-write_loop_example :
    (came : List Fleet.Message) × (lost : List Fleet.Message) × (beats ≡ came ++ lost)
    × (map (from_json fl values) (write_loop values (λ k. ltb k 1) 0 beats)
        ≡ map (λ m. some (node_message m)) came)
    × (((k : ℕ) → ltb k 1 ≡ true) → lost ≡ [])
unfolding to_value is_finite fleet_message fleet_heartbeat fleet_metrics FleetCodec.to_json
    FleetCodec.to_value
from_json-write_loop_example =
    let fits : MetricsFits (fleet_metrics beat.metrics) =
      (omega arith, omega arith, refl, refl, refl, omega arith) in
    let text : HasText fl values (fleet_message (heartbeat beat)) =
      ("heartbeat", refl, ap some (to_value_same values (heartbeat beat)), fits) in
    from_json-write_loop fl values (λ k. ltb k 1) 0 beats (text, (text, tt))

abbrev host : Host
host = record {
  var = λ k. none;
  read_to_string = λ path. some "[[model]]";
  read_toml = λ t. some (record { model = catalog.models });
  connects = λ path. true;
  parse_addr = λ s. some s;
  binds = λ a. true;
}

-- The Fleet Manager is started, a node registers, and it is started again.
abbrev started : AppState
started = new fl catalog (empty true) (from_env host.var) state.outbound state.events

abbrev registered : AppState
registered = (handle_message fl (moments 0) started tx none (Fleet.register reg)).0

Lives-IsSound_example :
    IsSound fl (new fl catalog registered.db (from_env host.var) state.outbound state.events)
unfolding start load
Lives-IsSound_example = Lives-IsSound fl json_reader machine (
    restarts registered
      (runs started registered (born host true state.outbound state.events started refl)
        (message started started (here started) (moments 0) tx none (Fleet.register reg)))
      host state.outbound state.events
      (new fl catalog registered.db (from_env host.var) state.outbound state.events) refl)
