-- ===== src/Tests/Coordinating.antt =====
-- Runs of the node's main task and of its tunnel.
use jw_swarm.Common.{
  ℕ, String, List, [], ◌∷◌, true, false, Option, none, some, ◌≡◌, contains, ◌&&◌, ◌==◌,
  if◌then◌else◌, arith,
}
use jw_swarm.Common.Attempt.{ok}
use jw_swarm.Common.HashMap
use jw_swarm.Proto.{CatalogModel, llama_cpp, catalog_response}
use jw_swarm.Float.{F64}
use jw_swarm.Channel.{send}
use jw_swarm.Catalog.{resolve_for}
use jw_swarm.Registry.{can_serve}
use jw_swarm.Node.Settings.{Config}
use jw_swarm.Node.Probe.{Probe, det_vendor}
use jw_swarm.Node.Ready.{ready_ids}
use jw_swarm.Node.Coordinator.{State, Event, receives, returns, registers, run, start, on_connected}
use jw_swarm.Node.Coordinator.Downloading.{IsOrderly, run-IsOrderly}
use jw_swarm.Node.Wire.{Round, refused, connected, sends, queues, run_loop, initial}
use jw_swarm.Node.Wire.Backoff.{capped, refusals, run_loop-refusals}
use jw_swarm.Node.Wire.Delivery.{Moves, run_loop-Moves}
use jw_swarm.Tunnel.{Moment}
use jw_swarm.System.Relay.{handle_all}
use jw_swarm.System.Joining.{seen, on_connected-handle_all}
use jw_swarm.Tests.{fl, calm, state, tx}

abbrev parse_f64 : String → Option F64
parse_f64 s = none

abbrev probe : Probe
probe = record { nvidia_smi = true; rocminfo = false; name_query = none; load_query = none }

abbrev settings : Config
settings = record {
  fleet_url = "wss://localhost/node/connect";
  node_id = "n2";
  hostname = "jw-node";
  node_cert = "node.pem";
  ca_cert = "ca.crt";
  limits = record { gpu_power_pct = 100; memory_limit_mb = 24000 };
  schedule = record { awake_from = ""; awake_until = "" };
  selected_models = [];
}

abbrev pub model : CatalogModel
model = record {
  id = "m";
  display_name = "M";
  download_url = "u";
  sha256 = "h";
  size_bytes = 1;
  context_length = 2;
  params_billions = record { bits = 8000 };
  backend = llama_cpp;
}

-- A catalog, twice, and a download that ends well.
abbrev downloads : List Event
downloads =
    receives (some (catalog_response (record { models = model ∷ [] })))
    ∷ receives (some (catalog_response (record { models = model ∷ [] })))
    ∷ returns 0 (ok "/models/m")
    ∷ registers 0 (some 4000)
    ∷ []

run-IsOrderly_example : IsOrderly (run fl parse_f64 downloads (start fl parse_f64 0 probe settings))
run-IsOrderly_example = run-IsOrderly fl parse_f64 0 probe settings downloads

-- A node on which the download of the model failed.
abbrev failed_state : State
failed_state = record {
  config = settings;
  tracker = record { downloading = []; failed = ("m", ("u", "h")) ∷ [] };
  catalog = [];
  awake = true;
  connected = true;
  ready = [];
  alive = true;
  downloads = [];
  jobs = [];
  outbound = [];
}

abbrev pub moments : ℕ → Moment
moments i = record { unix_now_ms = record { bits = i }; touching = calm; crediting = calm }

abbrev tps : F64
tps = record { bits = 0 }

on_connected-handle_all_example :
    let hello = (on_connected fl parse_f64 probe tps none failed_state).outbound in
    let t' = handle_all fl moments 0 tx none hello state in
    let n = seen fl parse_f64 probe tps none failed_state tx in
    ((k : String)
      → HashMap.get t'.registry.nodes k
        ≡ (if "n2" == k then some n else HashMap.get state.registry.nodes k))
    × ((model : String) → can_serve n model ≡ (true && contains (ready_ids []) model))
    × (t'.outbound
        ≡ send state.outbound tx
            (catalog_response (record { models = resolve_for state.catalog (det_vendor probe) })))
on_connected-handle_all_example =
    on_connected-handle_all fl parse_f64 probe tps none failed_state moments tx state

run_loop-refusals_example : (run_loop true (refusals 3) initial).0.backoff ≡ capped 1 3
run_loop-refusals_example = run_loop-refusals true 3 initial (omega arith) (omega arith)

-- A connection on which a message is lost, and one that is refused.
abbrev rounds : List Round
rounds =
    connected (λ i. true) (queues "a" ∷ sends true ∷ queues "b" ∷ sends false ∷ []) false
    ∷ refused false
    ∷ []

run_loop-Moves_example : Moves 2 ("a" ∷ "b" ∷ []) initial (run_loop true rounds initial).0
run_loop-Moves_example = run_loop-Moves true rounds initial

-- A node that was awake and is not at this minute.
abbrev night : State
night = record failed_state {
  config = record settings { schedule = record { awake_from = "22:00"; awake_until = "6:00" } };
}
