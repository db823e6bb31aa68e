-- ===== src/System/Joining.antt =====
-- What a node sends when its tunnel is connected, and what the Fleet Manager makes of it: run of
-- jw-swarm-nodes/linux/src/main.rs and handle_message of jw-swarm-fleet-manager/src/tunnel.rs.
use jw_swarm.Common.{
  ℕ, String, List, [], Option, none, some, unwrap_or, contains, ◌&&◌, if◌then◌else◌, ◌==◌, ◌≡◌,
  refl, arith, ap, ◌∙◌, eq_refl,
}
use jw_swarm.Common.HashMap
use jw_swarm.Common.HashMap.{get-insert, get-modify}
use jw_swarm.Float.{Floats, F64, zero_f}
use jw_swarm.Proto.{Register, Heartbeat, Metrics, ScheduleStateValue, asleep, catalog_response}
use jw_swarm.Channel.{Sender, send}
use jw_swarm.Registry.{
  NodeState, can_serve, update_metrics, update_ready_models, upsert_node, node_vendor,
}
use jw_swarm.Catalog.{resolve_for}
use jw_swarm.State.{AppState}
use jw_swarm.Tunnel.{
  Session, Moment, handle_message, on_register, on_catalog_request, on_heartbeat, credit_capacity,
}
use jw_swarm.System.Relay.{handle_all}
use jw_swarm.Node.Probe.{Probe, registration, det_vendor}
use jw_swarm.Node.Metrics.{collect}
use jw_swarm.Node.Ready.{ready_ids}
use jw_swarm.Node.Coordinator.{
  State, on_connected, send_reg, send_hb, send_model_status, schedule_value,
}

module _ (fl : Floats) where
  pub on_heartbeat_keeps :
      (now : Moment) (s : AppState) (session : Option Session) (hb : Heartbeat)
      → let s' = (on_heartbeat fl now s session hb).0 in
        (s'.registry ≡ update_metrics s.registry hb.node_id hb.metrics hb.schedule_state)
        × (s'.outbound ≡ s.outbound)
  unfolding on_heartbeat credit_capacity
  on_heartbeat_keeps now s none hb = (refl, refl)
  on_heartbeat_keeps now s (some x) hb = (ground arith, ground arith)

module _ (fl : Floats) (parse_f64 : String → Option F64) where
  -- The node as the Fleet Manager sees it.
  abbrev pub seen : Probe → F64 → Option F64 → State → Sender → NodeState
  seen p avg_tps latency s tx = record {
    node_id = s.config.node_id;
    register = registration p s.config;
    metrics = some (record (collect fl parse_f64 p.load_query) {
      tps = avg_tps;
      latency_ms = unwrap_or latency (zero_f fl);
    });
    ready_models = ready_ids s.ready;
    schedule_state = schedule_value s.awake;
    tx = tx;
  }

  -- The three messages that change the registry, one after the other.
  joined_nodes :
      (t : AppState) (tx : Sender) (reg : Register) (m : Metrics) (state : ScheduleStateValue)
      (ready : List String) (k : String)
      → HashMap.get
          (update_ready_models
            (update_metrics (upsert_node t.registry reg tx) reg.node_id m state)
            reg.node_id
            ready).nodes
          k
        ≡ (if reg.node_id == k
            then some (record {
              node_id = reg.node_id;
              register = reg;
              metrics = some m;
              ready_models = ready;
              schedule_state = state;
              tx = tx;
            })
            else HashMap.get t.registry.nodes k)
  unfolding update_ready_models update_metrics upsert_node
  joined_nodes t tx reg m state ready k =
      let id = reg.node_id in
      let n : NodeState = record {
        node_id = id;
        register = reg;
        metrics = none;
        ready_models = [];
        schedule_state = asleep;
        tx = tx;
      } in
      let inserted = HashMap.insert t.registry.nodes id n in
      let beat = λ (x : NodeState). record x { metrics = some m; schedule_state = state } in
      ground (
        arith,
        get-modify (HashMap.modify inserted id beat) id k (λ x. record x { ready_models = ready }),
        get-modify inserted id k beat,
        get-insert t.registry.nodes id k n,
      )

  asked_outbound :
      (t : AppState) (tx : Sender) (reg : Register)
      → let (t1, session) = on_register fl t tx reg in
        (on_catalog_request fl t1 tx session).outbound
        ≡ send t.outbound tx
            (catalog_response (record { models = resolve_for t.catalog reg.gpu.vendor }))
  unfolding on_register on_catalog_request upsert_node node_vendor
  asked_outbound t tx reg = rw (get-insert, eq_refl reg.node_id) refl

  -- When the Fleet Manager has handled what a node sends on connecting, at any moments, it has
  -- the node with its settings and metrics, lets it serve a model exactly if the node is awake
  -- and the model is ready there, has left every other node as it was, and has sent the node the
  -- catalog for the vendor of its graphics card, and nothing else to anyone.
  pub on_connected-handle_all :
      (p : Probe) (avg_tps : F64) (latency : Option F64) (s : State) (nows : ℕ → Moment)
      (tx : Sender) (t : AppState)
      → let hello =
          (on_connected fl parse_f64 p avg_tps latency (record s { outbound = [] })).outbound in
        let t' = handle_all fl nows 0 tx none hello t in
        let n = seen p avg_tps latency s tx in
        ((k : String)
          → HashMap.get t'.registry.nodes k
            ≡ (if s.config.node_id == k then some n else HashMap.get t.registry.nodes k))
        × ((model : String) → can_serve n model ≡ (s.awake && contains (ready_ids s.ready) model))
        × (t'.outbound
            ≡ send t.outbound tx
                (catalog_response (record { models = resolve_for t.catalog (det_vendor p) })))
  unfolding on_connected send_reg send_hb send_model_status handle_message can_serve registration
  on_connected-handle_all p avg_tps latency s nows tx t =
      let reg = registration p s.config in
      let m : Metrics = record (collect fl parse_f64 p.load_query) {
        tps = avg_tps;
        latency_ms = unwrap_or latency (zero_f fl);
      } in
      let state = schedule_value s.awake in
      let hb : Heartbeat = record {
        node_id = s.config.node_id;
        metrics = m;
        schedule_state = state;
      } in
      let (t1, session) = on_register fl t tx reg in
      let t2 = on_catalog_request fl t1 tx session in
      let beat = on_heartbeat_keeps fl (nows 2) t2 session hb in
      (
        λ k.
            ap
              (λ r.
                HashMap.get (update_ready_models r s.config.node_id (ready_ids s.ready)).nodes k)
              beat.0
            ∙ joined_nodes t tx reg m state (ready_ids s.ready) k,
        λ model. ground arith,
        beat.1 ∙ asked_outbound t tx reg,
      )
