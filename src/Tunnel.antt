-- ===== src/Tunnel.antt =====
-- jw-swarm-fleet-manager/src/tunnel.rs: the Fleet Manager's end of a node's tunnel. The clock, the
-- outcome of awaited database calls and the JSON reader are arguments.
pub mod Writer
pub mod Keyed
pub mod Points
pub mod Lifecycle
use jw_swarm.Common.{
  String, List, [], ◌∷◌, ◌++◌, not, ◌&&◌, Option, none, some, unwrap_or, and_then, find,
  if◌then◌else◌, ◌==◌,
}
use Prim.Native.String.{◌++◌ as string_append}
use jw_swarm.Common.HashMap
use jw_swarm.Common.HashMap.{HashMap}
use jw_swarm.Float.{F64, Floats, gt, zero_f}
use jw_swarm.Proto.{
  Message, register, catalog_request, heartbeat, model_status, schedule_state, token_chunk, done,
  error, catalog_response, prompt_dispatch, Register, Heartbeat, Done, CatalogModel, is_awake,
}
use jw_swarm.Channel.{Sender, send}
use jw_swarm.Registry.{
  Registry, PendingMeta, chunk, finished, failed, upsert_node, remove_node, update_metrics,
  update_ready_models, update_schedule, snapshot, node_vendor, get_pending, dispatch_event,
}
use jw_swarm.Catalog.{resolve_for}
use jw_swarm.Accounting.{capacity_points, delivery_points}
use jw_swarm.Db.Schema.{Conditions, after}
use jw_swarm.Db.Sessions.{touch_session_awake}
use jw_swarm.Db.Ledger.{credit_points}
use jw_swarm.State.{
  AppState, opens_session, upserts_node, closes_session, records_delivery, credits_points,
}

pub record Session : Type 0 where
  pub node_id : String
  pub prev_heartbeat_ms : Option F64
  pub gpu_power_pct : F64
  pub vram_mb : F64
  pub params_by_model : HashMap F64

-- `collect()` of the pairs into a map: a later pair overwrites.
pub collect_params : HashMap F64 → List CatalogModel → HashMap F64
collect_params params [] = params
collect_params params (m ∷ ms) = collect_params (HashMap.insert params m.id m.params_billions) ms

-- What a message is handled with: the time, and what the two awaited calls meet.
pub record Moment : Type 0 where
  pub unix_now_ms : F64
  pub touching : Conditions
  pub crediting : Conditions

module _ (fl : Floats) where
  unfoldable pub on_register : AppState → Sender → Register → AppState × Option Session
  unfolding collect_params
  on_register s tx reg =
      let gpu_power = fl.of_ℕ reg.limits.gpu_power_pct in
      let vram = fl.of_ℕ reg.limits.memory_limit_mb in
      (
        record s {
          registry = upsert_node s.registry reg tx;
          tasks =
              s.tasks ++ (upserts_node reg ∷ opens_session reg.node_id gpu_power vram ∷ []) ∷ [];
        },
        some (record {
          node_id = reg.node_id;
          prev_heartbeat_ms = none;
          gpu_power_pct = gpu_power;
          vram_mb = vram;
          params_by_model = collect_params [] (resolve_for s.catalog reg.gpu.vendor);
        }),
      )

  unfoldable pub on_catalog_request : AppState → Sender → Option Session → AppState
  on_catalog_request s tx session =
      let models : List CatalogModel =
        elim (and_then session (λ x. node_vendor s.registry x.node_id)) [
          | some vendor ↦ resolve_for s.catalog vendor
          | none ↦ []
        ] in
      record s { outbound = send s.outbound tx (catalog_response (record { models = models })) }

  -- The points for the time since the last heartbeat, credited if there are any.
  unfoldable pub credit_capacity : Moment → F64 → Session → AppState → AppState
  credit_capacity now delta_sec x s =
      let pts = capacity_points fl s.accounting delta_sec x.gpu_power_pct x.vram_mb in
      let touched = after s.db (touch_session_awake fl now.touching x.node_id delta_sec s.db) in
      let source = string_append "hb_" (fl.print_rounded now.unix_now_ms) in
      if gt fl pts (zero_f fl)
      then record s {
        db = after touched (credit_points fl now.crediting x.node_id "capacity" pts source touched);
      }
      else s

  unfoldable pub on_heartbeat :
      Moment → AppState → Option Session → Heartbeat → AppState × Option Session
  unfolding credit_capacity
  on_heartbeat now s session hb =
      let s' = record s {
        registry = update_metrics s.registry hb.node_id hb.metrics hb.schedule_state;
      } in
      elim session [
        | none ↦ (s', none)
        | some x ↦
            if not (x.node_id == hb.node_id)
            then (s', some x)
            else (let prev = unwrap_or x.prev_heartbeat_ms now.unix_now_ms in
                let delta_sec = fl.div (fl.sub now.unix_now_ms prev) (fl.literal 1000 0) in
                let x' = record x { prev_heartbeat_ms = some now.unix_now_ms } in
                (
                  if gt fl delta_sec (zero_f fl) && is_awake hb.schedule_state
                      then credit_capacity now delta_sec x' s'
                      else s',
                  some x',
                ))
      ]

  -- The latency that the registry last saw of the node.
  pub latency_of : Registry → String → F64
  latency_of r node_id = elim (find (λ n. n.node_id == node_id) (snapshot r)) [
    | none ↦ zero_f fl
    | some n ↦ elim n.metrics [ none ↦ zero_f fl | some m ↦ m.latency_ms ]
  ]

  -- The points for a delivery, by the size of the model in the catalog of the sender's session.
  unfoldable pub points_of_done : AppState → Option Session → PendingMeta → Done → F64
  points_of_done s session meta d = delivery_points fl s.accounting d.usage (
      unwrap_or (and_then session (λ x. HashMap.get x.params_by_model meta.model)) (fl.literal 7 0))

  -- The task that records the delivery and credits the node, if the request is pending.
  unfoldable pub spawn_delivery : AppState → Option Session → Done → Option PendingMeta → AppState
  unfolding latency_of points_of_done
  spawn_delivery s session d none = s
  spawn_delivery s session d (some meta) = record s {
    tasks =
        s.tasks
        ++ (records_delivery d.request_id meta.node_id meta.model d.usage
              (latency_of s.registry meta.node_id)
            ∷ credits_points meta.node_id "delivery" (points_of_done s session meta d) d.request_id
            ∷ [])
          ∷ [];
  }

  unfoldable pub on_done : AppState → Option Session → Done → AppState
  unfolding spawn_delivery
  on_done s session d =
      let s' = spawn_delivery s session d (get_pending s.registry d.request_id) in
      record s' { events = dispatch_event s.registry s.events d.request_id (finished d) }

  unfoldable pub handle_message :
      Moment → AppState → Sender → Option Session → Message → AppState × Option Session
  unfolding on_register on_catalog_request on_heartbeat on_done
  handle_message now s tx session (register reg) = on_register s tx reg
  handle_message now s tx session catalog_request = (on_catalog_request s tx session, session)
  handle_message now s tx session (heartbeat hb) = on_heartbeat now s session hb
  handle_message now s tx session (model_status ms) =
      (record s { registry = update_ready_models s.registry ms.node_id ms.ready_models }, session)
  handle_message now s tx session (schedule_state ss) =
      (record s { registry = update_schedule s.registry ss.node_id ss.state }, session)
  handle_message now s tx session (token_chunk c) =
      (record s { events = dispatch_event s.registry s.events c.request_id (chunk c) }, session)
  handle_message now s tx session (done d) = (on_done s session d, session)
  handle_message now s tx session (error e) =
      (record s { events = dispatch_event s.registry s.events e.request_id (failed e) }, session)
  handle_message now s tx session (catalog_response r) = (s, session)
  handle_message now s tx session (prompt_dispatch p) = (s, session)

-- What the socket's stream yields.
pub data Frame : Type 0 where
  text : String → Frame
  close ping pong binary read_error : Frame

-- After the last frame: the node leaves the registry, and its session is closed by a task.
unfoldable pub finish : AppState → Option Session → AppState
finish s none = s
finish s (some x) = record s {
  registry = remove_node s.registry x.node_id;
  tasks = s.tasks ++ (closes_session x.node_id ∷ []) ∷ [];
}

module _ (fl : Floats) (from_json : String → Option Message) where
  on_text : Moment → AppState → Sender → Option Session → Option Message → AppState × Option Session
  on_text now s tx session none = (s, session)
  on_text now s tx session (some msg) = handle_message fl now s tx session msg

  -- The read loop of one connection over the frames that its stream yields.
  unfoldable pub handle_socket :
      AppState → Sender → Option Session → List (Moment × Frame) → AppState
  unfolding on_text
  handle_socket s tx session [] = finish s session
  handle_socket s tx session ((now, text t) ∷ frames) =
      let (s', session') = on_text now s tx session (from_json t) in
      handle_socket s' tx session' frames
  handle_socket s tx session ((now, close) ∷ frames) = finish s session
  handle_socket s tx session ((now, read_error) ∷ frames) = finish s session
  handle_socket s tx session ((now, ping) ∷ frames) = handle_socket s tx session frames
  handle_socket s tx session ((now, pong) ∷ frames) = handle_socket s tx session frames
  handle_socket s tx session ((now, binary) ∷ frames) = handle_socket s tx session frames
