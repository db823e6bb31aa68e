-- ===== src/Node/Proto/Bodies.antt =====
-- jw-swarm-nodes/linux/src/proto.rs: the serde instances that the bodies of the messages derive.
use jw_swarm.Common.{Option, some}
use jw_swarm.Float.{Floats}
use jw_swarm.Serde.{
  Tree, nat, str, array, object, end, entry, field, read_str, read_uint, write_items, read_list,
  ◌>>=◌, Values,
}
use jw_swarm.Node.Proto.{
  Register, CatalogResponse, Heartbeat, ModelStatus, ScheduleState, PromptDispatch, TokenChunk,
  Done, ProtoError,
}
use jw_swarm.Node.Proto.Parts.{
  write_os_kind, read_os_kind, write_schedule_state_value, read_schedule_state_value,
  write_gpu_info, read_gpu_info, write_owner_limits, read_owner_limits, write_metrics, read_metrics,
  write_catalog_model, read_catalog_model, write_usage, read_usage,
}

unfoldable pub write_register : Register → Tree
write_register r = object (
    entry "node_id" (str r.node_id) (
      entry "hostname" (str r.hostname) (
        entry "os" (write_os_kind r.os) (
          entry "gpu" (write_gpu_info r.gpu) (
            entry "limits" (write_owner_limits r.limits)
              (entry "selected_models" (array (write_items str r.selected_models)) end))))))

unfoldable pub read_register : Tree → Option Register
read_register t = do
  node_id ← field "node_id" 0 6 t >>= read_str
  hostname ← field "hostname" 1 6 t >>= read_str
  os ← field "os" 2 6 t >>= read_os_kind
  gpu ← field "gpu" 3 6 t >>= read_gpu_info
  limits ← field "limits" 4 6 t >>= read_owner_limits
  selected_models ← field "selected_models" 5 6 t >>= read_list read_str
  some (record {
    node_id = node_id;
    hostname = hostname;
    os = os;
    gpu = gpu;
    limits = limits;
    selected_models = selected_models;
  })

unfoldable pub write_catalog_response : CatalogResponse → Tree
write_catalog_response r =
    object (entry "models" (array (write_items write_catalog_model r.models)) end)

unfoldable pub read_catalog_response : (fl : Floats) → Tree → Option CatalogResponse
read_catalog_response fl t = do
  models ← field "models" 0 1 t >>= read_list (read_catalog_model fl)
  some (record { models = models })

unfoldable pub write_heartbeat : Heartbeat → Tree
write_heartbeat r = object (
    entry "node_id" (str r.node_id) (
      entry "metrics" (write_metrics r.metrics)
        (entry "schedule_state" (write_schedule_state_value r.schedule_state) end)))

unfoldable pub read_heartbeat : (fl : Floats) → Tree → Option Heartbeat
read_heartbeat fl t = do
  node_id ← field "node_id" 0 3 t >>= read_str
  metrics ← field "metrics" 1 3 t >>= read_metrics fl
  at ← field "schedule_state" 2 3 t >>= read_schedule_state_value
  some (record { node_id = node_id; metrics = metrics; schedule_state = at })

unfoldable pub write_model_status : ModelStatus → Tree
write_model_status r = object (
    entry "node_id" (str r.node_id)
      (entry "ready_models" (array (write_items str r.ready_models)) end))

unfoldable pub read_model_status : Tree → Option ModelStatus
read_model_status t = do
  node_id ← field "node_id" 0 2 t >>= read_str
  ready_models ← field "ready_models" 1 2 t >>= read_list read_str
  some (record { node_id = node_id; ready_models = ready_models })

unfoldable pub write_schedule_state : ScheduleState → Tree
write_schedule_state r =
    object
      (entry "node_id" (str r.node_id) (entry "state" (write_schedule_state_value r.state) end))

unfoldable pub read_schedule_state : Tree → Option ScheduleState
read_schedule_state t = do
  node_id ← field "node_id" 0 2 t >>= read_str
  state ← field "state" 1 2 t >>= read_schedule_state_value
  some (record { node_id = node_id; state = state })

unfoldable pub write_prompt_dispatch : (values : Values) → PromptDispatch → Tree
write_prompt_dispatch values r = object (
    entry "request_id" (str r.request_id)
      (entry "model" (str r.model) (entry "payload" (values.to_tree r.payload) end)))

unfoldable pub read_prompt_dispatch : (values : Values) → Tree → Option PromptDispatch
read_prompt_dispatch values t = do
  request_id ← field "request_id" 0 3 t >>= read_str
  model ← field "model" 1 3 t >>= read_str
  payload ← field "payload" 2 3 t
  some (record { request_id = request_id; model = model; payload = values.of_tree payload })

unfoldable pub write_token_chunk : TokenChunk → Tree
write_token_chunk r = object (
    entry "request_id" (str r.request_id)
      (entry "delta" (str r.delta) (entry "index" (nat r.index) end)))

unfoldable pub read_token_chunk : Tree → Option TokenChunk
read_token_chunk t = do
  request_id ← field "request_id" 0 3 t >>= read_str
  delta ← field "delta" 1 3 t >>= read_str
  index ← field "index" 2 3 t >>= read_uint 32
  some (record { request_id = request_id; delta = delta; index = index })

unfoldable pub write_done : Done → Tree
write_done r =
    object (entry "request_id" (str r.request_id) (entry "usage" (write_usage r.usage) end))

unfoldable pub read_done : Tree → Option Done
read_done t = do
  request_id ← field "request_id" 0 2 t >>= read_str
  usage ← field "usage" 1 2 t >>= read_usage
  some (record { request_id = request_id; usage = usage })

unfoldable pub write_proto_error : ProtoError → Tree
write_proto_error r =
    object (entry "request_id" (str r.request_id) (entry "message" (str r.message) end))

unfoldable pub read_proto_error : Tree → Option ProtoError
read_proto_error t = do
  request_id ← field "request_id" 0 2 t >>= read_str
  message ← field "message" 1 2 t >>= read_str
  some (record { request_id = request_id; message = message })
