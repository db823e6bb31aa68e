-- ===== src/Proto/Bodies/RoundTrip.antt =====
-- What the instances of the bodies write, they read back.
use jw_swarm.Common.{◌≡◌, ◌<◌, ◌^◌, arith, some, All}
use jw_swarm.Float.{Floats}
use jw_swarm.Serde.{Values, read_strings-write_strings}
use jw_swarm.Proto.{
  Register, CatalogResponse, Heartbeat, ModelStatus, ScheduleState, PromptDispatch, TokenChunk,
  Done, ProtoError,
}
use jw_swarm.Proto.Parts.RoundTrip.{
  read_os_kind-write_os_kind, read_schedule_state_value-write_schedule_state_value, GpuInfoFits,
  OwnerLimitsFits, MetricsFits, CatalogModelFits, UsageFits, read_gpu_info-write_gpu_info,
  read_owner_limits-write_owner_limits, read_metrics-write_metrics, read_models-write_models,
  read_usage-write_usage,
}
use jw_swarm.Proto.Bodies.{
  write_register, read_register, write_catalog_response, read_catalog_response, write_heartbeat,
  read_heartbeat, write_model_status, read_model_status, write_schedule_state, read_schedule_state,
  write_prompt_dispatch, read_prompt_dispatch, write_token_chunk, read_token_chunk, write_done,
  read_done, write_proto_error, read_proto_error,
}

abbrev pub RegisterFits : Register → Type 0
RegisterFits r = (GpuInfoFits r.gpu) × (OwnerLimitsFits r.limits)

abbrev pub CatalogResponseFits : CatalogResponse → Type 0
CatalogResponseFits r = (All CatalogModelFits r.models)

abbrev pub HeartbeatFits : Heartbeat → Type 0
HeartbeatFits r = (MetricsFits r.metrics)

abbrev pub PromptDispatchFits : Values → PromptDispatch → Type 0
PromptDispatchFits values r = (values.of_tree (values.to_tree r.payload) ≡ r.payload)

abbrev pub TokenChunkFits : TokenChunk → Type 0
TokenChunkFits r = (r.index < 2 ^ 32)

abbrev pub DoneFits : Done → Type 0
DoneFits r = (UsageFits r.usage)

pub read_register-write_register :
    (r : Register) → RegisterFits r → read_register (write_register r) ≡ some r
unfolding read_register write_register
read_register-write_register r h = ground (
  arith,
  read_os_kind-write_os_kind r.os,
  read_gpu_info-write_gpu_info r.gpu,
  read_owner_limits-write_owner_limits r.limits,
  read_strings-write_strings r.selected_models,
)

pub read_catalog_response-write_catalog_response :
    (fl : Floats) (r : CatalogResponse)
    → CatalogResponseFits r
    → read_catalog_response fl (write_catalog_response r) ≡ some r
unfolding read_catalog_response write_catalog_response
read_catalog_response-write_catalog_response fl r h =
    ground (arith, read_models-write_models fl r.models)

pub read_heartbeat-write_heartbeat :
    (fl : Floats) (r : Heartbeat) → HeartbeatFits r → read_heartbeat fl (write_heartbeat r) ≡ some r
unfolding read_heartbeat write_heartbeat
read_heartbeat-write_heartbeat fl r h = ground (
  arith,
  read_metrics-write_metrics fl r.metrics,
  read_schedule_state_value-write_schedule_state_value r.schedule_state,
)

pub read_model_status-write_model_status :
    (r : ModelStatus) → read_model_status (write_model_status r) ≡ some r
unfolding read_model_status write_model_status
read_model_status-write_model_status r = ground (arith, read_strings-write_strings r.ready_models)

pub read_schedule_state-write_schedule_state :
    (r : ScheduleState) → read_schedule_state (write_schedule_state r) ≡ some r
unfolding read_schedule_state write_schedule_state
read_schedule_state-write_schedule_state r =
    ground (arith, read_schedule_state_value-write_schedule_state_value r.state)

pub read_prompt_dispatch-write_prompt_dispatch :
    (values : Values) (r : PromptDispatch)
    → PromptDispatchFits values r
    → read_prompt_dispatch values (write_prompt_dispatch values r) ≡ some r
unfolding read_prompt_dispatch write_prompt_dispatch
read_prompt_dispatch-write_prompt_dispatch values r h = ground arith

pub read_token_chunk-write_token_chunk :
    (r : TokenChunk) → TokenChunkFits r → read_token_chunk (write_token_chunk r) ≡ some r
unfolding read_token_chunk write_token_chunk
read_token_chunk-write_token_chunk r h = ground arith

pub read_done-write_done : (r : Done) → DoneFits r → read_done (write_done r) ≡ some r
unfolding read_done write_done
read_done-write_done r h = ground (arith, read_usage-write_usage r.usage)

pub read_proto_error-write_proto_error :
    (r : ProtoError) → read_proto_error (write_proto_error r) ≡ some r
unfolding read_proto_error write_proto_error
read_proto_error-write_proto_error r = ground arith
