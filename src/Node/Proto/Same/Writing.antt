-- ===== src/Node/Proto/Same/Writing.antt =====
-- Both programs write every message alike.
use jw_swarm.Common.{◌≡◌, refl, List, [], ◌∷◌, map}
use jw_swarm.Serde.{Values, write_items}
use jw_swarm.Proto.Parts as FleetParts
use jw_swarm.Proto.Bodies as FleetBodies
use jw_swarm.Proto.Codec as FleetCodec
use jw_swarm.Node.Proto.{
  GpuVendor, OsKind, ScheduleStateValue, Backend, GpuInfo, OwnerLimits, Metrics, CatalogModel,
  Usage, Register, CatalogResponse, Heartbeat, ModelStatus, ScheduleState, PromptDispatch,
  TokenChunk, Done, ProtoError, nvidia, amd, apple, intel, macos, linux, windows, awake, asleep,
  draining, vllm, llama_cpp, mlx, Message, register, catalog_request, heartbeat, model_status,
  schedule_state, token_chunk, done, error, catalog_response, prompt_dispatch,
}
use jw_swarm.Node.Proto.Parts.{
  write_gpu_vendor, write_os_kind, write_schedule_state_value, write_backend, write_gpu_info,
  write_owner_limits, write_metrics, write_catalog_model, write_usage,
}
use jw_swarm.Node.Proto.Bodies.{
  write_register, write_catalog_response, write_heartbeat, write_model_status, write_schedule_state,
  write_prompt_dispatch, write_token_chunk, write_done, write_proto_error,
}
use jw_swarm.Node.Proto.Codec.{to_value}
use jw_swarm.Node.Proto.Same.{
  fleet_gpu_vendor, fleet_os_kind, fleet_schedule_state_value, fleet_backend, fleet_gpu_info,
  fleet_owner_limits, fleet_metrics, fleet_catalog_model, fleet_usage, fleet_register,
  fleet_catalog_response, fleet_heartbeat, fleet_model_status, fleet_schedule_state,
  fleet_prompt_dispatch, fleet_token_chunk, fleet_done, fleet_proto_error, fleet_message,
}

write_gpu_vendor_same :
    (v : GpuVendor) → write_gpu_vendor v ≡ FleetParts.write_gpu_vendor (fleet_gpu_vendor v)
unfolding write_gpu_vendor FleetParts.write_gpu_vendor fleet_gpu_vendor
write_gpu_vendor_same nvidia = refl
write_gpu_vendor_same amd = refl
write_gpu_vendor_same apple = refl
write_gpu_vendor_same intel = refl

write_os_kind_same : (v : OsKind) → write_os_kind v ≡ FleetParts.write_os_kind (fleet_os_kind v)
unfolding write_os_kind FleetParts.write_os_kind fleet_os_kind
write_os_kind_same macos = refl
write_os_kind_same linux = refl
write_os_kind_same windows = refl

write_schedule_state_value_same :
    (v : ScheduleStateValue)
    → write_schedule_state_value v
      ≡ FleetParts.write_schedule_state_value (fleet_schedule_state_value v)
unfolding write_schedule_state_value FleetParts.write_schedule_state_value
    fleet_schedule_state_value
write_schedule_state_value_same awake = refl
write_schedule_state_value_same asleep = refl
write_schedule_state_value_same draining = refl

write_backend_same : (v : Backend) → write_backend v ≡ FleetParts.write_backend (fleet_backend v)
unfolding write_backend FleetParts.write_backend fleet_backend
write_backend_same vllm = refl
write_backend_same llama_cpp = refl
write_backend_same mlx = refl

write_gpu_info_same :
    (r : GpuInfo) → write_gpu_info r ≡ FleetParts.write_gpu_info (fleet_gpu_info r)
unfolding write_gpu_info FleetParts.write_gpu_info fleet_gpu_info
write_gpu_info_same r = rw (write_gpu_vendor_same r.vendor) refl

write_owner_limits_same :
    (r : OwnerLimits) → write_owner_limits r ≡ FleetParts.write_owner_limits (fleet_owner_limits r)
unfolding write_owner_limits FleetParts.write_owner_limits fleet_owner_limits
write_owner_limits_same r = refl

write_metrics_same : (r : Metrics) → write_metrics r ≡ FleetParts.write_metrics (fleet_metrics r)
unfolding write_metrics FleetParts.write_metrics fleet_metrics
write_metrics_same r = refl

write_catalog_model_same :
    (r : CatalogModel)
    → write_catalog_model r ≡ FleetParts.write_catalog_model (fleet_catalog_model r)
unfolding write_catalog_model FleetParts.write_catalog_model fleet_catalog_model
write_catalog_model_same r = rw (write_backend_same r.backend) refl

write_models_same :
    (models : List CatalogModel)
    → write_items write_catalog_model models
      ≡ write_items FleetParts.write_catalog_model (map fleet_catalog_model models)
unfolding write_items
write_models_same [] = refl
write_models_same (r ∷ models) = rw (write_catalog_model_same r, write_models_same models) refl

write_usage_same : (r : Usage) → write_usage r ≡ FleetParts.write_usage (fleet_usage r)
unfolding write_usage FleetParts.write_usage fleet_usage
write_usage_same r = refl

write_register_same :
    (r : Register) → write_register r ≡ FleetBodies.write_register (fleet_register r)
unfolding write_register FleetBodies.write_register fleet_register
write_register_same r =
    rw (write_os_kind_same r.os, write_gpu_info_same r.gpu, write_owner_limits_same r.limits) refl

write_catalog_response_same :
    (r : CatalogResponse)
    → write_catalog_response r ≡ FleetBodies.write_catalog_response (fleet_catalog_response r)
unfolding write_catalog_response FleetBodies.write_catalog_response fleet_catalog_response
write_catalog_response_same r = rw (write_models_same r.models) refl

write_heartbeat_same :
    (r : Heartbeat) → write_heartbeat r ≡ FleetBodies.write_heartbeat (fleet_heartbeat r)
unfolding write_heartbeat FleetBodies.write_heartbeat fleet_heartbeat
write_heartbeat_same r =
    rw (write_metrics_same r.metrics, write_schedule_state_value_same r.schedule_state) refl

write_model_status_same :
    (r : ModelStatus) → write_model_status r ≡ FleetBodies.write_model_status (fleet_model_status r)
unfolding write_model_status FleetBodies.write_model_status fleet_model_status
write_model_status_same r = refl

write_schedule_state_same :
    (r : ScheduleState)
    → write_schedule_state r ≡ FleetBodies.write_schedule_state (fleet_schedule_state r)
unfolding write_schedule_state FleetBodies.write_schedule_state fleet_schedule_state
write_schedule_state_same r = rw (write_schedule_state_value_same r.state) refl

write_prompt_dispatch_same :
    (values : Values) (r : PromptDispatch)
    → write_prompt_dispatch values r
      ≡ FleetBodies.write_prompt_dispatch values (fleet_prompt_dispatch r)
unfolding write_prompt_dispatch FleetBodies.write_prompt_dispatch fleet_prompt_dispatch
write_prompt_dispatch_same values r = refl

write_token_chunk_same :
    (r : TokenChunk) → write_token_chunk r ≡ FleetBodies.write_token_chunk (fleet_token_chunk r)
unfolding write_token_chunk FleetBodies.write_token_chunk fleet_token_chunk
write_token_chunk_same r = refl

write_done_same : (r : Done) → write_done r ≡ FleetBodies.write_done (fleet_done r)
unfolding write_done FleetBodies.write_done fleet_done
write_done_same r = rw (write_usage_same r.usage) refl

write_proto_error_same :
    (r : ProtoError) → write_proto_error r ≡ FleetBodies.write_proto_error (fleet_proto_error r)
unfolding write_proto_error FleetBodies.write_proto_error fleet_proto_error
write_proto_error_same r = refl

pub to_value_same :
    (values : Values) (m : Message)
    → to_value values m ≡ FleetCodec.to_value values (fleet_message m)
unfolding to_value FleetCodec.to_value fleet_message
to_value_same values (register r) = rw (write_register_same r) refl
to_value_same values catalog_request = refl
to_value_same values (heartbeat r) = rw (write_heartbeat_same r) refl
to_value_same values (model_status r) = rw (write_model_status_same r) refl
to_value_same values (schedule_state r) = rw (write_schedule_state_same r) refl
to_value_same values (token_chunk r) = rw (write_token_chunk_same r) refl
to_value_same values (done r) = rw (write_done_same r) refl
to_value_same values (error r) = rw (write_proto_error_same r) refl
to_value_same values (catalog_response r) = rw (write_catalog_response_same r) refl
to_value_same values (prompt_dispatch r) = rw (write_prompt_dispatch_same values r) refl
