-- ===== src/Node/Proto/Same.antt =====
-- The types of jw-swarm-nodes/linux/src/proto.rs beside those of the Fleet Manager's proto.rs: the
-- messages of the one as messages of the other.
pub mod Reading
pub mod Writing
pub mod Parts
pub mod Types
pub mod Messages
use jw_swarm.Common.{◌≡◌, refl, arith, List, [], ◌∷◌, map}
use std.Equiv.{Iso}
use std.Univalence.{iso_to_path}
use jw_swarm.Proto as Fleet
use jw_swarm.Node.Proto.{
  GpuVendor, OsKind, ScheduleStateValue, Backend, GpuInfo, OwnerLimits, Metrics, CatalogModel,
  Usage, Register, CatalogResponse, Heartbeat, ModelStatus, ScheduleState, PromptDispatch,
  TokenChunk, Done, ProtoError, nvidia, amd, apple, intel, macos, linux, windows, awake, asleep,
  draining, vllm, llama_cpp, mlx, Message, register, catalog_request, heartbeat, model_status,
  schedule_state, token_chunk, done, error, catalog_response, prompt_dispatch,
}

pub fleet_gpu_vendor : GpuVendor → Fleet.GpuVendor
fleet_gpu_vendor nvidia = Fleet.nvidia
fleet_gpu_vendor amd = Fleet.amd
fleet_gpu_vendor apple = Fleet.apple
fleet_gpu_vendor intel = Fleet.intel

pub node_gpu_vendor : Fleet.GpuVendor → GpuVendor
node_gpu_vendor Fleet.nvidia = nvidia
node_gpu_vendor Fleet.amd = amd
node_gpu_vendor Fleet.apple = apple
node_gpu_vendor Fleet.intel = intel

pub fleet_os_kind : OsKind → Fleet.OsKind
fleet_os_kind macos = Fleet.macos
fleet_os_kind linux = Fleet.linux
fleet_os_kind windows = Fleet.windows

pub node_os_kind : Fleet.OsKind → OsKind
node_os_kind Fleet.macos = macos
node_os_kind Fleet.linux = linux
node_os_kind Fleet.windows = windows

unfoldable pub fleet_schedule_state_value : ScheduleStateValue → Fleet.ScheduleStateValue
fleet_schedule_state_value awake = Fleet.awake
fleet_schedule_state_value asleep = Fleet.asleep
fleet_schedule_state_value draining = Fleet.draining

pub node_schedule_state_value : Fleet.ScheduleStateValue → ScheduleStateValue
node_schedule_state_value Fleet.awake = awake
node_schedule_state_value Fleet.asleep = asleep
node_schedule_state_value Fleet.draining = draining

pub fleet_backend : Backend → Fleet.Backend
fleet_backend vllm = Fleet.vllm
fleet_backend llama_cpp = Fleet.llama_cpp
fleet_backend mlx = Fleet.mlx

pub node_backend : Fleet.Backend → Backend
node_backend Fleet.vllm = vllm
node_backend Fleet.llama_cpp = llama_cpp
node_backend Fleet.mlx = mlx

pub fleet_gpu_info : GpuInfo → Fleet.GpuInfo
fleet_gpu_info r = record { vendor = fleet_gpu_vendor r.vendor; name = r.name; vram_mb = r.vram_mb }

pub node_gpu_info : Fleet.GpuInfo → GpuInfo
node_gpu_info r = record { vendor = node_gpu_vendor r.vendor; name = r.name; vram_mb = r.vram_mb }

pub fleet_owner_limits : OwnerLimits → Fleet.OwnerLimits
fleet_owner_limits r = record {
  gpu_power_pct = r.gpu_power_pct;
  memory_limit_mb = r.memory_limit_mb;
}

pub node_owner_limits : Fleet.OwnerLimits → OwnerLimits
node_owner_limits r = record {
  gpu_power_pct = r.gpu_power_pct;
  memory_limit_mb = r.memory_limit_mb;
}

unfoldable pub fleet_metrics : Metrics → Fleet.Metrics
fleet_metrics r = record {
  vram_used_mb = r.vram_used_mb;
  vram_total_mb = r.vram_total_mb;
  gpu_util_pct = r.gpu_util_pct;
  tps = r.tps;
  latency_ms = r.latency_ms;
  in_flight = r.in_flight;
}

pub node_metrics : Fleet.Metrics → Metrics
node_metrics r = record {
  vram_used_mb = r.vram_used_mb;
  vram_total_mb = r.vram_total_mb;
  gpu_util_pct = r.gpu_util_pct;
  tps = r.tps;
  latency_ms = r.latency_ms;
  in_flight = r.in_flight;
}

pub fleet_catalog_model : CatalogModel → Fleet.CatalogModel
fleet_catalog_model r = record {
  id = r.id;
  display_name = r.display_name;
  download_url = r.download_url;
  sha256 = r.sha256;
  size_bytes = r.size_bytes;
  context_length = r.context_length;
  params_billions = r.params_billions;
  backend = fleet_backend r.backend;
}

pub node_catalog_model : Fleet.CatalogModel → CatalogModel
node_catalog_model r = record {
  id = r.id;
  display_name = r.display_name;
  download_url = r.download_url;
  sha256 = r.sha256;
  size_bytes = r.size_bytes;
  context_length = r.context_length;
  params_billions = r.params_billions;
  backend = node_backend r.backend;
}

pub fleet_usage : Usage → Fleet.Usage
fleet_usage r = record {
  prompt_tokens = r.prompt_tokens;
  completion_tokens = r.completion_tokens;
  total_tokens = r.total_tokens;
}

pub node_usage : Fleet.Usage → Usage
node_usage r = record {
  prompt_tokens = r.prompt_tokens;
  completion_tokens = r.completion_tokens;
  total_tokens = r.total_tokens;
}

pub fleet_register : Register → Fleet.Register
fleet_register r = record {
  node_id = r.node_id;
  hostname = r.hostname;
  os = fleet_os_kind r.os;
  gpu = fleet_gpu_info r.gpu;
  limits = fleet_owner_limits r.limits;
  selected_models = r.selected_models;
}

pub node_register : Fleet.Register → Register
node_register r = record {
  node_id = r.node_id;
  hostname = r.hostname;
  os = node_os_kind r.os;
  gpu = node_gpu_info r.gpu;
  limits = node_owner_limits r.limits;
  selected_models = r.selected_models;
}

pub fleet_catalog_response : CatalogResponse → Fleet.CatalogResponse
fleet_catalog_response r = record { models = map fleet_catalog_model r.models }

pub node_catalog_response : Fleet.CatalogResponse → CatalogResponse
node_catalog_response r = record { models = map node_catalog_model r.models }

unfoldable pub fleet_heartbeat : Heartbeat → Fleet.Heartbeat
fleet_heartbeat r = record {
  node_id = r.node_id;
  metrics = fleet_metrics r.metrics;
  schedule_state = fleet_schedule_state_value r.schedule_state;
}

pub node_heartbeat : Fleet.Heartbeat → Heartbeat
node_heartbeat r = record {
  node_id = r.node_id;
  metrics = node_metrics r.metrics;
  schedule_state = node_schedule_state_value r.schedule_state;
}

pub fleet_model_status : ModelStatus → Fleet.ModelStatus
fleet_model_status r = record { node_id = r.node_id; ready_models = r.ready_models }

pub node_model_status : Fleet.ModelStatus → ModelStatus
node_model_status r = record { node_id = r.node_id; ready_models = r.ready_models }

pub fleet_schedule_state : ScheduleState → Fleet.ScheduleState
fleet_schedule_state r = record { node_id = r.node_id; state = fleet_schedule_state_value r.state }

pub node_schedule_state : Fleet.ScheduleState → ScheduleState
node_schedule_state r = record { node_id = r.node_id; state = node_schedule_state_value r.state }

pub fleet_prompt_dispatch : PromptDispatch → Fleet.PromptDispatch
fleet_prompt_dispatch r = record { request_id = r.request_id; model = r.model; payload = r.payload }

pub node_prompt_dispatch : Fleet.PromptDispatch → PromptDispatch
node_prompt_dispatch r = record { request_id = r.request_id; model = r.model; payload = r.payload }

pub fleet_token_chunk : TokenChunk → Fleet.TokenChunk
fleet_token_chunk r = record { request_id = r.request_id; delta = r.delta; index = r.index }

pub node_token_chunk : Fleet.TokenChunk → TokenChunk
node_token_chunk r = record { request_id = r.request_id; delta = r.delta; index = r.index }

pub fleet_done : Done → Fleet.Done
fleet_done r = record { request_id = r.request_id; usage = fleet_usage r.usage }

pub node_done : Fleet.Done → Done
node_done r = record { request_id = r.request_id; usage = node_usage r.usage }

pub fleet_proto_error : ProtoError → Fleet.ProtoError
fleet_proto_error r = record { request_id = r.request_id; message = r.message }

pub node_proto_error : Fleet.ProtoError → ProtoError
node_proto_error r = record { request_id = r.request_id; message = r.message }

unfoldable pub fleet_message : Message → Fleet.Message
fleet_message (register r) = Fleet.register (fleet_register r)
fleet_message catalog_request = Fleet.catalog_request
fleet_message (heartbeat r) = Fleet.heartbeat (fleet_heartbeat r)
fleet_message (model_status r) = Fleet.model_status (fleet_model_status r)
fleet_message (schedule_state r) = Fleet.schedule_state (fleet_schedule_state r)
fleet_message (token_chunk r) = Fleet.token_chunk (fleet_token_chunk r)
fleet_message (done r) = Fleet.done (fleet_done r)
fleet_message (error r) = Fleet.error (fleet_proto_error r)
fleet_message (catalog_response r) = Fleet.catalog_response (fleet_catalog_response r)
fleet_message (prompt_dispatch r) = Fleet.prompt_dispatch (fleet_prompt_dispatch r)

pub node_message : Fleet.Message → Message
node_message (Fleet.register r) = register (node_register r)
node_message Fleet.catalog_request = catalog_request
node_message (Fleet.heartbeat r) = heartbeat (node_heartbeat r)
node_message (Fleet.model_status r) = model_status (node_model_status r)
node_message (Fleet.schedule_state r) = schedule_state (node_schedule_state r)
node_message (Fleet.token_chunk r) = token_chunk (node_token_chunk r)
node_message (Fleet.done r) = done (node_done r)
node_message (Fleet.error r) = error (node_proto_error r)
node_message (Fleet.catalog_response r) = catalog_response (node_catalog_response r)
node_message (Fleet.prompt_dispatch r) = prompt_dispatch (node_prompt_dispatch r)
