-- ===== src/Node/Proto.antt =====
-- jw-swarm-nodes/linux/src/proto.rs: the node's own declarations of the messages, with the serde
-- instances that they derive in the modules below. The other modules of the node take the types
-- from Proto, which are the same: see Proto/Same.
pub mod Same
pub mod Parts
pub mod Bodies
pub mod Codec
use jw_swarm.Common.{ℕ, String, List}
use jw_swarm.Float.{F64}
use jw_swarm.Proto.{Value}

pub data ScheduleStateValue : Type 0 where
  awake asleep draining : ScheduleStateValue

pub data GpuVendor : Type 0 where
  nvidia amd apple intel : GpuVendor

pub data OsKind : Type 0 where
  macos linux windows : OsKind

pub data Backend : Type 0 where
  vllm llama_cpp mlx : Backend

pub record GpuInfo : Type 0 where
  pub vendor : GpuVendor
  pub name : String
  pub vram_mb : ℕ

pub record OwnerLimits : Type 0 where
  pub gpu_power_pct : ℕ
  pub memory_limit_mb : ℕ

pub record Metrics : Type 0 where
  pub vram_used_mb : ℕ
  pub vram_total_mb : ℕ
  pub gpu_util_pct : F64
  pub tps : F64
  pub latency_ms : F64
  pub in_flight : ℕ

pub record CatalogModel : Type 0 where
  pub id : String
  pub display_name : String
  pub download_url : String
  pub sha256 : String
  pub size_bytes : ℕ
  pub context_length : ℕ
  pub params_billions : F64
  pub backend : Backend

pub record Usage : Type 0 where
  pub prompt_tokens : ℕ
  pub completion_tokens : ℕ
  pub total_tokens : ℕ

pub record Register : Type 0 where
  pub node_id : String
  pub hostname : String
  pub os : OsKind
  pub gpu : GpuInfo
  pub limits : OwnerLimits
  pub selected_models : List String

pub record CatalogResponse : Type 0 where
  pub models : List CatalogModel

pub record Heartbeat : Type 0 where
  pub node_id : String
  pub metrics : Metrics
  pub schedule_state : ScheduleStateValue

pub record ModelStatus : Type 0 where
  pub node_id : String
  pub ready_models : List String

pub record ScheduleState : Type 0 where
  pub node_id : String
  pub state : ScheduleStateValue

pub record PromptDispatch : Type 0 where
  pub request_id : String
  pub model : String
  pub payload : Value

pub record TokenChunk : Type 0 where
  pub request_id : String
  pub delta : String
  pub index : ℕ

pub record Done : Type 0 where
  pub request_id : String
  pub usage : Usage

pub record ProtoError : Type 0 where
  pub request_id : String
  pub message : String

pub data Message : Type 0 where
  -- sent
  register : Register → Message
  catalog_request : Message
  heartbeat : Heartbeat → Message
  model_status : ModelStatus → Message
  schedule_state : ScheduleState → Message
  token_chunk : TokenChunk → Message
  done : Done → Message
  error : ProtoError → Message
  -- received
  catalog_response : CatalogResponse → Message
  prompt_dispatch : PromptDispatch → Message
