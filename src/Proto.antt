-- ===== src/Proto.antt =====
-- The wire protocol's types: jw-swarm-fleet-manager/src/proto.rs. The serde instances that they
-- derive are in the modules below.
pub mod Schema
pub mod Parts
pub mod Bodies
pub mod Codec
use jw_swarm.Common.{ℕ, String, List, Bool, true, false}
use jw_swarm.Float.{F64}

pub data ScheduleStateValue : Type 0 where
  awake asleep draining : ScheduleStateValue

-- `==` of the derived `PartialEq`
abbrev pub is_awake : ScheduleStateValue → Bool
is_awake awake = true
is_awake asleep = false
is_awake draining = false

pub data GpuVendor : Type 0 where
  nvidia amd apple intel : GpuVendor

abbrev pub same_vendor : GpuVendor → GpuVendor → Bool
same_vendor nvidia nvidia = true
same_vendor amd amd = true
same_vendor apple apple = true
same_vendor intel intel = true
same_vendor _ _ = false

pub data OsKind : Type 0 where
  macos linux windows : OsKind

pub data Backend : Type 0 where
  vllm llama_cpp mlx : Backend

pub record GpuInfo : Type 0 where
  pub vendor : GpuVendor
  pub name : String
  pub vram_mb : ℕ

pub record OwnerLimits : Type 0 where
  pub gpu_power_pct : ℕ
  pub memory_limit_mb : ℕ

pub record Metrics : Type 0 where
  pub vram_used_mb : ℕ
  pub vram_total_mb : ℕ
  pub gpu_util_pct : F64
  pub tps : F64
  pub latency_ms : F64
  pub in_flight : ℕ

pub record CatalogModel : Type 0 where
  pub id : String
  pub display_name : String
  pub download_url : String
  pub sha256 : String
  pub size_bytes : ℕ
  pub context_length : ℕ
  pub params_billions : F64
  pub backend : Backend

pub record Usage : Type 0 where
  pub prompt_tokens : ℕ
  pub completion_tokens : ℕ
  pub total_tokens : ℕ

pub record Register : Type 0 where
  pub node_id : String
  pub hostname : String
  pub os : OsKind
  pub gpu : GpuInfo
  pub limits : OwnerLimits
  pub selected_models : List String

pub record CatalogResponse : Type 0 where
  pub models : List CatalogModel

pub record Heartbeat : Type 0 where
  pub node_id : String
  pub metrics : Metrics
  pub schedule_state : ScheduleStateValue

pub record ModelStatus : Type 0 where
  pub node_id : String
  pub ready_models : List String

pub record ScheduleState : Type 0 where
  pub node_id : String
  pub state : ScheduleStateValue

-- A `serde_json::Value`, held as its text and read only through the `Json` record of Http.
pub record Value : Type 0 where
  pub text : String

pub record PromptDispatch : Type 0 where
  pub request_id : String
  pub model : String
  pub payload : Value

pub record TokenChunk : Type 0 where
  pub request_id : String
  pub delta : String
  pub index : ℕ

pub record Done : Type 0 where
  pub request_id : String
  pub usage : Usage

pub record ProtoError : Type 0 where
  pub request_id : String
  pub message : String

pub data Message : Type 0 where
  -- node to Fleet Manager
  register : Register → Message
  catalog_request : Message
  heartbeat : Heartbeat → Message
  model_status : ModelStatus → Message
  schedule_state : ScheduleState → Message
  token_chunk : TokenChunk → Message
  done : Done → Message
  error : ProtoError → Message
  -- Fleet Manager to node
  catalog_response : CatalogResponse → Message
  prompt_dispatch : PromptDispatch → Message
