-- ===== src/Node/Proto/Same/Parts.antt =====
-- The parts of the messages there and back.
use jw_swarm.Common.{◌≡◌, refl, List, [], ◌∷◌, map}
use jw_swarm.Proto as Fleet
use jw_swarm.Node.Proto.{
  GpuVendor, OsKind, ScheduleStateValue, Backend, GpuInfo, OwnerLimits, Metrics, CatalogModel,
  Usage, nvidia, amd, apple, intel, macos, linux, windows, awake, asleep, draining, vllm, llama_cpp,
  mlx,
}
use jw_swarm.Node.Proto.Same.{
  fleet_gpu_vendor, node_gpu_vendor, fleet_os_kind, node_os_kind, fleet_schedule_state_value,
  node_schedule_state_value, fleet_backend, node_backend, fleet_gpu_info, node_gpu_info,
  fleet_owner_limits, node_owner_limits, fleet_metrics, node_metrics, fleet_catalog_model,
  node_catalog_model, fleet_usage, node_usage,
}

pub fleet_gpu_vendor-node_gpu_vendor :
    (v : Fleet.GpuVendor) → fleet_gpu_vendor (node_gpu_vendor v) ≡ v
unfolding fleet_gpu_vendor node_gpu_vendor
fleet_gpu_vendor-node_gpu_vendor Fleet.nvidia = refl
fleet_gpu_vendor-node_gpu_vendor Fleet.amd = refl
fleet_gpu_vendor-node_gpu_vendor Fleet.apple = refl
fleet_gpu_vendor-node_gpu_vendor Fleet.intel = refl

pub node_gpu_vendor-fleet_gpu_vendor : (v : GpuVendor) → node_gpu_vendor (fleet_gpu_vendor v) ≡ v
unfolding node_gpu_vendor fleet_gpu_vendor
node_gpu_vendor-fleet_gpu_vendor nvidia = refl
node_gpu_vendor-fleet_gpu_vendor amd = refl
node_gpu_vendor-fleet_gpu_vendor apple = refl
node_gpu_vendor-fleet_gpu_vendor intel = refl

pub fleet_os_kind-node_os_kind : (v : Fleet.OsKind) → fleet_os_kind (node_os_kind v) ≡ v
unfolding fleet_os_kind node_os_kind
fleet_os_kind-node_os_kind Fleet.macos = refl
fleet_os_kind-node_os_kind Fleet.linux = refl
fleet_os_kind-node_os_kind Fleet.windows = refl

pub node_os_kind-fleet_os_kind : (v : OsKind) → node_os_kind (fleet_os_kind v) ≡ v
unfolding node_os_kind fleet_os_kind
node_os_kind-fleet_os_kind macos = refl
node_os_kind-fleet_os_kind linux = refl
node_os_kind-fleet_os_kind windows = refl

pub fleet_schedule_state_value-node_schedule_state_value :
    (v : Fleet.ScheduleStateValue) → fleet_schedule_state_value (node_schedule_state_value v) ≡ v
unfolding fleet_schedule_state_value node_schedule_state_value
fleet_schedule_state_value-node_schedule_state_value Fleet.awake = refl
fleet_schedule_state_value-node_schedule_state_value Fleet.asleep = refl
fleet_schedule_state_value-node_schedule_state_value Fleet.draining = refl

pub node_schedule_state_value-fleet_schedule_state_value :
    (v : ScheduleStateValue) → node_schedule_state_value (fleet_schedule_state_value v) ≡ v
unfolding node_schedule_state_value fleet_schedule_state_value
node_schedule_state_value-fleet_schedule_state_value awake = refl
node_schedule_state_value-fleet_schedule_state_value asleep = refl
node_schedule_state_value-fleet_schedule_state_value draining = refl

pub fleet_backend-node_backend : (v : Fleet.Backend) → fleet_backend (node_backend v) ≡ v
unfolding fleet_backend node_backend
fleet_backend-node_backend Fleet.vllm = refl
fleet_backend-node_backend Fleet.llama_cpp = refl
fleet_backend-node_backend Fleet.mlx = refl

pub node_backend-fleet_backend : (v : Backend) → node_backend (fleet_backend v) ≡ v
unfolding node_backend fleet_backend
node_backend-fleet_backend vllm = refl
node_backend-fleet_backend llama_cpp = refl
node_backend-fleet_backend mlx = refl

pub fleet_gpu_info-node_gpu_info : (r : Fleet.GpuInfo) → fleet_gpu_info (node_gpu_info r) ≡ r
unfolding fleet_gpu_info node_gpu_info
fleet_gpu_info-node_gpu_info r = rw (fleet_gpu_vendor-node_gpu_vendor r.vendor) refl

pub node_gpu_info-fleet_gpu_info : (r : GpuInfo) → node_gpu_info (fleet_gpu_info r) ≡ r
unfolding node_gpu_info fleet_gpu_info
node_gpu_info-fleet_gpu_info r = rw (node_gpu_vendor-fleet_gpu_vendor r.vendor) refl

pub fleet_owner_limits-node_owner_limits :
    (r : Fleet.OwnerLimits) → fleet_owner_limits (node_owner_limits r) ≡ r
unfolding fleet_owner_limits node_owner_limits
fleet_owner_limits-node_owner_limits r = refl

pub node_owner_limits-fleet_owner_limits :
    (r : OwnerLimits) → node_owner_limits (fleet_owner_limits r) ≡ r
unfolding node_owner_limits fleet_owner_limits
node_owner_limits-fleet_owner_limits r = refl

pub fleet_metrics-node_metrics : (r : Fleet.Metrics) → fleet_metrics (node_metrics r) ≡ r
unfolding fleet_metrics node_metrics
fleet_metrics-node_metrics r = refl

pub node_metrics-fleet_metrics : (r : Metrics) → node_metrics (fleet_metrics r) ≡ r
unfolding node_metrics fleet_metrics
node_metrics-fleet_metrics r = refl

pub fleet_catalog_model-node_catalog_model :
    (r : Fleet.CatalogModel) → fleet_catalog_model (node_catalog_model r) ≡ r
unfolding fleet_catalog_model node_catalog_model
fleet_catalog_model-node_catalog_model r = rw (fleet_backend-node_backend r.backend) refl

pub fleet_models-node_models :
    (models : List Fleet.CatalogModel)
    → map fleet_catalog_model (map node_catalog_model models) ≡ models
fleet_models-node_models [] = refl
fleet_models-node_models (r ∷ models) =
    rw (fleet_catalog_model-node_catalog_model r, fleet_models-node_models models) refl

pub node_catalog_model-fleet_catalog_model :
    (r : CatalogModel) → node_catalog_model (fleet_catalog_model r) ≡ r
unfolding node_catalog_model fleet_catalog_model
node_catalog_model-fleet_catalog_model r = rw (node_backend-fleet_backend r.backend) refl

pub node_models-fleet_models :
    (models : List CatalogModel) → map node_catalog_model (map fleet_catalog_model models) ≡ models
node_models-fleet_models [] = refl
node_models-fleet_models (r ∷ models) =
    rw (node_catalog_model-fleet_catalog_model r, node_models-fleet_models models) refl

pub fleet_usage-node_usage : (r : Fleet.Usage) → fleet_usage (node_usage r) ≡ r
unfolding fleet_usage node_usage
fleet_usage-node_usage r = refl

pub node_usage-fleet_usage : (r : Usage) → node_usage (fleet_usage r) ≡ r
unfolding node_usage fleet_usage
node_usage-fleet_usage r = refl
