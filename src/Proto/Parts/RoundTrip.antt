-- ===== src/Proto/Parts/RoundTrip.antt =====
-- What the instances of the parts write, they read back.
use jw_swarm.Common.{◌≡◌, ◌<◌, ◌^◌, refl, arith, List, true, some, All}
use jw_swarm.Float.{Floats}
use jw_swarm.Serde.{is_finite, write_items, read_items, read_items-write_items}
use jw_swarm.Proto.{
  GpuVendor, OsKind, ScheduleStateValue, Backend, GpuInfo, OwnerLimits, Metrics, CatalogModel,
  Usage, nvidia, amd, apple, intel, macos, linux, windows, awake, asleep, draining, vllm, llama_cpp,
  mlx,
}
use jw_swarm.Proto.Parts.{
  write_gpu_vendor, gpu_vendor_of, read_gpu_vendor, write_os_kind, os_kind_of, read_os_kind,
  write_schedule_state_value, schedule_state_value_of, read_schedule_state_value, write_backend,
  backend_of, read_backend, write_gpu_info, read_gpu_info, write_owner_limits, read_owner_limits,
  write_metrics, read_metrics, write_catalog_model, read_catalog_model, write_usage, read_usage,
}

pub read_gpu_vendor-write_gpu_vendor :
    (v : GpuVendor) → read_gpu_vendor (write_gpu_vendor v) ≡ some v
unfolding read_gpu_vendor write_gpu_vendor gpu_vendor_of
read_gpu_vendor-write_gpu_vendor nvidia = refl
read_gpu_vendor-write_gpu_vendor amd = refl
read_gpu_vendor-write_gpu_vendor apple = refl
read_gpu_vendor-write_gpu_vendor intel = refl

pub read_os_kind-write_os_kind : (v : OsKind) → read_os_kind (write_os_kind v) ≡ some v
unfolding read_os_kind write_os_kind os_kind_of
read_os_kind-write_os_kind macos = refl
read_os_kind-write_os_kind linux = refl
read_os_kind-write_os_kind windows = refl

pub read_schedule_state_value-write_schedule_state_value :
    (v : ScheduleStateValue) → read_schedule_state_value (write_schedule_state_value v) ≡ some v
unfolding read_schedule_state_value write_schedule_state_value schedule_state_value_of
read_schedule_state_value-write_schedule_state_value awake = refl
read_schedule_state_value-write_schedule_state_value asleep = refl
read_schedule_state_value-write_schedule_state_value draining = refl

pub read_backend-write_backend : (v : Backend) → read_backend (write_backend v) ≡ some v
unfolding read_backend write_backend backend_of
read_backend-write_backend vllm = refl
read_backend-write_backend llama_cpp = refl
read_backend-write_backend mlx = refl

abbrev pub GpuInfoFits : GpuInfo → Type 0
GpuInfoFits r = (r.vram_mb < 2 ^ 64)

abbrev pub OwnerLimitsFits : OwnerLimits → Type 0
OwnerLimitsFits r = (r.gpu_power_pct < 2 ^ 8) × (r.memory_limit_mb < 2 ^ 64)

abbrev pub MetricsFits : Metrics → Type 0
MetricsFits r =
    (r.vram_used_mb < 2 ^ 64)
    × (r.vram_total_mb < 2 ^ 64)
    × (is_finite r.gpu_util_pct ≡ true)
    × (is_finite r.tps ≡ true)
    × (is_finite r.latency_ms ≡ true)
    × (r.in_flight < 2 ^ 32)

abbrev pub CatalogModelFits : CatalogModel → Type 0
CatalogModelFits r =
    (r.size_bytes < 2 ^ 64) × (r.context_length < 2 ^ 32) × (is_finite r.params_billions ≡ true)

abbrev pub UsageFits : Usage → Type 0
UsageFits r =
    (r.prompt_tokens < 2 ^ 32) × (r.completion_tokens < 2 ^ 32) × (r.total_tokens < 2 ^ 32)

pub read_gpu_info-write_gpu_info :
    (r : GpuInfo) → GpuInfoFits r → read_gpu_info (write_gpu_info r) ≡ some r
unfolding read_gpu_info write_gpu_info
read_gpu_info-write_gpu_info r h = ground (arith, read_gpu_vendor-write_gpu_vendor r.vendor)

pub read_owner_limits-write_owner_limits :
    (r : OwnerLimits) → OwnerLimitsFits r → read_owner_limits (write_owner_limits r) ≡ some r
unfolding read_owner_limits write_owner_limits
read_owner_limits-write_owner_limits r h = ground arith

pub read_metrics-write_metrics :
    (fl : Floats) (r : Metrics) → MetricsFits r → read_metrics fl (write_metrics r) ≡ some r
unfolding read_metrics write_metrics
read_metrics-write_metrics fl r h = ground arith

pub read_catalog_model-write_catalog_model :
    (fl : Floats) (r : CatalogModel)
    → CatalogModelFits r
    → read_catalog_model fl (write_catalog_model r) ≡ some r
unfolding read_catalog_model write_catalog_model
read_catalog_model-write_catalog_model fl r h = ground (arith, read_backend-write_backend r.backend)

pub read_models-write_models :
    (fl : Floats) (models : List CatalogModel)
    → All CatalogModelFits models
    → read_items (read_catalog_model fl) (write_items write_catalog_model models) ≡ some models
read_models-write_models fl =
    read_items-write_items write_catalog_model (read_catalog_model fl)
      (read_catalog_model-write_catalog_model fl)

pub read_usage-write_usage : (r : Usage) → UsageFits r → read_usage (write_usage r) ≡ some r
unfolding read_usage write_usage
read_usage-write_usage r h = ground arith
