-- ===== src/Node/Proto/Parts.antt =====
-- jw-swarm-nodes/linux/src/proto.rs: the serde instances that the enumerations and the records
-- inside of messages derive, with the names of fields and variants as declared and renamed there.
use jw_swarm.Common.{String, Option, none, some, if◌then◌else◌, ◌==◌}
use jw_swarm.Float.{Floats}
use jw_swarm.Serde.{
  Tree, nat, str, object, end, entry, field, variant, read_str, read_uint, read_f64, write_f64,
  ◌>>=◌,
}
use jw_swarm.Node.Proto.{
  GpuVendor, OsKind, ScheduleStateValue, Backend, GpuInfo, OwnerLimits, Metrics, CatalogModel,
  Usage, nvidia, amd, apple, intel, macos, linux, windows, awake, asleep, draining, vllm, llama_cpp,
  mlx,
}

unfoldable pub write_gpu_vendor : GpuVendor → Tree
write_gpu_vendor nvidia = str "nvidia"
write_gpu_vendor amd = str "amd"
write_gpu_vendor apple = str "apple"
write_gpu_vendor intel = str "intel"

unfoldable pub gpu_vendor_of : String → Option GpuVendor
gpu_vendor_of s =
    if s == "nvidia"
    then some nvidia
    else if s == "amd"
    then some amd
    else if s == "apple"
    then some apple
    else if s == "intel"
    then some intel
    else none

unfoldable pub read_gpu_vendor : Tree → Option GpuVendor
read_gpu_vendor t = variant t >>= gpu_vendor_of

unfoldable pub write_os_kind : OsKind → Tree
write_os_kind macos = str "macos"
write_os_kind linux = str "linux"
write_os_kind windows = str "windows"

unfoldable pub os_kind_of : String → Option OsKind
os_kind_of s =
    if s == "macos"
    then some macos
    else if s == "linux"
    then some linux
    else if s == "windows"
    then some windows
    else none

unfoldable pub read_os_kind : Tree → Option OsKind
read_os_kind t = variant t >>= os_kind_of

unfoldable pub write_schedule_state_value : ScheduleStateValue → Tree
write_schedule_state_value awake = str "awake"
write_schedule_state_value asleep = str "asleep"
write_schedule_state_value draining = str "draining"

unfoldable pub schedule_state_value_of : String → Option ScheduleStateValue
schedule_state_value_of s =
    if s == "awake"
    then some awake
    else if s == "asleep"
    then some asleep
    else if s == "draining"
    then some draining
    else none

unfoldable pub read_schedule_state_value : Tree → Option ScheduleStateValue
read_schedule_state_value t = variant t >>= schedule_state_value_of

unfoldable pub write_backend : Backend → Tree
write_backend vllm = str "vllm"
write_backend llama_cpp = str "llama.cpp"
write_backend mlx = str "mlx"

unfoldable pub backend_of : String → Option Backend
backend_of s =
    if s == "vllm"
    then some vllm
    else if s == "llama.cpp"
    then some llama_cpp
    else if s == "mlx"
    then some mlx
    else none

unfoldable pub read_backend : Tree → Option Backend
read_backend t = variant t >>= backend_of

unfoldable pub write_gpu_info : GpuInfo → Tree
write_gpu_info r = object (
    entry "vendor" (write_gpu_vendor r.vendor)
      (entry "name" (str r.name) (entry "vram_mb" (nat r.vram_mb) end)))

unfoldable pub read_gpu_info : Tree → Option GpuInfo
read_gpu_info t = do
  vendor ← field "vendor" 0 3 t >>= read_gpu_vendor
  name ← field "name" 1 3 t >>= read_str
  vram_mb ← field "vram_mb" 2 3 t >>= read_uint 64
  some (record { vendor = vendor; name = name; vram_mb = vram_mb })

unfoldable pub write_owner_limits : OwnerLimits → Tree
write_owner_limits r = object (
    entry "gpu_power_pct" (nat r.gpu_power_pct)
      (entry "memory_limit_mb" (nat r.memory_limit_mb) end))

unfoldable pub read_owner_limits : Tree → Option OwnerLimits
read_owner_limits t = do
  gpu_power_pct ← field "gpu_power_pct" 0 2 t >>= read_uint 8
  memory_limit_mb ← field "memory_limit_mb" 1 2 t >>= read_uint 64
  some (record { gpu_power_pct = gpu_power_pct; memory_limit_mb = memory_limit_mb })

unfoldable pub write_metrics : Metrics → Tree
write_metrics r = object (
    entry "vram_used_mb" (nat r.vram_used_mb) (
      entry "vram_total_mb" (nat r.vram_total_mb) (
        entry "gpu_util_pct" (write_f64 r.gpu_util_pct) (
          entry "tps" (write_f64 r.tps) (
            entry "latency_ms" (write_f64 r.latency_ms)
              (entry "in_flight" (nat r.in_flight) end))))))

unfoldable pub read_metrics : (fl : Floats) → Tree → Option Metrics
read_metrics fl t = do
  vram_used_mb ← field "vram_used_mb" 0 6 t >>= read_uint 64
  vram_total_mb ← field "vram_total_mb" 1 6 t >>= read_uint 64
  gpu_util_pct ← field "gpu_util_pct" 2 6 t >>= read_f64 fl
  tps ← field "tps" 3 6 t >>= read_f64 fl
  latency_ms ← field "latency_ms" 4 6 t >>= read_f64 fl
  in_flight ← field "in_flight" 5 6 t >>= read_uint 32
  some (record {
    vram_used_mb = vram_used_mb;
    vram_total_mb = vram_total_mb;
    gpu_util_pct = gpu_util_pct;
    tps = tps;
    latency_ms = latency_ms;
    in_flight = in_flight;
  })

unfoldable pub write_catalog_model : CatalogModel → Tree
write_catalog_model r = object (
    entry "id" (str r.id) (
      entry "display_name" (str r.display_name) (
        entry "download_url" (str r.download_url) (
          entry "sha256" (str r.sha256) (
            entry "size_bytes" (nat r.size_bytes) (
              entry "context_length" (nat r.context_length) (
                entry "params_billions" (write_f64 r.params_billions)
                  (entry "backend" (write_backend r.backend) end))))))))

unfoldable pub read_catalog_model : (fl : Floats) → Tree → Option CatalogModel
read_catalog_model fl t = do
  id ← field "id" 0 8 t >>= read_str
  display_name ← field "display_name" 1 8 t >>= read_str
  download_url ← field "download_url" 2 8 t >>= read_str
  sha256 ← field "sha256" 3 8 t >>= read_str
  size_bytes ← field "size_bytes" 4 8 t >>= read_uint 64
  context_length ← field "context_length" 5 8 t >>= read_uint 32
  params_billions ← field "params_billions" 6 8 t >>= read_f64 fl
  backend ← field "backend" 7 8 t >>= read_backend
  some (record {
    id = id;
    display_name = display_name;
    download_url = download_url;
    sha256 = sha256;
    size_bytes = size_bytes;
    context_length = context_length;
    params_billions = params_billions;
    backend = backend;
  })

unfoldable pub write_usage : Usage → Tree
write_usage r = object (
    entry "prompt_tokens" (nat r.prompt_tokens) (
      entry "completion_tokens" (nat r.completion_tokens)
        (entry "total_tokens" (nat r.total_tokens) end)))

unfoldable pub read_usage : Tree → Option Usage
read_usage t = do
  prompt_tokens ← field "prompt_tokens" 0 3 t >>= read_uint 32
  completion_tokens ← field "completion_tokens" 1 3 t >>= read_uint 32
  total_tokens ← field "total_tokens" 2 3 t >>= read_uint 32
  some (record {
    prompt_tokens = prompt_tokens;
    completion_tokens = completion_tokens;
    total_tokens = total_tokens;
  })
