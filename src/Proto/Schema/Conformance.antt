-- ===== src/Proto/Schema/Conformance.antt =====
-- Which messages of the Rust programs conform to proto/schema.json.
use jw_swarm.Common.{◌≡◌, refl, arith, String, List, [], ◌∷◌, Bool, true, false, ◌&&◌, leb}
use jw_swarm.Float.{F64, Floats, le}
use jw_swarm.Serde.{is_finite, Values, Tree, str, object, write_items}
use jw_swarm.Proto.{
  GpuVendor, nvidia, amd, apple, intel, Metrics, GpuInfo, OwnerLimits, CatalogModel, Usage, OsKind,
  macos, linux, windows, ScheduleStateValue, awake, asleep, draining, Backend, vllm, llama_cpp, mlx,
  Message, register, catalog_request, heartbeat, model_status, schedule_state, token_chunk, done,
  error, catalog_response, prompt_dispatch,
}
use jw_swarm.Proto.Parts.{
  write_gpu_vendor, write_gpu_info, write_metrics, write_owner_limits, write_catalog_model,
  write_usage, write_os_kind, write_schedule_state_value, write_backend,
}
use jw_swarm.Proto.Bodies.{
  write_register, write_heartbeat, write_model_status, write_schedule_state, write_token_chunk,
  write_done, write_proto_error, write_catalog_response, write_prompt_dispatch,
}
use jw_swarm.Proto.Codec.{to_value}
use jw_swarm.Proto.Schema.{
  conforms, gpu_info_schema, metrics_schema, owner_limits_schema, catalog_model_schema,
  usage_schema, state_schema, text, one_of, is_valid, definition_of, all_items,
}

-- A float that JSON has a text for, and that is not below zero.
abbrev pub is_measure : Floats → F64 → Bool
is_measure fl x = is_finite x && le fl (fl.of_ℕ 0) x

abbrev pub measures : Floats → Metrics → Bool
measures fl r =
    is_measure fl r.gpu_util_pct
    && le fl r.gpu_util_pct (fl.of_ℕ 100)
    && is_measure fl r.tps
    && is_measure fl r.latency_ms

abbrev pub is_sized : Floats → (String → Bool) → CatalogModel → Bool
is_sized fl is_uri r =
    is_uri r.download_url && leb 1 r.context_length && is_measure fl r.params_billions

abbrev pub all_sized : Floats → (String → Bool) → List CatalogModel → Bool
all_sized fl is_uri [] = true
all_sized fl is_uri (r ∷ models) = is_sized fl is_uri r && all_sized fl is_uri models

abbrev pub is_object : Tree → Bool
is_object (object es) = true
is_object _ = false

os-conforms :
    (fl : Floats) (is_uri : String → Bool) (v : OsKind)
    → conforms fl is_uri (one_of ("macos" ∷ "linux" ∷ "windows" ∷ [])) (write_os_kind v) ≡ true
unfolding conforms write_os_kind
os-conforms fl is_uri macos = refl
os-conforms fl is_uri linux = refl
os-conforms fl is_uri windows = refl

state-conforms :
    (fl : Floats) (is_uri : String → Bool) (v : ScheduleStateValue)
    → conforms fl is_uri state_schema (write_schedule_state_value v) ≡ true
unfolding conforms write_schedule_state_value
state-conforms fl is_uri awake = refl
state-conforms fl is_uri asleep = refl
state-conforms fl is_uri draining = refl

vendor-conforms :
    (fl : Floats) (is_uri : String → Bool) (v : GpuVendor)
    → conforms fl is_uri (one_of ("nvidia" ∷ "amd" ∷ "apple" ∷ "intel" ∷ [])) (write_gpu_vendor v)
      ≡ true
unfolding conforms write_gpu_vendor
vendor-conforms fl is_uri nvidia = refl
vendor-conforms fl is_uri amd = refl
vendor-conforms fl is_uri apple = refl
vendor-conforms fl is_uri intel = refl

backend-conforms :
    (fl : Floats) (is_uri : String → Bool) (v : Backend)
    → conforms fl is_uri (one_of ("vllm" ∷ "llama.cpp" ∷ "mlx" ∷ [])) (write_backend v) ≡ true
unfolding conforms write_backend
backend-conforms fl is_uri vllm = refl
backend-conforms fl is_uri llama_cpp = refl
backend-conforms fl is_uri mlx = refl

gpu_info-conforms :
    (fl : Floats) (is_uri : String → Bool) (r : GpuInfo)
    → conforms fl is_uri gpu_info_schema (write_gpu_info r) ≡ true
unfolding conforms write_gpu_info
gpu_info-conforms fl is_uri r = ground (arith, vendor-conforms fl is_uri r.vendor)

owner_limits-conforms :
    (fl : Floats) (is_uri : String → Bool) (r : OwnerLimits)
    → conforms fl is_uri owner_limits_schema (write_owner_limits r) ≡ leb r.gpu_power_pct 100
unfolding conforms write_owner_limits
owner_limits-conforms fl is_uri r = ground arith

metrics-conforms :
    (fl : Floats) (is_uri : String → Bool) (r : Metrics)
    → conforms fl is_uri metrics_schema (write_metrics r) ≡ measures fl r
unfolding conforms write_metrics
metrics-conforms fl is_uri r = ground arith

catalog_model-conforms :
    (fl : Floats) (is_uri : String → Bool) (r : CatalogModel)
    → conforms fl is_uri catalog_model_schema (write_catalog_model r) ≡ is_sized fl is_uri r
unfolding conforms write_catalog_model
catalog_model-conforms fl is_uri r = ground (arith, backend-conforms fl is_uri r.backend)

usage-conforms :
    (fl : Floats) (is_uri : String → Bool) (r : Usage)
    → conforms fl is_uri usage_schema (write_usage r) ≡ true
unfolding conforms write_usage
usage-conforms fl is_uri r = ground arith

strings-conform :
    (fl : Floats) (is_uri : String → Bool) (xs : List String)
    → all_items (conforms fl is_uri text) (write_items str xs) ≡ true
unfolding conforms write_items
strings-conform fl is_uri [] = refl
strings-conform fl is_uri (x ∷ xs) = strings-conform fl is_uri xs

models-conform :
    (fl : Floats) (is_uri : String → Bool) (models : List CatalogModel)
    → all_items (conforms fl is_uri catalog_model_schema) (write_items write_catalog_model models)
      ≡ all_sized fl is_uri models
unfolding write_items
models-conform fl is_uri [] = refl
models-conform fl is_uri (r ∷ models) =
    rw (catalog_model-conforms fl is_uri r, models-conform fl is_uri models) refl

-- What the schema asks of a message of the Rust programs.
abbrev pub in_schema : Floats → (String → Bool) → Values → Message → Bool
in_schema fl is_uri values (register r) = leb r.limits.gpu_power_pct 100
in_schema fl is_uri values catalog_request = false
in_schema fl is_uri values (heartbeat r) = measures fl r.metrics
in_schema fl is_uri values (catalog_response r) = all_sized fl is_uri r.models
in_schema fl is_uri values (prompt_dispatch r) = is_object (values.to_tree r.payload)
in_schema fl is_uri values _ = true

-- What is written for a message is valid by proto/schema.json exactly if it is no catalog request,
-- the floats of a heartbeat are finite and not below zero with the load of the card at most 100, the
-- power limit of a registration is at most 100, each model of a catalog has a URI to download from,
-- a context of at least one token and a number of parameters that is finite and not below zero, and
-- the payload of a prompt is an object; all other messages are valid. What counts as a URI is up to
-- the validator.
pub is_valid-to_value :
    (fl : Floats) (is_uri : String → Bool) (values : Values) (m : Message)
    → is_valid fl is_uri (to_value values m) ≡ in_schema fl is_uri values m
unfolding is_valid to_value definition_of write_register write_heartbeat write_model_status
    write_schedule_state write_token_chunk write_done write_proto_error write_catalog_response
    write_prompt_dispatch conforms
is_valid-to_value fl is_uri values (register r) = ground (
  arith,
  os-conforms fl is_uri r.os,
  gpu_info-conforms fl is_uri r.gpu,
  owner_limits-conforms fl is_uri r.limits,
  strings-conform fl is_uri r.selected_models,
)
is_valid-to_value fl is_uri values catalog_request = refl
is_valid-to_value fl is_uri values (heartbeat r) =
    ground (arith, metrics-conforms fl is_uri r.metrics, state-conforms fl is_uri r.schedule_state)
is_valid-to_value fl is_uri values (model_status r) =
    ground (arith, strings-conform fl is_uri r.ready_models)
is_valid-to_value fl is_uri values (schedule_state r) =
    ground (arith, state-conforms fl is_uri r.state)
is_valid-to_value fl is_uri values (token_chunk r) = ground arith
is_valid-to_value fl is_uri values (done r) = ground (arith, usage-conforms fl is_uri r.usage)
is_valid-to_value fl is_uri values (error r) = ground arith
is_valid-to_value fl is_uri values (catalog_response r) =
    ground (arith, models-conform fl is_uri r.models)
is_valid-to_value fl is_uri values (prompt_dispatch r) = ground arith
