-- ===== src/Proto/Schema.antt =====
-- proto/schema.json, the description of the messages that all programs of the swarm are to follow:
-- its definitions, and when a document is valid. In each definition every property is required.
pub mod Conformance
use jw_swarm.Common.{
  ℕ, String, List, [], ◌∷◌, Bool, true, false, ◌&&◌, Option, none, some, leb, unwrap_or, map_option,
  contains, if◌then◌else◌, ◌==◌,
}
use jw_swarm.Float.{F64, Floats, le}
use jw_swarm.Serde.{
  Tree, null, bool, nat, negative, float, str, array, object, Items, nil, item, Entries, end, entry,
  get_once,
}

mutual
  pub data Schema : Type 0 where
    -- "type": "string", and the same with "format": "uri"
    text : Schema
    uri : Schema
    -- "enum"
    one_of : List String → Schema
    -- "integer" and "number", from a minimum to a maximum, if there is one
    integer : (minimum : ℕ) (maximum : Option ℕ) → Schema
    number : (minimum : ℕ) (maximum : Option ℕ) → Schema
    array_of : Schema → Schema
    object_of : Properties → Schema
    -- "object" without more, and without any property
    any_object : Schema
    empty_object : Schema

  pub data Properties : Type 0 where
    done : Properties
    property : String → Schema → Properties → Properties

abbrev pub all_items : (Tree → Bool) → Items → Bool
all_items p nil = true
all_items p (item t ts) = p t && all_items p ts

abbrev pub in_range : Floats → ℕ → Option ℕ → F64 → Bool
in_range fl low none x = le fl (fl.of_ℕ low) x
in_range fl low (some high) x = le fl (fl.of_ℕ low) x && le fl x (fl.of_ℕ high)

unfoldable mutual
  pub conforms : Floats → (String → Bool) → Schema → Tree → Bool
  conforms fl is_uri text (str s) = true
  conforms fl is_uri uri (str s) = is_uri s
  conforms fl is_uri (one_of names) (str s) = contains names s
  conforms fl is_uri (integer low none) (nat n) = leb low n
  conforms fl is_uri (integer low (some high)) (nat n) = leb low n && leb n high
  conforms fl is_uri (number low high) (float x) = in_range fl low high x
  conforms fl is_uri (number low high) (nat n) = in_range fl low high (fl.of_ℕ n)
  conforms fl is_uri (array_of s) (array ts) = all_items (conforms fl is_uri s) ts
  conforms fl is_uri (object_of ps) (object es) = conforms_all fl is_uri ps es
  conforms fl is_uri any_object (object es) = true
  conforms fl is_uri empty_object (object end) = true
  conforms fl is_uri s t = false

  pub conforms_all : Floats → (String → Bool) → Properties → Entries → Bool
  conforms_all fl is_uri done es = true
  conforms_all fl is_uri (property k s ps) es =
      unwrap_or (map_option (conforms fl is_uri s) (get_once k es)) false
      && conforms_all fl is_uri ps es

-- "definitions"
abbrev pub gpu_info_schema : Schema
gpu_info_schema = object_of (
    property "vendor" (one_of ("nvidia" ∷ "amd" ∷ "apple" ∷ "intel" ∷ []))
      (property "name" text (property "vram_mb" (integer 0 none) done)))

abbrev pub owner_limits_schema : Schema
owner_limits_schema = object_of (
    property "gpu_power_pct" (integer 0 (some 100))
      (property "memory_limit_mb" (integer 0 none) done))

abbrev pub metrics_schema : Schema
metrics_schema = object_of (
    property "vram_used_mb" (integer 0 none) (
      property "vram_total_mb" (integer 0 none) (
        property "gpu_util_pct" (number 0 (some 100)) (
          property "tps" (number 0 none)
            (property "latency_ms" (number 0 none) (property "in_flight" (integer 0 none) done))))))

abbrev pub catalog_model_schema : Schema
catalog_model_schema = object_of (
    property "id" text (
      property "display_name" text (
        property "download_url" uri (
          property "sha256" text (
            property "size_bytes" (integer 0 none) (
              property "context_length" (integer 1 none) (
                property "params_billions" (number 0 none)
                  (property "backend" (one_of ("vllm" ∷ "llama.cpp" ∷ "mlx" ∷ [])) done))))))))

abbrev pub usage_schema : Schema
usage_schema = object_of (
    property "prompt_tokens" (integer 0 none) (
      property "completion_tokens" (integer 0 none)
        (property "total_tokens" (integer 0 none) done)))

abbrev pub state_schema : Schema
state_schema = one_of ("awake" ∷ "asleep" ∷ "draining" ∷ [])

-- "definitions", by the tag that "allOf" joins them to.
pub definition_of : String → Option Schema
definition_of tag =
    if tag == "Register"
    then some (
        object_of (
          property "node_id" text (
            property "hostname" text (
              property "os" (one_of ("macos" ∷ "linux" ∷ "windows" ∷ [])) (
                property "gpu" gpu_info_schema (
                  property "limits" owner_limits_schema
                    (property "selected_models" (array_of text) done)))))))
    else if tag == "CatalogRequest"
    then some empty_object
    else if tag == "CatalogResponse"
    then some (object_of (property "models" (array_of catalog_model_schema) done))
    else if tag == "Heartbeat"
    then some (
        object_of (
          property "node_id" text
            (property "metrics" metrics_schema (property "schedule_state" state_schema done))))
    else if tag == "ModelStatus"
    then some (object_of (property "node_id" text (property "ready_models" (array_of text) done)))
    else if tag == "ScheduleState"
    then some (object_of (property "node_id" text (property "state" state_schema done)))
    else if tag == "PromptDispatch"
    then some (
        object_of
          (property "request_id" text (property "model" text (property "payload" any_object done))))
    else if tag == "TokenChunk"
    then some (
        object_of (
          property "request_id" text
            (property "delta" text (property "index" (integer 0 none) done))))
    else if tag == "Done"
    then some (object_of (property "request_id" text (property "usage" usage_schema done)))
    else if tag == "Error"
    then some (object_of (property "request_id" text (property "message" text done)))
    else none

-- "required" and "allOf": a tag, and a payload that conforms to the tag's definition.
abbrev tagged_as : Floats → (String → Bool) → Option Tree → Option Tree → Bool
tagged_as fl is_uri (some (str tag)) (some payload) =
    unwrap_or (map_option (λ s. conforms fl is_uri s payload) (definition_of tag)) false
tagged_as fl is_uri _ _ = false

-- Whether a document is valid. `is_uri` is what the validator takes for a URI; draft-07 leaves it
-- to the validator whether it checks a format at all.
pub is_valid : Floats → (String → Bool) → Tree → Bool
unfolding definition_of conforms
is_valid fl is_uri (object es) = tagged_as fl is_uri (get_once "type" es) (get_once "payload" es)
is_valid fl is_uri _ = false
