-- ===== src/Node/Proto/Same/Reading.antt =====
-- Both programs read the bodies of messages alike.
use jw_swarm.Common.{◌≡◌, refl, inl, inr, arith, Option-cases, Option, map_option, map}
use jw_swarm.Float.{Floats}
use mathlib.Core.Path.{fun_ext}
use jw_swarm.Serde.{
  Tree, Items, nil, item, null, bool, nat, negative, float, str, array, object, Values, read_items,
  field,
}
use jw_swarm.Proto as Fleet
use jw_swarm.Proto.Parts as FleetParts
use jw_swarm.Proto.Bodies as FleetBodies
use jw_swarm.Node.Proto.{CatalogModel}
use jw_swarm.Node.Proto.Parts.{
  read_gpu_vendor, read_os_kind, read_schedule_state_value, read_backend, read_gpu_info,
  read_owner_limits, read_metrics, read_catalog_model, read_usage, gpu_vendor_of, os_kind_of,
  schedule_state_value_of, backend_of,
}
use jw_swarm.Node.Proto.Bodies.{
  read_register, read_catalog_response, read_heartbeat, read_model_status, read_schedule_state,
  read_prompt_dispatch, read_token_chunk, read_done, read_proto_error,
}
use jw_swarm.Node.Proto.Same.{
  node_gpu_vendor, node_os_kind, node_schedule_state_value, node_backend, node_gpu_info,
  node_owner_limits, node_metrics, node_catalog_model, node_usage, node_register,
  node_catalog_response, node_heartbeat, node_model_status, node_schedule_state,
  node_prompt_dispatch, node_token_chunk, node_done, node_proto_error,
}

pub read_gpu_vendor_same :
    (t : Tree) → read_gpu_vendor t ≡ map_option node_gpu_vendor (FleetParts.read_gpu_vendor t)
unfolding read_gpu_vendor FleetParts.read_gpu_vendor gpu_vendor_of FleetParts.gpu_vendor_of
    node_gpu_vendor
read_gpu_vendor_same t = ground arith

pub read_os_kind_same :
    (t : Tree) → read_os_kind t ≡ map_option node_os_kind (FleetParts.read_os_kind t)
unfolding read_os_kind FleetParts.read_os_kind os_kind_of FleetParts.os_kind_of node_os_kind
read_os_kind_same t = ground arith

pub read_schedule_state_value_same :
    (t : Tree)
    → read_schedule_state_value t
      ≡ map_option node_schedule_state_value (FleetParts.read_schedule_state_value t)
unfolding read_schedule_state_value FleetParts.read_schedule_state_value schedule_state_value_of
    FleetParts.schedule_state_value_of node_schedule_state_value
read_schedule_state_value_same t = ground arith

pub read_backend_same :
    (t : Tree) → read_backend t ≡ map_option node_backend (FleetParts.read_backend t)
unfolding read_backend FleetParts.read_backend backend_of FleetParts.backend_of node_backend
read_backend_same t = ground arith

pub read_models_same :
    (fl : Floats) (read : Tree → Option CatalogModel) (read' : Tree → Option Fleet.CatalogModel)
    → ((t : Tree) → read t ≡ map_option node_catalog_model (read' t))
    → (ts : Items) → read_items read ts ≡ map_option (map node_catalog_model) (read_items read' ts)
unfolding read_items
read_models_same fl read read' h nil = refl
read_models_same fl read read' h (item t ts) =
    rw (h t, read_models_same fl read read' h ts) (ground arith)

pub read_gpu_info_same :
    (t : Tree) → read_gpu_info t ≡ map_option node_gpu_info (FleetParts.read_gpu_info t)
unfolding read_gpu_info FleetParts.read_gpu_info node_gpu_info
read_gpu_info_same t = rw (fun_ext (read_gpu_vendor_same)) (ground arith)

pub read_owner_limits_same :
    (t : Tree) → read_owner_limits t ≡ map_option node_owner_limits (FleetParts.read_owner_limits t)
unfolding read_owner_limits FleetParts.read_owner_limits node_owner_limits
read_owner_limits_same t = ground arith

pub read_metrics_same :
    (fl : Floats) (t : Tree)
    → read_metrics fl t ≡ map_option node_metrics (FleetParts.read_metrics fl t)
unfolding read_metrics FleetParts.read_metrics node_metrics
read_metrics_same fl t = ground arith

pub read_catalog_model_same :
    (fl : Floats) (t : Tree)
    → read_catalog_model fl t ≡ map_option node_catalog_model (FleetParts.read_catalog_model fl t)
unfolding read_catalog_model FleetParts.read_catalog_model node_catalog_model
read_catalog_model_same fl t = rw (fun_ext (read_backend_same)) (ground arith)

pub read_usage_same : (t : Tree) → read_usage t ≡ map_option node_usage (FleetParts.read_usage t)
unfolding read_usage FleetParts.read_usage node_usage
read_usage_same t = ground arith

pub read_register_same :
    (t : Tree) → read_register t ≡ map_option node_register (FleetBodies.read_register t)
unfolding read_register FleetBodies.read_register node_register
read_register_same t =
    rw (fun_ext (read_os_kind_same), fun_ext (read_gpu_info_same), fun_ext (read_owner_limits_same))
      (ground arith)

pub read_catalog_response_same :
    (fl : Floats) (t : Tree)
    → read_catalog_response fl t
      ≡ map_option node_catalog_response (FleetBodies.read_catalog_response fl t)
unfolding read_catalog_response FleetBodies.read_catalog_response node_catalog_response
read_catalog_response_same fl t = elim (Option-cases (field "models" 0 1 t)) [
  | inl e ↦ rw e refl
  | inr (array ts, e) ↦
      rw
        (
          e,
          read_models_same fl (read_catalog_model fl) (FleetParts.read_catalog_model fl)
              (read_catalog_model_same fl) ts,
        )
        (ground arith)
  | inr (null, e) ↦ rw e refl
  | inr (bool b, e) ↦ rw e refl
  | inr (nat n, e) ↦ rw e refl
  | inr (negative n, e) ↦ rw e refl
  | inr (float x, e) ↦ rw e refl
  | inr (str x, e) ↦ rw e refl
  | inr (object es, e) ↦ rw e refl
]

pub read_heartbeat_same :
    (fl : Floats) (t : Tree)
    → read_heartbeat fl t ≡ map_option node_heartbeat (FleetBodies.read_heartbeat fl t)
unfolding read_heartbeat FleetBodies.read_heartbeat node_heartbeat
read_heartbeat_same fl t =
    rw (fun_ext (read_metrics_same fl), fun_ext (read_schedule_state_value_same)) (ground arith)

pub read_model_status_same :
    (t : Tree)
    → read_model_status t ≡ map_option node_model_status (FleetBodies.read_model_status t)
unfolding read_model_status FleetBodies.read_model_status node_model_status
read_model_status_same t = ground arith

pub read_schedule_state_same :
    (t : Tree)
    → read_schedule_state t ≡ map_option node_schedule_state (FleetBodies.read_schedule_state t)
unfolding read_schedule_state FleetBodies.read_schedule_state node_schedule_state
read_schedule_state_same t = rw (fun_ext (read_schedule_state_value_same)) (ground arith)

pub read_prompt_dispatch_same :
    (values : Values) (t : Tree)
    → read_prompt_dispatch values t
      ≡ map_option node_prompt_dispatch (FleetBodies.read_prompt_dispatch values t)
unfolding read_prompt_dispatch FleetBodies.read_prompt_dispatch node_prompt_dispatch
read_prompt_dispatch_same values t = ground arith

pub read_token_chunk_same :
    (t : Tree) → read_token_chunk t ≡ map_option node_token_chunk (FleetBodies.read_token_chunk t)
unfolding read_token_chunk FleetBodies.read_token_chunk node_token_chunk
read_token_chunk_same t = ground arith

pub read_done_same : (t : Tree) → read_done t ≡ map_option node_done (FleetBodies.read_done t)
unfolding read_done FleetBodies.read_done node_done
read_done_same t = rw (fun_ext (read_usage_same)) (ground arith)

pub read_proto_error_same :
    (t : Tree) → read_proto_error t ≡ map_option node_proto_error (FleetBodies.read_proto_error t)
unfolding read_proto_error FleetBodies.read_proto_error node_proto_error
read_proto_error_same t = ground arith
