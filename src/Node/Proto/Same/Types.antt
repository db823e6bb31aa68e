-- ===== src/Node/Proto/Same/Types.antt =====
-- Both programs declare the same types.
use jw_swarm.Common.{◌≡◌, refl}
use std.Univalence.{iso_to_path}
use std.Equiv.{Iso}
use jw_swarm.Proto as Fleet
use jw_swarm.Node.Proto.{
  Register, CatalogResponse, Heartbeat, ModelStatus, ScheduleState, PromptDispatch, TokenChunk,
  Done, ProtoError, Message, register, catalog_request, heartbeat, model_status, schedule_state,
  token_chunk, done, error, catalog_response, prompt_dispatch,
}
use jw_swarm.Node.Proto.Same.{
  fleet_register, node_register, fleet_catalog_response, node_catalog_response, fleet_heartbeat,
  node_heartbeat, fleet_model_status, node_model_status, fleet_schedule_state, node_schedule_state,
  fleet_prompt_dispatch, node_prompt_dispatch, fleet_token_chunk, node_token_chunk, fleet_done,
  node_done, fleet_proto_error, node_proto_error, fleet_message, node_message,
}
use jw_swarm.Node.Proto.Same.Parts.{
  fleet_os_kind-node_os_kind, node_os_kind-fleet_os_kind,
  fleet_schedule_state_value-node_schedule_state_value,
  node_schedule_state_value-fleet_schedule_state_value, fleet_gpu_info-node_gpu_info,
  node_gpu_info-fleet_gpu_info, fleet_owner_limits-node_owner_limits,
  node_owner_limits-fleet_owner_limits, fleet_metrics-node_metrics, node_metrics-fleet_metrics,
  fleet_models-node_models, node_models-fleet_models, fleet_usage-node_usage,
  node_usage-fleet_usage,
}

fleet_register-node_register : (r : Fleet.Register) → fleet_register (node_register r) ≡ r
unfolding fleet_register node_register
fleet_register-node_register r =
    rw
      (
        fleet_os_kind-node_os_kind r.os,
        fleet_gpu_info-node_gpu_info r.gpu,
        fleet_owner_limits-node_owner_limits r.limits,
      )
      refl

node_register-fleet_register : (r : Register) → node_register (fleet_register r) ≡ r
unfolding node_register fleet_register
node_register-fleet_register r =
    rw
      (
        node_os_kind-fleet_os_kind r.os,
        node_gpu_info-fleet_gpu_info r.gpu,
        node_owner_limits-fleet_owner_limits r.limits,
      )
      refl

fleet_catalog_response-node_catalog_response :
    (r : Fleet.CatalogResponse) → fleet_catalog_response (node_catalog_response r) ≡ r
unfolding fleet_catalog_response node_catalog_response
fleet_catalog_response-node_catalog_response r = rw (fleet_models-node_models r.models) refl

node_catalog_response-fleet_catalog_response :
    (r : CatalogResponse) → node_catalog_response (fleet_catalog_response r) ≡ r
unfolding node_catalog_response fleet_catalog_response
node_catalog_response-fleet_catalog_response r = rw (node_models-fleet_models r.models) refl

fleet_heartbeat-node_heartbeat : (r : Fleet.Heartbeat) → fleet_heartbeat (node_heartbeat r) ≡ r
unfolding fleet_heartbeat node_heartbeat
fleet_heartbeat-node_heartbeat r =
    rw
      (
        fleet_metrics-node_metrics r.metrics,
        fleet_schedule_state_value-node_schedule_state_value r.schedule_state,
      )
      refl

node_heartbeat-fleet_heartbeat : (r : Heartbeat) → node_heartbeat (fleet_heartbeat r) ≡ r
unfolding node_heartbeat fleet_heartbeat
node_heartbeat-fleet_heartbeat r =
    rw
      (
        node_metrics-fleet_metrics r.metrics,
        node_schedule_state_value-fleet_schedule_state_value r.schedule_state,
      )
      refl

fleet_model_status-node_model_status :
    (r : Fleet.ModelStatus) → fleet_model_status (node_model_status r) ≡ r
unfolding fleet_model_status node_model_status
fleet_model_status-node_model_status r = refl

node_model_status-fleet_model_status :
    (r : ModelStatus) → node_model_status (fleet_model_status r) ≡ r
unfolding node_model_status fleet_model_status
node_model_status-fleet_model_status r = refl

fleet_schedule_state-node_schedule_state :
    (r : Fleet.ScheduleState) → fleet_schedule_state (node_schedule_state r) ≡ r
unfolding fleet_schedule_state node_schedule_state
fleet_schedule_state-node_schedule_state r =
    rw (fleet_schedule_state_value-node_schedule_state_value r.state) refl

node_schedule_state-fleet_schedule_state :
    (r : ScheduleState) → node_schedule_state (fleet_schedule_state r) ≡ r
unfolding node_schedule_state fleet_schedule_state
node_schedule_state-fleet_schedule_state r =
    rw (node_schedule_state_value-fleet_schedule_state_value r.state) refl

fleet_prompt_dispatch-node_prompt_dispatch :
    (r : Fleet.PromptDispatch) → fleet_prompt_dispatch (node_prompt_dispatch r) ≡ r
unfolding fleet_prompt_dispatch node_prompt_dispatch
fleet_prompt_dispatch-node_prompt_dispatch r = refl

node_prompt_dispatch-fleet_prompt_dispatch :
    (r : PromptDispatch) → node_prompt_dispatch (fleet_prompt_dispatch r) ≡ r
unfolding node_prompt_dispatch fleet_prompt_dispatch
node_prompt_dispatch-fleet_prompt_dispatch r = refl

fleet_token_chunk-node_token_chunk :
    (r : Fleet.TokenChunk) → fleet_token_chunk (node_token_chunk r) ≡ r
unfolding fleet_token_chunk node_token_chunk
fleet_token_chunk-node_token_chunk r = refl

node_token_chunk-fleet_token_chunk : (r : TokenChunk) → node_token_chunk (fleet_token_chunk r) ≡ r
unfolding node_token_chunk fleet_token_chunk
node_token_chunk-fleet_token_chunk r = refl

fleet_done-node_done : (r : Fleet.Done) → fleet_done (node_done r) ≡ r
unfolding fleet_done node_done
fleet_done-node_done r = rw (fleet_usage-node_usage r.usage) refl

node_done-fleet_done : (r : Done) → node_done (fleet_done r) ≡ r
unfolding node_done fleet_done
node_done-fleet_done r = rw (node_usage-fleet_usage r.usage) refl

fleet_proto_error-node_proto_error :
    (r : Fleet.ProtoError) → fleet_proto_error (node_proto_error r) ≡ r
unfolding fleet_proto_error node_proto_error
fleet_proto_error-node_proto_error r = refl

node_proto_error-fleet_proto_error : (r : ProtoError) → node_proto_error (fleet_proto_error r) ≡ r
unfolding node_proto_error fleet_proto_error
node_proto_error-fleet_proto_error r = refl

pub fleet_message-node_message : (m : Fleet.Message) → fleet_message (node_message m) ≡ m
unfolding fleet_message node_message
fleet_message-node_message (Fleet.register r) = rw (fleet_register-node_register r) refl
fleet_message-node_message Fleet.catalog_request = refl
fleet_message-node_message (Fleet.heartbeat r) = rw (fleet_heartbeat-node_heartbeat r) refl
fleet_message-node_message (Fleet.model_status r) = rw (fleet_model_status-node_model_status r) refl
fleet_message-node_message (Fleet.schedule_state r) =
    rw (fleet_schedule_state-node_schedule_state r) refl
fleet_message-node_message (Fleet.token_chunk r) = rw (fleet_token_chunk-node_token_chunk r) refl
fleet_message-node_message (Fleet.done r) = rw (fleet_done-node_done r) refl
fleet_message-node_message (Fleet.error r) = rw (fleet_proto_error-node_proto_error r) refl
fleet_message-node_message (Fleet.catalog_response r) =
    rw (fleet_catalog_response-node_catalog_response r) refl
fleet_message-node_message (Fleet.prompt_dispatch r) =
    rw (fleet_prompt_dispatch-node_prompt_dispatch r) refl

pub node_message-fleet_message : (m : Message) → node_message (fleet_message m) ≡ m
unfolding node_message fleet_message
node_message-fleet_message (register r) = rw (node_register-fleet_register r) refl
node_message-fleet_message catalog_request = refl
node_message-fleet_message (heartbeat r) = rw (node_heartbeat-fleet_heartbeat r) refl
node_message-fleet_message (model_status r) = rw (node_model_status-fleet_model_status r) refl
node_message-fleet_message (schedule_state r) = rw (node_schedule_state-fleet_schedule_state r) refl
node_message-fleet_message (token_chunk r) = rw (node_token_chunk-fleet_token_chunk r) refl
node_message-fleet_message (done r) = rw (node_done-fleet_done r) refl
node_message-fleet_message (error r) = rw (node_proto_error-fleet_proto_error r) refl
node_message-fleet_message (catalog_response r) =
    rw (node_catalog_response-fleet_catalog_response r) refl
node_message-fleet_message (prompt_dispatch r) =
    rw (node_prompt_dispatch-fleet_prompt_dispatch r) refl

abbrev pub Message_iso : Iso Message Fleet.Message
Message_iso = record {
  fun = fleet_message;
  inv = node_message;
  rinv = fleet_message-node_message;
  linv = node_message-fleet_message;
}

-- The node and the Fleet Manager declare the same type of messages.
abbrev pub Message_eq : Message ≡ Fleet.Message
Message_eq = iso_to_path Message_iso
