-- ===== src/Tunnel/Keyed.antt =====
-- A whole connection keeps the registry's invariant, however its frames fall.
use jw_swarm.Common.{◌≡◌, refl, String, List, [], ◌∷◌, Option, none, some, arith}
use jw_swarm.Float.{Floats}
use jw_swarm.Proto.{
  Message, register, catalog_request, heartbeat, model_status, schedule_state, token_chunk, done,
  error, catalog_response, prompt_dispatch, Heartbeat, Done,
}
use jw_swarm.Channel.{Sender}
use jw_swarm.Registry.{
  PendingMeta, get_pending, remove_node, upsert_node, update_ready_models, update_schedule,
  update_metrics,
}
use jw_swarm.Registry.Laws.{
  IsKeyed, call-IsKeyed, upserts, removes, measures, readies, schedules, call,
}
use jw_swarm.State.{AppState}
use jw_swarm.Tunnel.{
  spawn_delivery, Session, Moment, Frame, text, close, ping, pong, binary, read_error, on_heartbeat,
  on_done, handle_message, on_text, finish, handle_socket, credit_capacity, on_register,
}

pub finish-IsKeyed :
    (s : AppState) (session : Option Session)
    → IsKeyed s.registry
    → IsKeyed (finish s session).registry
unfolding finish remove_node call
finish-IsKeyed s none h = h
finish-IsKeyed s (some x) h = call-IsKeyed s.registry (removes x.node_id) h

module _ (fl : Floats) where
  on_heartbeat-IsKeyed :
      (now : Moment) (s : AppState) (session : Option Session) (hb : Heartbeat)
      → IsKeyed s.registry
      → IsKeyed (on_heartbeat fl now s session hb).0.registry
  unfolding on_heartbeat credit_capacity update_metrics call
  on_heartbeat-IsKeyed now s session hb h =
      let k = call-IsKeyed s.registry (measures hb.node_id hb.metrics hb.schedule_state) h in
      ground (arith, k)

  spawn_delivery-registry :
      (s : AppState) (session : Option Session) (d : Done) (meta : Option PendingMeta)
      → (spawn_delivery fl s session d meta).registry ≡ s.registry
  unfolding spawn_delivery
  spawn_delivery-registry s session d none = refl
  spawn_delivery-registry s session d (some meta) = refl

  on_done-IsKeyed :
      (s : AppState) (session : Option Session) (d : Done)
      → IsKeyed s.registry
      → IsKeyed (on_done fl s session d).registry
  unfolding on_done
  on_done-IsKeyed s session d h =
      rw (spawn_delivery-registry s session d (get_pending s.registry d.request_id)) h

  pub handle_message-IsKeyed :
      (now : Moment) (s : AppState) (tx : Sender) (session : Option Session) (msg : Message)
      → IsKeyed s.registry
      → IsKeyed (handle_message fl now s tx session msg).0.registry
  unfolding handle_message on_register upsert_node update_ready_models update_schedule call
  handle_message-IsKeyed now s tx session (register reg) h =
      call-IsKeyed s.registry (upserts reg tx) h
  handle_message-IsKeyed now s tx session catalog_request h = h
  handle_message-IsKeyed now s tx session (heartbeat hb) h = on_heartbeat-IsKeyed now s session hb h
  handle_message-IsKeyed now s tx session (model_status ms) h =
      call-IsKeyed s.registry (readies ms.node_id ms.ready_models) h
  handle_message-IsKeyed now s tx session (schedule_state ss) h =
      call-IsKeyed s.registry (schedules ss.node_id ss.state) h
  handle_message-IsKeyed now s tx session (token_chunk c) h = h
  handle_message-IsKeyed now s tx session (done d) h = on_done-IsKeyed s session d h
  handle_message-IsKeyed now s tx session (error e) h = h
  handle_message-IsKeyed now s tx session (catalog_response r) h = h
  handle_message-IsKeyed now s tx session (prompt_dispatch p) h = h

  module _ (from_json : String → Option Message) where
    on_text-IsKeyed :
        (now : Moment) (s : AppState) (tx : Sender) (session : Option Session)
        → (msg : Option Message) → IsKeyed s.registry
        → IsKeyed (on_text fl from_json now s tx session msg).0.registry
    unfolding on_text
    on_text-IsKeyed now s tx session none h = h
    on_text-IsKeyed now s tx session (some msg) h = handle_message-IsKeyed now s tx session msg h

    -- From its first frame to the close of the socket a connection keeps every node under the id
    -- that it registered with, each node and each pending request once, whatever texts it sends
    -- and however it ends.
    pub handle_socket-IsKeyed :
        (s : AppState) (tx : Sender) (session : Option Session) (frames : List (Moment × Frame))
        → IsKeyed s.registry
        → IsKeyed (handle_socket fl from_json s tx session frames).registry
    unfolding handle_socket
    handle_socket-IsKeyed s tx session [] h = finish-IsKeyed s session h
    handle_socket-IsKeyed s tx session ((now, text t) ∷ frames) h =
        let r = on_text fl from_json now s tx session (from_json t) in
        handle_socket-IsKeyed r.0 tx r.1 frames (on_text-IsKeyed now s tx session (from_json t) h)
    handle_socket-IsKeyed s tx session ((now, close) ∷ frames) h = finish-IsKeyed s session h
    handle_socket-IsKeyed s tx session ((now, read_error) ∷ frames) h = finish-IsKeyed s session h
    handle_socket-IsKeyed s tx session ((now, ping) ∷ frames) h =
        handle_socket-IsKeyed s tx session frames h
    handle_socket-IsKeyed s tx session ((now, pong) ∷ frames) h =
        handle_socket-IsKeyed s tx session frames h
    handle_socket-IsKeyed s tx session ((now, binary) ∷ frames) h =
        handle_socket-IsKeyed s tx session frames h
