-- ===== src/Proto/Codec/RoundTrip.antt =====
-- Round trip of the messages.
use jw_swarm.Common.{◌≡◌, refl, some}
use jw_swarm.Float.{Floats}
use jw_swarm.Serde.{Values}
use jw_swarm.Proto.{
  Message, register, catalog_request, heartbeat, model_status, schedule_state, token_chunk, done,
  error, catalog_response, prompt_dispatch,
}
use jw_swarm.Proto.Bodies.RoundTrip.{
  RegisterFits, CatalogResponseFits, HeartbeatFits, PromptDispatchFits, TokenChunkFits, DoneFits,
  read_register-write_register, read_catalog_response-write_catalog_response,
  read_heartbeat-write_heartbeat, read_model_status-write_model_status,
  read_schedule_state-write_schedule_state, read_prompt_dispatch-write_prompt_dispatch,
  read_token_chunk-write_token_chunk, read_done-write_done, read_proto_error-write_proto_error,
}
use jw_swarm.Proto.Codec.{to_value, message_of, from_value}

-- The numbers have the width of their field and the floats are finite; a payload is what serde_json
-- reads back from it.
abbrev pub MessageFits : Values → Message → Type 0
MessageFits values (register r) = RegisterFits r
MessageFits values catalog_request = Unit
MessageFits values (heartbeat r) = HeartbeatFits r
MessageFits values (model_status r) = Unit
MessageFits values (schedule_state r) = Unit
MessageFits values (token_chunk r) = TokenChunkFits r
MessageFits values (done r) = DoneFits r
MessageFits values (error r) = Unit
MessageFits values (catalog_response r) = CatalogResponseFits r
MessageFits values (prompt_dispatch r) = PromptDispatchFits values r

-- A message is read back from the tree that it is written as.
pub from_value-to_value :
    (fl : Floats) (values : Values) (m : Message)
    → MessageFits values m
    → from_value fl values (to_value values m) ≡ some m
unfolding from_value to_value message_of
from_value-to_value fl values (register r) h = rw (read_register-write_register r h) refl
from_value-to_value fl values catalog_request h = refl
from_value-to_value fl values (heartbeat r) h = rw (read_heartbeat-write_heartbeat fl r h) refl
from_value-to_value fl values (model_status r) h = rw (read_model_status-write_model_status r) refl
from_value-to_value fl values (schedule_state r) h =
    rw (read_schedule_state-write_schedule_state r) refl
from_value-to_value fl values (token_chunk r) h = rw (read_token_chunk-write_token_chunk r h) refl
from_value-to_value fl values (done r) h = rw (read_done-write_done r h) refl
from_value-to_value fl values (error r) h = rw (read_proto_error-write_proto_error r) refl
from_value-to_value fl values (catalog_response r) h =
    rw (read_catalog_response-write_catalog_response fl r h) refl
from_value-to_value fl values (prompt_dispatch r) h =
    rw (read_prompt_dispatch-write_prompt_dispatch values r h) refl
