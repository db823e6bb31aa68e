-- ===== src/Node/Proto/Codec.antt =====
-- jw-swarm-nodes/linux/src/proto.rs: the envelope, with `type` as tag and `payload` as content, and
-- `to_json` and `from_json`.
use jw_swarm.Common.{String, Option, none, if◌then◌else◌, ◌==◌}
use jw_swarm.Float.{Floats}
use jw_swarm.Serde.{
  Tree, str, object, end, entry, field, content, read_str, ◌>>=◌, Values, newtype, unit_variant,
  tagged,
}
use jw_swarm.Node.Proto.{
  Message, register, catalog_request, heartbeat, model_status, schedule_state, token_chunk, done,
  error, catalog_response, prompt_dispatch,
}
use jw_swarm.Node.Proto.Bodies.{
  write_register, read_register, write_catalog_response, read_catalog_response, write_heartbeat,
  read_heartbeat, write_model_status, read_model_status, write_schedule_state, read_schedule_state,
  write_prompt_dispatch, read_prompt_dispatch, write_token_chunk, read_token_chunk, write_done,
  read_done, write_proto_error, read_proto_error,
}

-- `type` is the tag and `payload` carries the body; a unit variant has no payload.
unfoldable pub to_value : Values → Message → Tree
to_value values (register r) = tagged "Register" (write_register r)
to_value values catalog_request = object (entry "type" (str "CatalogRequest") end)
to_value values (heartbeat r) = tagged "Heartbeat" (write_heartbeat r)
to_value values (model_status r) = tagged "ModelStatus" (write_model_status r)
to_value values (schedule_state r) = tagged "ScheduleState" (write_schedule_state r)
to_value values (token_chunk r) = tagged "TokenChunk" (write_token_chunk r)
to_value values (done r) = tagged "Done" (write_done r)
to_value values (error r) = tagged "Error" (write_proto_error r)
to_value values (catalog_response r) = tagged "CatalogResponse" (write_catalog_response r)
to_value values (prompt_dispatch r) = tagged "PromptDispatch" (write_prompt_dispatch values r)

unfoldable pub message_of : Floats → Values → String → Option Tree → Option Message
message_of fl values tag payload =
    if tag == "Register"
    then newtype register (read_register) payload
    else if tag == "CatalogRequest"
    then unit_variant catalog_request payload
    else if tag == "Heartbeat"
    then newtype heartbeat (read_heartbeat fl) payload
    else if tag == "ModelStatus"
    then newtype model_status (read_model_status) payload
    else if tag == "ScheduleState"
    then newtype schedule_state (read_schedule_state) payload
    else if tag == "TokenChunk"
    then newtype token_chunk (read_token_chunk) payload
    else if tag == "Done"
    then newtype done (read_done) payload
    else if tag == "Error"
    then newtype error (read_proto_error) payload
    else if tag == "CatalogResponse"
    then newtype catalog_response (read_catalog_response fl) payload
    else if tag == "PromptDispatch"
    then newtype prompt_dispatch (read_prompt_dispatch values) payload
    else none

unfoldable pub from_value : Floats → Values → Tree → Option Message
from_value fl values t = do
  tag ← field "type" 0 2 t >>= read_str
  payload ← content t
  message_of fl values tag payload

-- `to_json`
unfoldable pub to_json : Values → Message → Option String
to_json values m = values.to_string (to_value values m)

-- `from_json`
unfoldable pub from_json : Floats → Values → String → Option Message
from_json fl values s = values.from_str s >>= from_value fl values
