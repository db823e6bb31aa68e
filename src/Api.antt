-- ===== src/Api.antt =====
-- jw-swarm-fleet-manager/src/api.rs: the OpenAI-compatible API and the dispatch of requests. The
-- clock, the random request id and the accessors of JSON values are arguments.
pub mod Outcome
pub mod Streams
use jw_swarm.Common.{
  ℕ, String, List, [], ◌∷◌, ◌++◌, Bool, true, false, not, Option, none, some, unwrap_or, and_then,
  select, contains, if◌then◌else◌,
}
use Prim.Native.String.{◌++◌ as string_append}
use jw_swarm.Common.Text.{is_empty}
use jw_swarm.Float.{Floats}
use jw_swarm.Proto.{Value, prompt_dispatch, PromptDispatch, Usage}
use jw_swarm.Channel.{Sender, send, sends}
use jw_swarm.Registry.{
  Registry, RequestEvent, chunk, finished, failed, available_models, snapshot, node_sender,
  register_request, complete_request,
}
use jw_swarm.Router.{pick_node}
use jw_swarm.Catalog.{aliases}
use jw_swarm.Http.{
  Response, json, error_response, Json, bad_request, bad_gateway, service_unavailable,
}
use jw_swarm.State.{AppState}

pub record ModelObject : Type 0 where
  pub id : String
  pub created : ℕ

-- Every object also has "object": "model" and "owned_by": "jw-swarm".
pub model_objects : ℕ → List String → List ModelObject
model_objects created [] = []
model_objects created (alias ∷ rest) =
    record { id = alias; created = created } ∷ model_objects created rest

unfoldable pub list_models : ℕ → AppState → List ModelObject
unfolding model_objects
list_models created s =
    model_objects created
      (select (λ alias. contains (available_models s.registry) alias) (aliases s.catalog))

-- What a request comes to: an answer at once, or a request that a node works on.
pub data Dispatch : Type 0 where
  refused : Response String → Dispatch
  dispatched : (stream : Bool) (request_id model node_id : String) (event_rx : ℕ) → Dispatch

-- The part of `chat_completions` behind the choice of a node. `event_rx` is the channel that the
-- call creates for the request.
unfoldable pub submit : AppState → Bool → String → String → String → ℕ → Value → Dispatch × AppState
submit s stream model node_id request_id event_rx body = elim (node_sender s.registry node_id) [
  | none ↦ (refused (error_response service_unavailable "selected node disconnected"), s)
  | some sender ↦
      let registered =
        register_request s.registry request_id model node_id (record { channel = event_rx }) in
      let message =
        prompt_dispatch (record { request_id = request_id; model = model; payload = body }) in
      if sends s.outbound sender
      then (
        dispatched stream request_id model node_id event_rx,
        record s { registry = registered; outbound = send s.outbound sender message },
      )
      else (
        refused (error_response service_unavailable "failed to dispatch to node"),
        record s { registry = complete_request registered request_id },
      )
]

-- `between` is what other tasks do after the snapshot and before the sender is looked up.
unfoldable pub chat_completions :
    Floats → Json → (AppState → AppState) → String → ℕ → Value → AppState → Dispatch × AppState
unfolding submit
chat_completions fl j between request_id event_rx body s =
    elim (and_then (j.get body "model") j.as_str) [
      | none ↦ (refused (error_response bad_request "missing 'model' field"), s)
      | some model ↦
          let stream = unwrap_or (and_then (j.get body "stream") j.as_bool) false in
          elim (pick_node fl (snapshot s.registry) model s.weights) [
            | none ↦ (
              refused (
                  error_response service_unavailable
                    (string_append "no node available for model '" (string_append model "'"))),
              s,
            )
            | some node_id ↦ submit (between s) stream model node_id request_id event_rx body
          ]
    ]

-- A `chat.completion.chunk`, less its constant fields. No content is the empty delta.
pub record ChunkJson : Type 0 where
  pub id : String
  pub created : ℕ
  pub model : String
  pub content : Option String
  pub finish_reason : Option String

unfoldable pub chunk_json : String → String → ℕ → String → Option String → ChunkJson
chunk_json request_id model created delta finish = record {
  id = string_append "chatcmpl-" request_id;
  created = created;
  model = model;
  content = if is_empty delta then none else some delta;
  finish_reason = finish;
}

-- One server-sent event.
pub data SseEvent : Type 0 where
  chunk_data : ChunkJson → SseEvent
  error_data : String → SseEvent
  done_marker : SseEvent

unfoldable pub events_for : RequestEvent → String → String → ℕ → List SseEvent
unfolding chunk_json
events_for (chunk c) rid model created = chunk_data (chunk_json rid model created c.delta none) ∷ []
events_for (finished d) rid model created =
    chunk_data (chunk_json rid model created "" (some "stop")) ∷ done_marker ∷ []
events_for (failed e) rid model created = error_data e.message ∷ done_marker ∷ []

-- The body of the SSE response for the events that the request's channel yields.
unfoldable pub stream_response : String → String → ℕ → List RequestEvent → List SseEvent
unfolding events_for
stream_response rid model created [] = []
stream_response rid model created (ev ∷ evs) =
    events_for ev rid model created ++ stream_response rid model created evs

-- Dropping the stream runs the `CleanupGuard`.
unfoldable pub drop_stream : AppState → String → AppState
drop_stream s request_id = record s { registry = complete_request s.registry request_id }

-- Where the loop of `buffered_response` stands after some events.
pub data Progress : Type 0 where
  waiting : String → Progress
  completed : String → Usage → Progress
  errored : String → Progress

pub buffer : String → List RequestEvent → Progress
buffer content [] = waiting content
buffer content (chunk c ∷ evs) = buffer (string_append content c.delta) evs
buffer content (finished d ∷ evs) = completed content d.usage
buffer content (failed e ∷ evs) = errored e.message

pub record Completion : Type 0 where
  pub id : String
  pub created : ℕ
  pub model : String
  pub content : String
  pub usage : Usage

abbrev pub no_usage : Usage
no_usage = record { prompt_tokens = 0; completion_tokens = 0; total_tokens = 0 }

abbrev pub completion : String → String → ℕ → String → Usage → Completion
completion rid model created content usage = record {
  id = string_append "chatcmpl-" rid;
  created = created;
  model = model;
  content = content;
  usage = usage;
}

-- `closed` says whether every sender of the channel is gone, which ends the loop too. `none`:
-- the handler still waits for an event.
unfoldable pub buffered_response :
    AppState
    → String
    → String
    → ℕ
    → Bool
    → List RequestEvent
    → Option (Response Completion × AppState)
unfolding buffer
buffered_response s rid model created closed events =
    let s' = record s { registry = complete_request s.registry rid } in
    elim (buffer "" events) [
      | waiting content ↦
          if closed then some (json (completion rid model created content no_usage), s') else none
      | completed content usage ↦ some (json (completion rid model created content usage), s')
      | errored message ↦ some (error_response bad_gateway message, s')
    ]
