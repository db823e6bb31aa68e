-- ===== src/Api/Streams.antt =====
-- The streaming and the buffered answer to the same events say the same.
use Prim.Native.String.{◌++◌ as string_append}
use Prim.Native.String.append
use jw_swarm.Common.{
  ℕ, String, List, [], ◌∷◌, ◌++◌, Bool, none, some, ◌≡◌, refl, sym, ap, ◌∙◌, map, if◌then◌else◌,
  unwrap_or,
}
use jw_swarm.Common.Text.{is_empty}
use jw_swarm.Proto.{TokenChunk, Done, ProtoError}
use jw_swarm.Registry.{RequestEvent, chunk, finished, failed, complete_request}
use jw_swarm.Http.{json, error_response, bad_gateway}
use jw_swarm.State.{AppState}
use jw_swarm.Api.{
  SseEvent, chunk_data, error_data, done_marker, chunk_json, events_for, stream_response, buffer,
  buffered_response, completion,
}

-- The text that the chunks carry.
abbrev pub joined : List TokenChunk → String
joined [] = ""
joined (c ∷ cs) = string_append c.delta (joined cs)

-- The text that a client reads off an SSE stream.
abbrev pub streamed_text : List SseEvent → String
streamed_text [] = ""
streamed_text (chunk_data c ∷ evs) = string_append (unwrap_or c.content "") (streamed_text evs)
streamed_text (error_data m ∷ evs) = streamed_text evs
streamed_text (done_marker ∷ evs) = streamed_text evs

append-nil_text : (s : String) → string_append s "" ≡ s
append-nil_text String.[] = refl
append-nil_text (String.◌∷◌ c s) = rw append.cons (ap (String.◌∷◌ c) (append-nil_text s))

append_assoc_text :
    (s t u : String) → string_append (string_append s t) u ≡ string_append s (string_append t u)
append_assoc_text String.[] t u = rw append.nil (rw append.nil refl)
append_assoc_text (String.◌∷◌ c s) t u =
    simp append.cons (ap (String.◌∷◌ c) (append_assoc_text s t u))

content-delta : (s : String) → unwrap_or (if is_empty s then none else some s) "" ≡ s
content-delta String.[] = refl
content-delta (String.◌∷◌ c s) = refl

abbrev pub chunks : List TokenChunk → List RequestEvent
chunks = map chunk

streamed-chunks :
    (rid model : String) (created : ℕ) (cs : List TokenChunk) (rest : List RequestEvent)
    → streamed_text (stream_response rid model created (chunks cs ++ rest))
      ≡ string_append (joined cs) (streamed_text (stream_response rid model created rest))
unfolding stream_response events_for chunk_json
streamed-chunks rid model created [] rest = sym (append.nil _)
streamed-chunks rid model created (c ∷ cs) rest =
    rw (content-delta c.delta, streamed-chunks rid model created cs rest)
      (sym (append_assoc_text c.delta (joined cs) _))

buffer-chunks :
    (content : String) (cs : List TokenChunk) (rest : List RequestEvent)
    → buffer content (chunks cs ++ rest) ≡ buffer (string_append content (joined cs)) rest
unfolding buffer
buffer-chunks content [] rest = rw append-nil_text
buffer-chunks content (c ∷ cs) rest =
    rw (buffer-chunks (string_append content c.delta) cs rest, append_assoc_text)

pub buffered-finished :
    (s : AppState) (rid model : String) (created : ℕ) (closed : Bool) (cs : List TokenChunk)
    → (d : Done) (rest : List RequestEvent)
    → buffered_response s rid model created closed (chunks cs ++ finished d ∷ rest)
      ≡ some (
        json (completion rid model created (joined cs) d.usage),
        record s { registry = complete_request s.registry rid },
      )
unfolding buffered_response buffer
buffered-finished s rid model created closed cs d rest =
    rw (buffered_response, buffer-chunks "" cs (finished d ∷ rest), append.nil (joined cs)) refl

streamed-finished :
    (rid model : String) (created : ℕ) (cs : List TokenChunk) (d : Done)
    → streamed_text (stream_response rid model created (chunks cs ++ finished d ∷ [])) ≡ joined cs
unfolding stream_response events_for chunk_json
streamed-finished rid model created cs d =
    streamed-chunks rid model created cs (finished d ∷ []) ∙ append-nil_text (joined cs)

-- When a node streams some chunks and then is done, the streaming client reads exactly the text
-- that the buffered completion holds, which is the chunks' text in order. The buffered answer
-- reports the node's usage and takes the request out of the registry, and ignores what comes
-- after.
pub buffered-stream_response :
    (s : AppState) (rid model : String) (created : ℕ) (closed : Bool) (cs : List TokenChunk)
    (d : Done)
    → (rest : List RequestEvent)
    → let sse = stream_response rid model created (chunks cs ++ finished d ∷ []) in
      (buffered_response s rid model created closed (chunks cs ++ finished d ∷ rest)
        ≡ some (
          json (completion rid model created (streamed_text sse) d.usage),
          record s { registry = complete_request s.registry rid },
        ))
      × (streamed_text sse ≡ joined cs)
buffered-stream_response s rid model created closed cs d rest =
    let text = streamed-finished rid model created cs d in
    (rw text (buffered-finished s rid model created closed cs d rest), text)

-- An error after some chunks fails the buffered request with the node's message, drops the text
-- received so far, and takes the request out of the registry.
pub buffered_response-failed :
    (s : AppState) (rid model : String) (created : ℕ) (closed : Bool) (cs : List TokenChunk)
    → (e : ProtoError) (rest : List RequestEvent)
    → buffered_response s rid model created closed (chunks cs ++ failed e ∷ rest)
      ≡ some (
        error_response bad_gateway e.message,
        record s { registry = complete_request s.registry rid },
      )
unfolding buffered_response buffer
buffered_response-failed s rid model created closed cs e rest =
    rw (buffered_response, buffer-chunks "" cs (failed e ∷ rest)) refl
