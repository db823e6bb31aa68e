-- ===== src/System/Relay.antt =====
-- From the node's worker through the Fleet Manager to the client: what handle_message of
-- jw-swarm-fleet-manager/src/tunnel.rs makes of the messages of a job.
use jw_swarm.Common.{
  ℕ, ◌+◌, String, List, [], ◌∷◌, ◌++◌, true, false, Option, some, map, length, ◌≡◌, refl, arith,
  sym, ap, ◌∙◌, eqb_iff, subst, suc,
}
use mathlib.Core.List.{append_assoc}
use jw_swarm.Float.{Floats}
use jw_swarm.Proto.{
  Message, TokenChunk, Done, PromptDispatch, token_chunk, done, error, register, heartbeat,
  model_status, schedule_state, catalog_response, prompt_dispatch,
}
use jw_swarm.Proto.{
  register, catalog_request, heartbeat, model_status, schedule_state, catalog_response,
  prompt_dispatch,
}
use jw_swarm.Channel.{Sender, send}
use jw_swarm.Registry.{
  PendingMeta, RequestEvent, chunk, finished, failed, get_pending, dispatch_event, complete_request,
}
use jw_swarm.State.{AppState}
use jw_swarm.Tunnel.{Session, Moment, handle_message, on_done, spawn_delivery}
use jw_swarm.Api.{buffered_response, Completion, completion}
use jw_swarm.Api.Streams.{joined, chunks, buffered-finished, buffered_response-failed}
use jw_swarm.Node.Prompt.{extract_max_tokens}
use jw_swarm.Http.{Json, Response, json, error_response, bad_gateway}
use jw_swarm.Node.Generate.{Work, Worker, run_job}
use jw_swarm.Node.Generate.Answers.{IsFinal, run_job-IsAnswer}
use jw_swarm.Node.Generate.Chunks.{AreChunks}

-- The last event, of a job's last message.
abbrev pub final_event : Message → RequestEvent
final_event (done d) = finished d
final_event (error e) = failed e
final_event m = failed (record { request_id = ""; message = "" })

module _ (fl : Floats) where
  -- The messages of one connection from the `i`-th on, one after the other, each at its moment.
  abbrev pub handle_all :
      (ℕ → Moment) → ℕ → Sender → Option Session → List Message → AppState → AppState
  handle_all nows i tx session [] s = s
  handle_all nows i tx session (msg ∷ msgs) s =
      let (s', session') = handle_message fl (nows i) s tx session msg in
      handle_all nows (i + 1) tx session' msgs s'

  -- The request is pending, and its receiver is there and has the events.
  abbrev pub Waits : String → PendingMeta → List RequestEvent → AppState → Type 0
  Waits rid meta events s =
      (get_pending s.registry rid ≡ some meta)
      × ((s.events meta.tx.channel).receiving ≡ true)
      × ((s.events meta.tx.channel).sent ≡ events)

  -- The message passes the event on to the request, and leaves the registry and the session alone.
  abbrev Passes :
      AppState → String → RequestEvent → AppState × Option Session → Option Session → Type 0
  Passes s rid ev after session =
      (after.0.registry ≡ s.registry)
      × (after.0.events ≡ dispatch_event s.registry s.events rid ev)
      × (after.1 ≡ session)

  done-Passes :
      (now : Moment) (s : AppState) (tx : Sender) (session : Option Session) (d : Done)
      → Passes s d.request_id (finished d) (handle_message fl now s tx session (done d)) session
  unfolding handle_message on_done spawn_delivery
  done-Passes now s tx session d = (ground arith, ground arith, refl)

  Passes-Waits :
      (s : AppState) (rid : String) (ev : RequestEvent) (after : AppState × Option Session)
      (session : Option Session) (meta : PendingMeta) (events : List RequestEvent)
      → Passes s rid ev after session
      → Waits rid meta events s
      → Waits rid meta (events ++ ev ∷ []) after.0
  unfolding dispatch_event send
  Passes-Waits s rid ev after session meta events (r, e, _) (p, q, sent) =
      let same = (eqb_iff meta.tx.channel meta.tx.channel).1 refl in
      (
        rw r p,
        rw (e, dispatch_event, p, same, q) refl,
        rw (e, dispatch_event, p, same, q, sent) refl,
      )

  final-Waits :
      (now : Moment) (s : AppState) (tx : Sender) (session : Option Session) (rid : String)
      (high n : ℕ) (final : Message) (meta : PendingMeta) (events : List RequestEvent)
      → IsFinal rid high n final
      → Waits rid meta events s
      → Waits rid meta
          (events ++ final_event final ∷ [])
          (handle_message fl now s tx session final).0
  unfolding handle_message
  final-Waits now s tx session rid high n (done d) meta events f w =
      let after = handle_message fl now s tx session (done d) in
      Passes-Waits s rid (finished d) after session meta events
        (subst (λ q. Passes s q (finished d) after session) f.0 (done-Passes now s tx session d)) w
  final-Waits now s tx session rid high n (error e) meta events f w =
      let after = handle_message fl now s tx session (error e) in
      Passes-Waits s rid (failed e) after session meta events
        (subst (λ q. Passes s q (failed e) after session) f (refl, refl, refl)) w
  final-Waits now s tx session rid high n (register _) meta events f w = elim f [ ]
  final-Waits now s tx session rid high n catalog_request meta events f w = elim f [ ]
  final-Waits now s tx session rid high n (heartbeat _) meta events f w = elim f [ ]
  final-Waits now s tx session rid high n (model_status _) meta events f w = elim f [ ]
  final-Waits now s tx session rid high n (schedule_state _) meta events f w = elim f [ ]
  final-Waits now s tx session rid high n (token_chunk _) meta events f w = elim f [ ]
  final-Waits now s tx session rid high n (catalog_response _) meta events f w = elim f [ ]
  final-Waits now s tx session rid high n (prompt_dispatch _) meta events f w = elim f [ ]

  handle_all-Waits :
      (nows : ℕ → Moment) (i : ℕ) (tx : Sender) (session : Option Session) (rid : String)
      (high low : ℕ) (cs : List TokenChunk) (final : Message) (n : ℕ) (meta : PendingMeta)
      (events : List RequestEvent) (s : AppState)
      → AreChunks rid low high cs
      → IsFinal rid high n final
      → Waits rid meta events s
      → Waits rid meta
          (events ++ (chunks cs ++ final_event final ∷ []))
          (handle_all nows i tx session (map token_chunk cs ++ final ∷ []) s)
  unfolding handle_message
  handle_all-Waits nows i tx session rid high low [] final n meta events s a f w =
      final-Waits (nows i) s tx session rid high n final meta events f w
  handle_all-Waits nows i tx session rid high low (c ∷ cs) final n meta events s a f w =
      let after = handle_message fl (nows i) s tx session (token_chunk c) in
      let passes : Passes s rid (chunk c) after session =
        subst (λ q. Passes s q (chunk c) after session) a.0 (refl, refl, refl) in
      subst
        (λ es.
          Waits rid meta es
            (handle_all nows (i + 1) tx session (map token_chunk cs ++ final ∷ []) after.0))
        (append_assoc events (chunk c ∷ []) (chunks cs ++ final_event final ∷ []))
        (handle_all-Waits nows (i + 1) tx session rid high (suc c.index) cs final n meta
          (events ++ chunk c ∷ []) after.0 a.4 f
          (Passes-Waits s rid (chunk c) after session meta events passes w))

  -- The buffered client has the chunks' text with the node's usage, or the node's error.
  abbrev pub IsAnswered :
      List TokenChunk → Message → Response Completion → String → String → ℕ → Type 0
  IsAnswered cs (done d) r rid model created =
      r ≡ json (completion rid model created (joined cs) d.usage)
  IsAnswered cs (error e) r rid model created = r ≡ error_response bad_gateway e.message
  IsAnswered cs final r rid model created = ⊥

  answered :
      (s : AppState) (rid model : String) (created high n : ℕ) (cs : List TokenChunk)
      (final : Message)
      → IsFinal rid high n final
      → (r : Response Completion) × (buffered_response s rid model created false
            (chunks cs ++ final_event final ∷ [])
          ≡ some (r, record s { registry = complete_request s.registry rid }))
        × IsAnswered cs final r rid model created
  answered s rid model created high n cs (done d) f = (
    json (completion rid model created (joined cs) d.usage),
    buffered-finished s rid model created false cs d [],
    refl,
  )
  answered s rid model created high n cs (error e) f = (
    error_response bad_gateway e.message,
    buffered_response-failed s rid model created false cs e [],
    refl,
  )
  answered s rid model created high n cs (register _) f = elim f [ ]
  answered s rid model created high n cs catalog_request f = elim f [ ]
  answered s rid model created high n cs (heartbeat _) f = elim f [ ]
  answered s rid model created high n cs (model_status _) f = elim f [ ]
  answered s rid model created high n cs (schedule_state _) f = elim f [ ]
  answered s rid model created high n cs (token_chunk _) f = elim f [ ]
  answered s rid model created high n cs (catalog_response _) f = elim f [ ]
  answered s rid model created high n cs (prompt_dispatch _) f = elim f [ ]

  module _ (j : Json) where
    -- A worker's messages for the prompt of a request that waits for its first event answer it:
    -- once the Fleet Manager has handled them in their order, at any moments and from any state,
    -- the client gets the text of the chunks that the worker sent with the usage that it
    -- reported, or the worker's error with status 502, and the request is no longer pending.
    pub run_job-buffered_response :
        (memory_limit_mb : ℕ) (w : Work) (pd : PromptDispatch) (worker : Worker) (nows : ℕ → Moment)
        (tx : Sender) (session : Option Session) (meta : PendingMeta) (s : AppState)
        (model : String) (created : ℕ)
        → Waits pd.request_id meta [] s
        → let sent = (run_job fl j memory_limit_mb w pd worker).1 in
          let s' = handle_all nows 0 tx session sent s in
          (cs : List TokenChunk) × (final : Message) × (r : Response Completion) × (sent
            ≡ map token_chunk cs ++ final ∷ [])
          × (buffered_response s' pd.request_id model created false (s'.events meta.tx.channel).sent
              ≡ some (r, record s' { registry = complete_request s'.registry pd.request_id }))
          × IsAnswered cs final r pd.request_id model created
    run_job-buffered_response memory_limit_mb w pd worker nows tx session meta s model created
          waits =
        let rid = pd.request_id in
        let job = run_job fl j memory_limit_mb w pd worker in
        let (cs, final, e, a, f) = run_job-IsAnswer fl j memory_limit_mb w pd worker in
        let s' = handle_all nows 0 tx session job.1 s in
        let waits' : Waits rid meta (chunks cs ++ final_event final ∷ []) s' =
          subst
            (λ msgs.
              Waits rid meta (chunks cs ++ final_event final ∷ [])
                (handle_all nows 0 tx session msgs s))
            (sym e)
            (handle_all-Waits nows 0 tx session rid (extract_max_tokens j pd.payload) 0 cs final
              (length cs) meta [] s a f waits) in
        let (r, answer, text) =
          answered s' rid model created (extract_max_tokens j pd.payload) (length cs) cs final f in
        (cs, final, r, e, ap (buffered_response s' rid model created false) waits'.2 ∙ answer, text)
