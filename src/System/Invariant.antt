-- ===== src/System/Invariant.antt =====
-- What holds in every state that the Fleet Manager reaches.
use jw_swarm.Common.{
  ℕ, zero, suc, String, List, [], ◌∷◌, Bool, false, Option, none, some, ◌≡◌, refl, arith,
  Option-cases, Bool-cases, inl, inr, and_then, unwrap_or,
}
use jw_swarm.Common.Int.{ℤ}
use jw_swarm.Common.HashMap
use jw_swarm.Float.{Floats}
use jw_swarm.Proto.{
  Message, Value, register, catalog_request, heartbeat, model_status, schedule_state, token_chunk,
  done, error, catalog_response, prompt_dispatch,
}
use jw_swarm.Channel.{Sender, Channels}
use jw_swarm.Http.{HeaderMap, Json}
use jw_swarm.Registry.{RequestEvent}
use jw_swarm.Registry.Laws.{
  IsKeyed, call, call-IsKeyed, requests, completes, calls, calls-new-IsKeyed,
}
use jw_swarm.Registry.{snapshot}
use jw_swarm.Router.{pick_node}
use jw_swarm.Catalog.{Catalog}
use jw_swarm.Config.{EnrollmentConfig}
use jw_swarm.Db.Schema.{Db, Conditions, empty}
use jw_swarm.Db.Nodes.{upsert_node, record_delivery}
use jw_swarm.Db.Sessions.{open_session, close_session}
use jw_swarm.Db.Ledger.{IsBalanced, credit_points-IsBalanced, earned}
use jw_swarm.Db.Tokens.{insert_enrollment_token, consume_enrollment_token, revoke_enrollment_token}
use jw_swarm.Registry.{remove_node, node_sender}
use jw_swarm.Channel.{sends}
use jw_swarm.State.{
  AppState, DbCall, upserts_node, opens_session, closes_session, records_delivery, credits_points,
  new, run_call, step_task, step_tasks,
}
use jw_swarm.Tunnel.{
  Session, Moment, handle_message, finish, on_done, on_catalog_request, on_register, spawn_delivery,
}
use jw_swarm.Tunnel.Keyed.{handle_message-IsKeyed, finish-IsKeyed}
use jw_swarm.Tunnel.Points.{on_heartbeat-IsBalanced}
use jw_swarm.Api.{chat_completions, submit, drop_stream}
use jw_swarm.Enrollment.{
  Machine, CreateTokenRequest, EnrollRequest, create_token, admin_revoke_token, enroll_node,
}
use jw_swarm.System.{
  message, disconnects, task, chat, answered, creates, revokes, enrolls, Steps, here,
}

-- Two databases with the same ledger and balances.
abbrev SameLedger : Db → Db → Type 0
SameLedger a b = (a.node_balances ≡ b.node_balances) × (a.points_ledger ≡ b.points_ledger)

module _ (fl : Floats) where
  same-IsBalanced : (a b : Db) → SameLedger a b → IsBalanced fl b → IsBalanced fl a
  same-IsBalanced a b e h k = rw (e.0, e.1) (h k)

  run_call-IsBalanced :
      (c : Conditions) (x : DbCall) (db : Db)
      → IsBalanced fl db
      → IsBalanced fl (run_call fl c x db)
  unfolding run_call upsert_node open_session close_session record_delivery
  run_call-IsBalanced c (upserts_node reg) db h =
      same-IsBalanced (run_call fl c (upserts_node reg) db) db (ground arith, ground arith) h
  run_call-IsBalanced c (opens_session k p v) db h =
      same-IsBalanced (run_call fl c (opens_session k p v) db) db (ground arith, ground arith) h
  run_call-IsBalanced c (closes_session k) db h =
      same-IsBalanced (run_call fl c (closes_session k) db) db (ground arith, ground arith) h
  run_call-IsBalanced c (records_delivery q k m u l) db h =
      same-IsBalanced (run_call fl c (records_delivery q k m u l) db) db
        (ground arith, ground arith) h
  run_call-IsBalanced c (credits_points k kind p s) db h =
      credit_points-IsBalanced fl c k kind p s db h

  step_task-IsBalanced :
      (i : ℕ) (c : Conditions) (ts : List (List DbCall)) (db : Db)
      → IsBalanced fl db
      → IsBalanced fl (step_task fl i c ts db).1
  unfolding step_task
  step_task-IsBalanced i c [] db h = h
  step_task-IsBalanced zero c ([] ∷ ts) db h = h
  step_task-IsBalanced zero c ((x ∷ xs) ∷ ts) db h = run_call-IsBalanced c x db h
  step_task-IsBalanced (suc i) c (t ∷ ts) db h = step_task-IsBalanced i c ts db h

  spawn_delivery-db :
      (s : AppState) (session : Option Session) (d : _) (o : Option _)
      → (spawn_delivery fl s session d o).db ≡ s.db
  unfolding spawn_delivery
  spawn_delivery-db s session d none = refl
  spawn_delivery-db s session d (some meta) = refl

  handle_message-IsBalanced :
      (now : Moment) (s : AppState) (tx : Sender) (session : Option Session) (msg : Message)
      → IsBalanced fl s.db
      → IsBalanced fl (handle_message fl now s tx session msg).0.db
  unfolding handle_message on_register on_catalog_request on_done
  handle_message-IsBalanced now s tx session (register reg) h = h
  handle_message-IsBalanced now s tx session catalog_request h = h
  handle_message-IsBalanced now s tx session (heartbeat hb) h =
      on_heartbeat-IsBalanced fl now s session hb h
  handle_message-IsBalanced now s tx session (model_status ms) h = h
  handle_message-IsBalanced now s tx session (schedule_state ss) h = h
  handle_message-IsBalanced now s tx session (token_chunk c) h = h
  handle_message-IsBalanced now s tx session (done d) h = rw (spawn_delivery-db s session d _) h
  handle_message-IsBalanced now s tx session (error e) h = h
  handle_message-IsBalanced now s tx session (catalog_response r) h = h
  handle_message-IsBalanced now s tx session (prompt_dispatch p) h = h

  -- The registry is keyed, and the ledger agrees with the balances.
  pub record IsSound (s : AppState) : Type 0 where
    pub keyed : IsKeyed s.registry
    pub balanced : IsBalanced fl s.db

  submit-IsSound :
      (s : AppState) (stream : Bool) (model node_id q : String) (rx : ℕ) (body : Value)
      → IsSound s
      → IsSound (submit s stream model node_id q rx body).1
  unfolding submit call
  submit-IsSound s stream model node_id q rx body h =
      let keyed =
        call-IsKeyed s.registry (requests q model node_id (record { channel = rx })) h.keyed in
      elim (Option-cases (node_sender s.registry node_id)) [
        | inl n ↦ rw (submit, n) h
        | inr (tx, e) ↦ elim (Bool-cases (sends s.outbound tx)) [
          | inl b ↦ rw (submit, e, b) (record { keyed = keyed; balanced = h.balanced })
          | inr b ↦
              rw (submit, e, b)
                (record { keyed = call-IsKeyed _ (completes q) keyed; balanced = h.balanced })
        ]
      ]

  module _ (j : Json) (m : Machine) where
    token_handlers :
        (cfg : EnrollmentConfig) (db : Db)
        → ((later : ℤ → Option String) (first second : String) (c : Conditions)
              (headers : HeaderMap) (body : CreateTokenRequest)
            → SameLedger (create_token cfg m later first second c headers body db).1 db)
          × ((c : Conditions) (headers : HeaderMap) (hash : String)
              → SameLedger (admin_revoke_token cfg c headers hash db).1 db)
          × ((now : Option String) (c : Conditions) (body : EnrollRequest)
              → SameLedger (enroll_node cfg m now c body db).1 db)
    unfolding create_token admin_revoke_token enroll_node insert_enrollment_token
        consume_enrollment_token revoke_enrollment_token
    token_handlers cfg db = (
      λ later first second c headers body. (ground arith, ground arith),
      λ c headers hash. (ground arith, ground arith),
      λ now c body. (ground arith, ground arith),
    )

    chat-IsSound :
        (s u : AppState) (q : String) (rx : ℕ) (body : Value)
        → IsSound s
        → IsSound u
        → IsSound (chat_completions fl j (λ x. u) q rx body s).1
    unfolding chat_completions
    chat-IsSound s u q rx body h g = elim (Option-cases (and_then (j.get body "model") j.as_str)) [
      | inl n ↦ rw (chat_completions, n) h
      | inr (model, e) ↦ elim (Option-cases (pick_node fl (snapshot s.registry) model s.weights)) [
        | inl n ↦ rw (chat_completions, e, n) h
        | inr (k, p) ↦
            rw (chat_completions, e, p)
              (submit-IsSound u (unwrap_or (and_then (j.get body "stream") j.as_bool) false) model k
                q rx body g)
      ]
    ]

    pub Steps-keep : {s t : AppState} → Steps fl j m s t → IsSound s → IsSound t
    unfolding drop_stream call finish step_tasks chat_completions remove_node
    Steps-keep (here s) h = h
    Steps-keep (message s t before now tx session msg) h =
        let g : IsSound t = Steps-keep before h in
        record {
          keyed = handle_message-IsKeyed fl now t tx session msg g.keyed;
          balanced = handle_message-IsBalanced now t tx session msg g.balanced;
        }
    Steps-keep (disconnects s t before none) h = Steps-keep before h
    Steps-keep (disconnects s t before (some x)) h =
        let g : IsSound t = Steps-keep before h in
        record { keyed = finish-IsKeyed t (some x) g.keyed; balanced = g.balanced }
    Steps-keep (task s t before i c) h =
        let g : IsSound t = Steps-keep before h in
        record { keyed = g.keyed; balanced = step_task-IsBalanced i c t.tasks t.db g.balanced }
    Steps-keep (chat s t u before between q rx body) h =
        let g = Steps-keep before h in chat-IsSound t u q rx body g (Steps-keep between g)
    Steps-keep (answered s t before q) h =
        let g : IsSound t = Steps-keep before h in
        record { keyed = call-IsKeyed t.registry (completes q) g.keyed; balanced = g.balanced }
    Steps-keep (creates s t before later first second c headers body) h =
        let g : IsSound t = Steps-keep before h in
        record {
          keyed = g.keyed;
          balanced =
              same-IsBalanced (create_token t.enrollment m later first second c headers body t.db).1
                t.db ((token_handlers t.enrollment t.db).0 later first second c headers body)
                g.balanced;
        }
    Steps-keep (revokes s t before c headers hash) h =
        let g : IsSound t = Steps-keep before h in
        record {
          keyed = g.keyed;
          balanced =
              same-IsBalanced (admin_revoke_token t.enrollment c headers hash t.db).1 t.db
                ((token_handlers t.enrollment t.db).1 c headers hash) g.balanced;
        }
    Steps-keep (enrolls s t before now c body) h =
        let g : IsSound t = Steps-keep before h in
        record {
          keyed = g.keyed;
          balanced =
              same-IsBalanced (enroll_node t.enrollment m now c body t.db).1 t.db
                ((token_handlers t.enrollment t.db).2 now c body) g.balanced;
        }

    -- Every state that the Fleet Manager reaches from its start, by messages on any connections,
    -- disconnects, requests with steps of others between their snapshot and their dispatch,
    -- answers, enrollments and the calls of spawned tasks, in any order and with any statement of
    -- the database failing, has every node once under the id that it registered with, every
    -- pending request once, and every balance equal to the sum of the node's entries in the
    -- ledger.
    pub Steps-IsSound :
        (catalog : Catalog) (foreign_keys : Bool) (cfg : EnrollmentConfig)
        (outbound : Channels Message) (events : Channels RequestEvent) (t : AppState)
        → Steps fl j m (new fl catalog (empty foreign_keys) cfg outbound events) t
        → IsSound t
    unfolding calls earned HashMap.get new
    Steps-IsSound catalog foreign_keys cfg outbound events t steps =
        Steps-keep steps (record { keyed = calls-new-IsKeyed []; balanced = λ k. refl })
