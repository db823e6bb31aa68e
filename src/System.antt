-- ===== src/System.antt =====
-- The Fleet Manager as a whole: its state changes by the steps of the handlers of
-- jw-swarm-fleet-manager/src/tunnel.rs, api.rs and enrollment.rs and of the spawned tasks, in any
-- order.
pub mod Written
pub mod Starting
pub mod Frames
pub mod Interchange
pub mod Invariant
pub mod Relay
pub mod Joining
pub mod Enrolling
pub mod Ticking
use jw_swarm.Common.{ℕ, String, Option}
use jw_swarm.Common.Int.{ℤ}
use jw_swarm.Float.{Floats}
use jw_swarm.Proto.{Message, Value}
use jw_swarm.Channel.{Sender}
use jw_swarm.Http.{HeaderMap, Json}
use jw_swarm.Db.Schema.{Conditions}
use jw_swarm.State.{AppState, step_tasks}
use jw_swarm.Tunnel.{Session, Moment, handle_message, finish}
use jw_swarm.Api.{chat_completions, drop_stream}
use jw_swarm.Enrollment.{
  Machine, CreateTokenRequest, EnrollRequest, create_token, admin_revoke_token, enroll_node,
}

module _ (fl : Floats) (j : Json) (m : Machine) where
  -- Any number of steps, each of one handler or one call of a spawned task. A request takes its
  -- snapshot of the registry in one state and goes on in a later one, after steps of others.
  pub data Steps : AppState → AppState → Type 0 where
    here : (s : AppState) → Steps s s
    message :
        (s t : AppState) (before : Steps s t) (now : Moment) (tx : Sender)
        (session : Option Session) (msg : Message)
        → Steps s (handle_message fl now t tx session msg).0
    disconnects :
        (s t : AppState) (before : Steps s t) (session : Option Session)
        → Steps s (finish t session)
    task :
        (s t : AppState) (before : Steps s t) (i : ℕ) (c : Conditions)
        → Steps s (step_tasks fl i c t)
    chat :
        (s t u : AppState) (before : Steps s t) (between : Steps t u) (request_id : String)
        (event_rx : ℕ) (body : Value)
        → Steps s (chat_completions fl j (λ x. u) request_id event_rx body t).1
    answered :
        (s t : AppState) (before : Steps s t) (request_id : String)
        → Steps s (drop_stream t request_id)
    creates :
        (s t : AppState) (before : Steps s t) (later : ℤ → Option String) (first second : String)
        (c : Conditions) (headers : HeaderMap) (body : CreateTokenRequest)
        → Steps s (record t {
          db = (create_token t.enrollment m later first second c headers body t.db).1;
        })
    revokes :
        (s t : AppState) (before : Steps s t) (c : Conditions) (headers : HeaderMap)
        (token_hash : String)
        → Steps s (record t { db = (admin_revoke_token t.enrollment c headers token_hash t.db).1 })
    enrolls :
        (s t : AppState) (before : Steps s t) (now : Option String) (c : Conditions)
        (body : EnrollRequest)
        → Steps s (record t { db = (enroll_node t.enrollment m now c body t.db).1 })
