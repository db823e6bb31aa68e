-- ===== src/State.antt =====
-- `AppState` of jw-swarm-fleet-manager/src/state.rs, with the channels and the spawned tasks that
-- the handlers share through the runtime.
use jw_swarm.Common.{ℕ, zero, suc, String, List, [], ◌∷◌, suc}
use jw_swarm.Float.{F64, Floats}
use jw_swarm.Proto.{Message, Register, Usage}
use jw_swarm.Channel.{Channels}
use jw_swarm.Registry.{Registry, RequestEvent, new as new_registry}
use jw_swarm.Catalog.{Catalog}
use jw_swarm.Accounting.{Accounting}
use jw_swarm.Accounting
use jw_swarm.Router.{Weights}
use jw_swarm.Router
use jw_swarm.Config.{EnrollmentConfig}
use jw_swarm.Db.Schema.{Db, Conditions, after}
use jw_swarm.Db.Nodes.{upsert_node, record_delivery}
use jw_swarm.Db.Sessions.{open_session, close_session}
use jw_swarm.Db.Ledger.{credit_points}

-- A call of the database that a spawned task awaits and whose error it drops or logs.
pub data DbCall : Type 0 where
  upserts_node : Register → DbCall
  opens_session : String → F64 → F64 → DbCall
  closes_session : String → DbCall
  records_delivery : String → String → String → Usage → F64 → DbCall
  credits_points : String → String → F64 → String → DbCall

pub record AppState : Type 0 where
  pub registry : Registry
  pub catalog : Catalog
  pub weights : Weights
  pub db : Db
  pub accounting : Accounting
  pub enrollment : EnrollmentConfig
  -- the channels to the writers of the tunnels, and those of the requests
  pub outbound : Channels Message
  pub events : Channels RequestEvent
  -- the tasks that were spawned and have not ended, each with the calls that it still makes
  pub tasks : List (List DbCall)

module _ (fl : Floats) where
  unfoldable pub new :
      Catalog → Db → EnrollmentConfig → Channels Message → Channels RequestEvent → AppState
  new catalog db enrollment outbound events = record {
    registry = new_registry;
    catalog = catalog;
    weights = Router.default fl;
    db = db;
    accounting = record { weights = Accounting.default fl };
    enrollment = enrollment;
    outbound = outbound;
    events = events;
    tasks = [];
  }

  unfoldable pub run_call : Conditions → DbCall → Db → Db
  run_call c (upserts_node reg) db = after db (upsert_node c reg db)
  run_call c (opens_session k p v) db = after db (open_session fl c k p v db)
  run_call c (closes_session k) db = after db (close_session c k db)
  run_call c (records_delivery q k m u l) db = after db (record_delivery c q k m u l db)
  run_call c (credits_points k kind p s) db = after db (credit_points fl c k kind p s db)

  -- The i-th task makes its next call; a task with no call left has ended.
  unfoldable pub step_task : ℕ → Conditions → List (List DbCall) → Db → List (List DbCall) × Db
  unfolding run_call
  step_task i c [] db = ([], db)
  step_task zero c ([] ∷ ts) db = (ts, db)
  step_task zero c ((x ∷ xs) ∷ ts) db = (xs ∷ ts, run_call c x db)
  step_task (suc i) c (t ∷ ts) db = let (ts', db') = step_task i c ts db in (t ∷ ts', db')

  unfoldable pub step_tasks : ℕ → Conditions → AppState → AppState
  unfolding step_task
  step_tasks i c s = let (ts, db) = step_task i c s.tasks s.db in record s { tasks = ts; db = db }
