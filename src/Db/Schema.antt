-- ===== src/Db/Schema.antt =====
-- The tables of migrations/001 and 002, and what a call of the database meets besides them. The
-- engine is SQLite through sqlx, so the outcome of each statement is an input.
use jw_swarm.Common.{
  ℕ, String, List, [], Bool, ◌&&◌, not, Option, none, some, if◌then◌else◌, is_some,
}
use jw_swarm.Common.Int.{ℤ}
use jw_swarm.Common.HashMap
use jw_swarm.Common.HashMap.{HashMap}
use jw_swarm.Float.{F64}

pub data DbError : Type 0 where
  time_format statement_failed constraint_failed : DbError

pub data Result {ℓ} (A : Type ℓ) : Type ℓ where
  ok : A → Result A
  err : DbError → Result A

infixl 5 ◌>>=◌
abbrev pub ◌>>=◌ {ℓ κ} : {A : Type ℓ} {B : Type κ} → Result A → (A → Result B) → Result B
ok a >>= f = f a
err e >>= f = err e

pub record NodeRow : Type 0 where
  pub owner : String
  pub hostname : String
  pub os : String
  pub gpu_vendor : String
  pub gpu_name : String
  pub gpu_vram_mb : ℤ
  pub cert_fingerprint : String
  pub first_seen : String
  pub last_seen : String

pub record SessionRow : Type 0 where
  pub id : ℕ
  pub node_id : String
  pub connected_at : String
  pub disconnected_at : Option String
  pub awake_seconds : F64
  pub gpu_power_pct : F64
  pub vram_mb : F64

pub record DeliveryRow : Type 0 where
  pub id : ℕ
  pub request_id : String
  pub node_id : String
  pub model_alias : String
  pub prompt_tokens : ℤ
  pub completion_tokens : ℤ
  pub latency_ms : F64
  pub delivered_at : String

pub record LedgerRow : Type 0 where
  pub id : ℕ
  pub node_id : String
  pub kind : String
  pub points : F64
  pub source_ref : String
  pub created_at : String

pub record EnrollmentTokenRow : Type 0 where
  pub token_hash : String
  pub node_id : String
  pub created_at : String
  pub expires_at : String
  pub used_at : Option String
  pub created_by : String

-- A table whose primary key is a text is a map by that key, but for the tokens, where the number
-- of rows that an update meets is asked. `next_id` is the next AUTOINCREMENT value.
pub record Db : Type 0 where
  pub nodes : HashMap NodeRow
  pub sessions : List SessionRow
  pub next_session : ℕ
  pub deliveries : List DeliveryRow
  pub next_delivery : ℕ
  pub points_ledger : List LedgerRow
  pub next_ledger : ℕ
  pub node_balances : HashMap F64
  pub enrollment_tokens : List EnrollmentTokenRow
  -- whether the connection enforces REFERENCES
  pub foreign_keys : Bool

abbrev pub empty : Bool → Db
empty foreign_keys = record {
  nodes = [];
  sessions = [];
  next_session = 1;
  deliveries = [];
  next_delivery = 1;
  points_ledger = [];
  next_ledger = 1;
  node_balances = [];
  enrollment_tokens = [];
  foreign_keys = foreign_keys;
}

-- What a call meets: the time as RFC 3339 text, if it can be printed, and whether the k-th
-- statement of the call fails in the engine.
pub record Conditions : Type 0 where
  pub now : Option String
  pub fails : ℕ → Bool

abbrev pub now_rfc3339 : Conditions → Result String
now_rfc3339 c = elim c.now [ none ↦ err time_format | some now ↦ ok now ]

-- The k-th statement of a call.
abbrev pub statement {ℓ} : {A : Type ℓ} → Conditions → ℕ → A → Result A
statement c k a = if c.fails k then err statement_failed else ok a

-- REFERENCES nodes(node_id)
abbrev pub references {ℓ} : {A : Type ℓ} → Db → String → A → Result A
references db node_id a =
    if db.foreign_keys && not (is_some (HashMap.get db.nodes node_id))
    then err constraint_failed
    else ok a

-- A call that fails leaves the tables as they were.
abbrev pub after : Db → Result Db → Db
after db (ok db') = db'
after db (err e) = db
