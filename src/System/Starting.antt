-- ===== src/System/Starting.antt =====
-- The start of the Fleet Manager, `main` of jw-swarm-fleet-manager/src/main.rs, and its life over
-- any number of restarts on the same database.
use jw_swarm.Common.{
  String, Bool, Option, none, some, ◌≡◌, refl, subst, and_then, unwrap_or, if◌then◌else◌, not,
  Option-cases, inl, inr, arith, [],
}
use jw_swarm.Float.{Floats}
use jw_swarm.Proto.{Message}
use jw_swarm.Channel.{Channels}
use jw_swarm.Registry.{RequestEvent}
use jw_swarm.Registry.Laws.{calls, calls-new-IsKeyed}
use jw_swarm.Catalog.{Catalog, CatalogFile, load}
use jw_swarm.Common.HashMap
use jw_swarm.Db.Ledger.{earned}
use jw_swarm.Config.{from_env}
use jw_swarm.Db.Schema.{Db, empty}
use jw_swarm.Enrollment.{Machine}
use jw_swarm.Http.{Json}
use jw_swarm.State.{AppState, new}
use jw_swarm.System.{Steps}
use jw_swarm.System.Invariant.{IsSound, Steps-keep}

-- What the start reads and what the system answers: the environment, files, the reader of TOML,
-- whether the database at a path can be opened and migrated, and of an address whether it is one
-- and can be listened at.
pub record Host : Type 0 where
  pub var : String → Option String
  pub read_to_string : String → Option String
  pub read_toml : String → Option CatalogFile
  pub connects : String → Bool
  pub parse_addr : String → Option String
  pub binds : String → Bool

module _ (fl : Floats) where
  -- `db` holds what the file of the database does, once it is migrated. The answer is the state
  -- that is served, if the start does not fail.
  unfoldable pub start : Host → Db → Channels Message → Channels RequestEvent → Option AppState
  start h db outbound events =
      and_then
        (load h.read_to_string h.read_toml (unwrap_or (h.var "JW_CATALOG") "config/models.toml"))
        λ catalog.
          if not (h.connects (unwrap_or (h.var "JW_DB") "fleet.db"))
          then none
          else (let state = new fl catalog db (from_env h.var) outbound events in
              and_then (h.parse_addr (unwrap_or (h.var "JW_BIND") "0.0.0.0:8080"))
                λ addr. if h.binds addr then some state else none)

  -- A start that does not fail serves the new state.
  start-new :
      (h : Host) (db : Db) (outbound : Channels Message) (events : Channels RequestEvent)
      (s : AppState)
      → start h db outbound events ≡ some s
      → (catalog : Catalog) × (new fl catalog db (from_env h.var) outbound events ≡ s)
  unfolding start
  start-new h db outbound events s e =
      elim (Option-cases
        (load h.read_to_string h.read_toml (unwrap_or (h.var "JW_CATALOG") "config/models.toml"))) [
          | inl a ↦ absurd (ground (arith, a, e))
          | inr (catalog, a) ↦ (catalog, ground (arith, a, e))
        ]

  module _ (j : Json) (m : Machine) where
    -- The states of a Fleet Manager that is first started on an empty database, runs, and is
    -- started again on what its database then holds, any number of times and in any environment.
    pub data Lives : AppState → Type 0 where
      born :
          (h : Host) (foreign_keys : Bool) (outbound : Channels Message)
          (events : Channels RequestEvent) (s : AppState)
          → start h (empty foreign_keys) outbound events ≡ some s
          → Lives s
      runs : (s t : AppState) (before : Lives s) → Steps fl j m s t → Lives t
      restarts :
          (r : AppState) (before : Lives r) (h : Host) (outbound : Channels Message)
          (events : Channels RequestEvent) (s : AppState)
          → start h r.db outbound events ≡ some s
          → Lives s

    -- Every state of a Fleet Manager over its restarts has every node once under the id that it
    -- registered with, every pending request once, and every balance equal to the sum of the
    -- node's entries in the ledger, whatever messages, disconnects, requests, answers,
    -- enrollments and calls of spawned tasks there are, in any order and with any statement of
    -- the database failing.
    pub Lives-IsSound : {s : AppState} → Lives s → IsSound fl s
    unfolding calls new earned HashMap.get
    Lives-IsSound (born h foreign_keys outbound events s e) =
        let (catalog, same) = start-new h (empty foreign_keys) outbound events s e in
        subst (IsSound fl) same (record { keyed = calls-new-IsKeyed []; balanced = λ k. refl })
    Lives-IsSound (runs s t before steps) = Steps-keep fl j m steps (Lives-IsSound before)
    Lives-IsSound (restarts r before h outbound events s e) =
        let (catalog, same) = start-new h r.db outbound events s e in
        subst (IsSound fl) same
          (record { keyed = calls-new-IsKeyed []; balanced = (Lives-IsSound before).balanced })
