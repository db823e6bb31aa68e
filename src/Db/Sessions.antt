-- ===== src/Db/Sessions.antt =====
-- The sessions of db.rs: a row for each connection of a node, closed when the node disconnects.
pub mod Ids
pub mod Closing
use jw_swarm.Common.{
  ℕ, ◌+◌, String, List, [], ◌∷◌, ◌++◌, Bool, true, false, ◌&&◌, not, Option, none, some, eqb,
  is_some, map, if◌then◌else◌, ◌==◌,
}
use jw_swarm.Common.Sort.{text_le}
use jw_swarm.Float.{F64, Floats, zero_f}
use jw_swarm.Db.Schema.{
  Db, SessionRow, Conditions, Result, ok, err, ◌>>=◌, now_rfc3339, statement, references,
}

-- WHERE node_id = ? AND disconnected_at IS NULL
abbrev pub is_open : String → SessionRow → Bool
is_open node_id s = s.node_id == node_id && not (is_some s.disconnected_at)

-- ORDER BY connected_at DESC LIMIT 1; SQLite leaves open which of two rows of the same time comes
-- first, and this takes the earlier row of the table.
unfoldable pub latest_open : String → List SessionRow → Option SessionRow
latest_open node_id [] = none
latest_open node_id (s ∷ rest) = elim (latest_open node_id rest) [
  | none ↦ if is_open node_id s then some s else none
  | some t ↦ if is_open node_id s && text_le t.connected_at s.connected_at then some s else some t
]

unfoldable pub update_id : ℕ → (SessionRow → SessionRow) → List SessionRow → List SessionRow
update_id id f [] = []
update_id id f (s ∷ rest) = (if eqb s.id id then f s else s) ∷ update_id id f rest

-- UPDATE sessions SET ... for that row, if there is one.
unfoldable pub update_latest :
    String → (SessionRow → SessionRow) → List SessionRow → List SessionRow
unfolding latest_open update_id
update_latest node_id f sessions = elim (latest_open node_id sessions) [
  | none ↦ sessions
  | some s ↦ update_id s.id f sessions
]

module _ (fl : Floats) where
  unfoldable pub open_session : Conditions → String → F64 → F64 → Db → Result Db
  open_session c node_id gpu_power_pct vram_mb db = do
    now ← now_rfc3339 c
    row ← references db node_id (record {
      id = db.next_session;
      node_id = node_id;
      connected_at = now;
      disconnected_at = none;
      awake_seconds = zero_f fl;
      gpu_power_pct = gpu_power_pct;
      vram_mb = vram_mb;
    })
    statement c 0
        (record db { sessions = db.sessions ++ row ∷ []; next_session = db.next_session + 1 })

  unfoldable pub touch_session_awake : Conditions → String → F64 → Db → Result Db
  touch_session_awake c node_id awake_seconds_delta db = statement c 0 (record db {
    sessions =
        update_latest node_id
          (λ s. record s { awake_seconds = fl.add s.awake_seconds awake_seconds_delta })
          db.sessions;
  })

abbrev pub disconnect_row : String → SessionRow → SessionRow
disconnect_row now s = record s { disconnected_at = some now }

unfoldable pub close_session : Conditions → String → Db → Result Db
close_session c node_id db = do
  now ← now_rfc3339 c
  statement c 0 (record db { sessions = update_latest node_id (disconnect_row now) db.sessions })
