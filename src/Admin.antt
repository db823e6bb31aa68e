-- ===== src/Admin.antt =====
-- jw-swarm-fleet-manager/src/admin.rs: the read-only reports on nodes and points.
pub mod Reports
use jw_swarm.Common.{
  ℕ, suc, ◌+◌, ◌%◌, ◌^◌, String, List, [], ◌∷◌, Option, Bool, unwrap_or, map, select, ◌==◌,
  if◌then◌else◌,
}
use jw_swarm.Common.Int.{ℤ}
use jw_swarm.Common.Sort.{text_le}
use jw_swarm.Common.Order.{order_by}
use jw_swarm.Common.HashMap
use jw_swarm.Common.HashMap.{HashMap}
use jw_swarm.Float.{F64, Floats, le, zero_f}
use jw_swarm.Db.Schema.{Db, NodeRow, LedgerRow, Conditions}

pub record AdminNodeInfo : Type 0 where
  pub node_id : String
  pub hostname : String
  pub os : String
  pub gpu_vendor : String
  pub gpu_name : String
  pub gpu_vram_mb : ℤ
  pub first_seen : String
  pub last_seen : String
  pub total_points : Option F64

pub record LedgerEntry : Type 0 where
  pub id : ℕ
  pub kind : String
  pub points : F64
  pub source_ref : String
  pub created_at : String

pub record NodeEarnings : Type 0 where
  pub node_id : String
  pub total_points : F64
  pub entries : List LedgerEntry

pub record LeaderboardEntry : Type 0 where
  pub rank : ℕ
  pub node_id : String
  pub total_points : F64

-- The rows, or status 500 with "query failed". The columns of the tables are not null and have
-- the types that are read, so every field of a row is there.
pub data Answer (A : Type 0) : Type 0 where
  rows : A → Answer A
  query_failed : Answer A

abbrev pub node_info : HashMap F64 → String × NodeRow → AdminNodeInfo
node_info balances (node_id, n) = record {
  node_id = node_id;
  hostname = n.hostname;
  os = n.os;
  gpu_vendor = n.gpu_vendor;
  gpu_name = n.gpu_name;
  gpu_vram_mb = n.gpu_vram_mb;
  first_seen = n.first_seen;
  last_seen = n.last_seen;
  total_points = HashMap.get balances node_id;
}

-- ORDER BY last_seen DESC
abbrev pub seen_later : AdminNodeInfo → AdminNodeInfo → Bool
seen_later a b = text_le b.last_seen a.last_seen

unfoldable pub admin_nodes : Conditions → Db → Answer (List AdminNodeInfo)
admin_nodes c db =
    if c.fails 0
    then query_failed
    else rows (order_by seen_later (map (node_info db.node_balances) db.nodes))

abbrev pub ledger_entry : LedgerRow → LedgerEntry
ledger_entry r = record {
  id = r.id;
  kind = r.kind;
  points = r.points;
  source_ref = r.source_ref;
  created_at = r.created_at;
}

-- WHERE node_id = ?
abbrev pub ledger_of : String → List LedgerRow → List LedgerEntry
ledger_of node_id ledger = map ledger_entry (select (λ r. r.node_id == node_id) ledger)

-- ORDER BY created_at DESC
abbrev pub created_later : LedgerEntry → LedgerEntry → Bool
created_later a b = text_le b.created_at a.created_at

module _ (fl : Floats) where
  -- The two queries are awaited one after the other: the balance is read from the first database,
  -- the entries from the second.
  unfoldable pub admin_node_earnings : Conditions → String → Db → Db → Answer NodeEarnings
  admin_node_earnings c node_id db db' =
      if c.fails 0
      then query_failed
      else if c.fails 1
      then query_failed
      else rows (record {
        node_id = node_id;
        total_points = unwrap_or (HashMap.get db.node_balances node_id) (zero_f fl);
        entries = order_by created_later (ledger_of node_id db'.points_ledger);
      })

  -- ORDER BY total_points DESC
  abbrev pub earned_more : String × F64 → String × F64 → Bool
  earned_more a b = le fl b.1 a.1

  -- `enumerate()`; the rank is cast to a `u32`.
  unfoldable pub ranked : ℕ → List (String × F64) → List LeaderboardEntry
  ranked i [] = []
  ranked i ((node_id, total) ∷ rest) =
      record { rank = (i + 1) % 2 ^ 32; node_id = node_id; total_points = total }
      ∷ ranked (i + 1) rest

  unfoldable pub admin_leaderboard : Conditions → Db → Answer (List LeaderboardEntry)
  unfolding ranked
  admin_leaderboard c db =
      if c.fails 0 then query_failed else rows (ranked 0 (order_by earned_more db.node_balances))
