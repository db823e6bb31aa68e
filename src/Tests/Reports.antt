-- ===== src/Tests/Reports.antt =====
-- Runs of the reports and of the view of the registry.
use jw_swarm.Common.{◌++◌, [], ◌∷◌, none, ◌≡◌, refl, unwrap_or, arith, map}
use mathlib.Core.List.{Perm}
use jw_swarm.Common.HashMap
use jw_swarm.Common.Order.{IsOrdered}
use jw_swarm.Float.{zero_f}
use jw_swarm.Db.Schema.{Db, LedgerRow}
use jw_swarm.Db.Ledger.{earned}
use jw_swarm.Registry.{Registry, NodeState, available_models}
use jw_swarm.Registry.Laws.{removes, calls}
use jw_swarm.Registry.View.{view, performs, view-calls-available_models}
use jw_swarm.Admin.{
  NodeEarnings, LeaderboardEntry, admin_node_earnings, admin_leaderboard, earned_more, ledger_of,
}
use jw_swarm.Admin.Reports.{
  NewestFirst, sum_points, IsRanked, standing, admin_node_earnings_lem, admin_leaderboard_lem,
}
use jw_swarm.Common.{String, List, eq_iff}
use jw_swarm.Common.Sort.{text_le}
use jw_swarm.Db.Ledger.{IsBalanced}
use jw_swarm.Common.Order.{order_by}
use jw_swarm.Admin.{ranked}
use jw_swarm.Tests.{fl, fl-CmpLaws, calm, db, node}

abbrev entry : LedgerRow
entry = record {
  id = 1;
  node_id = "n1";
  kind = "capacity";
  points = record { bits = 5 };
  source_ref = "hb";
  created_at = "1";
}

abbrev ledger_db : Db
ledger_db = record db {
  points_ledger = entry ∷ [];
  node_balances = ("n1", record { bits = 5 }) ∷ [];
}

-- What is credited between the two queries.
abbrev credited : List LedgerRow
credited = record entry { id = 2; created_at = "2" } ∷ []

abbrev earnings : NodeEarnings
earnings = record {
  node_id = "n1";
  total_points = record { bits = 5 };
  entries =
      record {
        id = 2;
        kind = "capacity";
        points = record { bits = 5 };
        source_ref = "hb";
        created_at = "2";
      }
      ∷ record {
        id = 1;
        kind = "capacity";
        points = record { bits = 5 };
        source_ref = "hb";
        created_at = "1";
      }
      ∷ [];
}

abbrev board : List LeaderboardEntry
board = record { rank = 1; node_id = "n1"; total_points = record { bits = 5 } } ∷ []

ledger_db-IsBalanced : IsBalanced fl ledger_db
unfolding earned HashMap.get
ledger_db-IsBalanced k = ground arith

admin_node_earnings_lem_example :
    Perm earnings.entries (ledger_of "n1" ledger_db.points_ledger ++ ledger_of "n1" credited)
    × NewestFirst fl earnings.entries
    × (earnings.total_points
        ≡ unwrap_or (sum_points fl none (ledger_of "n1" ledger_db.points_ledger)) (zero_f fl))
unfolding admin_node_earnings order_by HashMap.get text_le
admin_node_earnings_lem_example =
    admin_node_earnings_lem fl calm "n1" ledger_db
      (record ledger_db { points_ledger = entry ∷ credited }) credited earnings ledger_db-IsBalanced
      refl refl

admin_leaderboard_lem_example :
    Perm (map (standing fl) board) ledger_db.node_balances
    × IsOrdered (earned_more fl) (map (standing fl) board)
    × IsRanked fl 1 board
unfolding admin_leaderboard order_by ranked
admin_leaderboard_lem_example =
    admin_leaderboard_lem fl fl-CmpLaws calm ledger_db board (omega arith) (refl, tt) refl

-- The same two nodes, in both orders.
abbrev other : NodeState
other = record node { node_id = "n2"; register = record node.register { node_id = "n2" } }

abbrev one_way : Registry
one_way = record { nodes = ("n1", node) ∷ ("n2", other) ∷ []; pending = [] }

abbrev other_way : Registry
other_way = record { nodes = ("n2", other) ∷ ("n1", node) ∷ []; pending = [] }

same_view : view one_way ≡ view other_way
unfolding HashMap.get
same_view = λ i. (λ k. at k i, HashMap.get [])
  where
    at : (k : String) → HashMap.get one_way.nodes k ≡ HashMap.get other_way.nodes k
    at k = ground (arith, eq_iff "n1" k, eq_iff "n2" k)

view-calls-available_models_example :
    (view (calls one_way (removes "n1" ∷ [])) ≡ performs (removes "n1" ∷ []) (view one_way))
    × (available_models (calls one_way (removes "n1" ∷ []))
        ≡ available_models (calls other_way (removes "n1" ∷ [])))
unfolding HashMap.get
view-calls-available_models_example =
    view-calls-available_models one_way other_way (removes "n1" ∷ [])
      (record {
        distinct = (refl, (refl, tt));
        distinct_pending = tt;
        own_id = λ k n e. (
          ground (arith, e, eq_iff "n1" k, eq_iff "n2" k),
          ground (arith, e, eq_iff "n1" k, eq_iff "n2" k),
        );
      })
      (record {
        distinct = (refl, (refl, tt));
        distinct_pending = tt;
        own_id = λ k n e. (
          ground (arith, e, eq_iff "n1" k, eq_iff "n2" k),
          ground (arith, e, eq_iff "n1" k, eq_iff "n2" k),
        );
      })
      same_view
