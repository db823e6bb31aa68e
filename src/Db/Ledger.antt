-- ===== src/Db/Ledger.antt =====
-- `credit_points` of db.rs: one entry in `points_ledger` and one update of `node_balances`, in a
-- transaction.
use jw_swarm.Common.{
  ◌+◌, String, List, [], ◌∷◌, ◌++◌, Bool, true, false, Option, none, some, ◌≡◌, refl, arith, ◌==◌,
  eq_iff, if◌then◌else◌, is_some, unwrap_or, ◌&&◌, not,
}
use jw_swarm.Common.HashMap
use jw_swarm.Common.HashMap.{get-insert}
use jw_swarm.Float.{F64, Floats}
use jw_swarm.Db.Schema.{
  Db, LedgerRow, Conditions, Result, ◌>>=◌, now_rfc3339, statement, references, after,
}

module _ (fl : Floats) where
  -- INSERT INTO points_ledger
  insert_entry : Conditions → String → String → String → F64 → String → Db → Result Db
  insert_entry c now node_id kind points source_ref tx = do
    row ← references tx node_id (record {
      id = tx.next_ledger;
      node_id = node_id;
      kind = kind;
      points = points;
      source_ref = source_ref;
      created_at = now;
    })
    statement c 1 (record tx {
      points_ledger = tx.points_ledger ++ row ∷ [];
      next_ledger = tx.next_ledger + 1;
    })

  -- The balance after an upsert of `points`.
  abbrev pub plus : Option F64 → F64 → F64
  plus none points = points
  plus (some total) points = fl.add total points

  -- INSERT INTO node_balances ... ON CONFLICT DO UPDATE
  add_balance : Conditions → String → F64 → Db → Result Db
  add_balance c node_id points tx = do
    total ← references tx node_id (plus (HashMap.get tx.node_balances node_id) points)
    statement c 2 (record tx { node_balances = HashMap.insert tx.node_balances node_id total })

  -- BEGIN is statement 0 and COMMIT is statement 3. A transaction that is dropped before its
  -- commit is rolled back.
  unfoldable pub credit_points : Conditions → String → String → F64 → String → Db → Result Db
  unfolding insert_entry add_balance
  credit_points c node_id kind points source_ref db = do
    now ← now_rfc3339 c
    tx ← statement c 0 db
    tx ← insert_entry c now node_id kind points source_ref tx
    tx ← add_balance c node_id points tx
    statement c 3 tx

  -- The points of a node's entries, added up in the order in which they were credited.
  unfoldable pub earned : String → Option F64 → List LedgerRow → Option F64
  earned node_id total [] = total
  earned node_id total (row ∷ rows) =
      earned node_id (if row.node_id == node_id then some (plus total row.points) else total) rows

  earned-append :
      (k : String) (total : Option F64) (rows : List LedgerRow) (row : LedgerRow)
      → earned k total (rows ++ row ∷ []) ≡ (
          if row.node_id == k
          then some (plus (earned k total rows) row.points)
          else earned k total rows)
  unfolding earned
  earned-append k total [] row = refl
  earned-append k total (x ∷ rows) row =
      earned-append k (if x.node_id == k then some (plus total x.points) else total) rows row

  -- The balance of every node is the sum of its entries in the ledger.
  abbrev pub IsBalanced : Db → Type 0
  IsBalanced db = (k : String) → HashMap.get db.node_balances k ≡ earned k none db.points_ledger

  -- What the transaction makes of the tables when every statement runs.
  unfoldable pub credited : String → String → F64 → String → String → Db → Db
  credited node_id kind points source_ref now db = record db {
    points_ledger =
        db.points_ledger
        ++ record {
          id = db.next_ledger;
          node_id = node_id;
          kind = kind;
          points = points;
          source_ref = source_ref;
          created_at = now;
        }
          ∷ [];
    next_ledger = db.next_ledger + 1;
    node_balances =
        HashMap.insert db.node_balances node_id
          (plus (HashMap.get db.node_balances node_id) points);
  }

  -- The time can be printed, the node is known if references are enforced, and no statement fails.
  abbrev pub commits : Conditions → String → Db → Bool
  commits c node_id db =
      is_some c.now
      && not (db.foreign_keys && not (is_some (HashMap.get db.nodes node_id)))
      && not (c.fails 0)
      && not (c.fails 1)
      && not (c.fails 2)
      && not (c.fails 3)

  -- The transaction credits the points whole, or leaves every table as it was.
  pub after-credit_points :
      (c : Conditions) (node_id kind : String) (points : F64) (source_ref : String) (db : Db)
      → after db (credit_points c node_id kind points source_ref db) ≡ (
          if commits c node_id db
          then credited node_id kind points source_ref (unwrap_or c.now "") db
          else db)
  unfolding credit_points credited
  after-credit_points c node_id kind points source_ref db = ground arith

  credited-IsBalanced :
      (node_id kind : String) (points : F64) (source_ref now : String) (db : Db)
      → IsBalanced db
      → IsBalanced (credited node_id kind points source_ref now db)
  unfolding credited
  credited-IsBalanced node_id kind points source_ref now db h k =
      rw (get-insert, earned-append) (ground (arith, h k, eq_iff node_id k))

  -- Whichever statement of the transaction fails, and whatever the node: the ledger and the
  -- balances stay in agreement.
  pub credit_points-IsBalanced :
      (c : Conditions) (node_id kind : String) (points : F64) (source_ref : String) (db : Db)
      → IsBalanced db
      → IsBalanced (after db (credit_points c node_id kind points source_ref db))
  credit_points-IsBalanced c node_id kind points source_ref db h =
      rw (after-credit_points c node_id kind points source_ref db) (go (commits c node_id db))
    where
      go :
          (b : Bool)
          → IsBalanced
              (if b then credited node_id kind points source_ref (unwrap_or c.now "") db else db)
      go true = credited-IsBalanced node_id kind points source_ref (unwrap_or c.now "") db h
      go false = h
