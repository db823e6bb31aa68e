-- ===== src/Db/Sessions/Closing.antt =====
-- Closing a session closes one row of the node, and no row of another.
use jw_swarm.Common.{
  ℕ, suc, ◌+◌, ◌-◌, String, List, [], ◌∷◌, true, false, none, some, ◌≡◌, ◌≢◌, refl, arith,
  if◌then◌else◌, eq_iff, Option-cases, inl, inr, unwrap_or,
}
use jw_swarm.Db.Schema.{Db, SessionRow, Conditions, ok}
use jw_swarm.Db.Sessions.Ids.{has_id, UniqueIds, HasIds}
use jw_swarm.Db.Sessions.{
  is_open, latest_open, update_id, update_latest, close_session, disconnect_row,
}

-- How many sessions of the node are open.
abbrev pub open_count : String → List SessionRow → ℕ
open_count k [] = 0
open_count k (s ∷ rest) = if is_open k s then suc (open_count k rest) else open_count k rest

latest_open-id :
    (k : String) (rows : List SessionRow) (s : SessionRow)
    → latest_open k rows ≡ some s
    → (has_id s.id rows ≡ true) × (is_open k s ≡ true)
unfolding latest_open
latest_open-id k [] s e = cc
latest_open-id k (x ∷ rows) s e = elim (Option-cases (latest_open k rows)) [
  | inl n ↦ ground (arith, n)
  | inr (t, n) ↦ ground (arith, latest_open-id k rows t n, n)
]

open_count-absent :
    (k : String) (id : ℕ) (f : SessionRow → SessionRow) (rows : List SessionRow)
    → has_id id rows ≡ false
    → open_count k (update_id id f rows) ≡ open_count k rows
unfolding update_id
open_count-absent k id f [] h = refl
open_count-absent k id f (x ∷ rows) h = ground (arith, open_count-absent k id f rows)

open_count-close :
    (k : String) (now : String) (rows : List SessionRow) (s : SessionRow)
    → UniqueIds rows
    → latest_open k rows ≡ some s
    → open_count k (update_id s.id (disconnect_row now) rows) + 1 ≡ open_count k rows
unfolding update_id latest_open
open_count-close k now [] s u e = cc
open_count-close k now (x ∷ rows) s u e = elim (Option-cases (latest_open k rows)) [
  | inl n ↦ ground (arith, n, open_count-absent k s.id (disconnect_row now) rows)
  | inr (t, n) ↦ ground (
    arith,
    n,
    latest_open-id k rows t n,
    open_count-close k now rows t u.1 n,
    open_count-absent k s.id (disconnect_row now) rows,
  )
]

open_count-none :
    (k : String) (rows : List SessionRow) → latest_open k rows ≡ none → open_count k rows ≡ 0
unfolding latest_open
open_count-none k [] e = refl
open_count-none k (x ∷ rows) e = elim (Option-cases (latest_open k rows)) [
  | inl n ↦ ground (arith, n, open_count-none k rows)
  | inr (t, n) ↦ ground (arith, n)
]

open_count-update_latest :
    (k now : String) (rows : List SessionRow)
    → UniqueIds rows
    → open_count k (update_latest k (disconnect_row now) rows) ≡ open_count k rows - 1
unfolding update_latest
open_count-update_latest k now rows u = elim (Option-cases (latest_open k rows)) [
  | inl n ↦ rw (n, update_latest) (omega (arith, open_count-none k rows n))
  | inr (s, n) ↦ rw (n, update_latest) (omega (arith, open_count-close k now rows s u n))
]

-- Rows of another node are not closed.
open_count-other :
    (j k now : String) (s : SessionRow) (rows : List SessionRow)
    → j ≢ k
    → is_open k s ≡ true
    → UniqueIds rows
    → latest_open k rows ≡ some s
    → open_count j (update_id s.id (disconnect_row now) rows) ≡ open_count j rows
unfolding update_id latest_open
open_count-other j k now s [] ne o u e = refl
open_count-other j k now s (x ∷ rows) ne o u e = elim (Option-cases (latest_open k rows)) [
  | inl n ↦ ground (
    arith,
    n,
    open_count-absent j s.id (disconnect_row now) rows,
    eq_iff s.node_id k,
    eq_iff s.node_id j,
    eq_iff x.node_id j,
    eq_iff x.node_id k,
  )
  | inr (t, n) ↦ ground (
    arith,
    n,
    latest_open-id k rows t n,
    open_count-other j k now s rows,
    open_count-absent j s.id (disconnect_row now) rows,
    eq_iff x.node_id k,
    eq_iff x.node_id j,
  )
]

open_count-update_latest_other :
    (j k now : String) (rows : List SessionRow)
    → j ≢ k
    → UniqueIds rows
    → open_count j (update_latest k (disconnect_row now) rows) ≡ open_count j rows
unfolding update_latest
open_count-update_latest_other j k now rows ne u = elim (Option-cases (latest_open k rows)) [
  | inl n ↦ rw (n, update_latest) refl
  | inr (s, n) ↦
      rw (n, update_latest) (open_count-other j k now s rows ne (latest_open-id k rows s n).1 u n)
]

-- A call that runs leaves the node one open session less, or none if it had none, and every other
-- node as many as before.
pub close_session-open_count :
    (c : Conditions) (k : String) (db db' : Db)
    → HasIds db
    → close_session c k db ≡ ok db'
    → (open_count k db'.sessions ≡ open_count k db.sessions - 1)
      × ((j : String) → j ≢ k → open_count j db'.sessions ≡ open_count j db.sessions)
unfolding close_session
close_session-open_count c k db db' h e = (
  ground (arith, open_count-update_latest k (unwrap_or c.now "") db.sessions h.unique),
  λ j ne.
      ground
        (arith, open_count-update_latest_other j k (unwrap_or c.now "") db.sessions ne h.unique),
)
