-- ===== src/Tunnel/Points.antt =====
-- What the messages of a tunnel credit.
use jw_swarm.Common.{
  ap, ◌∙◌, if◌then◌else◌, not, ◌&&◌, String, Bool, true, false, Option, none, some, ◌≡◌, refl, ◌==◌,
  arith, eq_refl,
}
use jw_swarm.Common.HashMap
use jw_swarm.Common.HashMap.{get-insert, get-remove}
use jw_swarm.Float.{F64, Floats, gt, zero_f}
use jw_swarm.Proto.{Register, Heartbeat, Done, is_awake}
use jw_swarm.Channel.{Sender}
use jw_swarm.Registry.{complete_request, get_pending, dispatch_event}
use jw_swarm.Db.Schema.{Db, Conditions, after}
use jw_swarm.Db.Sessions.{touch_session_awake}
use jw_swarm.Db.Ledger.{
  credit_points, after-credit_points, credited, commits, IsBalanced, credit_points-IsBalanced,
}
use jw_swarm.State.{AppState}
use jw_swarm.Tunnel.{Session, Moment, on_register, credit_capacity, on_heartbeat, on_done}

-- What holds of both branches holds of the test.
either {ℓ κ} :
    {A : Type ℓ} (Q : A → Type κ) (b : Bool) {t e : A} → Q t → Q e → Q (if b then t else e)
either Q true u v = u
either Q false u v = v

module _ (fl : Floats) where
  other_balance-credit_points :
      (c : Conditions) (node_id kind : String) (points : F64) (source : String) (db : Db)
      (k : String)
      → (node_id == k) ≡ false
      → HashMap.get (after db (credit_points fl c node_id kind points source db)).node_balances k
        ≡ HashMap.get db.node_balances k
  unfolding credited
  other_balance-credit_points c node_id kind points source db k ne =
      rw (after-credit_points fl c node_id kind points source db) (
        either (λ (x : Db). HashMap.get x.node_balances k ≡ HashMap.get db.node_balances k)
          (commits fl c node_id db) (rw (get-insert, ne) refl) refl)

  touched-balances :
      (c : Conditions) (k : String) (d : F64) (db : Db)
      → ((after db (touch_session_awake fl c k d db)).node_balances ≡ db.node_balances)
        × ((after db (touch_session_awake fl c k d db)).points_ledger ≡ db.points_ledger)
  unfolding touch_session_awake
  touched-balances c k d db = ground arith

  other_balance-credit_capacity :
      (now : Moment) (d : F64) (x : Session) (s : AppState) (k : String)
      → (x.node_id == k) ≡ false
      → HashMap.get (credit_capacity fl now d x s).db.node_balances k
        ≡ HashMap.get s.db.node_balances k
  unfolding credit_capacity
  other_balance-credit_capacity now d x s k ne =
      let touched = after s.db (touch_session_awake fl now.touching x.node_id d s.db) in
      either (λ (t : AppState). HashMap.get t.db.node_balances k ≡ HashMap.get s.db.node_balances k)
        (gt fl _ (zero_f fl))
        (other_balance-credit_points now.crediting x.node_id _ _ _ touched k ne
          ∙ ap (λ m. HashMap.get m k) (touched-balances now.touching x.node_id d s.db).0)
        refl

  credit_capacity-IsBalanced :
      (now : Moment) (d : F64) (x : Session) (s : AppState)
      → IsBalanced fl s.db
      → IsBalanced fl (credit_capacity fl now d x s).db
  unfolding credit_capacity
  credit_capacity-IsBalanced now d x s h =
      let kept = touched-balances now.touching x.node_id d s.db in
      let touched = after s.db (touch_session_awake fl now.touching x.node_id d s.db) in
      either (λ (t : AppState). IsBalanced fl t.db) (gt fl _ (zero_f fl))
        (credit_points-IsBalanced fl now.crediting x.node_id _ _ _ touched
          λ k. rw (kept.0, kept.1) (h k))
        h

  -- What a heartbeat does to the database is nothing, or a capacity credit to the session's node.
  on_heartbeat-db {ℓ} :
      (P : Db → Type ℓ) (now : Moment) (s : AppState) (session : Option Session) (hb : Heartbeat)
      → P s.db
      → ((y x : Session) (d : F64) (s0 : AppState)
          → session ≡ some y
          → x.node_id ≡ y.node_id
          → s0.db ≡ s.db
          → P (credit_capacity fl now d x s0).db)
      → P (on_heartbeat fl now s session hb).0.db
  unfolding on_heartbeat
  on_heartbeat-db P now s none hb p q = p
  on_heartbeat-db P now s (some x) hb p q =
      either (λ (r : AppState × Option Session). P r.0.db) (not (x.node_id == hb.node_id)) p
        (either (λ (t : AppState). P t.db) (gt fl _ (zero_f fl) && is_awake hb.schedule_state)
          (q x (record x { prev_heartbeat_ms = some now.unix_now_ms }) _ _ refl refl refl) p)

  -- A heartbeat changes no balance but that of the node that its connection registered: not that
  -- of another node that it names, and none at all before a registration.
  pub on_heartbeat-other_balance :
      (now : Moment) (s : AppState) (session : Option Session) (hb : Heartbeat) (k : String)
      → ((x : Session) → session ≡ some x → (x.node_id == k) ≡ false)
      → HashMap.get (on_heartbeat fl now s session hb).0.db.node_balances k
        ≡ HashMap.get s.db.node_balances k
  on_heartbeat-other_balance now s session hb k other =
      on_heartbeat-db (λ db. HashMap.get db.node_balances k ≡ HashMap.get s.db.node_balances k) now
        s session hb refl
        λ y x d s0 ey ex es.
          other_balance-credit_capacity now d x s0 k (rw ex (other y ey))
          ∙ ap (λ db. HashMap.get db.node_balances k) es

  -- The first heartbeat of a connection credits nothing and leaves the database as it was, since
  -- no time has passed since the last one, given that a number less itself is not above zero.
  pub on_register-on_heartbeat :
      ((a : F64) → gt fl (fl.div (fl.sub a a) (fl.literal 1000 0)) (zero_f fl) ≡ false)
      → (now : Moment) (s : AppState) (tx : Sender) (reg : Register) (hb : Heartbeat)
      → let opened = on_register fl s tx reg in
        (on_heartbeat fl now opened.0 opened.1 hb).0.db ≡ s.db
  unfolding on_register on_heartbeat
  on_register-on_heartbeat law now s tx reg hb = ground (arith, law now.unix_now_ms)

  -- Whatever a heartbeat says and whichever statements fail, the ledger and the balances stay in
  -- agreement.
  pub on_heartbeat-IsBalanced :
      (now : Moment) (s : AppState) (session : Option Session) (hb : Heartbeat)
      → IsBalanced fl s.db
      → IsBalanced fl (on_heartbeat fl now s session hb).0.db
  on_heartbeat-IsBalanced now s session hb h =
      on_heartbeat-db (IsBalanced fl) now s session hb h
        λ y x d s0 ey ex es. credit_capacity-IsBalanced now d x s0 (rw es h)

  -- A node's report that a request is done counts for nothing once the request has been completed:
  -- no delivery is recorded, nothing is credited, and nobody is told.
  pub complete_request-on_done :
      (s : AppState) (session : Option Session) (d : Done)
      → let completed = record s { registry = complete_request s.registry d.request_id } in
        on_done fl completed session d ≡ completed
  unfolding on_done complete_request get_pending dispatch_event
  complete_request-on_done s session d =
      ground (arith, get-remove s.registry.pending d.request_id d.request_id, eq_refl d.request_id)
