-- ===== src/Db/Sessions/Ids.antt =====
-- The primary key of the sessions, kept by every call.
use jw_swarm.Common.{
  ◌&&◌, not, is_some, ℕ, ◌+◌, ◌<◌, String, List, [], ◌∷◌, ◌++◌, Bool, true, false, ◌||◌, none, ◌≡◌,
  refl, arith, any, eqb, All, Option-cases, inl, inr, if◌then◌else◌, unwrap_or, is_some,
}
use jw_swarm.Common.HashMap
use jw_swarm.Float.{F64, Floats, zero_f}
use jw_swarm.Db.Schema.{Db, SessionRow, Conditions, after, empty}
use jw_swarm.Db.Sessions.{
  latest_open, update_id, update_latest, open_session, touch_session_awake, close_session,
  disconnect_row,
}

abbrev pub has_id : ℕ → List SessionRow → Bool
has_id id = any (λ s. eqb s.id id)

-- The primary key: no id stands twice, and all are below the next one.
abbrev pub UniqueIds : List SessionRow → Type 0
UniqueIds [] = Unit
UniqueIds (s ∷ rest) = (has_id s.id rest ≡ false) × UniqueIds rest

pub record HasIds (db : Db) : Type 0 where
  pub unique : UniqueIds db.sessions
  pub below : All (λ s. s.id < db.next_session) db.sessions

has_id-update_id :
    (n id : ℕ) (f : SessionRow → SessionRow) (rows : List SessionRow)
    → ((s : SessionRow) → (f s).id ≡ s.id)
    → has_id n (update_id id f rows) ≡ has_id n rows
unfolding update_id
has_id-update_id n id f [] keeps = refl
has_id-update_id n id f (x ∷ rows) keeps =
    ground (arith, has_id-update_id n id f rows keeps, keeps x)

update_id-UniqueIds :
    (id : ℕ) (f : SessionRow → SessionRow) (rows : List SessionRow)
    → ((s : SessionRow) → (f s).id ≡ s.id)
    → UniqueIds rows
    → UniqueIds (update_id id f rows)
unfolding update_id
update_id-UniqueIds id f [] keeps u = tt
update_id-UniqueIds id f (x ∷ rows) keeps u = ground (
  arith,
  update_id-UniqueIds id f rows keeps u.1,
  has_id-update_id x.id id f rows keeps,
  has_id-update_id (f x).id id f rows keeps,
  keeps x,
)

update_id-below :
    (n id : ℕ) (f : SessionRow → SessionRow) (rows : List SessionRow)
    → ((s : SessionRow) → (f s).id ≡ s.id)
    → All (λ s. s.id < n) rows
    → All (λ s. s.id < n) (update_id id f rows)
unfolding update_id
update_id-below n id f [] keeps b = tt
update_id-below n id f (x ∷ rows) keeps b =
    ground (arith, update_id-below n id f rows keeps b.1, keeps x)

update_latest-HasIds :
    (k : String) (f : SessionRow → SessionRow) (db : Db)
    → ((s : SessionRow) → (f s).id ≡ s.id)
    → HasIds db
    → HasIds (record db { sessions = update_latest k f db.sessions })
unfolding update_latest
update_latest-HasIds k f db keeps h = elim (Option-cases (latest_open k db.sessions)) [
  | inl n ↦ rw (n, update_latest) (record { unique = h.unique; below = h.below })
  | inr (s, n) ↦
      rw (n, update_latest)
        (record {
          unique = update_id-UniqueIds s.id f db.sessions keeps h.unique;
          below = update_id-below db.next_session s.id f db.sessions keeps h.below;
        })
]

has_id-append :
    (m : ℕ) (rows : List SessionRow) (s : SessionRow)
    → has_id m (rows ++ s ∷ []) ≡ (has_id m rows || eqb s.id m)
has_id-append m [] s = ground arith
has_id-append m (x ∷ rows) s = ground (arith, has_id-append m rows s)

append-HasIds :
    (rows : List SessionRow) (s : SessionRow) (n : ℕ)
    → UniqueIds rows
    → All (λ t. t.id < n) rows
    → s.id ≡ n
    → UniqueIds (rows ++ s ∷ []) × All (λ t. t.id < n + 1) (rows ++ s ∷ [])
append-HasIds [] s n u b e = ground arith
append-HasIds (x ∷ rows) s n u b e =
    ground (arith, append-HasIds rows s n u.1 b.1 e, has_id-append x.id rows s)

-- The calls that change the sessions.
pub data SessionCall : Type 0 where
  opens : String → F64 → F64 → SessionCall
  touches : String → F64 → SessionCall
  closes : String → SessionCall

module _ (fl : Floats) where
  pub call : Db → Conditions × SessionCall → Db
  call db (c, opens k p v) = after db (open_session fl c k p v db)
  call db (c, touches k d) = after db (touch_session_awake fl c k d db)
  call db (c, closes k) = after db (close_session c k db)

  pub calls : Db → List (Conditions × SessionCall) → Db
  calls db [] = db
  calls db (x ∷ xs) = calls (call db x) xs

  opened : String → F64 → F64 → String → Db → Db
  opened k p v now db = record db {
    sessions =
        db.sessions
        ++ record {
          id = db.next_session;
          node_id = k;
          connected_at = now;
          disconnected_at = none;
          awake_seconds = zero_f fl;
          gpu_power_pct = p;
          vram_mb = v;
        }
          ∷ [];
    next_session = db.next_session + 1;
  }

  opens_row : Conditions → String → Db → Bool
  opens_row c k db =
      is_some c.now
      && not (db.foreign_keys && not (is_some (HashMap.get db.nodes k)))
      && not (c.fails 0)

  after-open_session :
      (c : Conditions) (k : String) (p v : F64) (db : Db)
      → after db (open_session fl c k p v db)
        ≡ (if opens_row c k db then opened k p v (unwrap_or c.now "") db else db)
  unfolding open_session opened opens_row
  after-open_session c k p v db = ground arith

  opened-HasIds :
      (b : Bool) (k : String) (p v : F64) (now : String) (db : Db)
      → HasIds db
      → HasIds (if b then opened k p v now db else db)
  unfolding opened
  opened-HasIds true k p v now db h =
      let kept = append-HasIds db.sessions _ db.next_session h.unique h.below refl in
      record { unique = kept.0; below = kept.1 }
  opened-HasIds false k p v now db h = h

  call-HasIds : (db : Db) (x : Conditions × SessionCall) → HasIds db → HasIds (call db x)
  unfolding call open_session touch_session_awake close_session
  call-HasIds db (c, opens k p v) h =
      rw (after-open_session c k p v db)
        (opened-HasIds (opens_row c k db) k p v (unwrap_or c.now "") db h)
  call-HasIds db (c, touches k d) h =
      let kept =
        update_latest-HasIds k (λ s. record s { awake_seconds = fl.add s.awake_seconds d }) db
          (λ s. refl) h in
      ground (arith, kept)
  call-HasIds db (c, closes k) h =
      let kept = update_latest-HasIds k (disconnect_row (unwrap_or c.now "")) db (λ s. refl) h in
      ground (arith, kept)

  calls-HasIds : (db : Db) (xs : List (Conditions × SessionCall)) → HasIds db → HasIds (calls db xs)
  unfolding calls
  calls-HasIds db [] h = h
  calls-HasIds db (x ∷ xs) h = calls-HasIds (call db x) xs (call-HasIds db x h)

  -- In a database that started empty, after any calls, no two sessions have the same id and all
  -- ids are below the next one.
  pub calls-empty-HasIds :
      (fk : Bool) (xs : List (Conditions × SessionCall)) → HasIds (calls (empty fk) xs)
  calls-empty-HasIds fk xs = calls-HasIds (empty fk) xs (record { unique = tt; below = tt })
