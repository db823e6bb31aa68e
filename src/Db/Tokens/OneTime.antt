-- ===== src/Db/Tokens/OneTime.antt =====
-- An enrollment token is consumed at most once, by the node that it is bound to, before it
-- expires; revoking it uses it up.
use jw_swarm.Common.{
  String, List, [], ◌∷◌, Bool, true, false, ◌≡◌, refl, arith, any, eqb, ◌==◌, eq_iff, unwrap_or,
  none,
}
use jw_swarm.Db.Schema.{Db, EnrollmentTokenRow, Conditions, Result, ok, err}
use jw_swarm.Db.Tokens.{
  has_hash, update_where, rows_affected, consumable, mark_used, insert_enrollment_token,
  consume_enrollment_token, revoke_enrollment_token, revoke_row,
}
use jw_swarm.Db.Tokens.Rows.{
  Unique, has_hash-update_where, update_where-Unique, has_hash-append, append-Unique, spent,
  spent-append, spent-update_where, rows_affected-spent, rows_affected-any, spent-consumed,
}

-- The calls that change the tokens.
pub data TokenCall : Type 0 where
  inserts : String → String → String → String → TokenCall
  consumes : String → String → String → TokenCall
  revokes : String → TokenCall

abbrev second : Db → Result (Bool × Db) → Db
second db (ok (b, db')) = db'
second db (err e) = db

abbrev first : Db → Result Db → Db
first db (ok db') = db'
first db (err e) = db

unfoldable pub call : Db → Conditions × TokenCall → Db
call db (c, inserts h n e b) = first db (insert_enrollment_token c h n e b db)
call db (c, consumes h n now) = second db (consume_enrollment_token c h n now db)
call db (c, revokes h) = second db (revoke_enrollment_token c h db)

unfoldable pub calls : Db → List (Conditions × TokenCall) → Db
calls db [] = db
calls db (x ∷ xs) = calls (call db x) xs

pub call-Unique :
    (db : Db) (x : Conditions × TokenCall)
    → Unique db.enrollment_tokens
    → Unique (call db x).enrollment_tokens
unfolding call insert_enrollment_token consume_enrollment_token revoke_enrollment_token
call-Unique db (c, inserts h n e b) u = ground (
  arith,
  append-Unique db.enrollment_tokens (record {
    token_hash = h;
    node_id = n;
    created_at = unwrap_or c.now "";
    expires_at = e;
    used_at = none;
    created_by = b;
  }),
)
call-Unique db (c, consumes h n now) u = ground (
  arith,
  update_where-Unique (consumable h n now) (mark_used now) (λ r. refl) db.enrollment_tokens u,
)
call-Unique db (c, revokes h) u = ground (
  arith,
  update_where-Unique (λ r. r.token_hash == h) (revoke_row (unwrap_or c.now "")) (λ r. refl)
      db.enrollment_tokens u,
)

-- The token is in the table and used.
abbrev pub IsSpent : String → Db → Type 0
IsSpent h db = (has_hash h db.enrollment_tokens ≡ true) × (spent h db.enrollment_tokens ≡ true)

call-IsSpent :
    (h : String) (db : Db) (x : Conditions × TokenCall) → IsSpent h db → IsSpent h (call db x)
unfolding call insert_enrollment_token consume_enrollment_token revoke_enrollment_token
call-IsSpent h db (c, inserts k n e b) s =
    let row : EnrollmentTokenRow = record {
      token_hash = k;
      node_id = n;
      created_at = unwrap_or c.now "";
      expires_at = e;
      used_at = none;
      created_by = b;
    } in
    ground (
      arith,
      has_hash-append h db.enrollment_tokens row,
      spent-append h db.enrollment_tokens row,
      eq_iff k h,
    )
call-IsSpent h db (c, consumes k n now) s = ground (
  arith,
  has_hash-update_where (consumable k n now) (mark_used now) (λ r. refl) h db.enrollment_tokens,
  spent-update_where (consumable k n now) (mark_used now) (λ r. refl) (λ r. refl) h
      db.enrollment_tokens,
)
call-IsSpent h db (c, revokes k) s =
    let now = unwrap_or c.now "" in
    ground (
      arith,
      has_hash-update_where (λ r. r.token_hash == k) (revoke_row now) (λ r. refl) h
          db.enrollment_tokens,
      spent-update_where (λ r. r.token_hash == k) (revoke_row now) (λ r. refl) (λ r. refl) h
          db.enrollment_tokens,
    )

-- A database whose token hashes are unique keeps them so, whatever calls it gets.
pub calls-Unique :
    (db : Db) (xs : List (Conditions × TokenCall))
    → Unique db.enrollment_tokens
    → Unique (calls db xs).enrollment_tokens
unfolding calls
calls-Unique db [] u = u
calls-Unique db (x ∷ xs) u = calls-Unique (call db x) xs (call-Unique db x u)

calls-IsSpent :
    (h : String) (db : Db) (xs : List (Conditions × TokenCall))
    → IsSpent h db
    → IsSpent h (calls db xs)
unfolding calls
calls-IsSpent h db [] s = s
calls-IsSpent h db (x ∷ xs) s = calls-IsSpent h (call db x) xs (call-IsSpent h db x s)

consume-IsSpent :
    (c : Conditions) (h node now : String) (db db' : Db)
    → Unique db.enrollment_tokens
    → consume_enrollment_token c h node now db ≡ ok (true, db')
    → IsSpent h db'
unfolding consume_enrollment_token
consume-IsSpent c h node now db db' u e = ground (
  arith,
  rows_affected-any h node now db.enrollment_tokens u,
  spent-consumed h node now db.enrollment_tokens u,
  has_hash-update_where (consumable h node now) (mark_used now) (λ r. refl) h db.enrollment_tokens,
)

-- A call that runs answers whether the table has an unused row with this hash, bound to this node
-- and expiring after the time given, the two times compared as texts.
pub consume_enrollment_token_lem :
    (c : Conditions) (h node now : String) (db db' : Db) (consumed : Bool)
    → Unique db.enrollment_tokens
    → consume_enrollment_token c h node now db ≡ ok (consumed, db')
    → consumed ≡ any (consumable h node now) db.enrollment_tokens
unfolding consume_enrollment_token
consume_enrollment_token_lem c h node now db db' consumed u e =
    ground (arith, rows_affected-any h node now db.enrollment_tokens u)

consume-spent :
    (c : Conditions) (h node now : String) (db db' : Db) (consumed : Bool)
    → IsSpent h db
    → consume_enrollment_token c h node now db ≡ ok (consumed, db')
    → consumed ≡ false
unfolding consume_enrollment_token
consume-spent c h node now db db' consumed s e =
    ground (arith, rows_affected-spent h node now db.enrollment_tokens s.1)

-- Revoking marks every row of the hash, so that it spends the token if one is there.
spent-revoked :
    (h now : String) (rs : List EnrollmentTokenRow)
    → spent h (update_where (λ r. r.token_hash == h) (revoke_row now) rs) ≡ true
unfolding update_where
spent-revoked h now [] = refl
spent-revoked h now (r ∷ rs) = ground (arith, spent-revoked h now rs)

affected_known :
    (h : String) (rs : List EnrollmentTokenRow)
    → eqb (rows_affected (λ r. r.token_hash == h) rs) 1 ≡ true
    → has_hash h rs ≡ true
unfolding rows_affected
affected_known h [] e = ground arith
affected_known h (r ∷ rs) e = ground (arith, affected_known h rs)

revoke-IsSpent :
    (c : Conditions) (h : String) (db db' : Db)
    → revoke_enrollment_token c h db ≡ ok (true, db')
    → IsSpent h db'
unfolding revoke_enrollment_token
revoke-IsSpent c h db db' e =
    let now = unwrap_or c.now "" in
    ground (
      arith,
      affected_known h db.enrollment_tokens,
      spent-revoked h now db.enrollment_tokens,
      has_hash-update_where (λ r. r.token_hash == h) (revoke_row now) (λ r. refl) h
          db.enrollment_tokens,
    )

-- Once a token has been consumed, no later call consumes it, for any node, at any time, whatever
-- calls insert, consume or revoke tokens in between.
pub consume_once :
    (c : Conditions) (h node now : String) (db db' : Db)
    → Unique db.enrollment_tokens
    → consume_enrollment_token c h node now db ≡ ok (true, db')
    → (xs : List (Conditions × TokenCall)) (c' : Conditions) (node' now' : String)
    → (consumed : Bool) (db'' : Db)
    → consume_enrollment_token c' h node' now' (calls db' xs) ≡ ok (consumed, db'')
    → consumed ≡ false
consume_once c h node now db db' u e xs c' node' now' consumed db'' e' =
    consume-spent c' h node' now' (calls db' xs) db'' consumed
      (calls-IsSpent h db' xs (consume-IsSpent c h node now db db' u e)) e'

-- Nor is a token consumed after a revocation that found it.
pub revoke-consume :
    (c : Conditions) (h : String) (db db' : Db)
    → revoke_enrollment_token c h db ≡ ok (true, db')
    → (xs : List (Conditions × TokenCall)) (c' : Conditions) (node' now' : String)
    → (consumed : Bool) (db'' : Db)
    → consume_enrollment_token c' h node' now' (calls db' xs) ≡ ok (consumed, db'')
    → consumed ≡ false
revoke-consume c h db db' e xs c' node' now' consumed db'' e' =
    consume-spent c' h node' now' (calls db' xs) db'' consumed
      (calls-IsSpent h db' xs (revoke-IsSpent c h db db' e)) e'
