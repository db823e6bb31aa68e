-- ===== src/Db/Tokens.antt =====
-- The enrollment tokens of db.rs: insert, consume, list, revoke.
pub mod Rows
pub mod OneTime
use jw_swarm.Common.{
  ℕ, zero, suc, ◌+◌, String, List, [], ◌∷◌, ◌++◌, Bool, true, false, ◌&&◌, not, Option, none, some,
  any, eqb, is_some, unwrap_or, if◌then◌else◌, ◌==◌,
}
use jw_swarm.Common.Sort.{text_lt, text_le}
use jw_swarm.Db.Schema.{
  Db, EnrollmentTokenRow, Conditions, Result, ok, err, ◌>>=◌, constraint_failed, now_rfc3339,
  statement,
}

abbrev pub has_hash : String → List EnrollmentTokenRow → Bool
has_hash token_hash = any (λ r. r.token_hash == token_hash)

-- INSERT; the hash is the primary key.
unfoldable pub insert_enrollment_token :
    Conditions → String → String → String → String → Db → Result Db
insert_enrollment_token c token_hash node_id expires_at_rfc3339 created_by db = do
  now ← now_rfc3339 c
  row ←
      if has_hash token_hash db.enrollment_tokens
      then err constraint_failed
      else ok (record {
        token_hash = token_hash;
        node_id = node_id;
        created_at = now;
        expires_at = expires_at_rfc3339;
        used_at = none;
        created_by = created_by;
      })
  statement c 0 (record db { enrollment_tokens = db.enrollment_tokens ++ row ∷ [] })

-- UPDATE ... SET ... WHERE
unfoldable pub update_where :
    (EnrollmentTokenRow → Bool)
    → (EnrollmentTokenRow → EnrollmentTokenRow)
    → List EnrollmentTokenRow
    → List EnrollmentTokenRow
update_where p f [] = []
update_where p f (r ∷ rs) = (if p r then f r else r) ∷ update_where p f rs

-- `rows_affected()` of the update
unfoldable pub rows_affected : (EnrollmentTokenRow → Bool) → List EnrollmentTokenRow → ℕ
rows_affected p [] = 0
rows_affected p (r ∷ rs) = if p r then suc (rows_affected p rs) else rows_affected p rs

-- The condition of the update that consumes a token. Times are compared as texts.
abbrev pub consumable : String → String → String → EnrollmentTokenRow → Bool
consumable token_hash node_id now r =
    r.token_hash == token_hash
    && r.node_id == node_id
    && not (is_some r.used_at)
    && text_lt now r.expires_at

abbrev pub mark_used : String → EnrollmentTokenRow → EnrollmentTokenRow
mark_used now r = record r { used_at = some now }

unfoldable pub consume_enrollment_token :
    Conditions → String → String → String → Db → Result (Bool × Db)
consume_enrollment_token c token_hash node_id now_rfc3339 db = statement c 0 (
  eqb (rows_affected (consumable token_hash node_id now_rfc3339) db.enrollment_tokens) 1,
  record db {
    enrollment_tokens =
        update_where (consumable token_hash node_id now_rfc3339) (mark_used now_rfc3339)
          db.enrollment_tokens;
  },
)

-- ORDER BY created_at DESC; rows of the same time keep the order of the table.
pub insert_by_created : EnrollmentTokenRow → List EnrollmentTokenRow → List EnrollmentTokenRow
insert_by_created r [] = r ∷ []
insert_by_created r (s ∷ rows) =
    if text_le s.created_at r.created_at then r ∷ s ∷ rows else s ∷ insert_by_created r rows

pub order_by_created_desc : List EnrollmentTokenRow → List EnrollmentTokenRow
unfolding insert_by_created
order_by_created_desc [] = []
order_by_created_desc (r ∷ rows) = insert_by_created r (order_by_created_desc rows)

unfoldable pub list_enrollment_tokens : Conditions → Db → Result (List EnrollmentTokenRow)
unfolding order_by_created_desc
list_enrollment_tokens c db = statement c 0 (order_by_created_desc db.enrollment_tokens)

-- COALESCE(used_at, now)
abbrev pub revoke_row : String → EnrollmentTokenRow → EnrollmentTokenRow
revoke_row now r = record r { used_at = some (unwrap_or r.used_at now) }

unfoldable pub revoke_enrollment_token : Conditions → String → Db → Result (Bool × Db)
revoke_enrollment_token c token_hash db = do
  now ← now_rfc3339 c
  statement c 0 (
    eqb (rows_affected (λ r. r.token_hash == token_hash) db.enrollment_tokens) 1,
    record db {
      enrollment_tokens =
          update_where (λ r. r.token_hash == token_hash) (revoke_row now) db.enrollment_tokens;
    },
  )
