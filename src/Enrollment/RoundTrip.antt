-- ===== src/Enrollment/RoundTrip.antt =====
-- A token that was created enrolls its node.
use Prim.Native.String.{◌++◌ as string_append}
use Prim.Native.String.append
use jw_swarm.Common.{
  String, List, [], ◌∷◌, ◌++◌, Bool, true, false, Option, none, some, ◌≡◌, refl, arith, any,
  is_some, unwrap_or, if◌then◌else◌, eq_refl,
}
use jw_swarm.Common.Int.{ℤ}
use jw_swarm.Common.Sort.{text_lt}
use jw_swarm.Common.Text.{trim, is_empty, contains_text}
use jw_swarm.Common.Trim.{trim-trim}
use jw_swarm.Config.{EnrollmentConfig}
use jw_swarm.Http.{json, HeaderMap}
use jw_swarm.Db.Schema.{Db, EnrollmentTokenRow, Conditions}
use jw_swarm.Db.Tokens.{has_hash, consumable, consume_enrollment_token, insert_enrollment_token}
use jw_swarm.Db.Tokens.Rows.{Unique, rows_affected-any, append-Unique}
use jw_swarm.Enrollment.{
  Machine, CreateTokenRequest, CreateTokenResponse, create_token, enroll_node, sign_csr_with_ca,
  token_text, extract_bearer,
}
use jw_swarm.Enrollment.Auth.{succeeds}

any-append :
    (p : EnrollmentTokenRow → Bool) (rs : List EnrollmentTokenRow) (r : EnrollmentTokenRow)
    → p r ≡ true
    → any p (rs ++ r ∷ []) ≡ true
any-append p [] r h = ground arith
any-append p (x ∷ rs) r h = ground (arith, any-append p rs r h)

-- The row that a creation adds.
abbrev created : Conditions → CreateTokenResponse → String → EnrollmentTokenRow
created c r created_by = record {
  token_hash = r.token_hash;
  node_id = r.node_id;
  created_at = unwrap_or c.now "";
  expires_at = r.expires_at;
  used_at = none;
  created_by = created_by;
}

is_empty-append : (s t : String) → is_empty s ≡ false → is_empty (string_append s t) ≡ false
is_empty-append String.[] t e = cc
is_empty-append (String.◌∷◌ c s) t e = rw append.cons

is_empty-token_text : (first second : String) → is_empty (token_text first second) ≡ false
is_empty-token_text first second = is_empty-append "enr_" _ refl

abbrev creator : HeaderMap → String
creator headers = if is_some (extract_bearer headers) then "api-admin" else "admin"

module _ (cfg : EnrollmentConfig) (m : Machine) (later : ℤ → Option String) (first second : String)
    (c : Conditions) (headers : HeaderMap) (body : CreateTokenRequest) (db : Db)
    (r : CreateTokenResponse)
    (e : (create_token cfg m later first second c headers body db).0 ≡ json r) where
  created_row :
      (create_token cfg m later first second c headers body db).1.enrollment_tokens
      ≡ db.enrollment_tokens ++ created c r (creator headers) ∷ []
  unfolding create_token insert_enrollment_token
  created_row = ground arith

  created_fresh : has_hash r.token_hash db.enrollment_tokens ≡ false
  unfolding create_token insert_enrollment_token
  created_fresh = ground arith

  created_response :
      (r.node_id ≡ trim body.node_id)
      × (is_empty r.node_id ≡ false)
      × (r.token ≡ token_text first second)
      × (r.token_hash ≡ m.sha256_hex r.token)
      × (cfg.enabled ≡ true)
  unfolding create_token
  created_response = (ground arith, ground arith, ground arith, ground arith, ground arith)

  trim-created : trim r.node_id ≡ r.node_id
  trim-created = let same = created_response.0 in rw (same, trim-trim) refl

  created_consumable :
      (now : String)
      → text_lt now r.expires_at ≡ true
      → any
          (consumable (m.sha256_hex r.token) (trim r.node_id) now)
          (create_token cfg m later first second c headers body db).1.enrollment_tokens
        ≡ true
  created_consumable now before =
      rw (created_row, trim-created)
        (any-append _ db.enrollment_tokens (created c r (creator headers))
          (ground (arith, created_response.3, eq_refl r.node_id, eq_refl r.token_hash)))

  created-Unique :
      Unique db.enrollment_tokens
      → Unique (create_token cfg m later first second c headers body db).1.enrollment_tokens
  created-Unique u =
      rw created_row
        (append-Unique db.enrollment_tokens (created c r (creator headers)) created_fresh u)

-- What the machine and the database must do for an enrollment to go through.
pub record Works (cfg : EnrollmentConfig) (m : Machine) (c : Conditions) (csr : String)
    : Type 0 where
  pub csr_is_pem : contains_text csr "BEGIN CERTIFICATE REQUEST" ≡ true
  pub signs :
      is_some (sign_csr_with_ca m csr cfg.ca_cert_path cfg.ca_key_path cfg.cert_valid_days) ≡ true
  pub reads_ca : is_some (m.read_to_string cfg.ca_cert_path) ≡ true
  pub runs : c.fails 0 ≡ false

-- A token that was just created enrolls its node: if the machine signs the request and the time
-- is before the expiry that was returned, the enrollment with the returned id and token succeeds.
-- The token text must have no white space at its ends.
pub create_token-enroll_node :
    (cfg : EnrollmentConfig) (m : Machine) (later : ℤ → Option String) (first second : String)
    → (c : Conditions) (headers : HeaderMap) (body : CreateTokenRequest) (db : Db)
    → (r : CreateTokenResponse) (now : String) (c' : Conditions) (csr : String)
    → Unique db.enrollment_tokens
    → (create_token cfg m later first second c headers body db).0 ≡ json r
    → trim r.token ≡ r.token
    → text_lt now r.expires_at ≡ true
    → Works cfg m c' csr
    → succeeds
        (enroll_node cfg m
          (some now)
          c'
          (record { node_id = r.node_id; token = r.token; csr_pem = csr })
          (create_token cfg m later first second c headers body db).1).0
      ≡ true
unfolding enroll_node consume_enrollment_token
create_token-enroll_node cfg m later first second c headers body db r now c' csr u e t before w =
    let there = created_consumable cfg m later first second c headers body db r e now before in
    let unique = created-Unique cfg m later first second c headers body db r e u in
    let facts = created_response cfg m later first second c headers body db r e in
    let after = (create_token cfg m later first second c headers body db).1 in
    ground (
      arith,
      there,
      facts,
      t,
      trim-created cfg m later first second c headers body db r e,
      is_empty-token_text first second,
      rows_affected-any (m.sha256_hex r.token) (trim r.node_id) now after.enrollment_tokens unique,
    )
