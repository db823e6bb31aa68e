-- ===== src/Enrollment.antt =====
-- jw-swarm-fleet-manager/src/enrollment.rs: the bootstrap enrollment API. The clock, the random
-- ids, SHA-256, the file system and openssl are arguments.
pub mod Auth
pub mod Outcome
pub mod RoundTrip
use jw_swarm.Common.{
  ℕ, String, List, Bool, true, false, not, ◌&&◌, ◌||◌, Option, none, some, retain_if, unwrap_or,
  is_some, if◌then◌else◌, ◌==◌, and_then,
}
use Prim.Native.String.{◌++◌}
use jw_swarm.Common.Int.{ℤ, ge_ℕ, le_ℕ}
use jw_swarm.Common.Text.{trim, is_empty, contains_text, strip_prefix_lowercase}
use jw_swarm.Config.{EnrollmentConfig}
use jw_swarm.Http.{
  Response, json, error_response, HeaderMap, bad_request, unauthorized, not_found,
  internal_server_error,
}
use jw_swarm.Db.Schema.{Db, EnrollmentTokenRow, Conditions, ok, err}
use jw_swarm.Db.Tokens.{
  insert_enrollment_token, consume_enrollment_token, list_enrollment_tokens,
  revoke_enrollment_token,
}

pub record CreateTokenRequest : Type 0 where
  pub node_id : String
  pub ttl_seconds : Option ℤ

pub record CreateTokenResponse : Type 0 where
  pub node_id : String
  pub token : String
  pub token_hash : String
  pub expires_at : String

pub record EnrollRequest : Type 0 where
  pub node_id : String
  pub token : String
  pub csr_pem : String

pub record EnrollResponse : Type 0 where
  pub node_id : String
  pub node_cert_pem : String
  pub ca_cert_pem : String
  pub cert_days : ℕ

pub record RevokeResponse : Type 0 where
  pub token_hash : String

-- What the handlers use of the machine.
pub record Machine : Type 0 where
  -- `tokio::fs::read_to_string`, `Path::exists`
  pub read_to_string : String → Option String
  pub exists : String → Bool
  -- the temporary directory and the two files written to it
  pub create_dir_all : Bool
  pub write_csr : Bool
  pub write_ext : Bool
  -- `openssl req -verify` ran, and accepted the request
  pub verify : String → Option Bool
  -- `openssl x509 -req` ran, and signed: request, CA certificate, CA key, days
  pub sign : String → String → String → ℕ → Option Bool
  -- the certificate that it wrote
  pub signed : String → Option String
  -- SHA-256 in hexadecimal
  pub sha256_hex : String → String

unfoldable pub extract_bearer : HeaderMap → Option String
unfolding strip_prefix_lowercase trim
extract_bearer headers = elim headers.authorization [
  | none ↦ none
  | some value ↦ elim (strip_prefix_lowercase value "bearer ") [
    | none ↦ none
    | some rest ↦ some (trim rest)
  ]
]

unfoldable pub is_authorized_admin : HeaderMap → Option String → Bool
unfolding extract_bearer
is_authorized_admin headers expected_token = elim expected_token [
  | none ↦ false
  | some expected ↦ elim (extract_bearer headers) [
    | none ↦ false
    | some actual ↦ actual == expected
  ]
]

abbrev or_fail : Option Bool → Bool
or_fail none = false
or_fail (some b) = b

unfoldable pub sign_csr_with_ca : Machine → String → String → String → ℕ → Option String
sign_csr_with_ca m csr_pem ca_cert_path ca_key_path cert_days =
    if not (m.exists ca_cert_path) || not (m.exists ca_key_path)
    then none
    else if not m.create_dir_all || not m.write_csr || not m.write_ext
    then none
    else if not (or_fail (m.verify csr_pem))
    then none
    else if not (or_fail (m.sign csr_pem ca_cert_path ca_key_path cert_days))
    then none
    else m.signed csr_pem

unfoldable pub download_ca : EnrollmentConfig → Machine → Response String
download_ca cfg m =
    if not cfg.enabled
    then error_response not_found "enrollment disabled"
    else elim (m.read_to_string cfg.ca_cert_path) [
      | some ca_pem ↦ json ca_pem
      | none ↦ error_response internal_server_error "failed to read CA cert"
    ]

-- The time to live that is granted.
unfoldable pub ttl_of : EnrollmentConfig → CreateTokenRequest → ℤ
ttl_of cfg body =
    unwrap_or (retain_if (λ v. ge_ℕ v 60 && le_ℕ v 86400) body.ttl_seconds)
      cfg.default_token_ttl_seconds

-- `format!("enr_{}_{}", ..)` over two random ids
abbrev pub token_text : String → String → String
token_text first second = "enr_" ++ first ++ "_" ++ second

-- `later t` is the time in t seconds as RFC 3339 text; the two texts are the random ids.
unfoldable pub create_token :
    EnrollmentConfig
    → Machine
    → (ℤ → Option String)
    → String
    → String
    → Conditions
    → HeaderMap
    → CreateTokenRequest
    → Db
    → Response CreateTokenResponse × Db
unfolding ttl_of
create_token cfg m later first second c headers body db =
    if not cfg.enabled
    then (error_response not_found "enrollment disabled", db)
    else if is_empty (trim body.node_id)
    then (error_response bad_request "node_id is required", db)
    else if not (is_authorized_admin headers cfg.admin_token)
    then (error_response unauthorized "unauthorized", db)
    else elim (later (ttl_of cfg body)) [
      | none ↦ (error_response internal_server_error "time formatting error", db)
      | some expires_at ↦
          let node_id = trim body.node_id in
          let token = token_text first second in
          let token_hash = m.sha256_hex token in
          let created_by = if is_some (extract_bearer headers) then "api-admin" else "admin" in
          elim (insert_enrollment_token c token_hash node_id expires_at created_by db) [
            | err e ↦ (error_response internal_server_error "failed to create token", db)
            | ok db' ↦ (
              json (record {
                node_id = node_id;
                token = token;
                token_hash = token_hash;
                expires_at = expires_at;
              }),
              db',
            )
          ]
    ]

-- A `TokenListItem` has the fields of the row.
unfoldable pub admin_list_tokens :
    EnrollmentConfig → Conditions → HeaderMap → Db → Response (List EnrollmentTokenRow)
admin_list_tokens cfg c headers db =
    if not cfg.enabled
    then error_response not_found "enrollment disabled"
    else if not (is_authorized_admin headers cfg.admin_token)
    then error_response unauthorized "unauthorized"
    else elim (list_enrollment_tokens c db) [
      | ok rows ↦ json rows
      | err e ↦ error_response internal_server_error "failed to list tokens"
    ]

unfoldable pub admin_revoke_token :
    EnrollmentConfig → Conditions → HeaderMap → String → Db → Response RevokeResponse × Db
admin_revoke_token cfg c headers token_hash db =
    if not cfg.enabled
    then (error_response not_found "enrollment disabled", db)
    else if not (is_authorized_admin headers cfg.admin_token)
    then (error_response unauthorized "unauthorized", db)
    else if is_empty (trim token_hash)
    then (error_response bad_request "token hash is required", db)
    else elim (revoke_enrollment_token c (trim token_hash) db) [
      | ok (true, db') ↦ (json (record { token_hash = token_hash }), db')
      | ok (false, db') ↦ (error_response not_found "token not found", db')
      | err e ↦ (error_response internal_server_error "failed to revoke token", db)
    ]

-- `now` is the time of the request as RFC 3339 text, if it can be printed.
unfoldable pub enroll_node :
    EnrollmentConfig
    → Machine
    → Option String
    → Conditions
    → EnrollRequest
    → Db
    → Response EnrollResponse × Db
enroll_node cfg m now c body db =
    let node_id = trim body.node_id in
    if not cfg.enabled
    then (error_response not_found "enrollment disabled", db)
    else if is_empty node_id
    then (error_response bad_request "node_id is required", db)
    else if is_empty (trim body.token)
    then (error_response bad_request "token is required", db)
    else if not (contains_text body.csr_pem "BEGIN CERTIFICATE REQUEST")
    then (error_response bad_request "csr_pem must be a PEM CSR", db)
    else elim (sign_csr_with_ca m body.csr_pem cfg.ca_cert_path cfg.ca_key_path
        cfg.cert_valid_days) [
          | none ↦ (error_response bad_request "CSR signing failed", db)
          | some signed_cert ↦ elim (m.read_to_string cfg.ca_cert_path) [
            | none ↦ (error_response internal_server_error "failed to read CA cert", db)
            | some ca_cert_pem ↦ elim now [
              | none ↦ (error_response internal_server_error "time formatting error", db)
              | some now_rfc3339 ↦
                  elim (consume_enrollment_token c (m.sha256_hex (trim body.token)) node_id
                    now_rfc3339 db) [
                      | err e ↦ (error_response internal_server_error "token validation failed", db)
                      | ok (false, db') ↦
                          (error_response unauthorized "invalid or expired token", db')
                      | ok (true, db') ↦ (
                        json (record {
                          node_id = node_id;
                          node_cert_pem = signed_cert;
                          ca_cert_pem = ca_cert_pem;
                          cert_days = cfg.cert_valid_days;
                        }),
                        db',
                      )
                    ]
            ]
          ]
        ]
