-- ===== src/Tests/Enrolling.antt =====
-- Runs of the enrollment handlers and of the token table.
use mathlib.Core.Option.{none-ne-some}
use jw_swarm.Common.{String, [], ◌∷◌, true, false, some, ◌≡◌, refl, any}
use jw_swarm.Common.Int.{pos}
use jw_swarm.Common.Text.{
  trim_start, trim_end_matches, is_whitespace, contains_text, starts, strip_prefix_lowercase, trim,
}
use jw_swarm.Db.Schema.{Db}
use jw_swarm.Db.Tokens.{
  rows_affected, update_where, insert_enrollment_token, consumable, consume_enrollment_token,
}
use jw_swarm.Db.Tokens.OneTime.{revokes, calls}
use jw_swarm.Enrollment.{
  extract_bearer, EnrollRequest, EnrollResponse, CreateTokenRequest, CreateTokenResponse,
  enroll_node, create_token, admin_list_tokens, admin_revoke_token, is_authorized_admin,
  sign_csr_with_ca,
}
use jw_swarm.Enrollment.Auth.{succeeds, stranger_refused}
use jw_swarm.Enrollment.Outcome.{enroll_node_sound, enroll_once}
use jw_swarm.Enrollment.RoundTrip.{create_token-enroll_node}
use jw_swarm.Tests.{machine, config, csr, calm, token_db, admin, stranger}

abbrev request : EnrollRequest
request = record { node_id = " n1"; token = "t "; csr_pem = csr }

abbrev response : EnrollResponse
response = record { node_id = "n1"; node_cert_pem = "CERT"; ca_cert_pem = "CA"; cert_days = 30 }

abbrev now : String
now = "2"

-- The database after an enrollment with the token.
abbrev used_db : Db
used_db = (enroll_node config machine (some now) calm request token_db).1

enroll_once_example :
    succeeds
      (enroll_node config machine
        (some now)
        calm
        request
        (calls used_db ((calm, revokes "x") ∷ []))).0
    ≡ false
unfolding enroll_node trim trim_start trim_end_matches is_whitespace contains_text starts
    sign_csr_with_ca consume_enrollment_token rows_affected update_where
enroll_once_example =
    enroll_once config machine (some now) calm request token_db (refl, tt) refl
      ((calm, revokes "x") ∷ []) config (some now) calm request refl

enroll_node_sound_example :
    (any (consumable "t" "n1" "2") token_db.enrollment_tokens ≡ true)
    × (config.enabled ≡ true)
    × (sign_csr_with_ca machine csr "ca.crt" "ca.key" 30 ≡ some "CERT")
    × (response.node_id ≡ "n1")
unfolding enroll_node trim trim_start trim_end_matches is_whitespace contains_text starts
    sign_csr_with_ca consume_enrollment_token rows_affected update_where
enroll_node_sound_example =
    enroll_node_sound config machine (some now) calm request token_db response (refl, tt) refl

abbrev asked : CreateTokenRequest
asked = record { node_id = "n2"; ttl_seconds = some (pos 60) }

abbrev given : CreateTokenResponse
given = record { node_id = "n2"; token = "enr_a_b"; token_hash = "enr_a_b"; expires_at = "3" }

create_token-enroll_node_example :
    succeeds
      (enroll_node config machine
        (some now)
        calm
        (record { node_id = "n2"; token = "enr_a_b"; csr_pem = csr })
        (create_token config machine (λ t. some "3") "a" "b" calm admin asked token_db).1).0
    ≡ true
unfolding create_token trim trim_start trim_end_matches is_whitespace contains_text starts
    sign_csr_with_ca is_authorized_admin extract_bearer strip_prefix_lowercase
    insert_enrollment_token
create_token-enroll_node_example =
    create_token-enroll_node config machine (λ t. some "3") "a" "b" calm admin asked token_db given
      now calm csr (refl, tt) refl refl refl
      (record { csr_is_pem = refl; signs = refl; reads_ca = refl; runs = refl })

stranger_refused_example :
    (succeeds (create_token config machine (λ t. some "3") "a" "b" calm stranger asked token_db).0
      ≡ false)
    × ((create_token config machine (λ t. some "3") "a" "b" calm stranger asked token_db).1
        ≡ token_db)
    × (succeeds (admin_list_tokens config calm stranger token_db) ≡ false)
    × (succeeds (admin_revoke_token config calm stranger "t" token_db).0 ≡ false)
    × ((admin_revoke_token config calm stranger "t" token_db).1 ≡ token_db)
stranger_refused_example =
    stranger_refused config stranger (λ t e b. none-ne-some _ b.2) machine (λ t. some "3") "a" "b"
      calm asked "t" token_db
