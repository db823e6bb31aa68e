-- ===== src/Enrollment/Outcome.antt =====
-- What a successful creation or enrollment means for the tokens.
use jw_swarm.Common.{
  String, List, true, false, Option, some, ◌≡◌, sym, arith, any, unwrap_or, Bool-cases, inr, inl,
  subst,
}
use jw_swarm.Common.Text.{trim}
use jw_swarm.Config.{EnrollmentConfig}
use jw_swarm.Http.{json}
use jw_swarm.Db.Schema.{Db, Conditions, ok}
use jw_swarm.Db.Tokens.{consumable, consume_enrollment_token}
use jw_swarm.Db.Tokens.OneTime.{TokenCall, calls, consume_once, consume_enrollment_token_lem}
use jw_swarm.Db.Tokens.Rows.{Unique}
use jw_swarm.Enrollment.{Machine, EnrollRequest, EnrollResponse, enroll_node, sign_csr_with_ca}
use jw_swarm.Enrollment.Auth.{succeeds}

-- A certificate is handed out only after the token was consumed.
enroll-consumes :
    (cfg : EnrollmentConfig) (m : Machine) (now : Option String) (c : Conditions)
    → (body : EnrollRequest) (db : Db) → succeeds (enroll_node cfg m now c body db).0 ≡ true
    → consume_enrollment_token c
        (m.sha256_hex (trim body.token))
        (trim body.node_id)
        (unwrap_or now "")
        db
      ≡ ok (true, (enroll_node cfg m now c body db).1)
unfolding enroll_node
enroll-consumes cfg m now c body db h = ground arith

-- A successful enrollment shows that the table had an unused token with this hash, bound to the
-- trimmed node id, whose expiry is after the time of the request as texts are ordered; that
-- enrollment is enabled, that the machine signed the request, and the certificate returned is the
-- signed one, for the trimmed node id.
pub enroll_node_sound :
    (cfg : EnrollmentConfig) (m : Machine) (now : Option String) (c : Conditions)
    → (body : EnrollRequest) (db : Db) (r : EnrollResponse) → Unique db.enrollment_tokens
    → (enroll_node cfg m now c body db).0 ≡ json r
    → (any
          (consumable (m.sha256_hex (trim body.token)) (trim body.node_id) (unwrap_or now ""))
          db.enrollment_tokens
        ≡ true)
      × (cfg.enabled ≡ true)
      × (sign_csr_with_ca m body.csr_pem cfg.ca_cert_path cfg.ca_key_path cfg.cert_valid_days
          ≡ some r.node_cert_pem)
      × (r.node_id ≡ trim body.node_id)
unfolding enroll_node
enroll_node_sound cfg m now c body db r u e = (
  sym (
      consume_enrollment_token_lem c (m.sha256_hex (trim body.token)) (trim body.node_id)
        (unwrap_or now "") db (enroll_node cfg m now c body db).1 true u
        (enroll-consumes cfg m now c body db (ground (arith, e)))),
  ground arith,
  ground arith,
  ground arith,
)

-- A token enrolls once: after a success, no later request with the same token succeeds, for any
-- node, at any time, with any configuration, whatever calls on the tokens come in between.
pub enroll_once :
    (cfg : EnrollmentConfig) (m : Machine) (now : Option String) (c : Conditions)
    → (body : EnrollRequest) (db : Db) → Unique db.enrollment_tokens
    → succeeds (enroll_node cfg m now c body db).0 ≡ true
    → (xs : List (Conditions × TokenCall)) (cfg' : EnrollmentConfig) (now' : Option String)
    → (c' : Conditions) (body' : EnrollRequest) → trim body'.token ≡ trim body.token
    → succeeds (enroll_node cfg' m now' c' body' (calls (enroll_node cfg m now c body db).1 xs)).0
      ≡ false
enroll_once cfg m now c body db u h xs cfg' now' c' body' same =
    elim (Bool-cases (
      succeeds
        (enroll_node cfg' m now' c' body' (calls (enroll_node cfg m now c body db).1 xs)).0)) [
          | inr e ↦ e
          | inl e ↦
              let after = (enroll_node cfg m now c body db).1 in
              cc (
                consume_once c (m.sha256_hex (trim body.token)) (trim body.node_id)
                  (unwrap_or now "") db after u (enroll-consumes cfg m now c body db h) xs c'
                  (trim body'.node_id) (unwrap_or now' "") true
                  (enroll_node cfg' m now' c' body' (calls after xs)).1
                  (subst
                    (λ t.
                      consume_enrollment_token c' (m.sha256_hex t) (trim body'.node_id)
                        (unwrap_or now' "") (calls after xs)
                      ≡ ok (true, (enroll_node cfg' m now' c' body' (calls after xs)).1))
                    same (enroll-consumes cfg' m now' c' body' (calls after xs) e)))
        ]
