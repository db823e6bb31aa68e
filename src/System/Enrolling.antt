-- ===== src/System/Enrolling.antt =====
-- A node enrolls with the Fleet Manager: run of jw-swarm-nodes/linux/src/enroll.rs against
-- enroll_node of jw-swarm-fleet-manager/src/enrollment.rs.
use jw_swarm.Common.{String, Option, some, unwrap_or, any, true, ◌≡◌, sym, ◌∙◌, arith}
use Prim.Native.String.{◌++◌}
use mathlib.Core.Option.{none-ne-some}
use jw_swarm.Common.HashMap
use jw_swarm.Common.Text.{trim, trim_end_matches}
use jw_swarm.Config.{EnrollmentConfig}
use jw_swarm.Http.{Response, json, error_response}
use jw_swarm.Db.Schema.{Db, Conditions}
use jw_swarm.Db.Tokens.{consumable}
use jw_swarm.Db.Tokens.Rows.{Unique}
use jw_swarm.Enrollment.{Machine, EnrollRequest, enroll_node, sign_csr_with_ca}
use jw_swarm.Enrollment.Outcome.{enroll_node_sound}
use jw_swarm.Node.Settings.{Config}
use jw_swarm.Node.Enroll.{EnrollArgs, Files, Host, paths_of, body_of, is_slash, run}
use jw_swarm.Node.Enroll.Outcome.{AreDistinct, run-IsEnrolled}

body_of-json {ℓ} : {A : Type ℓ} (r : Response A) (a : A) → body_of r ≡ some a → r ≡ json a
body_of-json (json b) a e = ground (arith, e)
body_of-json (error_response status message) a e = absurd (none-ne-some a e)

-- The Fleet Manager answers the node's enrollment in this state.
abbrev pub Serves :
    EnrollmentConfig → Machine → Option String → Conditions → Db → Host → EnrollArgs → Type 0
Serves cfg m now c db h args =
    (body : EnrollRequest)
    → h.enroll (trim_end_matches is_slash args.base_url ++ "/bootstrap/enroll") body
      ≡ (enroll_node cfg m now c body db).0

-- What both sides have after an enrollment.
pub record Agree (cfg : EnrollmentConfig) (m : Machine) (now : Option String) (db : Db) (h : Host)
    (args : EnrollArgs) (out : Files × Config) : Type 0 where
  pub key : String
  pub csr : String
  pub cert : String
  pub made : h.genrsa ≡ some key
  pub requested : h.req key ("/CN=" ++ args.node_id) ≡ some csr
  pub signed :
      sign_csr_with_ca m csr cfg.ca_cert_path cfg.ca_key_path cfg.cert_valid_days ≡ some cert
  pub bundled : HashMap.get out.0 (paths_of h args).node_pem_path ≡ some (cert ++ "\n" ++ key)
  pub allowed :
      any
        (consumable (m.sha256_hex (trim args.token)) (trim args.node_id) (unwrap_or now ""))
        db.enrollment_tokens
      ≡ true

-- When a node's enrollment succeeds against the Fleet Manager, then a token with the given text was
-- there, unused, bound to the node and not expired; the Fleet Manager signed the request that the
-- node's openssl made from the node's own key, and node.pem holds this certificate and this key.
-- The paths must be different, and every token stands in the table once.
pub run-enroll_node :
    (cfg : EnrollmentConfig) (m : Machine) (now : Option String) (c : Conditions) (db : Db)
    (h : Host) (args : EnrollArgs) (files : Files) (config : Config) (out : Files × Config)
    → Unique db.enrollment_tokens
    → AreDistinct (paths_of h args)
    → Serves cfg m now c db h args
    → run h args files config ≡ some out
    → Agree cfg m now db h args out
run-enroll_node cfg m now c db h args files config out u d served e =
    let done = run-IsEnrolled h args files config out d e in
    let body : EnrollRequest = record {
      node_id = args.node_id;
      token = args.token;
      csr_pem = done.csr;
    } in
    let answer : (enroll_node cfg m now c body db).0 ≡ json done.answer =
      sym (served body)
      ∙ body_of-json
          (h.enroll (trim_end_matches is_slash args.base_url ++ "/bootstrap/enroll") body)
          done.answer done.granted in
    let (allowed, enabled, signed, named) =
      enroll_node_sound cfg m now c body db done.answer u answer in
    record {
      key = done.key;
      csr = done.csr;
      cert = done.answer.node_cert_pem;
      made = done.made;
      requested = done.requested;
      signed = signed;
      bundled = done.bundled;
      allowed = allowed;
    }
