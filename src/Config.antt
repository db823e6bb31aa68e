-- ===== src/Config.antt =====
-- `EnrollmentConfig` of jw-swarm-fleet-manager/src/state.rs, and how it is read from the
-- environment.
pub mod Limits
use jw_swarm.Common.{
  ℕ, String, Bool, false, not, ◌||◌, Option, leb, and_then, unwrap_or, retain_if, map_option,
}
use jw_swarm.Common.Int.{ℤ, pos, ge_ℕ}
use jw_swarm.Common.Text.{trim, is_empty, eq_lowercase, parse_i64, parse_u32}

pub record EnrollmentConfig : Type 0 where
  pub enabled : Bool
  pub ca_cert_path : String
  pub ca_key_path : String
  pub admin_token : Option String
  pub default_token_ttl_seconds : ℤ
  pub cert_valid_days : ℕ

-- matches!(v.to_ascii_lowercase(), "1" | "true" | "yes" | "on")
unfoldable pub is_on : String → Bool
unfolding eq_lowercase
is_on v = eq_lowercase v "1" || eq_lowercase v "true" || eq_lowercase v "yes" || eq_lowercase v "on"

-- The argument is `std::env::var(..).ok()`.
unfoldable pub from_env : (String → Option String) → EnrollmentConfig
unfolding is_on trim parse_i64 parse_u32
from_env var = record {
  enabled = unwrap_or (map_option is_on (var "JW_ENROLL_ENABLE")) false;
  ca_cert_path = unwrap_or (var "JW_ENROLL_CA_CERT") "/etc/jw-swarm/ca/ca.crt";
  ca_key_path = unwrap_or (var "JW_ENROLL_CA_KEY") "/etc/jw-swarm/ca/ca.key";
  admin_token =
      retain_if (λ v. not (is_empty v)) (map_option (λ v. trim v) (var "JW_ENROLL_ADMIN_TOKEN"));
  default_token_ttl_seconds =
      unwrap_or
        (retain_if (λ v. ge_ℕ v 60) (and_then (var "JW_ENROLL_TOKEN_TTL_SECONDS") parse_i64))
        (pos 600);
  cert_valid_days =
      unwrap_or (retain_if (λ v. leb 1 v) (and_then (var "JW_ENROLL_CERT_DAYS") parse_u32)) 30;
}
