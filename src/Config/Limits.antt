-- ===== src/Config/Limits.antt =====
-- What holds of a configuration read from any environment.
use jw_swarm.Common.{
  ℕ, ◌≤◌, String, true, false, Option, none, some, ◌≡◌, arith, leb, retain_if, unwrap_or, not,
  and_then, map_option,
}
use jw_swarm.Common.Int.{ℤ, pos, ge_ℕ}
use jw_swarm.Common.Text.{parse_i64, parse_u32, is_empty, trim}
use jw_swarm.Config.{from_env}

at_least_or :
    (o : Option ℤ) (b d : ℕ)
    → b ≤ d
    → ge_ℕ (unwrap_or (retain_if (λ v. ge_ℕ v b) o) (pos d)) b ≡ true
at_least_or o b d h = ground arith

positive_or : (o : Option ℕ) (d : ℕ) → 1 ≤ d → 1 ≤ unwrap_or (retain_if (λ v. leb 1 v) o) d
positive_or o d h = ground arith

token_kept :
    (o : Option String) (t : String)
    → retain_if (λ v. not (is_empty v)) o ≡ some t
    → is_empty t ≡ false
token_kept none t e = cc
token_kept (some s) t e = ground arith

-- Whatever the environment: tokens live at least a minute by default, certificates at least a
-- day, and an admin token that is set is not empty.
pub from_env_limits :
    (var : String → Option String)
    → let cfg = from_env var in
      (ge_ℕ cfg.default_token_ttl_seconds 60 ≡ true)
      × (1 ≤ cfg.cert_valid_days)
      × ((t : String) → cfg.admin_token ≡ some t → is_empty t ≡ false)
unfolding from_env
from_env_limits var = (
  at_least_or (and_then (var "JW_ENROLL_TOKEN_TTL_SECONDS") parse_i64) 60 600 (omega arith),
  positive_or (and_then (var "JW_ENROLL_CERT_DAYS") parse_u32) 30 (omega arith),
  λ t. token_kept (map_option (λ v. trim v) (var "JW_ENROLL_ADMIN_TOKEN")) t,
)
