-- ===== src/Enrollment/Auth.antt =====
-- Who may manage tokens.
use jw_swarm.Common.{
  String, Bool, true, false, Option, some, ◌≡◌, arith, ◌↔◌, Option-cases, inl, inr, eq_iff,
  Bool-cases, ap, ◌∙◌, refl, sym, unwrap_or, eqb,
}
use jw_swarm.Common.Int.{ℤ}
use Prim.Native.Char.{code}
use Prim.Native.String as Text
use Prim.Native.String.{◌++◌}
use Prim.Native.String.append
use jw_swarm.Common.Text.{trim, eq_lowercase, lower, strip_prefix_lowercase}
use jw_swarm.Config.{EnrollmentConfig}
use jw_swarm.Http.{Response, json, error_response, HeaderMap}
use jw_swarm.Db.Schema.{Db, Conditions}
use jw_swarm.Enrollment.{
  Machine, CreateTokenRequest, is_authorized_admin, extract_bearer, create_token, admin_list_tokens,
  admin_revoke_token,
}

-- Whether the handler answered with status 200.
abbrev pub succeeds {ℓ} : {A : Type ℓ} → Response A → Bool
succeeds (json a) = true
succeeds (error_response s m) = false

-- The header carries the configured token as a bearer token.
abbrev pub HoldsToken : EnrollmentConfig → HeaderMap → Type 0
HoldsToken cfg headers =
    (t : String) × (cfg.admin_token ≡ some t) × (extract_bearer headers ≡ some t)

-- The header is the text "bearer ", with any letters in upper case, and then the token between
-- blanks.
abbrev pub Bears : HeaderMap → String → Type 0
Bears headers t =
    (scheme : String) × (rest : String) × (headers.authorization ≡ some (scheme ++ rest))
    × (eq_lowercase scheme "bearer " ≡ true)
    × (t ≡ trim rest)

Splits : String → String → String → Type 0
Splits s t rest = (scheme : String) × (s ≡ scheme ++ rest) × (eq_lowercase scheme t ≡ true)

strip_prefix_lowercase-Splits :
    (s t rest : String) → strip_prefix_lowercase s t ≡ some rest → Splits s t rest
unfolding strip_prefix_lowercase eq_lowercase Splits
strip_prefix_lowercase-Splits s Text.[] rest e =
    (Text.[], ap (λ o. unwrap_or o s) e ∙ sym (append.nil rest), refl)
strip_prefix_lowercase-Splits Text.[] (Text.◌∷◌ d t) rest e = cc
strip_prefix_lowercase-Splits (Text.◌∷◌ c s) (Text.◌∷◌ d t) rest e =
    let same : eqb (lower (code c)) (code d) ≡ true = ground (arith, e) in
    let (scheme, parts, low) = strip_prefix_lowercase-Splits s t rest (ground (arith, e)) in
    (Text.◌∷◌ c scheme, ap (λ x. Text.◌∷◌ c x) parts ∙ sym (append.cons c scheme rest), rw same low)

extract_bearer-Bears :
    (headers : HeaderMap) (t : String) → extract_bearer headers ≡ some t → Bears headers t
unfolding extract_bearer Splits
extract_bearer-Bears headers t e = elim (Option-cases headers.authorization) [
  | inl n ↦ absurd (ground (arith, e, n))
  | inr (value, there) ↦ elim (Option-cases (strip_prefix_lowercase value "bearer ")) [
    | inl n ↦ absurd (ground (arith, e, there, n))
    | inr (rest, found) ↦
        let (scheme, parts, low) = strip_prefix_lowercase-Splits value "bearer " rest found in
        (scheme, rest, there ∙ ap some parts, low, ground (arith, e, there, found))
  ]
]

-- The header is accepted exactly if it carries the configured token.
pub is_authorized_admin-HoldsToken :
    (cfg : EnrollmentConfig) (headers : HeaderMap)
    → (is_authorized_admin headers cfg.admin_token ≡ true) ↔ HoldsToken cfg headers
unfolding is_authorized_admin
is_authorized_admin-HoldsToken cfg headers = elim (Option-cases cfg.admin_token) [
  | inl n ↦ (λ e. ground (arith, n), λ h. ground (arith, n, h.1))
  | inr (t, n) ↦ elim (Option-cases (extract_bearer headers)) [
    | inl b ↦ (λ e. ground (arith, n, b), λ h. ground (arith, b, h.2))
    | inr (a, b) ↦ (
      λ e. (t, n, ground (arith, n, b, eq_iff a t)),
      λ h. ground (arith, n, b, h.1, h.2, eq_iff a t),
    )
  ]
]

-- Unless the Authorization header is "Bearer ", in capitals or not, followed by the configured token
-- with or without blanks around it, and so whenever no token is configured, no enrollment token is
-- created, listed or revoked, and the database stays as it was.
pub stranger_refused :
    (cfg : EnrollmentConfig) (headers : HeaderMap)
    → ((t : String) → cfg.admin_token ≡ some t → Bears headers t → ⊥)
    → (m : Machine) (later : ℤ → Option String) (first second : String) (c : Conditions)
    → (body : CreateTokenRequest) (hash : String) (db : Db)
    → (succeeds (create_token cfg m later first second c headers body db).0 ≡ false)
      × ((create_token cfg m later first second c headers body db).1 ≡ db)
      × (succeeds (admin_list_tokens cfg c headers db) ≡ false)
      × (succeeds (admin_revoke_token cfg c headers hash db).0 ≡ false)
      × ((admin_revoke_token cfg c headers hash db).1 ≡ db)
unfolding create_token admin_list_tokens admin_revoke_token
stranger_refused cfg headers without m later first second c body hash db =
    let refused : is_authorized_admin headers cfg.admin_token ≡ false =
      elim (Bool-cases (is_authorized_admin headers cfg.admin_token)) [
        | inr e ↦ e
        | inl e ↦
            let (t, expected, borne) = (is_authorized_admin-HoldsToken cfg headers).0 e in
            absurd (without t expected (extract_bearer-Bears headers t borne))
      ] in
    (
      ground (arith, refused),
      ground (arith, refused),
      ground (arith, refused),
      ground (arith, refused),
      ground (arith, refused),
    )
