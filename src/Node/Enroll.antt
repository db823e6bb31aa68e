-- ===== src/Node/Enroll.antt =====
-- jw-swarm-nodes/linux/src/enroll.rs: the enrollment client. The files are a map from paths to
-- texts; joining paths, openssl, HTTP and the settings' file are arguments.
pub mod Outcome
pub mod Arguments
use jw_swarm.Common.{
  ℕ, String, List, [], ◌∷◌, Bool, true, false, not, Option, none, some, unwrap_or, eqb,
  if◌then◌else◌, ◌==◌, inl, ◌⊎◌, inr, ◌||◌,
}
use Prim.Native.Char.{Char, code}
use Prim.Native.String.{◌++◌}
use jw_swarm.Common.HashMap
use jw_swarm.Common.HashMap.{HashMap}
use jw_swarm.Common.Attempt.{Attempt, ok, err}
use jw_swarm.Common.Text.{trim, trim_end_matches}
use jw_swarm.Http.{Response, json, error_response}
use jw_swarm.Enrollment.{EnrollRequest, EnrollResponse}
use jw_swarm.Node.Settings.{Config}

pub record EnrollArgs : Type 0 where
  pub base_url : String
  pub node_id : String
  pub token : String
  pub out_dir : String
  pub write_config : Bool

-- The locals of `parse_args`.
pub record Options : Type 0 where
  pub base_url : Option String
  pub node_id : Option String
  pub token : Option String
  pub out_dir : String
  pub write_config : Bool

pub data Parsed : Type 0 where
  parsed : EnrollArgs → Parsed
  -- prints the help and exits
  help : Parsed
  unknown : (argument : String) → Parsed
  missing : (argument : String) → Parsed

-- The options that the value behind `a` sets, if `a` is an option with a value. At the end of the
-- arguments there is no value, which unsets all of them but the directory.
unfoldable pub with_value : String → Option String → Options → Option Options
with_value a v o =
    if a == "--base-url"
    then some (record o { base_url = v })
    else if a == "--node-id"
    then some (record o { node_id = v })
    else if a == "--token"
    then some (record o { token = v })
    else if a == "--out-dir"
    then some (record o { out_dir = unwrap_or v o.out_dir })
    else none

-- What an argument without a value does: the options after it, or the answer at once.
unfoldable pub without_value : String → Options → Options ⊎ Parsed
without_value a o =
    if a == "--no-write-config"
    then inl (record o { write_config = false })
    else if (a == "-h") || (a == "--help")
    then inr help
    else inr (unknown a)

unfoldable pub required : Options → Parsed
required o = elim o.base_url [
  | none ↦ missing "--base-url is required"
  | some base_url ↦ elim o.node_id [
    | none ↦ missing "--node-id is required"
    | some node_id ↦ elim o.token [
      | none ↦ missing "--token is required"
      | some token ↦ parsed (record {
        base_url = base_url;
        node_id = node_id;
        token = token;
        out_dir = o.out_dir;
        write_config = o.write_config;
      })
    ]
  ]
]

-- The loop over the arguments that are left.
unfoldable pub parse_from : List String → Options → Parsed
unfolding with_value without_value required
parse_from [] o = required o
parse_from (a ∷ []) o = elim (with_value a none o) [
  | some o' ↦ required o'
  | none ↦ elim (without_value a o) [ inl o' ↦ required o' | inr answer ↦ answer ]
]
parse_from (a ∷ v ∷ rest) o = elim (with_value a (some v) o) [
  | some o' ↦ parse_from rest o'
  | none ↦ elim (without_value a o) [ inl o' ↦ parse_from (v ∷ rest) o' | inr answer ↦ answer ]
]

unfoldable pub parse_args : List String → Parsed
unfolding parse_from
parse_args args = parse_from args (record {
  base_url = none;
  node_id = none;
  token = none;
  out_dir = "/etc/jw-swarm-node";
  write_config = true;
})

abbrev pub is_slash : Char → Bool
is_slash c = eqb (code c) b'/'

-- `strip_prefix`
unfoldable pub strip_prefix : String → String → Option String
strip_prefix s String.[] = some s
strip_prefix String.[] (String.◌∷◌ d t) = none
strip_prefix (String.◌∷◌ c s) (String.◌∷◌ d t) =
    let rest = strip_prefix s t in if eqb (code c) (code d) then rest else none

unfoldable pub to_wss_connect_url : String → String
unfolding trim trim_end_matches strip_prefix
to_wss_connect_url base_url =
    let trimmed = trim_end_matches is_slash (trim base_url) in
    elim (strip_prefix trimmed "https://") [
      | some rest ↦ "wss://" ++ rest ++ "/node/connect"
      | none ↦ elim (strip_prefix trimmed "http://") [
        | some rest ↦ "ws://" ++ rest ++ "/node/connect"
        | none ↦ trimmed ++ "/node/connect"
      ]
    ]

abbrev pub Files : Type 0
Files = HashMap String

-- What the client calls: whether the directory can be made, the key and the request that openssl
-- writes, the Fleet Manager's two answers, whether each path can be written, and whether the
-- settings can be saved.
pub record Host : Type 0 where
  pub join : String → String → String
  pub creates_dir : Bool
  pub genrsa : Option String
  pub req : (key subject : String) → Option String
  pub bootstrap_ca : String → Response String
  pub enroll : String → EnrollRequest → Response EnrollResponse
  pub writes : String → Bool
  pub saves : Bool

-- Writes a file, if the host can, and goes on.
abbrev pub write {ℓ} : {A : Type ℓ} → Host → String → String → Files → (Files → Option A) → Option A
write h path content files next =
    if h.writes path then next (HashMap.insert files path content) else none

abbrev pub body_of {ℓ} : {A : Type ℓ} → Response A → Option A
body_of (json a) = some a
body_of (error_response status message) = none

-- The paths that `run` writes.
pub record Paths : Type 0 where
  pub key_path : String
  pub csr_path : String
  pub cert_path : String
  pub node_pem_path : String
  pub ca_path : String

abbrev pub paths_of : Host → EnrollArgs → Paths
paths_of h args = record {
  key_path = h.join args.out_dir (args.node_id ++ ".key");
  csr_path = h.join args.out_dir (args.node_id ++ ".csr");
  cert_path = h.join args.out_dir (args.node_id ++ ".crt");
  node_pem_path = h.join args.out_dir "node.pem";
  ca_path = h.join args.out_dir "ca.crt";
}

abbrev pub bind {ℓ κ} : {A : Type ℓ} {B : Type κ} → Option A → (A → Option B) → Option B
bind none f = none
bind (some a) f = f a

-- The key and the request, made by openssl.
unfoldable pub make_request : Host → EnrollArgs → Paths → Files → Option Files
make_request h args p files =
    if not h.creates_dir
    then none
    else bind h.genrsa λ key.
      bind (h.req key ("/CN=" ++ args.node_id))
        λ csr. some (HashMap.insert (HashMap.insert files p.key_path key) p.csr_path csr)

-- The two calls of the Fleet Manager, and the files written with what it answers.
unfoldable pub obtain : Host → EnrollArgs → Paths → Files → Option Files
obtain h args p files =
    let base = trim_end_matches is_slash args.base_url in
    bind (HashMap.get files p.csr_path) λ csr_pem.
      bind (body_of (h.bootstrap_ca (base ++ "/bootstrap/ca.crt"))) λ ca.
        write h p.ca_path ca files λ files.
          bind
            (body_of (
              h.enroll (base ++ "/bootstrap/enroll")
                (record { node_id = args.node_id; token = args.token; csr_pem = csr_pem })))
            λ r.
              write h p.cert_path r.node_cert_pem files
                λ files. write h p.ca_path r.ca_cert_pem files some

-- `node.pem`: the certificate, a new line, and the key.
unfoldable pub bundle : Host → Paths → Files → Option Files
bundle h p files = bind (HashMap.get files p.cert_path) λ cert.
    bind (HashMap.get files p.key_path)
      λ key. write h p.node_pem_path (cert ++ "\n" ++ key) files some

unfoldable pub settings : EnrollArgs → Paths → Config → Config
unfolding to_wss_connect_url
settings args p config = record config {
  node_id = args.node_id;
  node_cert = p.node_pem_path;
  ca_cert = p.ca_path;
  fleet_url = to_wss_connect_url args.base_url;
}

-- The files and the settings after an enrollment; `none` is every error, whose files are left out
-- here. The permissions of the files are not modelled.
unfoldable pub run : Host → EnrollArgs → Files → Config → Option (Files × Config)
unfolding make_request obtain bundle settings
run h args files config =
    let p = paths_of h args in
    bind (make_request h args p files) λ made. bind (obtain h args p made) λ obtained.
      bind (bundle h p obtained) λ bundled.
        if not args.write_config
        then some (bundled, config)
        else if h.saves
        then some (bundled, settings args p config)
        else none
