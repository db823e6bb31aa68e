-- ===== src/Tests/Fetching.antt =====
-- Runs of the node's downloads and of its enrollment client.
use mathlib.Core.Bool.{false≢true}
use jw_swarm.Common.{
  List, ◌==◌, eq_iff, sym, ◌∙◌, String, [], ◌∷◌, true, false, some, ◌≡◌, ◌≢◌, refl, unwrap_or,
}
use jw_swarm.Common.Attempt.{ok, err}
use jw_swarm.Common.HashMap
use Prim.Native.String.{◌++◌}
use jw_swarm.Common.Text.{trim, trim_start, trim_end_matches, is_whitespace}
use jw_swarm.Http.{json}
use jw_swarm.Node.Settings.{Config}
use jw_swarm.Node.Fetch.{
  Disk, Network, bytes, download_model, remote_filename, is_marked, ensure_disk_space, receive,
  fetch, install,
}
use jw_swarm.Node.Fetch.Verified.{IsVerified, download_model-IsVerified, download_model_spares}
use jw_swarm.Node.Start.{main, enrolls, main-command_line}
use jw_swarm.Node.Enroll.{
  Parsed, EnrollArgs, Files, Host, parsed, run, make_request, obtain, bundle, settings,
}
use jw_swarm.Node.Enroll.Arguments.{Setting, token, node_id, base_url, command_line}
use jw_swarm.Node.Enroll.Outcome.{IsEnrolled, run-IsEnrolled}
use jw_swarm.Enrollment.{enroll_node, sign_csr_with_ca}
use jw_swarm.Db.Tokens.{rows_affected, update_where, consume_enrollment_token}
use jw_swarm.Common.Text.{contains_text, starts}
use jw_swarm.System.Enrolling.{Agree, run-enroll_node}
use jw_swarm.Tests.{machine, csr, calm, token_db, config as fleet_config}
use jw_swarm.Tests.Coordinating.{model}

pub differ : (s t : String) → (s == t) ≡ false → s ≢ t
differ s t f e = false≢true (sym f ∙ (eq_iff s t).1 e)

abbrev pub network : Network
network = record {
  to_lowercase = λ s. s;
  sha256_hex = λ b. "h";
  last_segment = λ url. some "m.gguf";
  creates_dir = true;
  available_space = ok 100000000;
  creates_file = true;
  writes_chunk = λ i. true;
  flushes = true;
  renames = true;
  links = true;
  absolute = true;
  writes_marker = true;
  response = ok 200;
  stream = ok (1 ∷ []) ∷ ok (2 ∷ []) ∷ [];
}

-- The connection breaks after the first chunk.
abbrev broken : Network
broken = record network { stream = ok (1 ∷ []) ∷ err "reset" ∷ [] }

abbrev old : Disk
old = ("m.gguf", bytes (9 ∷ [])) ∷ []

download_model-IsVerified_example :
    IsVerified network model "m.gguf" (download_model network model []).1
unfolding remote_filename is_marked download_model ensure_disk_space receive fetch install
    HashMap.get
download_model-IsVerified_example =
    download_model-IsVerified network model [] (differ "m.gguf" "sha256" refl) refl refl

download_model_spares_example :
    HashMap.get (download_model broken model old).1 "m.gguf" ≡ HashMap.get old "m.gguf"
unfolding remote_filename is_marked download_model ensure_disk_space receive fetch install
    HashMap.get
download_model_spares_example =
    download_model_spares broken model old "m.gguf" "reset" (differ "m.gguf" "m.gguf.partial" refl)
      refl refl refl

abbrev args : EnrollArgs
args = record {
  base_url = "https://swarm";
  node_id = "n2";
  token = "t";
  out_dir = "d";
  write_config = true;
}

abbrev host : Host
host = record {
  join = λ a b. a ++ "/" ++ b;
  creates_dir = true;
  genrsa = some "KEY";
  req = λ key subject. some "CSR";
  bootstrap_ca = λ url. json "CA";
  enroll = λ url body.
      json (record { node_id = "n2"; node_cert_pem = "CERT"; ca_cert_pem = "CA"; cert_days = 30 });
  writes = λ path. true;
  saves = true;
}

abbrev config : Config
config = record {
  fleet_url = "";
  node_id = "";
  hostname = "";
  node_cert = "";
  ca_cert = "";
  limits = record { gpu_power_pct = 100; memory_limit_mb = 24000 };
  schedule = record { awake_from = ""; awake_until = "" };
  selected_models = [];
}

-- The node is given twice, and the directory is not.
abbrev said : List Setting
said = token "t" ∷ node_id "n1" ∷ base_url "https://swarm" ∷ node_id "n2" ∷ []

main-command_line_example :
    (answer : Parsed) × (main ("jw-swarm-node" ∷ "enroll" ∷ command_line said) config
      ≡ enrolls answer)
    × (answer ≡ parsed (record args { out_dir = "/etc/jw-swarm-node" }))
main-command_line_example = main-command_line "jw-swarm-node" said config

abbrev enrolled : Files × Config
enrolled = unwrap_or (run host args [] config) ([], config)

run-IsEnrolled_example : IsEnrolled host args config enrolled
unfolding run make_request obtain bundle settings HashMap.get HashMap.insert
run-IsEnrolled_example =
    run-IsEnrolled host args [] config enrolled
      (record {
        cert-key = differ "d/n2.crt" "d/n2.key" refl;
        csr-key = differ "d/n2.csr" "d/n2.key" refl;
        ca-key = differ "d/ca.crt" "d/n2.key" refl;
        ca-cert = differ "d/ca.crt" "d/n2.crt" refl;
        pem-ca = differ "d/node.pem" "d/ca.crt" refl;
      })
      refl

-- The Fleet Manager's side: a token for the node n1.
abbrev manager : Host
manager = record host {
  req = λ key subject. some csr;
  enroll = λ url body. (enroll_node fleet_config machine (some "2") calm body token_db).0;
}

abbrev n1 : EnrollArgs
n1 = record args { node_id = "n1" }

abbrev joined : Files × Config
joined = unwrap_or (run manager n1 [] config) ([], config)

run-enroll_node_example : Agree fleet_config machine (some "2") token_db manager n1 joined
unfolding run make_request obtain bundle settings HashMap.get HashMap.insert enroll_node trim
    trim_start trim_end_matches is_whitespace contains_text starts sign_csr_with_ca
    consume_enrollment_token rows_affected update_where
run-enroll_node_example =
    run-enroll_node fleet_config machine (some "2") calm token_db manager n1 [] config joined
      (refl, tt)
      (record {
        cert-key = differ "d/n1.crt" "d/n1.key" refl;
        csr-key = differ "d/n1.csr" "d/n1.key" refl;
        ca-key = differ "d/ca.crt" "d/n1.key" refl;
        ca-cert = differ "d/ca.crt" "d/n1.crt" refl;
        pem-ca = differ "d/node.pem" "d/ca.crt" refl;
      })
      (λ body. refl) refl
