-- ===== src/Node/Settings.antt =====
-- jw-swarm-nodes/linux/src/config.rs: the node's settings. The environment, a random id, the output
-- of `hostname` and the reader of TOML are arguments; the file that is written is the settings.
pub mod Paths
use jw_swarm.Common.{ℕ, String, List, [], Option, none, some, unwrap_or}
use jw_swarm.Common.Text.{trim}
use jw_swarm.Node.Schedule.{Schedule}

pub record Limits : Type 0 where
  pub gpu_power_pct : ℕ
  pub memory_limit_mb : ℕ

pub record Config : Type 0 where
  pub fleet_url : String
  pub node_id : String
  pub hostname : String
  pub node_cert : String
  pub ca_cert : String
  pub limits : Limits
  pub schedule : Schedule
  pub selected_models : List String

abbrev pub default_power : ℕ
default_power = 100

abbrev pub default_mem : ℕ
default_mem = 24000

-- `JW_FLEET_URL`, or the local address
abbrev pub df_f : (String → Option String) → String
df_f env = unwrap_or (env "JW_FLEET_URL") "wss://localhost/node/connect"

abbrev pub or_else {ℓ} : {A : Type ℓ} → Option A → Option A → Option A
or_else none b = b
or_else (some a) b = some a

unfoldable pub generate : (String → Option String) → String → Option String → Config
unfolding trim
generate env uuid hostname_output = record {
  fleet_url = df_f env;
  node_id = uuid;
  hostname = trim (unwrap_or (or_else (env "HOSTNAME") hostname_output) "jw-node");
  node_cert = unwrap_or (env "JW_NODE_CERT") "/etc/jw-swarm-node/node.pem";
  ca_cert = unwrap_or (env "JW_CA_CERT") "/etc/jw-swarm-node/ca.crt";
  limits = record { gpu_power_pct = 100; memory_limit_mb = 24000 };
  schedule = record { awake_from = ""; awake_until = "" };
  selected_models = [];
}

-- `file` is what TOML makes of the settings' file, if there is a file.
unfoldable pub load :
    Option (Option Config) → (String → Option String) → String → Option String → Config
unfolding generate
load file env uuid hostname_output = elim file [
  | none ↦ generate env uuid hostname_output
  | some parsed ↦ unwrap_or parsed (generate env uuid hostname_output)
]
