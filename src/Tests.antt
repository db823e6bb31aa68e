-- ===== src/Tests.antt =====
-- Concrete data for the runs in the modules below: a float arithmetic on thousandths, a machine
-- that signs, one node, one token.
pub mod Framing
pub mod Loading
pub mod Enrolling
pub mod Serving
pub mod Tunnels
pub mod Nodes
pub mod Reports
pub mod Generating
pub mod Coordinating
pub mod Fetching
use Prim.Native.Nat.{◌/◌, ◌*◌, ◌^◌}
use jw_swarm.Common.{
  ℕ, ◌+◌, ◌-◌, String, List, [], ◌∷◌, true, false, none, some, refl, ltb, eqb, if◌then◌else◌, arith,
}
use jw_swarm.Common.Int.{pos}
use jw_swarm.Float.{F64, Floats, CmpLaws}
use Prim.Native.Nat.{Ordering, compare}
use jw_swarm.Proto.{
  Register, linux, nvidia, awake, asleep, llama_cpp, Metrics, Heartbeat, TokenChunk, Done,
  ProtoError, Value, Usage,
}
use jw_swarm.Channel.{Sender, Channels}
use jw_swarm.Registry.{Registry, NodeState}
use jw_swarm.Catalog.{Catalog, Variant}
use jw_swarm.Config.{EnrollmentConfig}
use jw_swarm.Db.Schema.{Db, Conditions, EnrollmentTokenRow, empty}
use jw_swarm.Http.{Json, HeaderMap}
use jw_swarm.Enrollment.{Machine}
use jw_swarm.State.{AppState}

abbrev pub fl : Floats
fl = record {
  literal = λ m k. record { bits = m * 1000 / 10 ^ k };
  neg_infinity = record { bits = 0 };
  of_ℕ = λ n. record { bits = n * 1000 };
  add = λ a b. record { bits = a.bits + b.bits };
  sub = λ a b. record { bits = a.bits - b.bits };
  mul = λ a b. record { bits = a.bits * b.bits / 1000 };
  div = λ a b. record { bits = a.bits * 1000 / b.bits };
  min = λ a b. if ltb a.bits b.bits then a else b;
  partial_cmp = λ a b. some (compare a.bits b.bits);
  print_rounded = λ a. "0";
}

pub fl-CmpLaws : CmpLaws fl
fl-CmpLaws = record {
  le_or_gt = λ a b p q e. ground arith;
  gt-ge = λ a b e. ground arith;
  le_trans = λ a b c d e. ground arith;
}

abbrev pub calm : Conditions
calm = record { now = some "2026-01-02T00:00:00Z"; fails = λ k. false }

abbrev pub machine : Machine
machine = record {
  read_to_string = λ path. some "CA";
  exists = λ path. true;
  create_dir_all = true;
  write_csr = true;
  write_ext = true;
  verify = λ csr. some true;
  sign = λ csr ca key days. some true;
  signed = λ csr. some "CERT";
  sha256_hex = λ t. t;
}

abbrev pub config : EnrollmentConfig
config = record {
  enabled = true;
  ca_cert_path = "ca.crt";
  ca_key_path = "ca.key";
  admin_token = some "s";
  default_token_ttl_seconds = pos 600;
  cert_valid_days = 30;
}

abbrev pub csr : String
csr = "BEGIN CERTIFICATE REQUEST"

abbrev pub token_row : EnrollmentTokenRow
token_row = record {
  token_hash = "t";
  node_id = "n1";
  created_at = "1";
  expires_at = "3";
  used_at = none;
  created_by = "admin";
}

abbrev pub token_db : Db
token_db = record (empty true) { enrollment_tokens = token_row ∷ [] }

abbrev pub admin : HeaderMap
admin = record { authorization = some "Bearer s" }

abbrev pub stranger : HeaderMap
stranger = record { authorization = none }

abbrev pub variant : Variant
variant = record {
  vendor = nvidia;
  backend = llama_cpp;
  download_url = "u";
  sha256 = "h";
  size_bytes = 1;
  context_length = 2;
  params_billions = record { bits = 8000 };
}

abbrev pub catalog : Catalog
catalog = record {
  models = record { alias = "m"; display_name = "M"; variants = variant ∷ [] } ∷ [];
}

abbrev pub reg : Register
reg = record {
  node_id = "n1";
  hostname = "host";
  os = linux;
  gpu = record { vendor = nvidia; name = "gpu"; vram_mb = 8192 };
  limits = record { gpu_power_pct = 50; memory_limit_mb = 4096 };
  selected_models = "m" ∷ [];
}

abbrev pub tx : Sender
tx = record { channel = 1 }

abbrev pub metrics : Metrics
metrics = record {
  vram_used_mb = 1024;
  vram_total_mb = 8192;
  gpu_util_pct = record { bits = 0 };
  tps = record { bits = 30000 };
  latency_ms = record { bits = 20000 };
  in_flight = 1;
}

abbrev pub node : NodeState
node = record {
  node_id = "n1";
  register = reg;
  metrics = some metrics;
  ready_models = "m" ∷ [];
  schedule_state = awake;
  tx = tx;
}

abbrev pub registry : Registry
registry = record {
  nodes = ("n1", node) ∷ [];
  pending = ("q", record { tx = record { channel = 7 }; model = "m"; node_id = "n1" }) ∷ [];
}

abbrev pub open_channels : {A : Type 0} → Channels A
open_channels n = record { receiving = true; sent = [] }

abbrev pub db : Db
db = empty false

abbrev pub state : AppState
state = record {
  registry = registry;
  catalog = catalog;
  weights = record {
    vram = record { bits = 1000 };
    tps = record { bits = 1000 };
    latency = record { bits = 1000 };
    load = record { bits = 1000 };
  };
  db = db;
  accounting = record {
    weights = record { tokens = record { bits = 10 }; capacity = record { bits = 1 } };
  };
  enrollment = config;
  outbound = open_channels;
  events = open_channels;
  tasks = [];
}

-- A reader of requests that all ask for the model "m".
abbrev pub json_reader : Json
json_reader = record {
  get = λ v k. some v;
  as_str = λ v. some v.text;
  as_bool = λ v. none;
  as_u64 = λ v. some 9000;
  as_array = λ v. some (v ∷ record { text = "" } ∷ []);
}

abbrev pub body : Value
body = record { text = "m" }

abbrev pub usage : Usage
usage = record { prompt_tokens = 1; completion_tokens = 100; total_tokens = 101 }

abbrev pub report : Done
report = record { request_id = "q"; usage = usage }

abbrev pub hello : TokenChunk
hello = record { request_id = "q"; delta = "hello"; index = 0 }
