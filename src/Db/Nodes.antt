-- ===== src/Db/Nodes.antt =====
-- `upsert_node` and `record_delivery` of db.rs.
use jw_swarm.Common.{◌+◌, String, [], ◌∷◌, ◌++◌, Option, none, some}
use jw_swarm.Common.Int.{as_i64}
use jw_swarm.Common.HashMap
use jw_swarm.Float.{F64}
use jw_swarm.Proto.{
  Register, OsKind, macos, linux, windows, GpuVendor, apple, nvidia, amd, intel, Usage,
}
use jw_swarm.Db.Schema.{Db, NodeRow, Conditions, Result, ◌>>=◌, now_rfc3339, statement, references}

pub os_str : OsKind → String
os_str macos = "macos"
os_str linux = "linux"
os_str windows = "windows"

pub vendor_str : GpuVendor → String
vendor_str apple = "apple"
vendor_str nvidia = "nvidia"
vendor_str amd = "amd"
vendor_str intel = "intel"

-- The row that the statement inserts, or what it makes of the row that is there.
pub upserted_row : Register → String → Option NodeRow → NodeRow
unfolding os_str vendor_str
upserted_row reg now none = record {
  owner = "";
  hostname = reg.hostname;
  os = os_str reg.os;
  gpu_vendor = vendor_str reg.gpu.vendor;
  gpu_name = reg.gpu.name;
  gpu_vram_mb = as_i64 reg.gpu.vram_mb;
  cert_fingerprint = "";
  first_seen = now;
  last_seen = now;
}
upserted_row reg now (some row) = record row {
  hostname = reg.hostname;
  os = os_str reg.os;
  gpu_vendor = vendor_str reg.gpu.vendor;
  gpu_name = reg.gpu.name;
  gpu_vram_mb = as_i64 reg.gpu.vram_mb;
  last_seen = now;
}

unfoldable pub upsert_node : Conditions → Register → Db → Result Db
unfolding upserted_row
upsert_node c reg db = do
  now ← now_rfc3339 c
  statement c 0 (record db {
    nodes =
        HashMap.insert db.nodes reg.node_id
          (upserted_row reg now (HashMap.get db.nodes reg.node_id));
  })

unfoldable pub record_delivery :
    Conditions → String → String → String → Usage → F64 → Db → Result Db
record_delivery c request_id node_id model usage latency_ms db = do
  now ← now_rfc3339 c
  row ← references db node_id (record {
    id = db.next_delivery;
    request_id = request_id;
    node_id = node_id;
    model_alias = model;
    prompt_tokens = as_i64 usage.prompt_tokens;
    completion_tokens = as_i64 usage.completion_tokens;
    latency_ms = latency_ms;
    delivered_at = now;
  })
  statement c 0
      (record db { deliveries = db.deliveries ++ row ∷ []; next_delivery = db.next_delivery + 1 })
