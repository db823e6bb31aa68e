-- ===== src/Node/Probe.antt =====
-- How a node describes itself: `send_reg` of jw-swarm-nodes/linux/src/main.rs and what it asks the
-- machine.
use jw_swarm.Common.{String, Bool, Option, unwrap_or, if◌then◌else◌, map_option}
use jw_swarm.Common.Text.{trim}
use jw_swarm.Node.Settings.{Config}
use jw_swarm.Proto.{GpuVendor, nvidia, amd, apple, intel, linux, Register}

-- What the commands for the graphics card answer: whether nvidia-smi and rocminfo run, and the
-- text of the query for the name and of the one for the load, where they give one.
pub record Probe : Type 0 where
  pub nvidia_smi : Bool
  pub rocminfo : Bool
  pub name_query : Option String
  pub load_query : Option String

unfoldable pub det_vendor : Probe → GpuVendor
det_vendor p = if p.nvidia_smi then nvidia else if p.rocminfo then amd else nvidia

unfoldable pub gpu_name : Probe → GpuVendor → String
unfolding trim
gpu_name p nvidia = unwrap_or (map_option trim p.name_query) "Unknown"
gpu_name p amd = "GPU"
gpu_name p apple = "GPU"
gpu_name p intel = "GPU"

-- `Register` as `send_reg` builds it
unfoldable pub registration : Probe → Config → Register
unfolding det_vendor gpu_name
registration p c = record {
  node_id = c.node_id;
  hostname = c.hostname;
  os = linux;
  gpu = record {
    vendor = det_vendor p;
    name = gpu_name p (det_vendor p);
    vram_mb = c.limits.memory_limit_mb;
  };
  limits = record {
    gpu_power_pct = c.limits.gpu_power_pct;
    memory_limit_mb = c.limits.memory_limit_mb;
  };
  selected_models = c.selected_models;
}
