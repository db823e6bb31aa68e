-- ===== src/Accounting.antt =====
-- jw-swarm-fleet-manager/src/accounting.rs: points for delivered tokens and for capacity.
use jw_swarm.Common.{if◌then◌else◌}
use jw_swarm.Float.{F64, Floats, gt, zero_f}
use jw_swarm.Proto.{Usage}

pub record Weights : Type 0 where
  pub tokens : F64
  pub capacity : F64

pub record Accounting : Type 0 where
  pub weights : Weights

module _ (fl : Floats) where
  pub default : Weights
  default = record { tokens = fl.literal 1 2; capacity = fl.literal 1 3 }

  abbrev pub size_factor : F64 → F64
  size_factor params =
      if gt fl params (zero_f fl) then fl.div params (fl.literal 7 0) else fl.literal 1 0

  unfoldable pub delivery_points : Accounting → Usage → F64 → F64
  delivery_points a usage params_billions =
      fl.mul (fl.mul (fl.of_ℕ usage.completion_tokens) (size_factor params_billions))
        a.weights.tokens

  unfoldable pub capacity_points : Accounting → F64 → F64 → F64 → F64
  capacity_points a awake_seconds gpu_power_pct vram_mb =
      fl.mul
        (fl.mul (fl.mul awake_seconds (fl.div gpu_power_pct (fl.literal 100 0)))
          (fl.div vram_mb (fl.literal 1024 0)))
        a.weights.capacity
