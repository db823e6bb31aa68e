-- ===== src/Node/Counters.antt =====
-- The statistics that the backend keeps: jw-swarm-nodes/linux/src/backend.rs.
use jw_swarm.Common.{ℕ, ◌+◌, ◌%◌, ◌^◌, String, unwrap_or, ltb, if◌then◌else◌, ◌&&◌}
use jw_swarm.Common.HashMap
use jw_swarm.Common.HashMap.{HashMap}
use jw_swarm.Float.{F64, Floats, gt, zero_f}

pub record ModelTokenUsage : Type 0 where
  pub input_tokens : ℕ
  pub output_tokens : ℕ
  pub requests : ℕ

-- The counters of the shared state.
pub record Counters : Type 0 where
  pub total_completion_tokens : ℕ
  pub total_generation_seconds : F64
  pub last_tps : F64
  pub token_usage : HashMap ModelTokenUsage

pub record BackendStats : Type 0 where
  pub avg_tps : F64
  pub last_tps : F64

-- `token_usage.entry(model_id).or_default()`, with the counts added.
unfoldable pub add_usage : String → ℕ → ℕ → HashMap ModelTokenUsage → HashMap ModelTokenUsage
add_usage model_id input output usage =
    let old : ModelTokenUsage =
      unwrap_or (HashMap.get usage model_id)
        (record { input_tokens = 0; output_tokens = 0; requests = 0 }) in
    HashMap.insert usage model_id (record {
      input_tokens = (old.input_tokens + input) % 2 ^ 64;
      output_tokens = (old.output_tokens + output) % 2 ^ 64;
      requests = (old.requests + 1) % 2 ^ 64;
    })

module _ (fl : Floats) where
  -- The statistics of a job that came to its end.
  unfoldable pub count : String → ℕ → ℕ → F64 → Counters → Counters
  unfolding add_usage
  count model_id prompt completion elapsed c =
      let usage = add_usage model_id prompt completion c.token_usage in
      if gt fl elapsed (zero_f fl) && ltb 0 completion
      then record {
        last_tps = fl.div (fl.of_ℕ completion) elapsed;
        total_completion_tokens = (c.total_completion_tokens + completion) % 2 ^ 64;
        total_generation_seconds = fl.add c.total_generation_seconds elapsed;
        token_usage = usage;
      }
      else record c { token_usage = usage }

  unfoldable pub stats : Counters → BackendStats
  stats c = record {
    avg_tps =
        if gt fl c.total_generation_seconds (zero_f fl)
        then fl.div (fl.of_ℕ c.total_completion_tokens) c.total_generation_seconds
        else zero_f fl;
    last_tps = c.last_tps;
  }
