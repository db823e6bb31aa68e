-- ===== src/Node/Backend.antt =====
-- jw-swarm-nodes/linux/src/backend.rs: which models are resident in memory. A loaded model is held
-- by its size alone, and what the file system and llama.cpp answer enters as arguments. Sizes are
-- file sizes in MB, below 2 ^ 44, so that the sum of the resident ones stays far below 2 ^ 64.
pub mod Trim
pub mod Residency
use jw_swarm.Common.{
  ℕ, zero, suc, ◌+◌, String, List, [], ◌∷◌, ◌++◌, Bool, true, false, not, ◌&&◌, Option, none, some,
  is_some, find, select, length, leb, ltb, if◌then◌else◌, ◌==◌,
}
use Prim.Native.String.{◌++◌ as string_append}
use jw_swarm.Common.HashMap
use jw_swarm.Common.HashMap.{HashMap}

pub record LoadedModel : Type 0 where
  pub resident_size_mb : ℕ

-- The worker's `loaded` with the `loaded_order` of the shared state, oldest first.
pub record Residents : Type 0 where
  pub loaded : HashMap LoadedModel
  pub loaded_order : List String

-- `Some(id) == preferred`
abbrev pub is_preferred : Option String → String → Bool
is_preferred none id = false
is_preferred (some p) id = p == id

-- The memory of the loaded models but the preferred one.
unfoldable pub resident : Option String → HashMap LoadedModel → ℕ
resident preferred [] = 0
resident preferred ((id, m) ∷ rest) =
    if is_preferred preferred id
    then resident preferred rest
    else m.resident_size_mb + resident preferred rest

-- The model to unload next: the oldest that is loaded and not preferred.
abbrev pub candidate : Option String → Residents → Option String
candidate preferred s =
    find (λ id. not (is_preferred preferred id) && is_some (HashMap.get s.loaded id)) s.loaded_order

-- `loaded.remove(&id)`, `loaded_order.retain(|x| x != &id)`
abbrev pub unload : String → Residents → Residents
unload id s = record {
  loaded = HashMap.remove s.loaded id;
  loaded_order = select (λ x. not (x == id)) s.loaded_order;
}

-- The loop, on fuel.
unfoldable pub trim_loop : ℕ → ℕ → Option String → ℕ → Residents → Residents
trim_loop zero memory_limit_mb preferred reserving_mb s = s
trim_loop (suc fuel) memory_limit_mb preferred reserving_mb s =
    if leb (resident preferred s.loaded + reserving_mb) memory_limit_mb
    then s
    else elim (candidate preferred s) [
      | none ↦ s
      | some id ↦ trim_loop fuel memory_limit_mb preferred reserving_mb (unload id s)
    ]

-- Every turn of the loop unloads a model, so as many turns as models are loaded are enough.
unfoldable pub trim_loaded_to_budget : ℕ → Option String → ℕ → Residents → Residents
unfolding trim_loop
trim_loaded_to_budget memory_limit_mb preferred reserving_mb s =
    trim_loop (length s.loaded) memory_limit_mb preferred reserving_mb s

unfoldable pub touch_loaded : String → Residents → Residents
touch_loaded id s = record s {
  loaded_order = select (λ x. not (x == id)) s.loaded_order ++ id ∷ [];
}

-- The model is resident: it is used now, and the others must fit.
abbrev pub use_loaded : ℕ → String → Residents → Residents
use_loaded memory_limit_mb model_id s =
    trim_loaded_to_budget memory_limit_mb (some model_id) 0 (touch_loaded model_id s)

-- Why a model cannot be made resident. The last carries llama.cpp's error besides.
pub data LoadError : Type 0 where
  file_missing : (model_id : String) → LoadError
  over_limit : (model_id : String) (size_mb memory_limit_mb : ℕ) → LoadError
  load_failed : (model_id : String) → LoadError

-- The part of `generate` that makes the model resident. `size_mb` is the size of its file, if
-- there is one, and `loads` whether llama.cpp loads it. The answer is an error, if there is one.
unfoldable pub make_resident :
    ℕ → String → Option ℕ → Bool → Residents → Option LoadError × Residents
unfolding trim_loaded_to_budget touch_loaded
make_resident memory_limit_mb model_id size_mb loads s =
    if is_some (HashMap.get s.loaded model_id)
    then (none, use_loaded memory_limit_mb model_id s)
    else elim size_mb [
      | none ↦ (some (file_missing model_id), s)
      | some size ↦
          if ltb memory_limit_mb size
          then (some (over_limit model_id size memory_limit_mb), s)
          else (let s' = trim_loaded_to_budget memory_limit_mb none size s in
              if not loads then (some (load_failed model_id), s') else (
                none,
                use_loaded memory_limit_mb model_id (record s' {
                  loaded = HashMap.insert s'.loaded model_id (record { resident_size_mb = size });
                }),
              ))
    ]
