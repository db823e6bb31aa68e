-- ===== src/Node/Settings/Paths.antt =====
-- jw-swarm-nodes/linux/src/config.rs: where the node keeps its settings and its models, and how the
-- settings are saved. The directories of the user are those of the `dirs` crate.
use Prim.Native.Char.{code}
use Prim.Native.String.{String, [] as nothing, ◌∷◌ as cons, ◌++◌ as string_append}
use jw_swarm.Common.{Bool, false, ◌||◌, ◌&&◌, Option, none, some, unwrap_or, eqb, if◌then◌else◌}
use jw_swarm.Common.Text.{is_empty}
use jw_swarm.Node.Settings.{Config, or_else}

abbrev ends_with_slash : String → Bool
ends_with_slash nothing = false
ends_with_slash (cons c s) =
    let rest = ends_with_slash s in if is_empty s then eqb (code c) b'/' else rest

-- `PathBuf::join` with a relative path.
pub join : String → String → String
join base path =
    if is_empty base || ends_with_slash base
    then string_append base path
    else string_append base (string_append "/" path)

-- `env` is `std::env::var(..).ok()`.
unfoldable pub config_path : (env : String → Option String) → (config_dir : Option String) → String
unfolding join
config_path env config_dir =
    join (unwrap_or (or_else (env "JW_CONFIG_DIR") config_dir) "/tmp/jw-swarm-node")
      "jw-swarm-node/config.toml"

unfoldable pub data_dir : (env : String → Option String) → (data_local_dir : Option String) → String
unfolding join
data_dir env data_local_dir =
    join (unwrap_or (or_else (env "JW_DATA_DIR") data_local_dir) "/tmp/jw-swarm-node")
      "jw-swarm-node"

unfoldable pub model_dir :
    (env : String → Option String) → (data_local_dir : Option String) → String
unfolding data_dir
model_dir env data_local_dir = join (data_dir env data_local_dir) "models"

-- `Config::save`: the new content of the file, if nothing fails. `to_toml` is
-- `toml::to_string_pretty`.
unfoldable pub save :
    (to_toml : Config → Option String) → (creates_dir writes : Bool) → Config → Option String
save to_toml creates_dir writes c = elim (to_toml c) [
  | none ↦ none
  | some txt ↦
      if creates_dir && writes then some (string_append "# JW Swarm Node\n#\n" txt) else none
]
