-- ===== src/Node/Artifact.antt =====
-- `model_file` and `file_size_mb` of jw-swarm-nodes/linux/src/backend.rs: which file of a model's
-- directory is loaded, and how large it counts. A relative
-- link is followed from the directory that it stands in, so one by the directory's own path leads to
-- a path below this directory, where nothing stands.
pub mod Served
pub mod Chosen
use Prim.Native.Char.{Char, code}
use Prim.Native.String.{String, [] as empty, ◌∷◌ as cons}
use jw_swarm.Common.{
  ℕ, ◌+◌, ◌*◌, ◌-◌, ◌/◌, ◌%◌, ◌^◌, List, [], ◌∷◌, Bool, true, false, not, Option, none, some,
  length, is_some, map_option, and_then, unwrap_or, find, ltb, eqb, if◌then◌else◌, ◌==◌,
}
use jw_swarm.Common.HashMap
use jw_swarm.Common.HashMap.{HashMap}
use jw_swarm.Common.Text.{eq_lowercase}
use jw_swarm.Node.Fetch.{Entry, bytes, text, link, Disk}

after_last_dot : String → Option String
after_last_dot empty = none
after_last_dot (cons c s) = elim (after_last_dot s) [
  | some e ↦ some e
  | none ↦ if eqb (code c) b'.' then some s else none
]

-- `Path::extension`: a dot at the start does not begin an extension.
pub extension : String → Option String
unfolding after_last_dot
extension empty = none
extension (cons c s) = after_last_dot s

-- `eq_ignore_ascii_case("gguf")`
unfoldable pub is_gguf : String → Bool
unfolding extension eq_lowercase
is_gguf name = unwrap_or (map_option (λ e. eq_lowercase e "gguf") (extension name)) false

-- What stands under a name, behind a link.
abbrev behind : Disk → Entry → Option Entry
behind disk (bytes b) = some (bytes b)
behind disk (text s) = some (text s)
behind disk (link true target) = HashMap.get disk target
behind disk (link false target) = none

abbrev pub resolve : Disk → String → Option Entry
resolve disk name = and_then (HashMap.get disk name) (behind disk)

-- The names of a listing that are files, `Path::is_file`.
unfoldable pub files : Disk → HashMap Entry → List String
files disk [] = []
files disk ((name, entry) ∷ rest) =
    let others = files disk rest in if is_some (behind disk entry) then name ∷ others else others

-- `listed` says whether the directory can be read.
unfoldable pub model_file : (listed : Bool) → Disk → Option String
unfolding is_gguf files
model_file false disk = none
model_file true disk = elim (find is_gguf (files disk disk)) [
  | some gguf ↦ some gguf
  | none ↦
      if is_some (resolve disk "weights.bin")
      then some "weights.bin"
      else find (λ name. not (name == "sha256")) (files disk disk)
]

-- In whole MB upwards, and at least one.
unfoldable pub mb_of_len : ℕ → ℕ
mb_of_len len =
    let mb = (len + 1024 * 1024 - 1) % 2 ^ 64 / (1024 * 1024) in if ltb mb 1 then 1 else mb

-- `text_len` is the number of bytes of a text.
unfoldable pub file_size_mb : (text_len : String → ℕ) → Disk → String → Option ℕ
unfolding mb_of_len
file_size_mb text_len disk name = elim (resolve disk name) [
  | none ↦ none
  | some entry ↦ elim entry [
    | bytes b ↦ some (mb_of_len (length b))
    | text s ↦ some (mb_of_len (text_len s))
    | link absolute target ↦ none
  ]
]
