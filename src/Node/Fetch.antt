-- ===== src/Node/Fetch.antt =====
-- jw-swarm-nodes/linux/src/models.rs: a model's artifact is downloaded and verified. A disk is the
-- model's directory; bytes are numbers. The network, SHA-256, the URL parser and what the system
-- calls answer are the record `Network`. The progress that is only logged is left out. A marker is a text.
pub mod Verified
use jw_swarm.Common.{
  ℕ, suc, ◌+◌, ◌*◌, ◌%◌, ◌^◌, String, List, [], ◌∷◌, ◌++◌, Bool, true, false, not, ◌&&◌, Option,
  none, some, unwrap_or, retain_if, ltb, leb, if◌then◌else◌, ◌==◌,
}
use Prim.Native.String.{◌++◌ as string_append}
use jw_swarm.Common.Attempt.{Attempt, ok, err}
use jw_swarm.Common.Text.{trim, is_empty}
use jw_swarm.Common.HashMap
use jw_swarm.Common.HashMap.{HashMap}
use jw_swarm.Proto.{CatalogModel}

pub data Entry : Type 0 where
  bytes : List ℕ → Entry
  text : String → Entry
  -- by the model's directory, which may be an absolute path or not, to a file in it
  link : (absolute : Bool) (target : String) → Entry

abbrev pub Disk : Type 0
Disk = HashMap Entry

pub record Network : Type 0 where
  -- `to_lowercase` of the standard library
  pub to_lowercase : String → String
  -- the lower-case hexadecimal text of the hash
  pub sha256_hex : List ℕ → String
  -- the last path segment of a text that is a URL and has one
  pub last_segment : String → Option String
  -- whether the path of the directory, as the node forms it, is absolute
  pub absolute : Bool
  -- the system calls, each of which may fail
  pub creates_dir : Bool
  pub available_space : Attempt ℕ
  pub creates_file : Bool
  pub writes_chunk : ℕ → Bool
  pub flushes : Bool
  pub renames : Bool
  pub links : Bool
  pub writes_marker : Bool
  -- the status of the response, and its body in chunks up to the end or an error
  pub response : Attempt ℕ
  pub stream : List (Attempt (List ℕ))

-- `std::fs::read_to_string(&sp)`, trimmed, is the expected hash.
unfoldable pub is_marked : Disk → String → Bool
unfolding trim
is_marked disk sha256 = elim (HashMap.get disk "sha256") [
  | none ↦ false
  | some entry ↦ elim entry [
    | text s ↦ trim s == sha256
    | bytes b ↦ false
    | link absolute target ↦ false
  ]
]

unfoldable pub ensure_disk_space : Attempt ℕ → ℕ → Option String
ensure_disk_space (err e) required_bytes = some e
ensure_disk_space (ok available) required_bytes =
    if ltb available ((required_bytes + 64 * 1024 * 1024) % 2 ^ 64)
    then some "insufficient disk space"
    else none

unfoldable pub remote_filename : Network → String → String
remote_filename n url =
    unwrap_or (retain_if (λ s. not (is_empty s)) (n.last_segment url)) "weights.bin"

-- The loop over the chunks from the `i`-th on, after some bytes were written.
unfoldable pub receive : Network → ℕ → List (Attempt (List ℕ)) → List ℕ → Attempt (List ℕ)
receive n i [] written = ok written
receive n i (err e ∷ chunks) written = err e
receive n i (ok chunk ∷ chunks) written = elim (n.writes_chunk i) [
  | true ↦ receive n (suc i) chunks (written ++ chunk)
  | false ↦ err "write failed"
]

abbrev pub partial : String → String
partial filename = string_append filename ".partial"

-- The bytes have passed the check and stand in the partial file.
unfoldable pub install : Network → CatalogModel → String → List ℕ → Disk → Option String × Disk
install n m filename content disk =
    let removed = HashMap.remove disk filename in
    let renamed =
      HashMap.insert (HashMap.remove removed (partial filename)) filename (bytes content) in
    let linked =
      if filename == "weights.bin"
      then renamed
      else if n.links
      then HashMap.insert renamed "weights.bin" (link n.absolute filename)
      else HashMap.remove renamed "weights.bin" in
    if not n.renames
    then (some "rename failed", removed)
    else if not n.writes_marker
    then (some "write failed", linked)
    else (none, HashMap.insert linked "sha256" (text m.sha256))

-- The response's body is written to the partial file and checked.
unfoldable pub fetch : Network → CatalogModel → String → Disk → Option String × Disk
unfolding receive install
fetch n m filename disk =
    let dropped = HashMap.remove disk (partial filename) in
    elim (receive n 0 n.stream []) [
      | err e ↦ (some e, dropped)
      | ok content ↦
          if not n.flushes
          then (some "flush failed", dropped)
          else if not (n.to_lowercase (n.sha256_hex content) == n.to_lowercase m.sha256)
          then (some "sha256 mismatch", dropped)
          else install n m filename content (HashMap.insert disk (partial filename) (bytes content))
    ]

abbrev pub is_success : ℕ → Bool
is_success status = leb 200 status && ltb status 300

-- The answer is an error, if there is one, and the model's directory otherwise.
unfoldable pub download_model : Network → CatalogModel → Disk → Option String × Disk
unfolding is_marked ensure_disk_space remote_filename fetch
download_model n m disk =
    let filename = remote_filename n m.download_url in
    let dropped = HashMap.remove disk (partial filename) in
    if is_marked disk m.sha256
    then (none, disk)
    else if not n.creates_dir
    then (some "create_dir_all failed", disk)
    else elim (ensure_disk_space n.available_space m.size_bytes) [
      | some e ↦ (some e, disk)
      | none ↦ elim n.response [
        | err e ↦ (some e, dropped)
        | ok status ↦
            if not (is_success status)
            then (some "HTTP", dropped)
            else if not n.creates_file
            then (some "create failed", dropped)
            else fetch n m filename dropped
      ]
    ]
