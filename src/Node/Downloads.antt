-- ===== src/Node/Downloads.antt =====
-- The downloads that a node has spawned, and its `DownloadTracker`: jw-swarm-nodes/linux/src/main.rs.
pub mod Counts
use jw_swarm.Common.{
  ℕ, zero, suc, String, List, [], ◌∷◌, Bool, true, false, not, ◌&&◌, ◌||◌, Option, none, some,
  contains, select, if◌then◌else◌, ◌==◌,
}
use jw_swarm.Common.Attempt.{Attempt, ok, err}
use jw_swarm.Common.HashMap
use jw_swarm.Common.HashMap.{HashMap}
use jw_swarm.Node.Settings.{Config}
use jw_swarm.Proto.{Backend, vllm, llama_cpp, mlx, CatalogModel}

pub record DownloadTracker : Type 0 where
  pub downloading : List String
  -- the address and the hash of the last failed attempt
  pub failed : HashMap (String × String)

-- A spawned download: it runs, or it has ended well and its artifact is not registered yet.
pub data Download : Type 0 where
  running : (m : CatalogModel) → Download
  ended : (m : CatalogModel) (dir : String) → Download

-- `selected`
abbrev pub is_selected : Config → String → Bool
is_selected c id =
    (elim c.selected_models [ [] ↦ true | x ∷ xs ↦ false ]) || contains c.selected_models id

abbrev pub is_llama_cpp : Backend → Bool
is_llama_cpp llama_cpp = true
is_llama_cpp vllm = false
is_llama_cpp mlx = false

abbrev pub is_last_failure : Option (String × String) → CatalogModel → Bool
is_last_failure none m = false
is_last_failure (some (url, sha256)) m = (url == m.download_url) && (sha256 == m.sha256)

-- `HashSet::insert`, `HashSet::remove`
abbrev pub with_id : String → List String → List String
with_id id ids = if contains ids id then ids else id ∷ ids

abbrev pub without_id : String → List String → List String
without_id id ids = select (λ x. not (x == id)) ids

-- The `i`-th download ends.
unfoldable pub end_download :
    ℕ → Attempt String → List Download → DownloadTracker → List Download × DownloadTracker
end_download i result [] t = ([], t)
end_download zero (ok dir) (running m ∷ ds) t = (
  ended m dir ∷ ds,
  record { downloading = without_id m.id t.downloading; failed = HashMap.remove t.failed m.id },
)
end_download zero (err e) (running m ∷ ds) t = (
  ds,
  record {
    downloading = without_id m.id t.downloading;
    failed = HashMap.insert t.failed m.id (m.download_url, m.sha256);
  },
)
end_download zero result (ended m dir ∷ ds) t = (ended m dir ∷ ds, t)
end_download (suc i) result (d ∷ ds) t =
    let (rest, t') = end_download i result ds t in (d ∷ rest, t')

-- The `i`-th download, if it has ended well, without it.
unfoldable pub take_ended : ℕ → List Download → Option (CatalogModel × String) × List Download
take_ended i [] = (none, [])
take_ended zero (running m ∷ ds) = (none, running m ∷ ds)
take_ended zero (ended m dir ∷ ds) = (some (m, dir), ds)
take_ended (suc i) (d ∷ ds) = let (found, rest) = take_ended i ds in (found, d ∷ rest)
