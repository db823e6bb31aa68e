-- ===== src/Node/Artifact/Served.antt =====
-- From a download to the worker: jw-swarm-nodes/linux/src/models.rs and backend.rs.
use jw_swarm.Common.{
  ℕ, ◌≤◌, String, List, [], ◌∷◌, ◌++◌, true, false, Option, none, some, length, and_then, contains,
  ◌≡◌, ◌≢◌, ◌⊎◌, refl, arith, eq_refl,
}
use jw_swarm.Common.HashMap
use jw_swarm.Common.HashMap.{HashMap, get-insert}
use jw_swarm.Proto.{CatalogModel, PromptDispatch, Message}
use jw_swarm.Node.Fetch.{Disk, Network, bytes, is_marked, remote_filename, download_model}
use jw_swarm.Node.Ready.{register, ready_ids, dispatch}
use jw_swarm.Node.Ready.Laws.{ready_ids-register}
use jw_swarm.Node.Artifact.{is_gguf, model_file, mb_of_len, file_size_mb}
use jw_swarm.Node.Artifact.Chosen.{Loads, download_model-model_file}

-- The size of the artifact in a directory, as a registration reads it.
abbrev pub artifact_mb : (String → ℕ) → Disk → Option ℕ
artifact_mb text_len disk = and_then (model_file true disk) (file_size_mb text_len disk)

artifact_mb-Loads :
    (text_len : String → ℕ) (disk : Disk) (content : List ℕ)
    → Loads content disk
    → artifact_mb text_len disk ≡ some (mb_of_len (length content))
unfolding file_size_mb
artifact_mb-Loads text_len disk content (k, chosen, file) = rw (chosen, file_size_mb, file) refl

register-dispatch :
    (limit size : ℕ) (ready : HashMap String) (dir : String) (pd : PromptDispatch)
    (jobs : List PromptDispatch) (sent : List Message)
    → size ≤ limit
    → dispatch true (register limit ready pd.model dir (some size)) pd (jobs, sent)
      ≡ (jobs ++ pd ∷ [], sent)
unfolding register dispatch
register-dispatch limit size ready dir pd jobs sent h =
    ground (arith, h, get-insert ready pd.model pd.model dir, eq_refl pd.model)

-- After a download of a model that was not marked as verified, a registration makes the model
-- ready, and a prompt for it is queued for the worker, as long as that receives, with nothing sent
-- in its place, if the file is within the memory limit and, as for loading the
-- right file, the directory held no other `.gguf` file, the file is not called like the marker, and
-- it is a `.gguf` file, or called weights.bin, or linked under that name and the directory's path is
-- absolute.
pub download_model-dispatch :
    (n : Network) (m : CatalogModel) (disk : Disk) (text_len : String → ℕ) (limit : ℕ)
    (ready : HashMap String) (dir : String) (pd : PromptDispatch) (jobs : List PromptDispatch)
    (sent : List Message)
    → let filename = remote_filename n m.download_url in
      let disk' = (download_model n m disk).1 in
      let ready' = register limit ready m.id dir (artifact_mb text_len disk') in
      filename ≢ "sha256"
      → is_marked disk m.sha256 ≡ false
      → ((k : String) → is_gguf k ≡ true → k ≢ filename → HashMap.get disk k ≡ none)
      → (is_gguf filename ≡ true)
        ⊎ (filename ≡ "weights.bin")
        ⊎ ((n.links ≡ true) × (n.absolute ≡ true))
      → (download_model n m disk).0 ≡ none
      → ((content : List ℕ)
          → HashMap.get disk' filename ≡ some (bytes content)
          → mb_of_len (length content) ≤ limit)
      → pd.model ≡ m.id
      → (contains (ready_ids ready') m.id ≡ true)
        × (dispatch true ready' pd (jobs, sent) ≡ (jobs ++ pd ∷ [], sent))
download_model-dispatch n m disk text_len limit ready dir pd jobs sent named unmarked alone kind e
      fits same =
    let (content, (k, chosen, file), there, hash) =
      download_model-model_file n m disk named unmarked alone kind e in
    let size = artifact_mb-Loads text_len (download_model n m disk).1 content (k, chosen, file) in
    let small = fits content there in
    (
      rw (ready_ids-register, eq_refl, size) (ground (arith, small)),
      rw (size, ← same)
          (register-dispatch limit (mb_of_len (length content)) ready dir pd jobs sent small),
    )
