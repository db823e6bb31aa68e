-- ===== src/Node/Ready.antt =====
-- `BackendManager` of jw-swarm-nodes/linux/src/backend.rs: which models are ready, and which
-- prompts reach the worker. The artifact of a model and its size in MB come from the file system.
pub mod Laws
use jw_swarm.Common.{
  ℕ, String, List, [], ◌∷◌, ◌++◌, Bool, Option, none, some, is_some, ltb, if◌then◌else◌,
}
use Prim.Native.String.{◌++◌ as string_append}
use jw_swarm.Common.HashMap
use jw_swarm.Common.HashMap.{HashMap}
use jw_swarm.Common.Sort.{sort}
use jw_swarm.Proto.{PromptDispatch, Message, error}

-- `size_mb` is the size of the artifact in `dir`, if there is one.
unfoldable pub register : ℕ → HashMap String → String → String → Option ℕ → HashMap String
register memory_limit_mb ready id dir none = HashMap.remove ready id
register memory_limit_mb ready id dir (some size_mb) =
    if ltb memory_limit_mb size_mb then HashMap.remove ready id else HashMap.insert ready id dir

-- `keys()`
unfoldable pub keys {ℓ} : {V : Type ℓ} → HashMap V → List String
keys [] = []
keys ((k, v) ∷ m) = k ∷ keys m

unfoldable pub ready_ids : HashMap String → List String
unfolding keys
ready_ids ready = sort (keys ready)

-- The jobs queued for the worker and the messages sent to the tunnel. `alive` says whether the
-- worker still receives.
unfoldable pub dispatch :
    Bool
    → HashMap String
    → PromptDispatch
    → List PromptDispatch × List Message
    → List PromptDispatch × List Message
dispatch alive ready pd (jobs, sent) =
    if is_some (HashMap.get ready pd.model)
    then (if alive then (jobs ++ pd ∷ [], sent) else (
      jobs,
      sent
          ++ error (record { request_id = pd.request_id; message = "backend worker unavailable" })
            ∷ [],
    ))
    else (
      jobs,
      sent
          ++ error (record {
            request_id = pd.request_id;
            message = string_append "Model file missing for " pd.model;
          })
            ∷ [],
    )
