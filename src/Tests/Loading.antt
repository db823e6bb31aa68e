-- ===== src/Tests/Loading.antt =====
-- Runs of the choice of an artifact and of the connector.
use mathlib.Core.Bool.{false≢true}
use jw_swarm.Common.{
  ap, Option, ◌≤◌, ◌≢◌, contains, length, arith, Bool-cases, subst, ℕ, List, [], ◌∷◌, true, none,
  some, ◌≡◌, ◌==◌, refl, inl, inr, eq_iff, sym, String,
}
use jw_swarm.Common.HashMap
use jw_swarm.Proto.{PromptDispatch}
use jw_swarm.Node.Fetch.{
  Entry, Disk, bytes, download_model, remote_filename, is_marked, ensure_disk_space, receive, fetch,
  install,
}
use jw_swarm.Node.Artifact.{mb_of_len, is_gguf}
use jw_swarm.Node.Artifact.Chosen.{Loads, download_model-model_file}
use jw_swarm.Node.Artifact.Served.{artifact_mb, download_model-dispatch}
use jw_swarm.Node.Ready.{register, ready_ids, dispatch}
use jw_swarm.Node.Connector.{Tls, Connector, build_connector}
use jw_swarm.Node.Connector.Identity.{Shows, run_loop-Shows}
use jw_swarm.Node.Wire.{Round, queued, connected, run_loop}
use jw_swarm.Tests.Coordinating.{model}
use jw_swarm.Tests.Fetching.{network, differ}

-- A directory with a note.
abbrev noted : Disk
noted = ("note", bytes (9 ∷ [])) ∷ []

alone : (k : String) → is_gguf k ≡ true → k ≢ "m.gguf" → HashMap.get noted k ≡ none
unfolding is_gguf HashMap.get
alone k gguf other = elim (Bool-cases ("note" == k)) [
  | inl e ↦ absurd (false≢true (subst (λ x. is_gguf x ≡ true) (sym ((eq_iff "note" k).0 e)) gguf))
  | inr e ↦ rw e refl
]

download_model-model_file_example :
    (content : List ℕ) × Loads content (download_model network model noted).1
    × (HashMap.get (download_model network model noted).1 "m.gguf" ≡ some (bytes content))
    × ("h" ≡ network.to_lowercase model.sha256)
unfolding remote_filename is_marked download_model ensure_disk_space receive fetch install
    HashMap.get is_gguf
download_model-model_file_example =
    download_model-model_file network model noted (differ "m.gguf" "sha256" refl) refl alone
      (inl refl) refl

abbrev prompt : PromptDispatch
prompt = record { request_id = "q"; model = model.id; payload = record { text = "{}" } }

abbrev bytes_of : Option Entry → List ℕ
bytes_of (some (bytes b)) = b
bytes_of _ = []

-- The file counts as one MB.
small :
    (content : List ℕ)
    → HashMap.get (download_model network model noted).1 "m.gguf" ≡ some (bytes content)
    → mb_of_len (length content) ≤ 24000
unfolding remote_filename is_marked download_model ensure_disk_space receive fetch install
    HashMap.get mb_of_len HashMap.insert HashMap.remove
small content h =
    let same : 1 ∷ 2 ∷ [] ≡ content = ap bytes_of h in
    subst (λ (c : List ℕ). mb_of_len (length c) ≤ 24000) same (omega arith)

download_model-dispatch_example :
    let ready =
      register 24000 [] model.id "m"
        (artifact_mb (λ s. 0) (download_model network model noted).1) in
    (contains (ready_ids ready) model.id ≡ true)
    × (dispatch true ready prompt ([], []) ≡ (prompt ∷ [], []))
unfolding remote_filename is_marked download_model ensure_disk_space receive fetch install
    HashMap.get is_gguf
download_model-dispatch_example =
    download_model-dispatch network model noted (λ s. 0) 24000 [] "m" prompt [] []
      (differ "m.gguf" "sha256" refl) refl alone (inl refl) refl small refl

abbrev tls : Tls ℕ ℕ
tls = record {
  read = λ path. some "PEM";
  certs = λ content. some 1 ∷ none ∷ some 2 ∷ [];
  private_key = λ content. some (some 7);
  adds = λ c. true;
  native_certs = 3 ∷ [];
  has_tls13 = true;
  accepts = λ chain k. true;
}

abbrev rounds : List Round
rounds = queued "hello" ∷ connected (λ i. true) [] true ∷ []

run_loop-Shows_example :
    (c : Connector ℕ ℕ) × (build_connector tls "node.pem" "ca.crt" ≡ some c)
    × Shows tls "node.pem" c
unfolding build_connector run_loop
run_loop-Shows_example = run_loop-Shows tls "node.pem" "ca.crt" rounds (inl (λ e. cc))
