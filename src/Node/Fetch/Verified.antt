-- ===== src/Node/Fetch/Verified.antt =====
-- A download that succeeds leaves a verified artifact, and one that fails leaves what was there.
use jw_swarm.Common.{
  ℕ, String, List, [], true, false, Option, none, some, ◌==◌, ◌≡◌, ◌≢◌, refl, arith, Bool-cases,
  Option-cases, inl, inr, eq_iff, eq_refl, sym, subst, ◌∙◌, [],
}
use jw_swarm.Common.Attempt.{Attempt-cases}
use jw_swarm.Common.Text.{trim}
use jw_swarm.Common.HashMap
use jw_swarm.Common.HashMap.{HashMap, get-insert, get-remove}
use jw_swarm.Proto.{CatalogModel}
use jw_swarm.Node.Fetch.{
  bytes, text, link, Disk, Network, is_marked, ensure_disk_space, remote_filename, receive, partial,
  install, fetch, download_model, is_success,
}

-- The file has the hash that the catalog says, and the marker says so.
abbrev pub IsVerified : Network → CatalogModel → String → Disk → Type 0
IsVerified n m filename disk =
    (content : List ℕ) × (HashMap.get disk filename ≡ some (bytes content))
    × (n.to_lowercase (n.sha256_hex content) ≡ n.to_lowercase m.sha256)
    × (HashMap.get disk "sha256" ≡ some (text m.sha256))

-- What every way through `fetch` keeps.
pub fetch_rule :
    (Q : Option String × Disk → Type 0) (n : Network) (m : CatalogModel) (filename : String)
    (disk : Disk)
    → ((e : String) → Q (some e, HashMap.remove disk (partial filename)))
    → ((content : List ℕ)
        → n.to_lowercase (n.sha256_hex content) ≡ n.to_lowercase m.sha256
        → Q (install n m filename content (HashMap.insert disk (partial filename) (bytes content))))
    → Q (fetch n m filename disk)
unfolding fetch
fetch_rule Q n m filename disk failed installed = elim (Attempt-cases (receive n 0 n.stream [])) [
  | inl (e, h) ↦ rw (fetch, h) (failed e)
  | inr (content, h) ↦ elim (Bool-cases n.flushes) [
    | inr b ↦ rw (fetch, h, b) (failed "flush failed")
    | inl b ↦ elim (Bool-cases (n.to_lowercase (n.sha256_hex content) == n.to_lowercase m.sha256)) [
      | inr c ↦ rw (fetch, h, b, c) (failed "sha256 mismatch")
      | inl c ↦
          rw (fetch, h, b, c)
            (installed content
              ((eq_iff (n.to_lowercase (n.sha256_hex content)) (n.to_lowercase m.sha256)).0 c))
    ]
  ]
]

module _ (n : Network) (m : CatalogModel) (filename : String) (named : filename ≢ "sha256") where
  -- Where a run gives no error, the artifact is verified.
  abbrev Verifies : Option String × Disk → Type 0
  Verifies r = r.0 ≡ none → IsVerified n m filename r.1

  install-Verifies :
      (content : List ℕ) (disk : Disk)
      → n.to_lowercase (n.sha256_hex content) ≡ n.to_lowercase m.sha256
      → Verifies (install n m filename content disk)
  unfolding install
  install-Verifies content disk h e =
      let renamed =
        HashMap.insert (HashMap.remove (HashMap.remove disk filename) (partial filename)) filename
          (bytes content) in
      (
        content,
        ground (
          arith,
          e,
          named,
          eq_iff "sha256" filename,
          eq_iff filename "weights.bin",
          eq_iff "weights.bin" filename,
          eq_refl filename,
          get-insert (HashMap.insert renamed "weights.bin" (link n.absolute filename)) "sha256"
              filename (text m.sha256),
          get-insert (HashMap.remove renamed "weights.bin") "sha256" filename (text m.sha256),
          get-insert renamed "sha256" filename (text m.sha256),
          get-insert renamed "weights.bin" filename (link n.absolute filename),
          get-remove renamed "weights.bin" filename,
          get-insert (HashMap.remove (HashMap.remove disk filename) (partial filename)) filename
              filename (bytes content),
        ),
        h,
        ground (
          arith,
          e,
          eq_refl "sha256",
          get-insert (HashMap.insert renamed "weights.bin" (link n.absolute filename)) "sha256"
              "sha256" (text m.sha256),
          get-insert (HashMap.remove renamed "weights.bin") "sha256" "sha256" (text m.sha256),
          get-insert renamed "sha256" "sha256" (text m.sha256),
        ),
      )

  fetch-Verifies : (disk : Disk) → Verifies (fetch n m filename disk)
  fetch-Verifies disk =
      fetch_rule Verifies n m filename disk (λ e g. cc)
        (λ content.
          install-Verifies content (HashMap.insert disk (partial filename) (bytes content)))

-- What every way through `download_model` keeps.
pub download_model_rule :
    (Q : Option String × Disk → Type 0) (n : Network) (m : CatalogModel) (disk : Disk)
    → let filename = remote_filename n m.download_url in
      let dropped = HashMap.remove disk (partial filename) in
      (is_marked disk m.sha256 ≡ true → Q (none, disk))
      → ((e : String) → Q (some e, disk))
      → ((e : String) → Q (some e, dropped))
      → Q (fetch n m filename dropped)
      → Q (download_model n m disk)
unfolding download_model
download_model_rule Q n m disk marked early late fetched =
    elim (Bool-cases (is_marked disk m.sha256)) [
      | inl a ↦ rw (download_model, a) (marked a)
      | inr a ↦ elim (Bool-cases n.creates_dir) [
        | inr b ↦ rw (download_model, a, b) (early "create_dir_all failed")
        | inl b ↦ elim (Option-cases (ensure_disk_space n.available_space m.size_bytes)) [
          | inr (e, c) ↦ rw (download_model, a, b, c) (early e)
          | inl c ↦ elim (Attempt-cases n.response) [
            | inl (e, d) ↦ rw (download_model, a, b, c, d) (late e)
            | inr (status, d) ↦ elim (Bool-cases (is_success status)) [
              | inr f ↦ rw (download_model, a, b, c, d, f) (late "HTTP")
              | inl f ↦ elim (Bool-cases n.creates_file) [
                | inr g ↦ rw (download_model, a, b, c, d, f, g) (late "create failed")
                | inl g ↦ rw (download_model, a, b, c, d, f, g) fetched
              ]
            ]
          ]
        ]
      ]
    ]

-- A download that gives no error leaves, unless the marker said beforehand that the model was
-- verified, a file of bytes with the hash of the catalog's entry, and a marker with that hash. The
-- file must not be called like the marker.
pub download_model-IsVerified :
    (n : Network) (m : CatalogModel) (disk : Disk)
    → remote_filename n m.download_url ≢ "sha256"
    → is_marked disk m.sha256 ≡ false
    → (download_model n m disk).0 ≡ none
    → IsVerified n m (remote_filename n m.download_url) (download_model n m disk).1
download_model-IsVerified n m disk named unmarked =
    let filename = remote_filename n m.download_url in
    download_model_rule (Verifies n m filename named) n m disk (λ a. cc) (λ e g. cc) (λ e g. cc)
      (fetch-Verifies n m filename named (HashMap.remove disk (partial filename)))

-- A failure leaves the entry as it is.
abbrev Spares : String → Disk → Option String × Disk → Type 0
Spares k disk r = (e : String) → r.0 ≡ some e → HashMap.get r.1 k ≡ HashMap.get disk k

fetch-Spares :
    (n : Network) (m : CatalogModel) (filename k : String) (disk : Disk)
    → k ≢ partial filename
    → n.renames ≡ true
    → n.writes_marker ≡ true
    → Spares k disk (fetch n m filename disk)
unfolding install
fetch-Spares n m filename k disk other r w =
    fetch_rule (Spares k disk) n m filename disk
      (λ e f g.
        ground (arith, get-remove disk (partial filename) k, eq_iff (partial filename) k, other))
      (λ content h. rw (r, w) (λ f g. cc))

-- A download that fails leaves every entry of the directory but its partial file as it was, the
-- verified artifact and the marker included, if renaming the file and writing the marker do not
-- fail.
pub download_model_spares :
    (n : Network) (m : CatalogModel) (disk : Disk) (k e : String)
    → k ≢ partial (remote_filename n m.download_url)
    → n.renames ≡ true
    → n.writes_marker ≡ true
    → (download_model n m disk).0 ≡ some e
    → HashMap.get (download_model n m disk).1 k ≡ HashMap.get disk k
download_model_spares n m disk k e other r w =
    let filename = remote_filename n m.download_url in
    let dropped = HashMap.remove disk (partial filename) in
    let spared : HashMap.get dropped k ≡ HashMap.get disk k =
      ground (arith, get-remove disk (partial filename) k, eq_iff (partial filename) k, other) in
    download_model_rule (Spares k disk) n m disk (λ a e g. refl) (λ e f g. refl) (λ e f g. spared)
      (λ e g. fetch-Spares n m filename k dropped other r w e g ∙ spared) e

marked-returns :
    (n : Network) (m : CatalogModel) (disk : Disk)
    → is_marked disk m.sha256 ≡ true
    → download_model n m disk ≡ (none, disk)
unfolding download_model
marked-returns n m disk a = rw (download_model, a) refl

IsVerified-is_marked :
    (n : Network) (m : CatalogModel) (filename : String) (disk : Disk)
    → trim m.sha256 ≡ m.sha256
    → IsVerified n m filename disk
    → is_marked disk m.sha256 ≡ true
unfolding is_marked
IsVerified-is_marked n m filename disk trimmed (content, file, hash, marker) =
    rw (is_marked, marker, trimmed) (eq_refl m.sha256)

-- After a download that gives no error, every later download of the same entry returns at once
-- and changes nothing, whatever the network does, if the hash has no white space around it and the
-- file is not called like the marker.
pub download_model_again :
    (n later : Network) (m : CatalogModel) (disk : Disk)
    → remote_filename n m.download_url ≢ "sha256"
    → trim m.sha256 ≡ m.sha256
    → (download_model n m disk).0 ≡ none
    → download_model later m (download_model n m disk).1 ≡ (none, (download_model n m disk).1)
download_model_again n later m disk named trimmed done =
    let disk' = (download_model n m disk).1 in
    elim (Bool-cases (is_marked disk m.sha256)) [
      | inl a ↦
          subst (λ r. download_model later m r.1 ≡ (none, r.1)) (sym (marked-returns n m disk a))
            (marked-returns later m disk a)
      | inr a ↦ marked-returns later m disk' (
          IsVerified-is_marked n m (remote_filename n m.download_url) disk' trimmed
            (download_model-IsVerified n m disk named a done))
    ]
