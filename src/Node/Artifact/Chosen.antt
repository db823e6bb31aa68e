-- ===== src/Node/Artifact/Chosen.antt =====
-- Which file the backend loads after a download.
use jw_swarm.Common.{
  ◌==◌, refl, false, Option-cases, ℕ, String, List, [], ◌∷◌, Bool, true, none, some, is_some, find,
  ◌≡◌, ◌≢◌, arith, eq_iff, Option, eq_refl, false, Bool-cases, Option-cases, ◌⊎◌, inl, inr, subst,
  sym, ◌∙◌,
}
use jw_swarm.Common.HashMap
use jw_swarm.Common.HashMap.{HashMap, get-insert, get-remove}
use jw_swarm.Proto.{CatalogModel}
use jw_swarm.Node.Fetch.Verified.{download_model-IsVerified, download_model_rule, fetch_rule}
use mathlib.Core.Bool.{false≢true}
use jw_swarm.Node.Fetch.{
  Entry, bytes, text, link, Disk, Network, partial, install, remote_filename, is_marked,
  download_model,
}
use jw_swarm.Node.Artifact.{behind, files, model_file, resolve, is_gguf}

-- A file that is found passes the test and stands in the directory.
find-files :
    (p : String → Bool) (disk : Disk) (d : HashMap Entry) (k : String)
    → find p (files disk d) ≡ some k
    → (p k ≡ true) × (is_some (HashMap.get d k) ≡ true)
unfolding files HashMap.get
find-files p disk [] k h = cc
find-files p disk ((j, v) ∷ d) k h = ground (arith, find-files p disk d k, eq_iff j k)

-- If a file passes the test, one is found.
find-files-ne-none :
    (p : String → Bool) (disk : Disk) (d : HashMap Entry) (k : String) (v : Entry)
    → HashMap.get d k ≡ some v
    → is_some (behind disk v) ≡ true
    → p k ≡ true
    → find p (files disk d) ≢ none
unfolding files HashMap.get
find-files-ne-none p disk [] k v h f t = cc
find-files-ne-none p disk ((j, w) ∷ d) k v h f t =
    ground (arith, h, eq_iff j k, find-files-ne-none p disk d k v)

-- What a download leaves, if it gives no error: of the other names no entry but the marker and the
-- link, and none that was not there; and the link, if it is made.
abbrev Leaves : String → Network → Disk → Option String × Disk → Type 0
Leaves filename n disk r =
    r.0 ≡ none
    → ((k : String)
        → k ≢ filename
        → k ≢ "sha256"
        → k ≢ "weights.bin"
        → HashMap.get disk k ≡ none
        → HashMap.get r.1 k ≡ none)
      × (filename ≢ "weights.bin"
          → n.links ≡ true
          → HashMap.get r.1 "weights.bin" ≡ some (link n.absolute filename))

-- `disk` differs from the directory that is installed to by the partial file only.
install-Leaves :
    (n : Network) (m : CatalogModel) (filename : String) (content : List ℕ) (disk : Disk)
    → Leaves filename n disk
        (install n m filename content (HashMap.insert disk (partial filename) (bytes content)))
unfolding install
install-Leaves n m filename content disk e =
    let started = HashMap.insert disk (partial filename) (bytes content) in
    let emptied = HashMap.remove (HashMap.remove started filename) (partial filename) in
    let renamed = HashMap.insert emptied filename (bytes content) in
    (
      λ k a b c g. ground (
        arith,
        e,
        a,
        b,
        c,
        g,
        eq_iff filename k,
        eq_iff "sha256" k,
        eq_iff "weights.bin" k,
        eq_iff filename "weights.bin",
        get-insert (HashMap.insert renamed "weights.bin" (link n.absolute filename)) "sha256" k
            (text m.sha256),
        get-insert (HashMap.remove renamed "weights.bin") "sha256" k (text m.sha256),
        get-insert renamed "sha256" k (text m.sha256),
        get-insert renamed "weights.bin" k (link n.absolute filename),
        get-remove renamed "weights.bin" k,
        get-insert emptied filename k (bytes content),
        get-remove (HashMap.remove started filename) (partial filename) k,
        get-remove started filename k,
        get-insert disk (partial filename) k (bytes content),
      ),
      λ a l. ground (
        arith,
        e,
        a,
        l,
        eq_iff filename "weights.bin",
        eq_refl "weights.bin",
        get-insert (HashMap.insert renamed "weights.bin" (link n.absolute filename)) "sha256"
            "weights.bin" (text m.sha256),
        get-insert renamed "weights.bin" "weights.bin" (link n.absolute filename),
      ),
    )

module _ (n : Network) (m : CatalogModel) where
  abbrev filename : String
  filename = remote_filename n m.download_url

  -- What `download_model` leaves of a directory that is not marked.
  download_model-Leaves :
      (disk : Disk)
      → is_marked disk m.sha256 ≡ false
      → Leaves filename n disk (download_model n m disk)
  download_model-Leaves disk unmarked =
      let dropped = HashMap.remove disk (partial filename) in
      download_model_rule (Leaves filename n disk) n m disk (λ a. cc) (λ e g. cc) (λ e g. cc)
        (fetch_rule (Leaves filename n disk) n m filename dropped (λ e g. cc)
          (λ content h e.
            let l = install-Leaves n m filename content dropped e in
            (
              λ k a b c g.
                  l.0 k a b c (rw (get-remove disk (partial filename) k) (ground (arith, g))),
              l.1,
            )))

-- The backend loads a file with the bytes.
abbrev pub Loads : List ℕ → Disk → Type 0
Loads content disk =
    (k : String) × (model_file true disk ≡ some k) × (resolve disk k ≡ some (bytes content))

module _ (filename : String) (content : List ℕ) (disk : Disk)
    (file : HashMap.get disk filename ≡ some (bytes content))
    (only : (k : String) → is_gguf k ≡ true → k ≢ filename → HashMap.get disk k ≡ none) where
  found : (k : String) → find is_gguf (files disk disk) ≡ some k → k ≡ filename
  found k h = elim (Bool-cases (k == filename)) [
    | inl e ↦ (eq_iff k filename).0 e
    | inr e ↦
        let (gguf, there) = find-files is_gguf disk disk k h in
        let gone = only k gguf (λ same. cc ((eq_iff k filename).1 same)) in
        ground (arith, gone, there)
  ]

  gguf-Loads : is_gguf filename ≡ true → Loads content disk
  unfolding model_file
  gguf-Loads gguf = elim (Option-cases (find is_gguf (files disk disk))) [
    | inl h ↦
        absurd (find-files-ne-none is_gguf disk disk filename (bytes content) file refl gguf h)
    | inr (k, h) ↦ (filename, rw (model_file, h, found k h) refl, rw file refl)
  ]

  link-Loads :
      is_gguf filename ≡ false
      → resolve disk "weights.bin" ≡ some (bytes content)
      → Loads content disk
  unfolding model_file
  link-Loads other linked = elim (Option-cases (find is_gguf (files disk disk))) [
    | inl h ↦ ("weights.bin", rw (model_file, h, linked) refl, linked)
    | inr (k, h) ↦ absurd (ground (arith, other, (find-files is_gguf disk disk k h).0, found k h))
  ]

-- After a download of a model that was not marked as verified, the backend loads the bytes of the
-- downloaded file, which have the hash of the catalog's entry, if the directory held no other `.gguf` file, the file is not called
-- like the marker, and it is a `.gguf` file, or called weights.bin, or linked under
-- that name and the directory's path is absolute.
pub download_model-model_file :
    (n : Network) (m : CatalogModel) (disk : Disk)
    → let filename = remote_filename n m.download_url in
      filename ≢ "sha256"
      → is_marked disk m.sha256 ≡ false
      → ((k : String) → is_gguf k ≡ true → k ≢ filename → HashMap.get disk k ≡ none)
      → (is_gguf filename ≡ true)
        ⊎ (filename ≡ "weights.bin")
        ⊎ ((n.links ≡ true) × (n.absolute ≡ true))
      → (download_model n m disk).0 ≡ none
      → (content : List ℕ) × Loads content (download_model n m disk).1
        × (HashMap.get (download_model n m disk).1 filename ≡ some (bytes content))
        × (n.to_lowercase (n.sha256_hex content) ≡ n.to_lowercase m.sha256)
unfolding is_gguf remote_filename
download_model-model_file n m disk named unmarked alone kind e =
    let filename = remote_filename n m.download_url in
    let disk' = (download_model n m disk).1 in
    let (content, file, hash, marker) = download_model-IsVerified n m disk named unmarked e in
    let (beside, linked) = download_model-Leaves n m disk unmarked e in
    let only : (k : String) → is_gguf k ≡ true → k ≢ filename → HashMap.get disk' k ≡ none =
      λ k gguf other.
        beside k other (λ p. false≢true (subst (λ x. is_gguf x ≡ true) p gguf))
          (λ p. false≢true (subst (λ x. is_gguf x ≡ true) p gguf)) (alone k gguf other) in
    let same : filename ≡ "weights.bin" → resolve disk' "weights.bin" ≡ some (bytes content) =
      λ w. subst (λ x. resolve disk' x ≡ some (bytes content)) w (rw file refl) in
    let linked_file : is_gguf filename ≡ false
        → resolve disk' "weights.bin" ≡ some (bytes content) =
      λ other. elim kind [
        | inl gguf ↦ absurd (false≢true (sym other ∙ gguf))
        | inr (inl w) ↦ same w
        | inr (inr (l, abs)) ↦ elim (Bool-cases (filename == "weights.bin")) [
          | inl w ↦ same ((eq_iff filename "weights.bin").0 w)
          | inr d ↦
              rw (linked (λ p. false≢true (sym d ∙ (eq_iff filename "weights.bin").1 p)) l, abs)
                file
        ]
      ] in
    (
      content,
      elim (Bool-cases (is_gguf filename)) [
        | inl gguf ↦ gguf-Loads filename content disk' file only gguf
        | inr other ↦ link-Loads filename content disk' file only other (linked_file other)
      ],
      file,
      hash,
    )
