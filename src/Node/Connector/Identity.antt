-- ===== src/Node/Connector/Identity.antt =====
-- With whose certificate the tunnel is opened.
use jw_swarm.Common.{
  ◌≢◌, ◌⊎◌, subst, sym, String, List, [], ◌∷◌, true, false, none, some, is_some, ◌≡◌, refl, arith,
  ◌++◌, Option-cases, inl, inr, Option, Bool, ◌∙◌, map, select, ap, All, Bool-cases,
}
use jw_swarm.Common.Text.{is_empty}
use jw_swarm.Node.Connector.{
  Tls, Connector, identity_in, build_connector, load_root_store, without_errors,
}
use jw_swarm.Node.Wire.{Link, Round, run_loop, run_round, queued, refused, connected, grow, initial}

module _ {Cert Key : Type 0} (t : Tls Cert Key) where
  -- The chain is every certificate of the file that can be read, in order, and not empty; the key
  -- is the first of the file; and rustls takes the key for the chain.
  pub record IsIdentity (content : String) (chain : List Cert) (key : Key) : Type 0 where
    pub certificates : map some chain ≡ select is_some (t.certs content)
    pub not_empty : chain ≢ []
    pub first_key : t.private_key content ≡ some (some key)
    pub accepted : t.accepts chain key ≡ true

  -- With a path for the node's certificate, a connector shows an identity that is in that file;
  -- without a path it shows none. It speaks TLS 1.3 and trusts only what the store takes.
  pub record Shows (node_cert : String) (c : Connector Cert Key) : Type 0 where
    pub anonymous : is_empty node_cert ≡ true → c.identity ≡ none
    pub named :
        is_empty node_cert ≡ false
        → (content : String) × (chain : List Cert) × (key : Key) × (t.read node_cert ≡ some content)
          × (c.identity ≡ some (chain, key))
          × IsIdentity content chain key
    pub modern : t.has_tls13 ≡ true
    pub trusted : All (λ root. t.adds root ≡ true) c.roots

  without_errors-select :
      (items : List (Option Cert)) → map some (without_errors items) ≡ select is_some items
  without_errors-select [] = refl
  without_errors-select (none ∷ items) = without_errors-select items
  without_errors-select (some c ∷ items) = ap (λ cs. some c ∷ cs) (without_errors-select items)

  identity_in-IsIdentity :
      (content : String) (chain : List Cert) (key : Key)
      → identity_in t content ≡ some (chain, key)
      → IsIdentity content chain key
  identity_in-IsIdentity content chain key h =
      let same : without_errors (t.certs content) ≡ chain = ground (arith, h) in
      record {
        certificates = ap (map some) (sym same) ∙ without_errors-select (t.certs content);
        not_empty = λ e. ground (arith, h, same, e);
        first_key = ground (arith, h);
        accepted = ground (arith, h);
      }

  All-select {ℓ} : {A : Type ℓ} (p : A → Bool) (xs : List A) → All (λ x. p x ≡ true) (select p xs)
  All-select p [] = tt
  All-select p (x ∷ xs) = elim (Bool-cases (p x)) [
    | inl e ↦ rw (select, e) (e, All-select p xs)
    | inr e ↦ rw (select, e) (All-select p xs)
  ]

  All-append {ℓ κ} :
      {A : Type ℓ} (P : A → Type κ) (xs ys : List A) → All P xs → All P ys → All P (xs ++ ys)
  All-append P [] ys p q = q
  All-append P (x ∷ xs) ys p q = (p.0, All-append P xs ys p.1 q)

  load_root_store-adds :
      (ca_cert : String) → All (λ root. t.adds root ≡ true) (load_root_store t ca_cert)
  unfolding load_root_store
  load_root_store-adds ca_cert =
      All-append (λ root. t.adds root ≡ true) (select t.adds _) (select t.adds t.native_certs)
        (All-select t.adds _) (All-select t.adds t.native_certs)

  build_connector-Shows :
      (node_cert ca_cert : String) (c : Connector Cert Key)
      → build_connector t node_cert ca_cert ≡ some c
      → Shows node_cert c
  unfolding build_connector
  build_connector-Shows node_cert ca_cert c h =
      let modern : t.has_tls13 ≡ true = ground (arith, h) in
      let roots : load_root_store t ca_cert ≡ c.roots = ground (arith, h) in
      record {
        anonymous = λ a. ground (arith, h, a);
        named = λ b. elim (Option-cases (t.read node_cert)) [
          | inl e ↦ absurd (ground (arith, h, b, e))
          | inr (content, e) ↦ elim (Option-cases (identity_in t content)) [
            | inl f ↦ absurd (ground (arith, h, b, e, f))
            | inr ((chain, key), f) ↦ (
              content,
              chain,
              key,
              e,
              ground (arith, h, b, e, f),
              identity_in-IsIdentity content chain key f,
            )
          ]
        ];
        modern = modern;
        trusted = subst (All (λ root. t.adds root ≡ true)) roots (load_root_store-adds ca_cert);
      }

-- Without a connector nothing is handed to a socket, and nothing comes in.
run_loop_idle :
    (rounds : List Round) (l : Link)
    → ((run_loop false rounds l).0.handed ≡ l.handed)
      × ((run_loop false rounds l).0.inbound ≡ l.inbound)
unfolding run_loop run_round
run_loop_idle [] l = (refl, refl)
run_loop_idle (queued s ∷ rounds) l = run_loop_idle rounds (record l { queue = l.queue ++ s ∷ [] })
run_loop_idle (refused true ∷ rounds) l = (refl, refl)
run_loop_idle (refused false ∷ rounds) l =
    run_loop_idle rounds (record l { backoff = grow l.backoff })
run_loop_idle (connected takes events true ∷ rounds) l = (refl, refl)
run_loop_idle (connected takes events false ∷ rounds) l =
    run_loop_idle rounds (record l { backoff = grow l.backoff })

module _ {Cert Key : Type 0} (t : Tls Cert Key) where
  -- If the tunnel ever hands a message to a socket or passes one on, whatever happens, then a
  -- connector was built, which speaks TLS 1.3 and trusts only certificates that its store takes; and
  -- if the node's settings name a certificate file, it shows all the certificates that can be read in
  -- that file, at least one, with the file's first key, which rustls takes for them, and
  -- otherwise it shows no certificate.
  pub run_loop-Shows :
      (node_cert ca_cert : String) (rounds : List Round)
      → let l = (run_loop (is_some (build_connector t node_cert ca_cert)) rounds initial).0 in
        (l.handed ≢ []) ⊎ (l.inbound ≢ [])
        → (c : Connector Cert Key) × (build_connector t node_cert ca_cert ≡ some c)
          × Shows t node_cert c
  run_loop-Shows node_cert ca_cert rounds h =
      elim (Option-cases (build_connector t node_cert ca_cert)) [
        | inr (c, e) ↦ (c, e, build_connector-Shows t node_cert ca_cert c e)
        | inl e ↦
            let idle = run_loop_idle rounds initial in
            let off : is_some (build_connector t node_cert ca_cert) ≡ false = rw e refl in
            elim h [
              | inl moved ↦
                  absurd (
                    moved (subst (λ b. (run_loop b rounds initial).0.handed ≡ []) (sym off) idle.0))
              | inr came ↦
                  absurd (
                    came (subst (λ b. (run_loop b rounds initial).0.inbound ≡ []) (sym off) idle.1))
            ]
      ]
