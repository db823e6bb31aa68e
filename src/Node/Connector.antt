-- ===== src/Node/Connector.antt =====
-- `build_connector` and `load_root_store` of jw-swarm-nodes/linux/src/tunnel.rs. The files, the PEM
-- reader, the certificates of the system and rustls are the record `Tls`.
pub mod Identity
use jw_swarm.Common.{
  ℕ, String, List, [], ◌∷◌, ◌++◌, Bool, true, false, not, Option, none, some, select, if◌then◌else◌,
}
use jw_swarm.Common.Text.{is_empty}

pub record Tls (Cert Key : Type 0) : Type 0 where
  pub read : String → Option String
  -- what `rustls_pemfile::certs` yields, each item a certificate or an error
  pub certs : String → List (Option Cert)
  -- an error, no key, or the first key
  pub private_key : String → Option (Option Key)
  -- whether a root store takes a certificate
  pub adds : Cert → Bool
  pub native_certs : List Cert
  -- `with_protocol_versions(&[&TLS13])` succeeds
  pub has_tls13 : Bool
  -- `with_client_auth_cert` succeeds
  pub accepts : List Cert → Key → Bool

-- A client configuration: the trusted roots, and the chain and the key that the node shows.
pub record Connector (Cert Key : Type 0) : Type 0 where
  pub roots : List Cert
  pub identity : Option (List Cert × Key)

module _ {Cert : Type 0} where
  -- The items up to the first error, and all but the errors.
  abbrev pub until_error : List (Option Cert) → List Cert
  until_error [] = []
  until_error (none ∷ items) = []
  until_error (some c ∷ items) = c ∷ until_error items

  abbrev pub without_errors : List (Option Cert) → List Cert
  without_errors [] = []
  without_errors (none ∷ items) = without_errors items
  without_errors (some c ∷ items) = c ∷ without_errors items

  abbrev ca_certs : Option String → (String → List (Option Cert)) → List Cert
  ca_certs none certs = []
  ca_certs (some content) certs = until_error (certs content)

module _ {Cert Key : Type 0} where
  unfoldable pub load_root_store : Tls Cert Key → String → List Cert
  load_root_store t ca_cert =
      select t.adds (if is_empty ca_cert then [] else ca_certs (t.read ca_cert) t.certs)
      ++ select t.adds t.native_certs

  -- The chain and the key in the node's file.
  abbrev pub identity_in : Tls Cert Key → String → Option (List Cert × Key)
  identity_in t content = elim (without_errors (t.certs content)) [
    | [] ↦ none
    | (c ∷ chain) ↦ elim (t.private_key content) [
      | none ↦ none
      | some key ↦ elim key [
        | none ↦ none
        | some k ↦ if t.accepts (c ∷ chain) k then some (c ∷ chain, k) else none
      ]
    ]
  ]

  unfoldable pub build_connector :
      Tls Cert Key → (node_cert ca_cert : String) → Option (Connector Cert Key)
  unfolding load_root_store
  build_connector t node_cert ca_cert =
      let roots = load_root_store t ca_cert in
      if not t.has_tls13
      then none
      else if is_empty node_cert
      then some (record { roots = roots; identity = none })
      else elim (t.read node_cert) [
        | none ↦ none
        | some content ↦ elim (identity_in t content) [
          | none ↦ none
          | some identity ↦ some (record { roots = roots; identity = some identity })
        ]
      ]
