-- ===== src/Catalog.antt =====
-- jw-swarm-fleet-manager/src/catalog.rs: the model allowlist, and its artifacts for a vendor.
pub mod Resolve
use jw_swarm.Common.{
  ℕ, String, List, [], ◌∷◌, Bool, true, false, Option, none, some, find, map, length, if◌then◌else◌,
  map_option, and_then,
}
use jw_swarm.Float.{F64}
use jw_swarm.Proto.{Backend, CatalogModel, GpuVendor, same_vendor}

pub record Variant : Type 0 where
  pub vendor : GpuVendor
  pub backend : Backend
  pub download_url : String
  pub sha256 : String
  pub size_bytes : ℕ
  pub context_length : ℕ
  pub params_billions : F64

pub record ModelEntry : Type 0 where
  pub alias : String
  pub display_name : String
  pub variants : List Variant

-- The file as the TOML reader returns it.
pub record CatalogFile : Type 0 where
  pub model : List ModelEntry

pub record Catalog : Type 0 where
  pub models : List ModelEntry

-- `toml::from_str`, which the argument stands for, and then the entries as they are.
unfoldable pub from_toml : (String → Option CatalogFile) → String → Option Catalog
from_toml read text = map_option (λ parsed. record { models = parsed.model }) (read text)

-- The file is read, which may fail, and is TOML.
unfoldable pub load :
    (String → Option String) → (String → Option CatalogFile) → String → Option Catalog
unfolding from_toml
load read_to_string read path = and_then (read_to_string path) (from_toml read)

unfoldable pub aliases : Catalog → List String
aliases c = map (λ m. m.alias) c.models

unfoldable pub len : Catalog → ℕ
len c = length c.models

unfoldable pub is_empty : Catalog → Bool
is_empty c = elim c.models [ [] ↦ true | _ ↦ false ]

-- The first variant for the vendor.
abbrev pub variant_for : GpuVendor → ModelEntry → Option Variant
variant_for vendor m = find (λ v. same_vendor v.vendor vendor) m.variants

abbrev pub artifact : ModelEntry → Variant → CatalogModel
artifact m v = record {
  id = m.alias;
  display_name = m.display_name;
  download_url = v.download_url;
  sha256 = v.sha256;
  size_bytes = v.size_bytes;
  context_length = v.context_length;
  params_billions = v.params_billions;
  backend = v.backend;
}

-- `filter_map`
pub resolve_entries : GpuVendor → List ModelEntry → List CatalogModel
resolve_entries vendor [] = []
resolve_entries vendor (m ∷ ms) =
    let rest = resolve_entries vendor ms in
    elim (variant_for vendor m) [ none ↦ rest | some v ↦ artifact m v ∷ rest ]

unfoldable pub resolve_for : Catalog → GpuVendor → List CatalogModel
unfolding resolve_entries
resolve_for c vendor = resolve_entries vendor c.models
