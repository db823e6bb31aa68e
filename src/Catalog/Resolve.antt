-- ===== src/Catalog/Resolve.antt =====
-- What `resolve_for` of catalog.rs returns.
use mathlib.Core.Option.{none-ne-some, some-injective}
use jw_swarm.Common.{
  List, [], ◌∷◌, ◌++◌, true, false, none, some, ◌≡◌, ◌≢◌, refl, map, select, is_some, arith, find,
  All, ap, sym, subst, Bool-cases, Option-cases, inl, inr,
}
use jw_swarm.Proto.{CatalogModel, GpuVendor, nvidia, amd, apple, intel, same_vendor}
use jw_swarm.Catalog.{Catalog, ModelEntry, Variant, variant_for, resolve_entries, resolve_for}

-- The ids are the aliases of exactly the entries that have a variant for the vendor, in order.
pub map-resolve_for :
    (c : Catalog) (vendor : GpuVendor)
    → map (λ m. m.id) (resolve_for c vendor)
      ≡ map (λ m. m.alias) (select (λ m. is_some (variant_for vendor m)) c.models)
unfolding resolve_for resolve_entries
map-resolve_for c vendor = go c.models
  where
    go :
        (ms : List ModelEntry)
        → map (λ m. m.id) (resolve_entries vendor ms)
          ≡ map (λ m. m.alias) (select (λ m. is_some (variant_for vendor m)) ms)
    go [] = refl
    go (m ∷ ms) = ground (arith, go ms)

-- The variant is the first of the list for the vendor.
abbrev pub IsFirst : GpuVendor → Variant → List Variant → Type 0
IsFirst vendor v variants =
    (before : List Variant) × (after : List Variant) × (variants ≡ before ++ v ∷ after)
    × All (λ u. u.vendor ≢ vendor) before
    × (v.vendor ≡ vendor)

-- The artifact has the entry's names and the variant's file.
pub record Offers (m : ModelEntry) (v : Variant) (a : CatalogModel) : Type 0 where
  pub id : a.id ≡ m.alias
  pub display_name : a.display_name ≡ m.display_name
  pub download_url : a.download_url ≡ v.download_url
  pub sha256 : a.sha256 ≡ v.sha256
  pub size_bytes : a.size_bytes ≡ v.size_bytes
  pub context_length : a.context_length ≡ v.context_length
  pub params_billions : a.params_billions ≡ v.params_billions
  pub backend : a.backend ≡ v.backend

-- What a vendor is to get of the entries, in their order: of an entry with a variant for the vendor
-- the first such variant, and nothing of an entry without one.
pub data AreOffers (vendor : GpuVendor) : List ModelEntry → List CatalogModel → Type 0 where
  nothing : AreOffers vendor [] []
  skips :
      (m : ModelEntry) (ms : List ModelEntry) (offers : List CatalogModel)
      → All (λ v. v.vendor ≢ vendor) m.variants
      → AreOffers vendor ms offers
      → AreOffers vendor (m ∷ ms) offers
  takes :
      (m : ModelEntry) (ms : List ModelEntry) (offers : List CatalogModel) (v : Variant)
      (a : CatalogModel)
      → IsFirst vendor v m.variants
      → Offers m v a
      → AreOffers vendor ms offers
      → AreOffers vendor (m ∷ ms) (a ∷ offers)

same_vendor_iff :
    (a b : GpuVendor) → ((same_vendor a b ≡ true) → (a ≡ b)) × ((same_vendor a b ≡ false) → (a ≢ b))
same_vendor_iff nvidia nvidia = (λ h. refl, λ h e. cc)
same_vendor_iff amd amd = (λ h. refl, λ h e. cc)
same_vendor_iff apple apple = (λ h. refl, λ h e. cc)
same_vendor_iff intel intel = (λ h. refl, λ h e. cc)
same_vendor_iff nvidia amd = (λ h. cc, λ h e. cc)
same_vendor_iff nvidia apple = (λ h. cc, λ h e. cc)
same_vendor_iff nvidia intel = (λ h. cc, λ h e. cc)
same_vendor_iff amd nvidia = (λ h. cc, λ h e. cc)
same_vendor_iff amd apple = (λ h. cc, λ h e. cc)
same_vendor_iff amd intel = (λ h. cc, λ h e. cc)
same_vendor_iff apple nvidia = (λ h. cc, λ h e. cc)
same_vendor_iff apple amd = (λ h. cc, λ h e. cc)
same_vendor_iff apple intel = (λ h. cc, λ h e. cc)
same_vendor_iff intel nvidia = (λ h. cc, λ h e. cc)
same_vendor_iff intel amd = (λ h. cc, λ h e. cc)
same_vendor_iff intel apple = (λ h. cc, λ h e. cc)

-- A search by the vendor finds the first variant for it, if there is one.
find-IsFirst :
    (vendor : GpuVendor) (vs : List Variant)
    → let found = find (λ v. same_vendor v.vendor vendor) vs in
      (found ≡ none → All (λ v. v.vendor ≢ vendor) vs)
      × ((v : Variant) → found ≡ some v → IsFirst vendor v vs)
find-IsFirst vendor [] = (λ e. tt, λ v e. absurd (none-ne-some v e))
find-IsFirst vendor (x ∷ vs) = elim (Bool-cases (same_vendor x.vendor vendor)) [
  | inl h ↦ rw h (
    λ e. absurd (none-ne-some x (sym e)),
    λ v e.
        subst (λ y. IsFirst vendor y (x ∷ vs)) (some-injective x v e)
          ([], vs, refl, tt, (same_vendor_iff x.vendor vendor).0 h),
  )
  | inr h ↦
      let other = (same_vendor_iff x.vendor vendor).1 h in
      let (misses, hits) = find-IsFirst vendor vs in
      rw h (
        λ e. (other, misses e),
        λ v e.
            let (before, after, parts, others, is) = hits v e in
            (x ∷ before, after, ap (λ ys. x ∷ ys) parts, (other, others), is),
      )
]

-- What is resolved for a vendor is, entry by entry in the catalog's order, the entry's first variant
-- for this vendor under the entry's alias and name, with the variant's address, hash, sizes and
-- backend, and nothing exactly for the entries that have no such variant.
pub resolve_for-AreOffers :
    (c : Catalog) (vendor : GpuVendor) → AreOffers vendor c.models (resolve_for c vendor)
unfolding resolve_for resolve_entries
resolve_for-AreOffers c vendor = go c.models
  where
    go : (ms : List ModelEntry) → AreOffers vendor ms (resolve_entries vendor ms)
    go [] = nothing
    go (m ∷ ms) = elim (Option-cases (variant_for vendor m)) [
      | inl e ↦
          rw (resolve_entries, e) (skips m ms _ ((find-IsFirst vendor m.variants).0 e) (go ms))
      | inr (v, e) ↦
          rw (resolve_entries, e)
            (takes m ms _ v _ ((find-IsFirst vendor m.variants).1 v e)
              (record {
                id = refl;
                display_name = refl;
                download_url = refl;
                sha256 = refl;
                size_bytes = refl;
                context_length = refl;
                params_billions = refl;
                backend = refl;
              })
              (go ms))
    ]
