-- ===== src/Node/Backend/Residency.antt =====
-- Making a model resident keeps the memory of all resident models within the limit.
use jw_swarm.Common.{
  ℕ, ◌+◌, ◌≤◌, String, List, [], ◌∷◌, ◌++◌, Bool, true, false, not, ◌||◌, Option, none, some,
  is_some, contains, ltb, length, ◌==◌, ◌≡◌, refl, arith, eq_iff, eq_refl, Bool-cases, inl, inr,
}
use jw_swarm.Common.HashMap
use jw_swarm.Common.HashMap.{HashMap, get-remove, get-insert}
use jw_swarm.Node.Backend.{
  LoadedModel, Residents, resident, trim_loop, trim_loaded_to_budget, touch_loaded, use_loaded,
  make_resident,
}
use jw_swarm.Node.Backend.Trim.{
  Covered, resident-remove, contains-select, trim_loop_keeps, trim_loop-Covered,
  trim_loaded_to_budget_fits,
}

contains-append :
    (xs : List String) (x k : String) → contains (xs ++ x ∷ []) k ≡ (contains xs k || (x == k))
contains-append [] x k = ground arith
contains-append (y ∷ xs) x k = ground (arith, contains-append xs x k)

resident-insert :
    (m : HashMap LoadedModel) (k : String) (v : LoadedModel)
    → is_some (HashMap.get m k) ≡ false
    → resident none (HashMap.insert m k v) ≡ resident none m + v.resident_size_mb
unfolding resident HashMap.insert HashMap.get
resident-insert [] k v h = ground arith
resident-insert ((j, w) ∷ m) k v h = ground (arith, resident-insert m k v)

touch-Covered :
    (id : String) (s : Residents)
    → ((k : String)
        → is_some (HashMap.get s.loaded k) ≡ true
        → ((id == k) || contains s.loaded_order k) ≡ true)
    → Covered (touch_loaded id s)
unfolding touch_loaded
touch-Covered id s h k g =
    rw (contains-append, contains-select (λ x. not (x == id)) s.loaded_order k)
      (ground (arith, h k g, eq_iff id k, eq_iff k id))

-- The memory of all resident models is within the limit.
abbrev pub Fits : ℕ → Residents → Type 0
Fits limit s = resident none s.loaded ≤ limit

abbrev pub IsResident : String → Residents → Type 0
IsResident id s = is_some (HashMap.get s.loaded id) ≡ true

module _ (limit : ℕ) where
  trim-Fits :
      (p : Option String) (r fuel : ℕ) (s : Residents)
      → Fits limit s
      → Fits limit (trim_loop fuel limit p r s)
  trim-Fits p r fuel s =
      trim_loop_keeps limit p r (Fits limit)
        (λ k s n g f. omega (arith, resident-remove none s.loaded k, f)) fuel s

  trim-IsResident :
      (id : String) (r fuel : ℕ) (s : Residents)
      → IsResident id s
      → IsResident id (trim_loop fuel limit (some id) r s)
  trim-IsResident id r fuel s =
      trim_loop_keeps limit (some id) r (IsResident id)
        (λ k s n g f. ground (arith, get-remove s.loaded k id, eq_iff id k, eq_iff k id, f, n)) fuel
        s

  trim-absent :
      (p : Option String) (id : String) (r fuel : ℕ) (s : Residents)
      → is_some (HashMap.get s.loaded id) ≡ false
      → is_some (HashMap.get (trim_loop fuel limit p r s).loaded id) ≡ false
  trim-absent p id r fuel s =
      trim_loop_keeps limit p r (λ s. is_some (HashMap.get s.loaded id) ≡ false)
        (λ k s n g f. ground (arith, get-remove s.loaded k id, f)) fuel s

  -- Every loaded model stands in the order, and together they are within the limit.
  abbrev pub IsWithin : Residents → Type 0
  IsWithin s = Covered s × Fits limit s

  use_loaded-IsWithin :
      (id : String) (s : Residents)
      → ((k : String)
          → is_some (HashMap.get s.loaded k) ≡ true
          → ((id == k) || contains s.loaded_order k) ≡ true)
      → Fits limit s
      → IsResident id s
      → IsWithin (use_loaded limit id s) × IsResident id (use_loaded limit id s)
  unfolding trim_loaded_to_budget touch_loaded
  use_loaded-IsWithin id s c f r =
      let touched = touch_loaded id s in
      let fuel = length s.loaded in
      (
        (
          trim_loop-Covered limit (some id) 0 fuel touched (touch-Covered id s c),
          trim-Fits (some id) 0 fuel touched f,
        ),
        trim-IsResident id 0 fuel touched r,
      )

  module _ (id : String) (size : ℕ) (s : Residents) (w : IsWithin s)
      (absent : is_some (HashMap.get s.loaded id) ≡ false) (small : size ≤ limit) where
    abbrev trimmed : Residents
    trimmed = trim_loaded_to_budget limit none size s

    trimmed-Covered : Covered trimmed
    unfolding trim_loaded_to_budget
    trimmed-Covered = trim_loop-Covered limit none size (length s.loaded) s w.0

    trimmed_absent : is_some (HashMap.get trimmed.loaded id) ≡ false
    unfolding trim_loaded_to_budget
    trimmed_absent = trim-absent none id size (length s.loaded) s absent

    abbrev grown : Residents
    grown = record trimmed {
      loaded = HashMap.insert trimmed.loaded id (record { resident_size_mb = size });
    }

    grown-Fits : Fits limit grown
    grown-Fits = omega (
      arith,
      resident-insert trimmed.loaded id (record { resident_size_mb = size }) trimmed_absent,
      trim_loaded_to_budget_fits limit none size s w.0 small,
    )

    grown-IsWithin :
        IsWithin (use_loaded limit id grown) × IsResident id (use_loaded limit id grown)
    grown-IsWithin =
        use_loaded-IsWithin id grown
          (λ k g. ground (
            arith,
            g,
            trimmed-Covered k,
            get-insert trimmed.loaded id k (record { resident_size_mb = size }),
          ))
          grown-Fits (rw (get-insert, eq_refl) refl)

    trimmed-IsWithin : IsWithin trimmed
    trimmed-IsWithin =
        (trimmed-Covered, omega (arith, trim_loaded_to_budget_fits limit none size s w.0 small))

  -- Making a model resident keeps every loaded model in the order and all of them together within
  -- the limit, on success as on every error; on success the model is resident.
  pub make_resident-IsWithin :
      (id : String) (size_mb : Option ℕ) (loads : Bool) (s : Residents)
      → IsWithin s
      → IsWithin (make_resident limit id size_mb loads s).1
        × ((make_resident limit id size_mb loads s).0 ≡ none
            → IsResident id (make_resident limit id size_mb loads s).1)
  unfolding make_resident
  make_resident-IsWithin id size_mb loads s w =
      elim (Bool-cases (is_some (HashMap.get s.loaded id))) [
        | inl t ↦
            let used = use_loaded-IsWithin id s (λ k g. ground (arith, w.0 k g)) w.1 t in
            rw t (used.0, λ e. used.1)
        | inr f ↦ absent size_mb loads f
      ]
    where
      absent :
          (size_mb : Option ℕ) (loads : Bool)
          → is_some (HashMap.get s.loaded id) ≡ false
          → IsWithin (make_resident limit id size_mb loads s).1
            × ((make_resident limit id size_mb loads s).0 ≡ none
                → IsResident id (make_resident limit id size_mb loads s).1)
      absent none loads f = rw f (w, λ e. cc)
      absent (some size) false f = elim (Bool-cases (ltb limit size)) [
        | inl big ↦ rw (f, big) (w, λ e. cc)
        | inr small ↦ rw (f, small) (trimmed-IsWithin id size s w f (ground arith), λ e. cc)
      ]
      absent (some size) true f = elim (Bool-cases (ltb limit size)) [
        | inl big ↦ rw (f, big) (w, λ e. cc)
        | inr small ↦
            let within = grown-IsWithin id size s w f (ground arith) in
            rw (f, small) (within.0, λ e. within.1)
      ]
