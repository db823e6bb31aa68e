-- ===== src/Node/Backend/Trim.antt =====
-- What the trimming loop leaves, and that its fuel is enough.
use jw_swarm.Common.{
  ℕ, zero, suc, ◌+◌, ◌≤◌, ◌<◌, String, List, [], ◌∷◌, Bool, true, false, not, ◌&&◌, Option, none,
  some, is_some, find, select, contains, length, leb, ◌==◌, ◌≡◌, refl, arith, eq_iff, Option-cases,
  Bool-cases, inl, inr, ◌⊎◌, eq_refl, leb→le,
}
use jw_swarm.Common.HashMap
use jw_swarm.Common.HashMap.{HashMap, get-remove}
use jw_swarm.Node.Backend.{
  LoadedModel, Residents, is_preferred, resident, candidate, unload, trim_loop,
  trim_loaded_to_budget,
}

-- Every loaded model stands in the order.
abbrev pub Covered : Residents → Type 0
Covered s =
    (k : String) → is_some (HashMap.get s.loaded k) ≡ true → contains s.loaded_order k ≡ true

pub resident-remove :
    (p : Option String) (m : HashMap LoadedModel) (k : String)
    → resident p (HashMap.remove m k) ≤ resident p m
unfolding resident HashMap.remove
resident-remove p [] k = ground arith
resident-remove p ((j, v) ∷ m) k = ground (arith, resident-remove p m k)

length-remove : (m : HashMap LoadedModel) (k : String) → length (HashMap.remove m k) ≤ length m
unfolding HashMap.remove
length-remove [] k = ground arith
length-remove ((j, v) ∷ m) k = ground (arith, length-remove m k)

length-remove_found :
    (m : HashMap LoadedModel) (k : String)
    → is_some (HashMap.get m k) ≡ true
    → length (HashMap.remove m k) < length m
unfolding HashMap.remove HashMap.get
length-remove_found [] k h = cc
length-remove_found ((j, v) ∷ m) k h = ground (arith, length-remove m k, length-remove_found m k)

resident_zero :
    (p : Option String) (m : HashMap LoadedModel)
    → ((k : String) → is_some (HashMap.get m k) ≡ true → is_preferred p k ≡ true)
    → resident p m ≡ 0
unfolding resident HashMap.get
resident_zero p [] h = refl
resident_zero p ((j, v) ∷ m) h =
    let head = h j (rw eq_refl refl) in
    ground (arith, head, resident_zero p m (λ k g. h k (ground (arith, g))))

find-none :
    (f : String → Bool) (xs : List String) (k : String)
    → find f xs ≡ none
    → contains xs k ≡ true
    → f k ≡ false
find-none f [] k e c = cc
find-none f (x ∷ xs) k e c = ground (arith, find-none f xs k, eq_iff x k, eq_iff k x)

find-some : (f : String → Bool) (xs : List String) (k : String) → find f xs ≡ some k → f k ≡ true
find-some f [] k e = cc
find-some f (x ∷ xs) k e = ground (arith, find-some f xs k)

pub contains-select :
    (f : String → Bool) (xs : List String) (k : String)
    → contains (select f xs) k ≡ (contains xs k && f k)
contains-select f [] k = refl
contains-select f (x ∷ xs) k = ground (arith, contains-select f xs k, eq_iff x k, eq_iff k x)

pub unload-Covered : (k : String) (s : Residents) → Covered s → Covered (unload k s)
unload-Covered k s h j g =
    rw (contains-select (λ x. not (x == k)) s.loaded_order j)
      (ground (arith, h j, get-remove s.loaded k j, eq_iff k j, eq_iff j k))

module _ (limit : ℕ) (p : Option String) (r : ℕ) where
  -- The loop has nothing left to do.
  abbrev pub Settled : Residents → Type 0
  Settled s = (resident p s.loaded + r ≤ limit) ⊎ (candidate p s ≡ none)

  candidate-found :
      (k : String) (s : Residents)
      → candidate p s ≡ some k
      → (is_preferred p k ≡ false) × (is_some (HashMap.get s.loaded k) ≡ true)
  candidate-found k s e =
      let found =
        find-some (λ id. not (is_preferred p id) && is_some (HashMap.get s.loaded id))
          s.loaded_order k e in
      (ground (arith, found), ground (arith, found))

  -- What holds of the tables and is kept by every unloading of a model that is not preferred.
  pub trim_loop_keeps {ℓ} :
      (P : Residents → Type ℓ)
      → ((k : String) (s : Residents)
          → is_preferred p k ≡ false
          → is_some (HashMap.get s.loaded k) ≡ true
          → P s
          → P (unload k s))
      → (fuel : ℕ) (s : Residents) → P s
      → P (trim_loop fuel limit p r s)
  unfolding trim_loop
  trim_loop_keeps P step zero s h = h
  trim_loop_keeps P step (suc fuel) s h = elim (Bool-cases (leb (resident p s.loaded + r) limit)) [
    | inl t ↦ rw t h
    | inr f ↦ elim (Option-cases (candidate p s)) [
      | inl n ↦ rw (f, n) h
      | inr (k, e) ↦
          let found = candidate-found k s e in
          rw (f, e) (trim_loop_keeps P step fuel (unload k s) (step k s found.0 found.1 h))
    ]
  ]

  trim_loop-Settled :
      (fuel : ℕ) (s : Residents) → length s.loaded ≤ fuel → Settled (trim_loop fuel limit p r s)
  unfolding trim_loop
  trim_loop-Settled zero s h = elim (Option-cases (candidate p s)) [
    | inl n ↦ inr n
    | inr (k, e) ↦ ground (arith, length-remove_found s.loaded k (candidate-found k s e).1, h)
  ]
  trim_loop-Settled (suc fuel) s h = elim (Bool-cases (leb (resident p s.loaded + r) limit)) [
    | inl t ↦ rw t (inl (leb→le _ _ t))
    | inr f ↦ elim (Option-cases (candidate p s)) [
      | inl n ↦ rw (f, n) (inr n)
      | inr (k, e) ↦
          rw (f, e)
            (trim_loop-Settled fuel (unload k s)
              (omega (arith, length-remove_found s.loaded k (candidate-found k s e).1, h)))
    ]
  ]

  pub trim_loop-Covered :
      (fuel : ℕ) (s : Residents) → Covered s → Covered (trim_loop fuel limit p r s)
  trim_loop-Covered fuel s = trim_loop_keeps Covered (λ k s n g c. unload-Covered k s c) fuel s

  -- Nothing but the preferred model is left when there is no candidate.
  no_candidate : (s : Residents) → Covered s → candidate p s ≡ none → resident p s.loaded ≡ 0
  no_candidate s c n = resident_zero p s.loaded λ k g. ground (
    arith,
    g,
    find-none (λ id. not (is_preferred p id) && is_some (HashMap.get s.loaded id)) s.loaded_order k
        n (c k g),
  )

  -- If every loaded model stands in the order and the reservation alone is within the limit, the
  -- loop ends with the reservation and the models but the preferred one within the limit.
  pub trim_loaded_to_budget_fits :
      (s : Residents)
      → Covered s
      → r ≤ limit
      → resident p (trim_loaded_to_budget limit p r s).loaded + r ≤ limit
  unfolding trim_loaded_to_budget
  trim_loaded_to_budget_fits s c b = elim (trim_loop-Settled (length s.loaded) s (omega arith)) [
    | inl fits ↦ fits
    | inr none_left ↦ omega (
      arith,
      no_candidate (trim_loop (length s.loaded) limit p r s)
          (trim_loop-Covered (length s.loaded) s c) none_left,
      b,
    )
  ]
