-- ===== src/Common/HashMap.antt =====
-- `HashMap<String, V>` as an association list. The order of the entries is the iteration order,
-- which Rust leaves open.
use jw_swarm.Common.Tests.{if◌then◌else◌}
use Prim.Native.String.{String}
use mathlib.Core.Path.{◌≡◌, refl, sym, subst, ◌∙◌}
use mathlib.Core.Bool.{Bool, true, false}
use text.Mathlib.TextPositions.{eq_refl}
use mathlib.Core.Option.{Option, none, some, some-injective}
use mathlib.Core.List.{List, [], ◌∷◌}
use native.Mathlib.Omega.{arith}
use text.Mathlib.Text.{◌==◌}
use text.Mathlib.TextEquality.{eq_iff}
use jw_swarm.Common.Tests.{map_option}
use jw_swarm.Common.Lists.{All}

abbrev pub HashMap {ℓ} : Type ℓ → Type ℓ
HashMap V = List (String × V)

module _ {ℓ} {V : Type ℓ} where
  -- map.get(k)
  unfoldable pub get : HashMap V → String → Option V
  get [] k = none
  get ((j, v) ∷ m) k = if j == k then some v else get m k

  -- map.insert(k, v)
  unfoldable pub insert : HashMap V → String → V → HashMap V
  insert [] k v = (k, v) ∷ []
  insert ((j, w) ∷ m) k v = if j == k then (k, v) ∷ m else (j, w) ∷ insert m k v

  -- map.remove(k)
  unfoldable pub remove : HashMap V → String → HashMap V
  remove [] k = []
  remove ((j, w) ∷ m) k = if j == k then remove m k else (j, w) ∷ remove m k

  -- if let Some(v) = map.get_mut(k) { *v = f(*v) }
  unfoldable pub modify : HashMap V → String → (V → V) → HashMap V
  modify [] k f = []
  modify ((j, w) ∷ m) k f = if j == k then (j, f w) ∷ m else (j, w) ∷ modify m k f

  -- map.values()
  unfoldable pub values : HashMap V → List V
  values [] = []
  values ((j, v) ∷ m) = v ∷ values m

  pub get-insert :
      (m : HashMap V) (k j : String) (v : V)
      → get (insert m k v) j ≡ (if k == j then some v else get m j)
  unfolding get insert
  get-insert [] k j v = refl
  get-insert ((i, w) ∷ m) k j v =
      ground (arith, get-insert m k j v, eq_iff i k, eq_iff i j, eq_iff k j)

  pub get-remove :
      (m : HashMap V) (k j : String) → get (remove m k) j ≡ (if k == j then none else get m j)
  unfolding get remove
  get-remove [] k j = ground arith
  get-remove ((i, w) ∷ m) k j = ground (arith, get-remove m k j, eq_iff i k, eq_iff i j, eq_iff k j)

  pub get-modify :
      (m : HashMap V) (k j : String) (f : V → V)
      → get (modify m k f) j ≡ (if k == j then map_option f (get m j) else get m j)
  unfolding get modify
  get-modify [] k j f = ground arith
  get-modify ((i, w) ∷ m) k j f =
      ground (arith, get-modify m k j f, eq_iff i k, eq_iff i j, eq_iff k j)

  -- No key stands twice.
  abbrev pub Distinct : HashMap V → Type ℓ
  Distinct [] = Unit
  Distinct ((k, v) ∷ m) = (get m k ≡ none) × Distinct m

  pub insert-Distinct : (m : HashMap V) (k : String) (v : V) → Distinct m → Distinct (insert m k v)
  unfolding insert get
  insert-Distinct [] k v d = (refl, tt)
  insert-Distinct ((i, w) ∷ m) k v d =
      ground (arith, get-insert m k i v, insert-Distinct m k v d.1, eq_iff i k, eq_iff k i)

  pub remove-Distinct : (m : HashMap V) (k : String) → Distinct m → Distinct (remove m k)
  unfolding remove
  remove-Distinct [] k d = tt
  remove-Distinct ((i, w) ∷ m) k d = ground (arith, get-remove m k i, remove-Distinct m k d.1)

  pub modify-Distinct :
      (m : HashMap V) (k : String) (f : V → V) → Distinct m → Distinct (modify m k f)
  unfolding modify
  modify-Distinct [] k f d = tt
  modify-Distinct ((i, w) ∷ m) k f d =
      ground (arith, get-modify m k i f, modify-Distinct m k f d.1, eq_iff i k, eq_iff k i)

-- Holds of every key with its value.
abbrev pub Each {ℓ κ} : {V : Type ℓ} → (String → V → Type κ) → HashMap V → Type (ℓ ⊔ κ)
Each {V} P m = (k : String) (v : V) → get m k ≡ some v → P k v

module _ {ℓ κ} {V : Type ℓ} (Q : V → Type κ) where
  get_if :
      (b : Bool) (v x : V) (o : Option V)
      → (b ≡ true → Q x)
      → (o ≡ some v → Q v)
      → (if b then some x else o) ≡ some v
      → Q v
  get_if true v x o p q e = subst Q (some-injective _ _ e) (p refl)
  get_if false v x o p q e = q e

  mapped :
      (f : V → V) (w : V) (o : Option V)
      → ((v : V) → Q v → Q (f v))
      → ((v : V) → o ≡ some v → Q v)
      → map_option f o ≡ some w
      → Q w
  mapped f w none g h e = cc
  mapped f w (some v) g h e = subst Q (some-injective _ _ e) (g v (h v refl))

module _ {ℓ κ} {V : Type ℓ} {P : String → V → Type κ} where
  pub insert-Each : (m : HashMap V) (k : String) (v : V) → Each P m → P k v → Each P (insert m k v)
  insert-Each m k v h p j w e =
      get_if (P j) (k == j) w v (get m j) (λ t. subst (λ i. P i v) ((eq_iff k j).0 t) p) (h j w)
        (sym (get-insert m k j v) ∙ e)

  pub remove-Each : (m : HashMap V) (k : String) → Each P m → Each P (remove m k)
  remove-Each m k h j w e = h j w (without (k == j) (get m j) (sym (get-remove m k j) ∙ e))
    where
      without : (b : Bool) (o : Option V) → (if b then none else o) ≡ some w → o ≡ some w
      without true o e = cc
      without false o e = e

  pub modify-Each :
      (m : HashMap V) (k : String) (f : V → V)
      → Each P m
      → ((v : V) → P k v → P k (f v))
      → Each P (modify m k f)
  modify-Each m k f h g j w e = go (k == j) refl (sym (get-modify m k j f) ∙ e)
    where
      go :
          (b : Bool)
          → (k == j) ≡ b
          → (if b then map_option f (get m j) else get m j) ≡ some w
          → P j w
      go true t e =
          mapped (P j) f w (get m j) (subst (λ i. (v : V) → P i v → P i (f v)) ((eq_iff k j).0 t) g)
            (h j) e
      go false t e = h j w e

-- With distinct keys every value stands under its key, and is what a lookup of that key gives.
pub values-Each {ℓ κ} :
    {V : Type ℓ} {P : V → Type κ} (m : HashMap V)
    → Distinct m
    → ((k : String) (v : V) → get m k ≡ some v → P v)
    → All P (values m)
unfolding values get
values-Each [] d h = tt
values-Each {P} ((k, v) ∷ m) d h =
    (h k v (rw eq_refl), values-Each m d.1 (λ j w e. h j w (rw (other j w e) e)))
  where
    other : (j : String) (w : _) → get m j ≡ some w → (k == j) ≡ false
    other j w e = ground (arith, eq_iff k j)

pub ruleset map_laws = (get-insert, get-remove, get-modify)
