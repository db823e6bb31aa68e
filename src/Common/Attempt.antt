-- ===== src/Common/Attempt.antt =====
-- `Result<A, anyhow::Error>`: a value, or the text of an error.
use Prim.Native.String.{String}
use mathlib.Core.Path.{◌≡◌, refl}
use mathlib.Core.Logic.{◌⊎◌, inl, inr}

pub data Attempt {ℓ} (A : Type ℓ) : Type ℓ where
  ok : A → Attempt A
  err : String → Attempt A

pub Attempt-cases {ℓ} :
    {A : Type ℓ} (t : Attempt A) → ((e : String) × (t ≡ err e)) ⊎ ((a : A) × (t ≡ ok a))
Attempt-cases (ok a) = inr (a, refl)
Attempt-cases (err e) = inl (e, refl)
