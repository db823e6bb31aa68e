-- ===== src/Common/Order.antt =====
-- `ORDER BY`: a stable sort by a Boolean test of "may stand before".
use mathlib.Core.Path.{◌≡◌, refl, ap, ◌∙◌}
use mathlib.Core.Bool.{Bool, true, false}
use mathlib.Core.List.{List, [], ◌∷◌, Perm}
use mathlib.Core.List.Perm
use native.Mathlib.Omega.{arith}
use jw_swarm.Common.Tests.{if◌then◌else◌, Bool-cases}
use mathlib.Core.Logic.{inl, inr}
use jw_swarm.Common.Lists.{All, length}
use Prim.Native.Nat.{suc}

module _ {ℓ} {A : Type ℓ} (before : A → A → Bool) where
  pub insert_by : A → List A → List A
  insert_by x [] = x ∷ []
  insert_by x (y ∷ ys) = if before x y then x ∷ y ∷ ys else y ∷ insert_by x ys

  unfoldable pub order_by : List A → List A
  unfolding insert_by
  order_by [] = []
  order_by (x ∷ xs) = insert_by x (order_by xs)

  insert_by-perm : (x : A) (ys : List A) → Perm (insert_by x ys) (x ∷ ys)
  unfolding insert_by
  insert_by-perm x [] = Perm.refl (x ∷ [])
  insert_by-perm x (y ∷ ys) = elim (Bool-cases (before x y)) [
    | inl t ↦ rw t (Perm.refl (x ∷ y ∷ ys))
    | inr f ↦ rw f (Perm.trans (Perm.cons y (insert_by-perm x ys)) (Perm.swap x y ys))
  ]

  pub order_by-perm : (xs : List A) → Perm (order_by xs) xs
  unfolding order_by
  order_by-perm [] = Perm.refl []
  order_by-perm (x ∷ xs) =
      Perm.trans (insert_by-perm x (order_by xs)) (Perm.cons x (order_by-perm xs))

  length-insert_by : (x : A) (ys : List A) → length (insert_by x ys) ≡ suc (length ys)
  unfolding insert_by
  length-insert_by x [] = refl
  length-insert_by x (y ∷ ys) = ground (arith, length-insert_by x ys)

  pub length-order_by : (xs : List A) → length (order_by xs) ≡ length xs
  unfolding order_by
  length-order_by [] = refl
  length-order_by (x ∷ xs) = length-insert_by x (order_by xs) ∙ ap suc (length-order_by xs)

  -- Every entry may stand before the next.
  abbrev pub From : A → List A → Type 0
  From x [] = Unit
  From x (y ∷ ys) = (before x y ≡ true) × From y ys

  abbrev pub IsOrdered : List A → Type 0
  IsOrdered [] = Unit
  IsOrdered (x ∷ xs) = From x xs

  module _ (P : A → Type 0) where
    insert_by-All : (x : A) (ys : List A) → P x → All P ys → All P (insert_by x ys)
    unfolding insert_by
    insert_by-All x [] p a = (p, tt)
    insert_by-All x (y ∷ ys) p a = ground (arith, insert_by-All x ys p a.1)

    pub order_by-All : (xs : List A) → All P xs → All P (order_by xs)
    unfolding order_by
    order_by-All [] a = tt
    order_by-All (x ∷ xs) a = insert_by-All x (order_by xs) a.0 (order_by-All xs a.1)

  -- The test compares any two entries of which `P` holds.
  module _ (P : A → Type 0)
      (total : (x y : A) → P x → P y → before x y ≡ false → before y x ≡ true) where
    insert_by-From :
        (b x : A) (ys : List A)
        → P x
        → All P ys
        → before b x ≡ true
        → From b ys
        → From b (insert_by x ys)
    unfolding insert_by
    insert_by-From b x [] p a h f = (h, tt)
    insert_by-From b x (y ∷ ys) p a h f =
        ground (arith, total x y p a.0, insert_by-From y x ys p a.1)

    insert_by-IsOrdered :
        (x : A) (ys : List A) → P x → All P ys → IsOrdered ys → IsOrdered (insert_by x ys)
    unfolding insert_by
    insert_by-IsOrdered x [] p a o = tt
    insert_by-IsOrdered x (y ∷ ys) p a o =
        ground (arith, total x y p a.0, insert_by-From y x ys p a.1)

    pub order_by-IsOrdered : (xs : List A) → All P xs → IsOrdered (order_by xs)
    unfolding order_by
    order_by-IsOrdered [] a = tt
    order_by-IsOrdered (x ∷ xs) a =
        insert_by-IsOrdered x (order_by xs) a.0 (order_by-All P xs a.1) (order_by-IsOrdered xs a.1)
