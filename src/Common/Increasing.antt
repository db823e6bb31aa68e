-- ===== src/Common/Increasing.antt =====
-- A strictly increasing list of texts is determined by what it contains.
use Prim.Native.String.{String}
use mathlib.Core.Path.{◌≡◌, refl, ◌∙◌, ap, sym, subst}
use mathlib.Core.Bool.{true, false}
use mathlib.Core.Logic.{inl, inr}
use mathlib.Core.List.{List, [], ◌∷◌}
use Prim.Native.String.compare as compare_laws
use native.Mathlib.Omega.{arith}
use text.Mathlib.Text.{◌==◌}
use text.Mathlib.TextEquality.{eq_iff}
use text.Mathlib.TextPositions.{eq_refl}
use jw_swarm.Common.Tests.{Bool-cases}
use jw_swarm.Common.Lists.{contains}
use jw_swarm.Common.Sort.{text_lt, Above, Increasing}

text_lt_trans : (s t u : String) → text_lt s t ≡ true → text_lt t u ≡ true → text_lt s u ≡ true
text_lt_trans String.[] String.[] u h g = ground (arith, compare_laws.nil-nil, h)
text_lt_trans String.[] (String.◌∷◌ d t) String.[] h g =
    ground (arith, compare_laws.cons-nil d t, g)
text_lt_trans String.[] (String.◌∷◌ d t) (String.◌∷◌ e u) h g =
    ground (arith, compare_laws.nil-cons e u)
text_lt_trans (String.◌∷◌ c s) String.[] u h g = ground (arith, compare_laws.cons-nil c s, h)
text_lt_trans (String.◌∷◌ c s) (String.◌∷◌ d t) String.[] h g =
    ground (arith, compare_laws.cons-nil d t, g)
text_lt_trans (String.◌∷◌ c s) (String.◌∷◌ d t) (String.◌∷◌ e u) h g = ground (
  arith,
  compare_laws.cons-cons c d s t,
  compare_laws.cons-cons d e t u,
  compare_laws.cons-cons c e s u,
  text_lt_trans s t u,
)

text_lt_irrefl : (s : String) → text_lt s s ≡ false
text_lt_irrefl String.[] = ground (arith, compare_laws.nil-nil)
text_lt_irrefl (String.◌∷◌ c s) = ground (arith, compare_laws.cons-cons c c s s, text_lt_irrefl s)

contains-Above :
    (x k : String) (ys : List String) → Above x ys → contains ys k ≡ true → text_lt x k ≡ true
contains-Above x k (y ∷ ys) a c =
    ground (arith, a.0, a.1, c, eq_iff y k, contains-Above y k ys, text_lt_trans x y k)
contains-Above x k [] a c = ground (arith, c)

Increasing-tail : (x : String) (xs : List String) → Above x xs → Increasing xs
Increasing-tail x [] a = tt
Increasing-tail x (y ∷ xs) a = a.1

same_head :
    (x y : String) (xs ys : List String)
    → Above x xs
    → Above y ys
    → ((k : String) → contains (x ∷ xs) k ≡ contains (y ∷ ys) k)
    → x ≡ y
same_head x y xs ys a b c = elim (Bool-cases (x == y)) [
  | inl t ↦ (eq_iff x y).0 t
  | inr f ↦
      let below : contains ys x ≡ true =
        ground (arith, c x, eq_refl x, f, eq_iff x y, eq_iff y x) in
      let above : contains xs y ≡ true =
        ground (arith, c y, eq_refl y, f, eq_iff x y, eq_iff y x) in
      ground (
        arith,
        text_lt_trans x y x (contains-Above x y xs a above) (contains-Above y x ys b below),
        text_lt_irrefl x,
      )
]

contains_below : (x k : String) (zs : List String) → Above x zs → x ≡ k → contains zs k ≡ false
contains_below x k zs d same = elim (Bool-cases (contains zs k)) [
  | inl g ↦ ground (arith, contains-Above x k zs d g, same, text_lt_irrefl x)
  | inr g ↦ g
]

contains_tail :
    (x : String) (xs ys : List String) (k : String)
    → Above x xs
    → Above x ys
    → contains (x ∷ xs) k ≡ contains (x ∷ ys) k
    → contains xs k ≡ contains ys k
contains_tail x xs ys k a b c = elim (Bool-cases (x == k)) [
  | inl t ↦
      let same = (eq_iff x k).0 t in
      contains_below x k xs a same ∙ sym (contains_below x k ys b same)
  | inr f ↦ ground (arith, c, f)
]

pub Increasing-ext :
    (xs ys : List String)
    → Increasing xs
    → Increasing ys
    → ((k : String) → contains xs k ≡ contains ys k)
    → xs ≡ ys
Increasing-ext [] [] a b c = refl
Increasing-ext [] (y ∷ ys) a b c = ground (arith, c y, eq_refl y)
Increasing-ext (x ∷ xs) [] a b c = ground (arith, c x, eq_refl x)
Increasing-ext (x ∷ xs) (y ∷ ys) a b c =
    let same = same_head x y xs ys a b c in
    let b' : Above x ys = subst (λ z. Above z ys) (sym same) b in
    let c' : (k : String) → contains xs k ≡ contains ys k =
      λ k. contains_tail x xs ys k a b' (c k ∙ ap (λ z. contains (z ∷ ys) k) (sym same)) in
    ap (λ z. z ∷ xs) same
    ∙ ap (λ zs. y ∷ zs) (Increasing-ext xs ys (Increasing-tail x xs a) (Increasing-tail y ys b) c')
