-- ===== src/Common/Sort.antt =====
-- `sort` and `dedup` on a `Vec<String>`. Texts are ordered by their bytes, which is the order of
-- `compare`.
use Prim.Native.String.{String, compare}
use mathlib.Core.Path.{◌≡◌, refl, ◌∙◌}
use mathlib.Core.Bool.{Bool, true, false, ◌||◌}
use mathlib.Core.List.{List, [], ◌∷◌}
use Prim.Native.String.compare as compare_laws
use native.Mathlib.Omega.{arith}
use text.Mathlib.Text.{◌==◌, is_lt, is_le}
use text.Mathlib.TextEquality.{eq_iff, path_by_compare}
use jw_swarm.Common.Tests.{if◌then◌else◌}
use jw_swarm.Common.Lists.{contains}

-- `s <= t`, `s < t`
abbrev pub text_le : String → String → Bool
text_le s t = is_le (compare s t)

abbrev pub text_lt : String → String → Bool
text_lt s t = is_lt (compare s t)

pub insert_sorted : String → List String → List String
insert_sorted x [] = x ∷ []
insert_sorted x (y ∷ ys) = if text_le x y then x ∷ y ∷ ys else y ∷ insert_sorted x ys

unfoldable pub sort : List String → List String
unfolding insert_sorted
sort [] = []
sort (x ∷ xs) = insert_sorted x (sort xs)

-- Drops an entry that equals the one kept before it.
pub dedup_after : String → List String → List String
dedup_after x [] = []
dedup_after x (y ∷ ys) = if y == x then dedup_after x ys else y ∷ dedup_after y ys

unfoldable pub dedup : List String → List String
unfolding dedup_after
dedup [] = []
dedup (x ∷ xs) = x ∷ dedup_after x xs

-- The order of the texts is total and transitive.
pub text_le-flip : (s t : String) → text_le s t ≡ false → text_lt t s ≡ true
text_le-flip String.[] String.[] h = ground (arith, compare_laws.nil-nil)
text_le-flip String.[] (String.◌∷◌ d t) h = ground (arith, compare_laws.nil-cons d t)
text_le-flip (String.◌∷◌ c s) String.[] h = ground (arith, compare_laws.nil-cons c s)
text_le-flip (String.◌∷◌ c s) (String.◌∷◌ d t) h =
    ground (arith, compare_laws.cons-cons c d s t, compare_laws.cons-cons d c t s, text_le-flip s t)

-- Strictly increasing: sorted, with no text twice.
abbrev pub Above : String → List String → Type 0
Above x [] = Unit
Above x (y ∷ ys) = (text_lt x y ≡ true) × Above y ys

abbrev pub Increasing : List String → Type 0
Increasing [] = Unit
Increasing (x ∷ xs) = Above x xs

-- Weakly increasing.
abbrev AtLeast : String → List String → Type 0
AtLeast x [] = Unit
AtLeast x (y ∷ ys) = (text_le x y ≡ true) × AtLeast y ys

abbrev Sorted : List String → Type 0
Sorted [] = Unit
Sorted (x ∷ xs) = AtLeast x xs

insert_sorted-AtLeast :
    (b x : String) (ys : List String)
    → text_le b x ≡ true
    → AtLeast b ys
    → AtLeast b (insert_sorted x ys)
unfolding insert_sorted
insert_sorted-AtLeast b x [] h a = (h, tt)
insert_sorted-AtLeast b x (y ∷ ys) h a =
    ground (arith, insert_sorted-AtLeast y x ys, text_le-flip x y)

insert_sorted-Sorted : (x : String) (ys : List String) → Sorted ys → Sorted (insert_sorted x ys)
unfolding insert_sorted
insert_sorted-Sorted x [] h = tt
insert_sorted-Sorted x (y ∷ ys) h = ground (arith, insert_sorted-AtLeast y x ys, text_le-flip x y)

sort-Sorted : (xs : List String) → Sorted (sort xs)
unfolding sort
sort-Sorted [] = tt
sort-Sorted (x ∷ xs) = insert_sorted-Sorted x (sort xs) (sort-Sorted xs)

dedup_after-Above : (x : String) (ys : List String) → AtLeast x ys → Above x (dedup_after x ys)
unfolding dedup_after
dedup_after-Above x [] h = tt
dedup_after-Above x (y ∷ ys) h =
    ground (arith, dedup_after-Above x ys, dedup_after-Above y ys, eq_iff y x, path_by_compare x y)

pub dedup-sort-Increasing : (xs : List String) → Increasing (dedup (sort xs))
unfolding dedup
dedup-sort-Increasing xs = go (sort xs) (sort-Sorted xs)
  where
    go : (ys : List String) → Sorted ys → Increasing (dedup ys)
    go [] h = tt
    go (y ∷ ys) h = dedup_after-Above y ys h

contains-insert_sorted :
    (k x : String) (ys : List String) → contains (insert_sorted x ys) k ≡ (x == k || contains ys k)
unfolding insert_sorted
contains-insert_sorted k x [] = refl
contains-insert_sorted k x (y ∷ ys) = ground (arith, contains-insert_sorted k x ys)

pub contains-sort : (k : String) (xs : List String) → contains (sort xs) k ≡ contains xs k
unfolding sort
contains-sort k [] = refl
contains-sort k (x ∷ xs) = rw contains-insert_sorted (ground (arith, contains-sort k xs))

contains-dedup_after :
    (k x : String) (ys : List String)
    → (x == k || contains (dedup_after x ys) k) ≡ (x == k || contains ys k)
unfolding dedup_after
contains-dedup_after k x [] = refl
contains-dedup_after k x (y ∷ ys) = ground (
  arith,
  contains-dedup_after k x ys,
  contains-dedup_after k y ys,
  eq_iff y x,
  eq_iff y k,
  eq_iff x k,
)

contains-dedup : (k : String) (xs : List String) → contains (dedup xs) k ≡ contains xs k
unfolding dedup
contains-dedup k [] = refl
contains-dedup k (x ∷ xs) = contains-dedup_after k x xs

pub contains-dedup-sort :
    (k : String) (xs : List String) → contains (dedup (sort xs)) k ≡ contains xs k
contains-dedup-sort k xs = contains-dedup k (sort xs) ∙ contains-sort k xs
