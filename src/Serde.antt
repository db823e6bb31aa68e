-- ===== src/Serde.antt =====
-- What the derived serde instances of both proto.rs files share: a JSON document as a tree, and the
-- derived readers and writers of integers, floats, structs, unit variants and tagged enums, as
-- serde documents them for `#[derive(Serialize, Deserialize)]`. The text of a tree is serde_json's.
use Prim.Native.Nat.{◌/◌, ◌%◌, ◌^◌}
use jw_swarm.Common.{
  ℕ, zero, suc, ◌+◌, String, List, [], ◌∷◌, Bool, true, not, ◌&&◌, Option, none, some, ltb, eqb,
  if◌then◌else◌, ◌==◌, ◌≡◌, ◌<◌, refl, arith, map_option, All,
}
use jw_swarm.Proto.{Value}
use jw_swarm.Float.{F64, Floats, zero_f}

mutual
  pub data Tree : Type 0 where
    null : Tree
    bool : Bool → Tree
    nat : ℕ → Tree
    -- -(n + 1)
    negative : ℕ → Tree
    float : F64 → Tree
    str : String → Tree
    array : Items → Tree
    object : Entries → Tree

  pub data Items : Type 0 where
    nil : Items
    item : Tree → Items → Items

  -- in the order of the document, repeated keys included
  pub data Entries : Type 0 where
    end : Entries
    entry : String → Tree → Entries → Entries

infixl 5 ◌>>=◌
abbrev pub ◌>>=◌ {ℓ κ} : {A : Type ℓ} {B : Type κ} → Option A → (A → Option B) → Option B
none >>= f = none
some a >>= f = f a

abbrev pub count : Items → ℕ
count nil = 0
count (item x xs) = suc (count xs)

abbrev pub nth : ℕ → Items → Option Tree
nth i nil = none
nth zero (item x xs) = some x
nth (suc i) (item x xs) = nth i xs

abbrev pub absent : String → Entries → Bool
absent k end = true
absent k (entry j t es) = not (j == k) && absent k es

-- A key that a struct knows must not be missing, nor stand twice.
abbrev pub get_once : String → Entries → Option Tree
get_once k end = none
get_once k (entry j t es) = if j == k then (if absent k es then some t else none) else get_once k es

-- Field number `i` of the `n` of a struct, which is read from an object or from an array.
abbrev pub field : String → ℕ → ℕ → Tree → Option Tree
field k i n (object es) = get_once k es
field k i n (array xs) = if eqb (count xs) n then nth i xs else none
field k i n _ = none

-- The payload of an adjacently tagged enum, which may be missing, but not stand twice.
abbrev pub content : Tree → Option (Option Tree)
content (object es) =
    if absent "payload" es then some none else map_option some (get_once "payload" es)
content (array xs) = map_option some (if eqb (count xs) 2 then nth 1 xs else none)
content _ = none

-- A unit variant is its name, or an object from its name to null.
abbrev pub variant : Tree → Option String
variant (str s) = some s
variant (object (entry k null end)) = some k
variant _ = none

abbrev pub read_str : Tree → Option String
read_str (str s) = some s
read_str _ = none

-- An unsigned integer of `w` bits.
abbrev pub read_uint : ℕ → Tree → Option ℕ
read_uint w (nat n) = if ltb n (2 ^ w) then some n else none
read_uint w _ = none

abbrev pub read_f64 : Floats → Tree → Option F64
read_f64 fl (float x) = some x
read_f64 fl (nat n) = some (fl.of_ℕ n)
read_f64 fl (negative n) = some (fl.sub (zero_f fl) (fl.of_ℕ (n + 1)))
read_f64 fl _ = none

-- Neither infinite nor a NaN: the exponent's bits are not all set.
unfoldable pub is_finite : F64 → Bool
is_finite x = not (eqb (x.bits / 2 ^ 52 % 2 ^ 11) 2047)

-- JSON has no text for the other floats, and serde_json writes null.
abbrev pub write_f64 : F64 → Tree
write_f64 x = if is_finite x then float x else null

-- serde_json's text of a tree, and its own `Value` as a tree.
pub record Values : Type 0 where
  pub to_string : Tree → Option String
  pub from_str : String → Option Tree
  pub to_tree : Value → Tree
  pub of_tree : Tree → Value

abbrev pub tagged : String → Tree → Tree
tagged name payload = object (entry "type" (str name) (entry "payload" payload end))

abbrev pub newtype {ℓ κ} :
    {A : Type ℓ} {M : Type κ} → (A → M) → (Tree → Option A) → Option Tree → Option M
newtype make read none = none
newtype make read (some t) = map_option make (read t)

abbrev pub unit_variant {ℓ} : {M : Type ℓ} → M → Option Tree → Option M
unit_variant m none = some m
unit_variant m (some null) = some m
unit_variant m (some _) = none

module _ {ℓ} {A : Type ℓ} where
  unfoldable pub write_items : (A → Tree) → List A → Items
  write_items write [] = nil
  write_items write (x ∷ xs) = item (write x) (write_items write xs)

  unfoldable pub read_items : (Tree → Option A) → Items → Option (List A)
  read_items read nil = some []
  read_items read (item t ts) = do x ← read t; xs ← read_items read ts; some (x ∷ xs)

  abbrev pub read_list : (Tree → Option A) → Tree → Option (List A)
  read_list read (array ts) = read_items read ts
  read_list read _ = none

  -- A list is read back if each of its entries is.
  pub read_items-write_items {κ} :
      {P : A → Type κ} (write : A → Tree) (read : Tree → Option A)
      (each : (x : A) → P x → read (write x) ≡ some x) (xs : List A)
      → All P xs
      → read_items read (write_items write xs) ≡ some xs
  unfolding write_items read_items
  read_items-write_items write read each [] h = refl
  read_items-write_items write read each (x ∷ xs) h =
      rw (each x h.0, read_items-write_items write read each xs h.1) refl

pub read_strings-write_strings :
    (xs : List String) → read_items read_str (write_items str xs) ≡ some xs
unfolding read_items write_items
read_strings-write_strings [] = refl
read_strings-write_strings (x ∷ xs) = rw (read_strings-write_strings xs) refl

pub read_uint-nat : (w n : ℕ) → n < 2 ^ w → read_uint w (nat n) ≡ some n
read_uint-nat w n h = ground arith

pub read_f64-write_f64 :
    (fl : Floats) (x : F64) → is_finite x ≡ true → read_f64 fl (write_f64 x) ≡ some x
read_f64-write_f64 fl x h = ground arith
