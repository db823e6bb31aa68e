-- ===== src/Db/Tokens/Rows.antt =====
-- Rows of the token table: unique hashes, spent tokens, and how many rows an update meets.
use jw_swarm.Common.{
  String, List, [], ◌∷◌, ◌++◌, Bool, true, false, ◌&&◌, ◌||◌, not, ◌≡◌, refl, arith, any, eqb,
  is_some, ◌==◌, eq_iff,
}
use jw_swarm.Db.Schema.{EnrollmentTokenRow}
use jw_swarm.Db.Tokens.{has_hash, update_where, rows_affected, consumable, mark_used}

-- The primary key: no hash stands twice.
abbrev pub Unique : List EnrollmentTokenRow → Type 0
Unique [] = Unit
Unique (r ∷ rs) = (has_hash r.token_hash rs ≡ false) × Unique rs

module _ (p : EnrollmentTokenRow → Bool) (f : EnrollmentTokenRow → EnrollmentTokenRow) where
  module _ (keeps : (r : EnrollmentTokenRow) → (f r).token_hash ≡ r.token_hash) where
    pub has_hash-update_where :
        (h : String) (rs : List EnrollmentTokenRow)
        → has_hash h (update_where p f rs) ≡ has_hash h rs
    unfolding update_where
    has_hash-update_where h [] = refl
    has_hash-update_where h (r ∷ rs) = ground (arith, has_hash-update_where h rs, keeps r)

    pub update_where-Unique :
        (rs : List EnrollmentTokenRow) → Unique rs → Unique (update_where p f rs)
    unfolding update_where
    update_where-Unique [] u = tt
    update_where-Unique (r ∷ rs) u = ground (
      arith,
      update_where-Unique rs,
      has_hash-update_where r.token_hash rs,
      has_hash-update_where (f r).token_hash rs,
      keeps r,
    )

pub has_hash-append :
    (h : String) (rs : List EnrollmentTokenRow) (r : EnrollmentTokenRow)
    → has_hash h (rs ++ r ∷ []) ≡ (has_hash h rs || (r.token_hash == h))
has_hash-append h [] r = ground arith
has_hash-append h (x ∷ rs) r = ground (arith, has_hash-append h rs r)

pub append-Unique :
    (rs : List EnrollmentTokenRow) (r : EnrollmentTokenRow)
    → has_hash r.token_hash rs ≡ false
    → Unique rs
    → Unique (rs ++ r ∷ [])
append-Unique [] r h u = (refl, tt)
append-Unique (x ∷ rs) r h u = ground (
  arith,
  append-Unique rs r,
  has_hash-append x.token_hash rs r,
  eq_iff r.token_hash x.token_hash,
  eq_iff x.token_hash r.token_hash,
)

-- Every row with the hash is used.
abbrev pub spent : String → List EnrollmentTokenRow → Bool
spent h [] = true
spent h (r ∷ rs) = (not (r.token_hash == h) || is_some r.used_at) && spent h rs

pub spent-append :
    (h : String) (rs : List EnrollmentTokenRow) (r : EnrollmentTokenRow)
    → spent h rs ≡ true
    → (r.token_hash == h) ≡ false
    → spent h (rs ++ r ∷ []) ≡ true
spent-append h [] r s n = ground arith
spent-append h (x ∷ rs) r s n = ground (arith, spent-append h rs r)

-- An update that keeps the hashes and unsets no use keeps a token spent.
pub spent-update_where :
    (p : EnrollmentTokenRow → Bool) (f : EnrollmentTokenRow → EnrollmentTokenRow)
    → ((r : EnrollmentTokenRow) → (f r).token_hash ≡ r.token_hash)
    → ((r : EnrollmentTokenRow) → is_some (f r).used_at ≡ true)
    → (h : String) (rs : List EnrollmentTokenRow) → spent h rs ≡ true
    → spent h (update_where p f rs) ≡ true
unfolding update_where
spent-update_where p f keeps uses h [] s = refl
spent-update_where p f keeps uses h (r ∷ rs) s =
    ground (arith, spent-update_where p f keeps uses h rs, keeps r, uses r)

-- No row of a spent token can be consumed.
pub rows_affected-spent :
    (h node now : String) (rs : List EnrollmentTokenRow)
    → spent h rs ≡ true
    → rows_affected (consumable h node now) rs ≡ 0
unfolding rows_affected
rows_affected-spent h node now [] s = refl
rows_affected-spent h node now (r ∷ rs) s = ground (arith, rows_affected-spent h node now rs)

-- Rows of another hash are not touched.
pub rows_affected-absent :
    (h node now : String) (rs : List EnrollmentTokenRow)
    → has_hash h rs ≡ false
    → rows_affected (consumable h node now) rs ≡ 0
unfolding rows_affected
rows_affected-absent h node now [] s = refl
rows_affected-absent h node now (r ∷ rs) s = ground (arith, rows_affected-absent h node now rs)

pub spent-absent :
    (h : String) (rs : List EnrollmentTokenRow) → has_hash h rs ≡ false → spent h rs ≡ true
spent-absent h [] n = refl
spent-absent h (r ∷ rs) n = ground (arith, spent-absent h rs)

-- With the hash unique, one row is affected exactly if some row can be consumed.
pub rows_affected-any :
    (h node now : String) (rs : List EnrollmentTokenRow)
    → Unique rs
    → eqb (rows_affected (consumable h node now) rs) 1 ≡ any (consumable h node now) rs
unfolding rows_affected
rows_affected-any h node now [] u = refl
rows_affected-any h node now (r ∷ rs) u = ground (
  arith,
  rows_affected-any h node now rs,
  rows_affected-absent h node now rs,
  eq_iff r.token_hash h,
)

-- Consuming a token that can be consumed spends it.
pub spent-consumed :
    (h node now : String) (rs : List EnrollmentTokenRow)
    → Unique rs
    → any (consumable h node now) rs ≡ true
    → (has_hash h rs ≡ true)
      × (spent h (update_where (consumable h node now) (mark_used now) rs) ≡ true)
unfolding update_where
spent-consumed h node now [] u a = cc
spent-consumed h node now (r ∷ rs) u a = ground (
  arith,
  spent-consumed h node now rs,
  eq_iff r.token_hash h,
  spent-absent h (update_where (consumable h node now) (mark_used now) rs),
  has_hash-update_where (consumable h node now) (mark_used now) (λ r. refl) h rs,
)
