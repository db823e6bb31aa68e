-- ===== src/Admin/Reports.antt =====
-- What the reports say of the tables.
use jw_swarm.Common.{
  ℕ, ◌+◌, ◌^◌, ◌<◌, String, List, [], ◌∷◌, ◌++◌, Option, none, some, true, false, unwrap_or, map,
  All, length, ◌≡◌, refl, arith, subst, sym, ◌∙◌, ap,
}
use mathlib.Core.List.{Perm}
use jw_swarm.Common.Sort.{text_le, text_le-flip}
use native.Mathlib.Nat.{mod-eq_of_lt}
use jw_swarm.Common.Order.{
  length-order_by, order_by-All, order_by, IsOrdered, order_by-perm, order_by-IsOrdered,
}
use jw_swarm.Common.HashMap
use jw_swarm.Common.HashMap.{HashMap}
use jw_swarm.Float.{F64, Floats, zero_f, IsNumber, CmpLaws}
use jw_swarm.Db.Schema.{Db, LedgerRow, Conditions}
use jw_swarm.Db.Ledger.{IsBalanced, earned, plus}
use jw_swarm.Admin.{
  AdminNodeInfo, LedgerEntry, NodeEarnings, LeaderboardEntry, rows, node_info, seen_later,
  admin_nodes, ledger_of, created_later, admin_node_earnings, earned_more, ranked,
  admin_leaderboard, NodeRow,
}

text_le-total : (s t : String) → text_le s t ≡ false → text_le t s ≡ true
text_le-total s t h = ground (arith, text_le-flip s t h)

All-unit {ℓ} : {A : Type ℓ} (xs : List A) → All (λ x. Unit {0}) xs
All-unit [] = tt
All-unit (x ∷ xs) = (tt, All-unit xs)

module _ (fl : Floats) where
  -- The points of the entries, added up from the oldest.
  abbrev pub sum_points : Option F64 → List LedgerEntry → Option F64
  sum_points total [] = total
  sum_points total (e ∷ es) = sum_points (some (plus fl total e.points)) es

  earned-sum_points :
      (k : String) (total : Option F64) (ledger : List LedgerRow)
      → earned fl k total ledger ≡ sum_points total (ledger_of k ledger)
  unfolding earned
  earned-sum_points k total [] = refl
  earned-sum_points k total (r ∷ rs) =
      ground (
        arith,
        earned-sum_points k total rs,
        earned-sum_points k (some (plus fl total r.points)) rs,
      )

  -- Each entry was created at the time of the next or later, as texts compare.
  abbrev pub NewestFirst : List LedgerEntry → Type 0
  NewestFirst [] = Unit
  NewestFirst (e ∷ []) = Unit
  NewestFirst (e ∷ f ∷ es) = (text_le f.created_at e.created_at ≡ true) × NewestFirst (f ∷ es)

  IsOrdered-NewestFirst : (es : List LedgerEntry) → IsOrdered created_later es → NewestFirst es
  IsOrdered-NewestFirst [] h = tt
  IsOrdered-NewestFirst (e ∷ []) h = tt
  IsOrdered-NewestFirst (e ∷ f ∷ es) h = (h.0, IsOrdered-NewestFirst (f ∷ es) h.1)

  ledger_of-append :
      (k : String) (rs new : List LedgerRow)
      → ledger_of k (rs ++ new) ≡ ledger_of k rs ++ ledger_of k new
  ledger_of-append k [] new = refl
  ledger_of-append k (r ∷ rs) new = ground (arith, ledger_of-append k rs new)

  -- While a report on a node is made, entries may be added to the ledger between its two queries.
  -- If the balances agree with the ledger before that, then the report lists each entry of the old
  -- ledger and each new one that is the node's, once, newest first, and its total is what the
  -- node's old entries, without the new ones, add up to in the order in which they were credited,
  -- or zero if there is none.
  pub admin_node_earnings_lem :
      (c : Conditions) (k : String) (db db' : Db) (new : List LedgerRow) (report : NodeEarnings)
      → IsBalanced fl db
      → db'.points_ledger ≡ db.points_ledger ++ new
      → admin_node_earnings fl c k db db' ≡ rows report
      → Perm report.entries (ledger_of k db.points_ledger ++ ledger_of k new)
        × NewestFirst report.entries
        × (report.total_points
            ≡ unwrap_or (sum_points none (ledger_of k db.points_ledger)) (zero_f fl))
  unfolding admin_node_earnings
  admin_node_earnings_lem c k db db' new report b grown e =
      let all = ledger_of k db'.points_ledger in
      let listed : order_by created_later all ≡ report.entries = ground (arith, e) in
      let total : unwrap_or (HashMap.get db.node_balances k) (zero_f fl) ≡ report.total_points =
        ground (arith, e) in
      let parts : all ≡ ledger_of k db.points_ledger ++ ledger_of k new =
        ap (ledger_of k) grown ∙ ledger_of-append k db.points_ledger new in
      (
        subst (Perm report.entries) parts
            (subst (λ es. Perm es all) listed (order_by-perm created_later all)),
        IsOrdered-NewestFirst report.entries (
            subst (IsOrdered created_later) listed (
              order_by-IsOrdered created_later (λ x. Unit {0})
                (λ x y p q h. text_le-total y.created_at x.created_at h) all (All-unit all))),
        sym total
            ∙ ap (λ o. unwrap_or o (zero_f fl)) (b k ∙ earned-sum_points k none db.points_ledger),
      )

  -- The total of a listed node is what the ledger says of it.
  abbrev pub Agrees : List LedgerRow → AdminNodeInfo → Type 0
  Agrees ledger i = i.total_points ≡ sum_points none (ledger_of i.node_id ledger)

  infos-Agree :
      (db : Db)
      → IsBalanced fl db
      → (nodes : List (String × NodeRow))
      → All (Agrees db.points_ledger) (map (node_info db.node_balances) nodes)
  infos-Agree db b [] = tt
  infos-Agree db b ((k, n) ∷ nodes) =
      (b k ∙ earned-sum_points k none db.points_ledger, infos-Agree db b nodes)

  -- The list of nodes shows the node that was seen last first, and if the balances agree with the
  -- ledger, then the total beside each node is what the entries of the report on that node add up
  -- to, and is missing exactly where there is no entry.
  pub admin_nodes_lem :
      (c : Conditions) (db : Db) (infos : List AdminNodeInfo)
      → IsBalanced fl db
      → admin_nodes c db ≡ rows infos
      → IsOrdered seen_later infos × All (Agrees db.points_ledger) infos
  unfolding admin_nodes
  admin_nodes_lem c db infos b e =
      let all = map (node_info db.node_balances) db.nodes in
      let listed : order_by seen_later all ≡ infos = ground (arith, e) in
      let later = λ (x y : AdminNodeInfo). text_le-total y.last_seen x.last_seen in
      (
        subst (IsOrdered seen_later) listed (
            order_by-IsOrdered seen_later (λ x. Unit {0}) (λ x y p q h. later x y h) all
              (All-unit all)),
        subst (All (Agrees db.points_ledger)) listed
            (order_by-All seen_later (Agrees db.points_ledger) all (infos-Agree db b db.nodes)),
      )

  -- The rank of each entry is its place, counted from one.
  abbrev pub IsRanked : ℕ → List LeaderboardEntry → Type 0
  IsRanked i [] = Unit
  IsRanked i (e ∷ es) = (e.rank ≡ i) × IsRanked (i + 1) es

  abbrev pub standing : LeaderboardEntry → String × F64
  standing e = (e.node_id, e.total_points)

  map-standing-ranked : (i : ℕ) (xs : List (String × F64)) → map standing (ranked fl i xs) ≡ xs
  unfolding ranked
  map-standing-ranked i [] = refl
  map-standing-ranked i (x ∷ xs) = ground (arith, map-standing-ranked (i + 1) xs)

  ranked-IsRanked :
      (i : ℕ) (xs : List (String × F64))
      → i + length xs < 2 ^ 32
      → IsRanked (i + 1) (ranked fl i xs)
  unfolding ranked
  ranked-IsRanked i [] h = tt
  ranked-IsRanked i (x ∷ xs) h =
      (mod-eq_of_lt (omega (arith, h)), ranked-IsRanked (i + 1) xs (omega (arith, h)))

  -- Fewer than 2 ^ 32 balances, none of them a NaN, are listed each once, from the largest to the
  -- smallest, with ranks that count from one.
  pub admin_leaderboard_lem :
      (laws : CmpLaws fl) (c : Conditions) (db : Db) (board : List LeaderboardEntry)
      → length db.node_balances < 2 ^ 32
      → All (λ b. IsNumber fl b.1) db.node_balances
      → admin_leaderboard fl c db ≡ rows board
      → Perm (map standing board) db.node_balances
        × IsOrdered (earned_more fl) (map standing board)
        × IsRanked 1 board
  unfolding admin_leaderboard
  admin_leaderboard_lem laws c db board few num e =
      let sorted = order_by (earned_more fl) db.node_balances in
      let listed : ranked fl 0 sorted ≡ board = ground (arith, e) in
      let standings : sorted ≡ map standing board =
        sym (map-standing-ranked 0 sorted) ∙ ap (map standing) listed in
      (
        subst (λ xs. Perm xs db.node_balances) standings
            (order_by-perm (earned_more fl) db.node_balances),
        subst (IsOrdered (earned_more fl)) standings (
            order_by-IsOrdered (earned_more fl) (λ x. IsNumber fl x.1)
              (λ x y p q h. laws.gt-ge y.1 x.1 (laws.le_or_gt y.1 x.1 q p h)) db.node_balances num),
        subst (IsRanked 1) listed (
            ranked-IsRanked 0 sorted
              (omega (arith, length-order_by (earned_more fl) db.node_balances, few))),
      )
