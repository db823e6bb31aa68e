-- ===== src/Tests/Nodes.antt =====
-- Runs of the Linux node.
use jw_swarm.Common.{◌+◌, ◌≤◌, [], ◌∷◌, true, none, some, ◌≡◌, arith}
use jw_swarm.Common.HashMap
use jw_swarm.Node.Backend.{Residents, resident, trim_loaded_to_budget, make_resident}
use jw_swarm.Node.Backend.Trim.{Covered, trim_loaded_to_budget_fits}
use jw_swarm.Node.Backend.Residency.{IsWithin, IsResident, make_resident-IsWithin}

-- Two models of 4 and 5 MB.
abbrev residents : Residents
residents = record {
  loaded = ("a", record { resident_size_mb = 4 }) ∷ ("b", record { resident_size_mb = 5 }) ∷ [];
  loaded_order = "a" ∷ "b" ∷ [];
}

residents-Covered : Covered residents
unfolding HashMap.get
residents-Covered k g = ground (arith, g)

trim_loaded_to_budget_fits_example :
    resident none (trim_loaded_to_budget 10 none 6 residents).loaded + 6 ≤ 10
trim_loaded_to_budget_fits_example =
    trim_loaded_to_budget_fits 10 none 6 residents residents-Covered (omega arith)

make_resident-IsWithin_example :
    IsWithin 10 (make_resident 10 "c" (some 6) true residents).1
    × ((make_resident 10 "c" (some 6) true residents).0 ≡ none
        → IsResident "c" (make_resident 10 "c" (some 6) true residents).1)
unfolding resident
make_resident-IsWithin_example =
    make_resident-IsWithin 10 "c" (some 6) true residents (residents-Covered, omega arith)
