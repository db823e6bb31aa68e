-- ===== src/Node/Coordinator/Retries.antt =====
-- A failed download is not tried again while the catalog's entry stays the same.
use jw_swarm.Common.{String, List, some, ◌≡◌, All}
use jw_swarm.Common.Attempt.{Attempt}
use jw_swarm.Common.HashMap
use jw_swarm.Common.HashMap.{HashMap}
use jw_swarm.Proto.{CatalogModel, catalog_response}
use jw_swarm.Node.Downloads.{DownloadTracker, Download}
use jw_swarm.Node.Downloads.Counts.{running_count}
use jw_swarm.Node.Coordinator.{repolls, disconnects, State, Event, repolls, disconnects, receives}

-- In one of the two fields, both of which a download of `k` would change.
abbrev Gave : String → String × String → List Download → DownloadTracker → Type 0
Gave k entry ds t = (HashMap.get t.failed k ≡ some entry) × (running_count k ds ≡ 0)

-- The last download of the model failed with this address and hash, and none runs now.
abbrev pub GaveUp : String → String × String → State → Type 0
GaveUp k entry s = (HashMap.get s.tracker.failed k ≡ some entry) × (running_count k s.downloads ≡ 0)

-- An entry of the catalog with the model's id has this address and hash.
abbrev pub IsUnchanged : String → String × String → CatalogModel → Type 0
IsUnchanged k entry m = m.id ≡ k → (m.download_url ≡ entry.0) × (m.sha256 ≡ entry.1)

-- A catalog that the event brings does not change the model's entry.
abbrev pub Keeps : String → String × String → Event → Type 0
Keeps k entry (receives (some (catalog_response r))) = All (IsUnchanged k entry) r.models
Keeps k entry _ = Unit
