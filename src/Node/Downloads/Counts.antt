-- ===== src/Node/Downloads/Counts.antt =====
-- How many downloads of a model run, while downloads end and artifacts are taken.
use jw_swarm.Common.{
  ℕ, zero, suc, ◌+◌, String, List, [], ◌∷◌, ◌++◌, true, Option, none, some, if◌then◌else◌, ◌==◌,
  ◌≡◌, refl, arith, inl, inr, ◌⊎◌, All,
}
use jw_swarm.Common.Attempt.{Attempt, ok, err}
use jw_swarm.Proto.{CatalogModel}
use jw_swarm.Node.Settings.{Config}
use jw_swarm.Node.Downloads.{
  DownloadTracker, Download, running, ended, is_selected, is_llama_cpp, without_id, end_download,
  take_ended,
}

abbrev pub model_of : Download → CatalogModel
model_of (running m) = m
model_of (ended m dir) = m

-- The running downloads of a model.
abbrev pub running_count : String → List Download → ℕ
running_count k [] = 0
running_count k (running m ∷ ds) = (if m.id == k then 1 else 0) + running_count k ds
running_count k (ended m dir ∷ ds) = running_count k ds

-- Selected, and for llama.cpp.
abbrev pub IsWanted : Config → Download → Type 0
IsWanted c d = (is_selected c (model_of d).id ≡ true) × (is_llama_cpp (model_of d).backend ≡ true)

pub running_count-append :
    (k : String) (ds : List Download) (m : CatalogModel)
    → running_count k (ds ++ running m ∷ []) ≡ running_count k ds + (if m.id == k then 1 else 0)
running_count-append k [] m = ground arith
running_count-append k (running n ∷ ds) m = ground (arith, running_count-append k ds m)
running_count-append k (ended n dir ∷ ds) m = running_count-append k ds m

pub All-append :
    (c : Config) (ds : List Download) (d : Download)
    → All (IsWanted c) ds
    → IsWanted c d
    → All (IsWanted c) (ds ++ d ∷ [])
All-append c [] d a w = (w, tt)
All-append c (x ∷ ds) d a w = (a.0, All-append c ds d a.1 w)

pub running_count-cons :
    (k : String) (d : Download) (ds : List Download)
    → running_count k (d ∷ ds) ≡ running_count k (d ∷ []) + running_count k ds
running_count-cons k (running m) ds = omega arith
running_count-cons k (ended m dir) ds = omega arith

-- What the end of a download leaves: nothing ended, or the running download of one model.
abbrev pub Ends : List Download → DownloadTracker → List Download → DownloadTracker → Type 0
Ends ds t rest t' =
    ((t'.downloading ≡ t.downloading) × ((k : String) → running_count k ds ≡ running_count k rest))
    ⊎ ((id : String) × (t'.downloading ≡ without_id id t.downloading)
        × ((k : String) → running_count k ds ≡ running_count k rest + (if id == k then 1 else 0)))

pub end_download-Ends :
    (i : ℕ) (result : Attempt String) (ds : List Download) (t : DownloadTracker)
    → Ends ds t (end_download i result ds t).0 (end_download i result ds t).1
unfolding end_download
end_download-Ends i result [] t = inl (refl, λ k. refl)
end_download-Ends zero (ok dir) (running m ∷ ds) t = inr (m.id, refl, λ k. omega arith)
end_download-Ends zero (err e) (running m ∷ ds) t = inr (m.id, refl, λ k. omega arith)
end_download-Ends zero result (ended m dir ∷ ds) t = inl (refl, λ k. refl)
end_download-Ends (suc i) result (d ∷ ds) t = elim (end_download-Ends i result ds t) [
  | inl (e, h) ↦ inl (
    e,
    λ k. omega (
      arith,
      running_count-cons k d ds,
      running_count-cons k d (end_download i result ds t).0,
      h k,
    ),
  )
  | inr (id, e, h) ↦ inr (
    id,
    e,
    λ k. omega (
      arith,
      running_count-cons k d ds,
      running_count-cons k d (end_download i result ds t).0,
      h k,
    ),
  )
]

pub end_download-IsWanted :
    (c : Config) (i : ℕ) (result : Attempt String) (ds : List Download) (t : DownloadTracker)
    → All (IsWanted c) ds
    → All (IsWanted c) (end_download i result ds t).0
unfolding end_download
end_download-IsWanted c i result [] t a = a
end_download-IsWanted c zero (ok dir) (running m ∷ ds) t a = a
end_download-IsWanted c zero (err e) (running m ∷ ds) t a = a.1
end_download-IsWanted c zero result (ended m dir ∷ ds) t a = a
end_download-IsWanted c (suc i) result (d ∷ ds) t a =
    (a.0, end_download-IsWanted c i result ds t a.1)

pub take_ended_count :
    (i : ℕ) (ds : List Download) (k : String)
    → running_count k (take_ended i ds).1 ≡ running_count k ds
unfolding take_ended
take_ended_count i [] k = refl
take_ended_count zero (running m ∷ ds) k = refl
take_ended_count zero (ended m dir ∷ ds) k = refl
take_ended_count (suc i) (d ∷ ds) k = omega (
  arith,
  running_count-cons k d ds,
  running_count-cons k d (take_ended i ds).1,
  take_ended_count i ds k,
)

-- An artifact that is found belongs to a wanted model.
abbrev pub Found : Config → Option (CatalogModel × String) → Type 0
Found c none = Unit
Found c (some (m, dir)) = IsWanted c (ended m dir)

pub take_ended-IsWanted :
    (c : Config) (i : ℕ) (ds : List Download)
    → All (IsWanted c) ds
    → All (IsWanted c) (take_ended i ds).1 × Found c (take_ended i ds).0
unfolding take_ended
take_ended-IsWanted c i [] a = (a, tt)
take_ended-IsWanted c zero (running m ∷ ds) a = (a, tt)
take_ended-IsWanted c zero (ended m dir ∷ ds) a = (a.1, a.0)
take_ended-IsWanted c (suc i) (d ∷ ds) a =
    let (rest, found) = take_ended-IsWanted c i ds a.1 in ((a.0, rest), found)
