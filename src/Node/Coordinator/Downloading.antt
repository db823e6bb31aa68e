-- ===== src/Node/Coordinator/Downloading.antt =====
-- What holds of the downloads in every state that the node reaches.
use jw_swarm.Common.{
  ℕ, String, List, [], ◌∷◌, ◌++◌, true, false, not, Option, none, some, contains, if◌then◌else◌,
  ◌==◌, ◌≡◌, refl, arith, Bool-cases, Option-cases, inl, inr, eq_iff, All, ap, subst, ltb, sym, ◌∙◌,
}
use jw_swarm.Common.Attempt.{Attempt}
use jw_swarm.Common.HashMap
use jw_swarm.Common.HashMap.{HashMap, Each, insert-Each, remove-Each}
use jw_swarm.Float.{Floats, F64}
use jw_swarm.Proto.{
  CatalogModel, Message, register, catalog_request, heartbeat, model_status, schedule_state,
  catalog_response, prompt_dispatch, error, token_chunk, done,
}
use jw_swarm.Node.Settings.{Config}
use jw_swarm.Node.Probe.{Probe}
use jw_swarm.Node.Downloads.{
  running, ended, is_selected, is_llama_cpp, is_last_failure, end_download, take_ended,
}
use jw_swarm.Node.Downloads.Counts.{
  running_count, IsWanted, running_count-append, All-append, end_download-Ends,
  end_download-IsWanted, take_ended_count, take_ended-IsWanted, Found,
}
use jw_swarm.Node.Backend.Trim.{contains-select}
use jw_swarm.Node.Ready.{ready_ids, register as register_artifact}
use jw_swarm.Node.Coordinator.{
  repolls, disconnects, State, consider, consider_all, handle_msg, step, run, start,
  send_model_status, Event, catalog_of, on_registered, on_repoll, on_returned, on_tick, send_reg,
  on_connected, send_hb, beats, send_schedule_state, connects, receives, returns, registers,
}

-- A model's download runs at most once, and exactly while the tracker says so; every download is
-- wanted, and every ready model is selected.
pub record IsOrderly (s : State) : Type 0 where
  pub counted :
      (k : String)
      → running_count k s.downloads ≡ (if contains s.tracker.downloading k then 1 else 0)
  pub wanted : All (IsWanted s.config) s.downloads
  pub selected : Each (λ k dir. is_selected s.config k ≡ true) s.ready

spawned-IsOrderly :
    (m : CatalogModel) (s : State)
    → is_selected s.config m.id ≡ true
    → is_llama_cpp m.backend ≡ true
    → contains s.tracker.downloading m.id ≡ false
    → IsOrderly s
    → IsOrderly (record s {
      tracker = record s.tracker { downloading = m.id ∷ s.tracker.downloading };
      downloads = s.downloads ++ running m ∷ [];
    })
spawned-IsOrderly m s sel llama new o = record {
  counted =
      λ k. ground (arith, running_count-append k s.downloads m, o.counted k, new, eq_iff m.id k);
  wanted = All-append s.config s.downloads (running m) o.wanted (sel, llama);
  selected = o.selected;
}

-- The entry's download is spawned.
abbrev pub spawned : CatalogModel → State → State
spawned m s = record s {
  tracker = record s.tracker { downloading = m.id ∷ s.tracker.downloading };
  downloads = s.downloads ++ running m ∷ [];
}

-- When an entry's download is spawned.
pub record Spawns (m : CatalogModel) (s : State) : Type 0 where
  pub wanted : IsWanted s.config (running m)
  pub idle : contains s.tracker.downloading m.id ≡ false
  pub fresh : is_last_failure (HashMap.get s.tracker.failed m.id) m ≡ false

-- What holds before an entry of the catalog is looked at holds after, if spawning keeps it.
pub consider_keeps :
    (P : State → Type 0) (m : CatalogModel) (s : State)
    → P s
    → (Spawns m s → P (spawned m s))
    → P (consider m s)
unfolding consider
consider_keeps P m s o spawn = elim (Bool-cases (is_selected s.config m.id)) [
  | inr a ↦ rw (consider, a) o
  | inl a ↦ elim (Bool-cases (is_llama_cpp m.backend)) [
    | inr b ↦ rw (consider, a, b) o
    | inl b ↦ elim (Bool-cases (contains (ready_ids s.ready) m.id)) [
      | inl c ↦ rw (consider, a, b, c) o
      | inr c ↦ elim (Bool-cases (contains s.tracker.downloading m.id)) [
        | inl d ↦ rw (consider, a, b, c, d) o
        | inr d ↦ elim (Bool-cases (is_last_failure (HashMap.get s.tracker.failed m.id) m)) [
          | inl e ↦ rw (consider, a, b, c, d, e) o
          | inr e ↦
              rw (consider, a, b, c, d, e) (spawn (record { wanted = (a, b); idle = d; fresh = e }))
        ]
      ]
    ]
  ]
]

consider-IsOrderly : (m : CatalogModel) (s : State) → IsOrderly s → IsOrderly (consider m s)
consider-IsOrderly m s o =
    consider_keeps IsOrderly m s o
      (λ spawns. spawned-IsOrderly m s spawns.wanted.0 spawns.wanted.1 spawns.idle o)

consider_all-IsOrderly :
    (ms : List CatalogModel) (s : State) → IsOrderly s → IsOrderly (consider_all ms s)
unfolding consider_all
consider_all-IsOrderly [] s o = o
consider_all-IsOrderly (m ∷ ms) s o =
    consider_all-IsOrderly ms (consider m s) (consider-IsOrderly m s o)

on_returned-IsOrderly :
    (i : ℕ) (result : Attempt String) (s : State) → IsOrderly s → IsOrderly (on_returned i result s)
unfolding on_returned
on_returned-IsOrderly i result s o =
    let ending = end_download i result s.downloads s.tracker in
    let wanted = end_download-IsWanted s.config i result s.downloads s.tracker o.wanted in
    elim (end_download-Ends i result s.downloads s.tracker) [
      | inl (e, h) ↦ record {
        counted =
            λ k. sym (h k) ∙ o.counted k ∙ ap (λ ids. if contains ids k then 1 else 0) (sym e);
        wanted = wanted;
        selected = o.selected;
      }
      | inr (id, e, h) ↦ record {
        counted = λ k.
            rw (e, contains-select (λ x. not (x == id)) s.tracker.downloading k)
              (ground (arith, o.counted k, h k, eq_iff id k, eq_iff k id));
        wanted = wanted;
        selected = o.selected;
      }
    ]

registered-selected :
    (c : Config) (ready : HashMap String) (id dir : String) (size_mb : Option ℕ)
    → is_selected c id ≡ true
    → Each (λ k d. is_selected c k ≡ true) ready
    → Each
        (λ k d. is_selected c k ≡ true)
        (register_artifact c.limits.memory_limit_mb ready id dir size_mb)
unfolding register_artifact
registered-selected c ready id dir none w e = remove-Each ready id e
registered-selected c ready id dir (some size) w e =
    elim (Bool-cases (ltb c.limits.memory_limit_mb size)) [
      | inl b ↦ rw b (remove-Each ready id e)
      | inr b ↦ rw b (insert-Each ready id dir e w)
    ]

on_registered-IsOrderly :
    (i : ℕ) (size_mb : Option ℕ) (s : State) → IsOrderly s → IsOrderly (on_registered i size_mb s)
unfolding on_registered send_model_status
on_registered-IsOrderly i size_mb s o =
    let (wanted, found) = take_ended-IsWanted s.config i s.downloads o.wanted in
    let counted = λ (k : String). take_ended_count i s.downloads k ∙ o.counted k in
    elim (Option-cases (take_ended i s.downloads).0) [
      | inl n ↦ rw (on_registered, n) o
      | inr ((m, dir), e) ↦
          let is_wanted : IsWanted s.config (ended m dir) = subst (Found s.config) e found in
          rw (on_registered, e)
            (record {
              counted = counted;
              wanted = wanted;
              selected =
                  registered-selected s.config s.ready m.id dir size_mb is_wanted.0 o.selected;
            })
    ]

-- The downloads and the ready models are the same.
abbrev Same : State → State → Type 0
Same s t =
    (t.config ≡ s.config)
    × (t.tracker ≡ s.tracker)
    × (t.downloads ≡ s.downloads)
    × (t.ready ≡ s.ready)

Same-IsOrderly : (s t : State) → Same s t → IsOrderly s → IsOrderly t
Same-IsOrderly s t (c, k, d, r) o = record {
  counted = λ i. rw (d, k) (o.counted i);
  wanted = rw (c, d) o.wanted;
  selected = rw (c, r) o.selected;
}

handle_msg-IsOrderly : (msg : Message) (s : State) → IsOrderly s → IsOrderly (handle_msg msg s)
unfolding handle_msg send_model_status
handle_msg-IsOrderly (catalog_response r) s o =
    let s' : State = record s { catalog = catalog_of r.models [] } in
    let o' = consider_all-IsOrderly r.models s' (Same-IsOrderly s s' (refl, refl, refl, refl) o) in
    record { counted = o'.counted; wanted = o'.wanted; selected = o'.selected }
handle_msg-IsOrderly (prompt_dispatch pd) s o = record {
  counted = o.counted;
  wanted = o.wanted;
  selected = o.selected;
}
handle_msg-IsOrderly (error e) s o = o
handle_msg-IsOrderly (register r) s o = o
handle_msg-IsOrderly catalog_request s o = o
handle_msg-IsOrderly (heartbeat h) s o = o
handle_msg-IsOrderly (model_status m) s o = o
handle_msg-IsOrderly (schedule_state x) s o = o
handle_msg-IsOrderly (token_chunk c) s o = o
handle_msg-IsOrderly (done d) s o = o

module _ (fl : Floats) (parse_f64 : String → Option F64) where
  on_tick-Same :
      (minute : ℕ) (p : Probe) (avg : F64) (latency : Option F64) (s : State)
      → Same s (on_tick fl parse_f64 minute p avg latency s)
  unfolding on_tick send_hb send_schedule_state
  on_tick-Same minute p avg latency s = (ground arith, ground arith, ground arith, ground arith)

  step-IsOrderly : (e : Event) (s : State) → IsOrderly s → IsOrderly (step fl parse_f64 e s)
  unfolding step on_repoll on_connected send_reg send_hb send_model_status
  step-IsOrderly (beats minute p avg latency) s o =
      Same-IsOrderly s (on_tick fl parse_f64 minute p avg latency s)
        (on_tick-Same minute p avg latency s) o
  step-IsOrderly repolls s o =
      Same-IsOrderly s (on_repoll s) (ground arith, ground arith, ground arith, ground arith) o
  step-IsOrderly (connects p avg latency) s o = record {
    counted = o.counted;
    wanted = o.wanted;
    selected = o.selected;
  }
  step-IsOrderly disconnects s o = record {
    counted = o.counted;
    wanted = o.wanted;
    selected = o.selected;
  }
  step-IsOrderly (receives none) s o = o
  step-IsOrderly (receives (some msg)) s o = handle_msg-IsOrderly msg s o
  step-IsOrderly (returns i result) s o = on_returned-IsOrderly i result s o
  step-IsOrderly (registers i size_mb) s o = on_registered-IsOrderly i size_mb s o

  run-keeps : (es : List Event) (s : State) → IsOrderly s → IsOrderly (run fl parse_f64 es s)
  unfolding run
  run-keeps [] s o = o
  run-keeps (e ∷ es) s o = run-keeps es (step fl parse_f64 e s) (step-IsOrderly e s o)

  -- After any events from its start, the node downloads each model at most once at a time, exactly
  -- while its tracker says so; every download is of a selected model for llama.cpp, and every
  -- ready model is selected.
  pub run-IsOrderly :
      (minute : ℕ) (p : Probe) (config : Config) (es : List Event)
      → IsOrderly (run fl parse_f64 es (start fl parse_f64 minute p config))
  unfolding start send_reg HashMap.get
  run-IsOrderly minute p config es =
      run-keeps es (start fl parse_f64 minute p config)
        (record { counted = λ k. refl; wanted = tt; selected = λ k v e. cc })
