-- ===== src/Node/Coordinator.antt =====
-- `run` and `handle_msg` of jw-swarm-nodes/linux/src/main.rs: the events that the node's main task
-- and its download tasks meet, one at a time. What the machine answers is an argument. The state of
-- the tunnel changes and is noticed in one event; the end of the loop, when the tunnel's task is
-- gone, is the end of the events.
pub mod Downloading
pub mod Retries
use jw_swarm.Common.{
  ℕ, String, List, [], ◌∷◌, ◌++◌, Bool, true, false, not, ◌&&◌, Option, none, some, unwrap_or,
  contains, if◌then◌else◌,
}
use jw_swarm.Common.Attempt.{Attempt}
use jw_swarm.Common.HashMap
use jw_swarm.Common.HashMap.{HashMap}
use jw_swarm.Proto.{
  CatalogModel, PromptDispatch, ScheduleStateValue, Message, register, catalog_request, heartbeat,
  model_status, schedule_state, catalog_response, prompt_dispatch, error, token_chunk, done,
}
use jw_swarm.Node.Probe.{Probe, registration}
use jw_swarm.Node.Downloads.{
  DownloadTracker, Download, running, is_selected, is_llama_cpp, is_last_failure, with_id,
  end_download, take_ended,
}
use jw_swarm.Node.Settings.{Config}
use jw_swarm.Node.Ready.{ready_ids, dispatch, register as register_artifact}
use jw_swarm.Node.Schedule.{is_awake}
use jw_swarm.Node.Metrics.{collect}
use jw_swarm.Float.{F64, Floats, zero_f}

pub record State : Type 0 where
  pub config : Config
  pub tracker : DownloadTracker
  pub catalog : HashMap CatalogModel
  pub awake : Bool
  -- the tunnel is connected
  pub connected : Bool
  -- the ready models of the backend, and whether its worker still receives
  pub ready : HashMap String
  pub alive : Bool
  -- the spawned downloads, the jobs of the worker, and what was sent to the tunnel
  pub downloads : List Download
  pub jobs : List PromptDispatch
  pub outbound : List Message

abbrev pub sent_out : Message → State → State
sent_out msg s = record s { outbound = s.outbound ++ msg ∷ [] }

unfoldable pub send_reg : Probe → State → State
unfolding registration
send_reg p s = sent_out (register (registration p s.config)) s

abbrev pub schedule_value : Bool → ScheduleStateValue
schedule_value b = if b then ScheduleStateValue.awake else ScheduleStateValue.asleep

unfoldable pub send_schedule_state : Bool → State → State
send_schedule_state b s =
    sent_out (schedule_state (record { node_id = s.config.node_id; state = schedule_value b })) s

unfoldable pub send_model_status : State → State
send_model_status s =
    sent_out
      (model_status (record { node_id = s.config.node_id; ready_models = ready_ids s.ready })) s

-- One entry of the catalog: a download is spawned, or the entry is passed over.
unfoldable pub consider : CatalogModel → State → State
consider m s =
    if not (is_selected s.config m.id)
    then s
    else if not (is_llama_cpp m.backend)
    then s
    else if contains (ready_ids s.ready) m.id
    then s
    else if contains s.tracker.downloading m.id
    then s
    else if is_last_failure (HashMap.get s.tracker.failed m.id) m
    then s
    else record s {
      tracker = record s.tracker { downloading = with_id m.id s.tracker.downloading };
      downloads = s.downloads ++ running m ∷ [];
    }

unfoldable pub consider_all : List CatalogModel → State → State
unfolding consider
consider_all [] s = s
consider_all (m ∷ ms) s = consider_all ms (consider m s)

-- `cat.insert` of every entry
unfoldable pub catalog_of : List CatalogModel → HashMap CatalogModel → HashMap CatalogModel
catalog_of [] cat = cat
catalog_of (m ∷ ms) cat = catalog_of ms (HashMap.insert cat m.id m)

unfoldable pub handle_msg : Message → State → State
unfolding consider_all catalog_of send_model_status dispatch
handle_msg (catalog_response r) s =
    send_model_status (consider_all r.models (record s { catalog = catalog_of r.models [] }))
handle_msg (prompt_dispatch pd) s =
    let (jobs, outbound) = dispatch s.alive s.ready pd (s.jobs, s.outbound) in
    record s { jobs = jobs; outbound = outbound }
handle_msg (error e) s = s
handle_msg (register r) s = s
handle_msg catalog_request s = s
handle_msg (heartbeat h) s = s
handle_msg (model_status m) s = s
handle_msg (schedule_state x) s = s
handle_msg (token_chunk c) s = s
handle_msg (done d) s = s

-- What the main task and the download tasks meet.
pub data Event : Type 0 where
  -- the timer of 30 seconds, with the minute of the day, the backend's `avg_tps` and the tunnel's
  -- latency
  beats : (minute : ℕ) (p : Probe) (avg_tps : F64) (latency : Option F64) → Event
  -- the timer of 60 seconds
  repolls : Event
  -- the tunnel reports that it is connected, or is not
  connects : (p : Probe) (avg_tps : F64) (latency : Option F64) → Event
  disconnects : Event
  -- a text of the tunnel, read as a message, if it is one
  receives : (msg : Option Message) → Event
  -- `download_model` returns in the `i`-th download
  returns : (i : ℕ) (result : Attempt String) → Event
  -- the `i`-th download registers its artifact, whose size is in MB, if it is there
  registers : (i : ℕ) (size_mb : Option ℕ) → Event

abbrev pub same : Bool → Bool → Bool
same true b = b
same false b = not b

-- `repoll.tick()`
unfoldable pub on_repoll : State → State
on_repoll s =
    if s.connected && (elim (ready_ids s.ready) [ [] ↦ true | x ∷ xs ↦ false ])
    then sent_out catalog_request s
    else s

-- A download task after `download_model` returned.
unfoldable pub on_returned : ℕ → Attempt String → State → State
unfolding end_download
on_returned i result s =
    let (downloads, tracker) = end_download i result s.downloads s.tracker in
    record s { downloads = downloads; tracker = tracker }

-- `bf.register`, and the message after it
unfoldable pub on_registered : ℕ → Option ℕ → State → State
unfolding take_ended register_artifact send_model_status
on_registered i size_mb s =
    let (found, rest) = take_ended i s.downloads in
    elim found [
      | none ↦ s
      | some artifact ↦ send_model_status (record s {
        downloads = rest;
        ready =
            register_artifact s.config.limits.memory_limit_mb s.ready artifact.0.id artifact.1
              size_mb;
      })
    ]

abbrev pub received : Option Message → State → State
received none s = s
received (some msg) s = handle_msg msg s

module _ (fl : Floats) (parse_f64 : String → Option F64) where
  unfoldable pub send_hb : Probe → F64 → Option F64 → State → State
  unfolding collect
  send_hb p avg_tps latency s =
      sent_out
        (heartbeat (record {
          node_id = s.config.node_id;
          metrics = record (collect fl parse_f64 p.load_query) {
            tps = avg_tps;
            latency_ms = unwrap_or latency (zero_f fl);
          };
          schedule_state = schedule_value s.awake;
        }))
        s

  -- The heartbeat of a node that is awake now or is not, after the news if that has changed.
  unfoldable pub tell : Bool → Probe → F64 → Option F64 → State → State
  unfolding send_hb send_schedule_state
  tell now_awake p avg_tps latency s = send_hb p avg_tps latency (
      if same now_awake s.awake
      then s
      else send_schedule_state now_awake (record s { awake = now_awake }))

  -- `hb.tick()`
  unfoldable pub on_tick : ℕ → Probe → F64 → Option F64 → State → State
  unfolding tell is_awake
  on_tick minute p avg_tps latency s = tell (is_awake minute s.config.schedule) p avg_tps latency s

  -- `connected_rx.changed()`, up
  unfoldable pub on_connected : Probe → F64 → Option F64 → State → State
  unfolding send_reg send_hb send_model_status
  on_connected p avg_tps latency s = send_model_status (
      send_hb p avg_tps latency
        (sent_out catalog_request (send_reg p (record s { connected = true }))))

  unfoldable pub step : Event → State → State
  unfolding on_tick on_repoll on_connected handle_msg on_returned on_registered
  step (beats minute p avg_tps latency) s = on_tick minute p avg_tps latency s
  step repolls s = on_repoll s
  step (connects p avg_tps latency) s = on_connected p avg_tps latency s
  step disconnects s = record s { connected = false }
  step (receives msg) s = received msg s
  step (returns i result) s = on_returned i result s
  step (registers i size_mb) s = on_registered i size_mb s

  -- Before the first event, at the minute when the node starts.
  unfoldable pub start : ℕ → Probe → Config → State
  unfolding send_reg is_awake
  start minute p config = sent_out catalog_request (
      send_reg p (record {
        config = config;
        tracker = record { downloading = []; failed = [] };
        catalog = [];
        awake = is_awake minute config.schedule;
        connected = false;
        ready = [];
        alive = true;
        downloads = [];
        jobs = [];
        outbound = [];
      }))

  unfoldable pub run : List Event → State → State
  unfolding step
  run [] s = s
  run (e ∷ es) s = run es (step e s)
