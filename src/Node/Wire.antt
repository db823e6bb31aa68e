-- ===== src/Node/Wire.antt =====
-- jw-swarm-nodes/linux/src/tunnel.rs: the node's end of the tunnel. What the socket, the timers and
-- the other tasks do is a list of events, at whose end a connection ends if no event ended it; times
-- are in seconds, and the latency in milliseconds.
pub mod Backoff
pub mod Delivery
use jw_swarm.Common.{
  ℕ, suc, ◌*◌, String, List, [], ◌∷◌, ◌++◌, Bool, true, false, Option, none, some, ltb,
  if◌then◌else◌,
}
use jw_swarm.Float.{F64}

-- The state that the task of `run_loop` and the handle share.
pub record Link : Type 0 where
  pub backoff : ℕ
  -- the last value sent to `connected`
  pub connected : Bool
  pub latency_ms : Option F64
  -- the start of the ping that is not answered yet
  pub ping_sent_at : Option F64
  -- the messages queued for the socket, oldest first
  pub queue : List String
  -- the messages taken from the queue, and whether the socket took them
  pub handed : List (String × Bool)
  -- the texts passed on to the coordinator
  pub inbound : List String

pub data SocketEvent : Type 0 where
  -- the shutdown token
  cancels : SocketEvent
  -- the ping timer, and whether the socket takes the ping
  pings : (now : F64) (taken : Bool) → SocketEvent
  -- another task queues a message
  queues : (s : String) → SocketEvent
  -- the oldest message is received, and the socket takes it, or does not
  sends : (taken : Bool) → SocketEvent
  senders_gone : SocketEvent
  -- what the socket yields; a pong comes some milliseconds after the ping
  text : (s : String) → SocketEvent
  pong : (rtt : F64) → SocketEvent
  close ping binary read_error ends : SocketEvent

-- What the outer loop meets: a message is queued between two connections; a turn without a
-- connection; or one with what happens on it and which of the queued messages the socket takes at
-- its start. A turn says whether the sleep after it is cancelled.
pub data Round : Type 0 where
  queued : (s : String) → Round
  refused : (cancelled : Bool) → Round
  connected : (takes : ℕ → Bool) (events : List SocketEvent) (cancelled : Bool) → Round

-- There is no connection without a connector, which is built once, before the loop.
abbrev pub turn : (connector : Bool) → Round → Round
turn true round = round
turn false (queued s) = queued s
turn false (refused cancelled) = refused cancelled
turn false (connected takes events cancelled) = refused cancelled

abbrev pub max_backoff : ℕ
max_backoff = 60

-- `std::cmp::min(backoff * 2, 60 s)`
abbrev pub grow : ℕ → ℕ
grow backoff = if ltb max_backoff (backoff * 2) then max_backoff else backoff * 2

-- The messages that wait are sent, up to the first that the socket does not take.
unfoldable pub drain :
    (ℕ → Bool) → ℕ → List String → List (String × Bool) → List (String × Bool) × List String
drain takes i [] handed = (handed, [])
drain takes i (s ∷ queue) handed = elim (takes i) [
  | true ↦ drain takes (suc i) queue (handed ++ (s, true) ∷ [])
  | false ↦ (handed ++ (s, false) ∷ [], queue)
]

abbrev pub take_oldest : Bool → List String → Link → Link
take_oldest taken [] l = l
take_oldest taken (s ∷ queue) l = record l { queue = queue; handed = l.handed ++ (s, taken) ∷ [] }

abbrev pub answered : F64 → Option F64 → Link → Link
answered rtt none l = l
answered rtt (some sent) l = record l { ping_sent_at = none; latency_ms = some rtt }

-- The main loop of a connection; the answer says whether it was shut down.
unfoldable pub main_loop : List SocketEvent → Link → Link × Bool
main_loop [] l = (l, false)
main_loop (cancels ∷ events) l = (l, true)
main_loop (pings now taken ∷ events) l = elim taken [
  | true ↦ main_loop events (record l { ping_sent_at = some now })
  | false ↦ (record l { ping_sent_at = some now }, false)
]
main_loop (queues s ∷ events) l = main_loop events (record l { queue = l.queue ++ s ∷ [] })
main_loop (sends taken ∷ events) l = elim taken [
  | true ↦ main_loop events (take_oldest true l.queue l)
  | false ↦ (take_oldest false l.queue l, false)
]
main_loop (senders_gone ∷ events) l = (l, false)
main_loop (text s ∷ events) l = main_loop events (record l { inbound = l.inbound ++ s ∷ [] })
main_loop (pong rtt ∷ events) l = main_loop events (answered rtt l.ping_sent_at l)
main_loop (close ∷ events) l = (l, false)
main_loop (ping ∷ events) l = main_loop events l
main_loop (binary ∷ events) l = main_loop events l
main_loop (read_error ∷ events) l = (l, false)
main_loop (ends ∷ events) l = (l, false)

-- A connection from its start: the queue is drained, and then the main loop runs.
unfoldable pub connection : (ℕ → Bool) → List SocketEvent → Link → Link × Bool
unfolding drain main_loop
connection takes events l =
    let (handed, queue) = drain takes 0 l.queue l.handed in
    main_loop events (record l {
      backoff = 1;
      connected = true;
      latency_ms = none;
      ping_sent_at = none;
      handed = handed;
      queue = queue;
    })

-- One turn of the outer loop. The answer says whether the loop ends.
unfoldable pub run_round : Round → Link → Link × Bool
unfolding connection
run_round (queued s) l = (record l { queue = l.queue ++ s ∷ [] }, false)
run_round (refused cancelled) l = (record l { backoff = grow l.backoff }, cancelled)
run_round (connected takes events cancelled) l =
    let (l', shut) = connection takes events l in
    (
      record l' { connected = false; latency_ms = none; backoff = grow l'.backoff },
      if shut then true else cancelled,
    )

unfoldable pub run_loop : (connector : Bool) → List Round → Link → Link × Bool
unfolding run_round
run_loop connector [] l = (l, false)
run_loop connector (round ∷ rounds) l =
    let (l', over) = run_round (turn connector round) l in
    elim over [ true ↦ (l', true) | false ↦ run_loop connector rounds l' ]

abbrev pub initial : Link
initial = record {
  backoff = 1;
  connected = false;
  latency_ms = none;
  ping_sent_at = none;
  queue = [];
  handed = [];
  inbound = [];
}
