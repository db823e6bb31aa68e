-- ===== src/Node/Wire/Delivery.antt =====
-- Which of the queued messages the tunnel hands to its sockets.
use jw_swarm.Common.{
  ◌*◌, ℕ, suc, ◌+◌, ◌≤◌, String, List, [], ◌∷◌, ◌++◌, Bool, true, false, Option, none, some, map,
  if◌then◌else◌, ◌≡◌, refl, arith, Bool-cases, inl, inr, ap, sym, ◌∙◌,
}
use mathlib.Core.List.{append-nil, append_assoc}
use jw_swarm.Float.{F64}
use jw_swarm.Node.Wire.{
  queued, turn, Link, SocketEvent, Round, refused, connected, drain, main_loop, connection,
  run_round, run_loop, answered, take_oldest, cancels, pings, queues, sends, senders_gone, text,
  pong, close, ping, binary, read_error, ends,
}

-- Handed to a socket that did not take them.
abbrev pub lost : List (String × Bool) → ℕ
lost [] = 0
lost ((s, taken) ∷ handed) = (if taken then 0 else 1) + lost handed

abbrev pub texts : List (String × Bool) → List String
texts handed = map (λ h. h.0) handed

-- Every message that was queued, oldest first.
abbrev pub messages : Link → List String
messages l = texts l.handed ++ l.queue

lost-append :
    (xs : List (String × Bool)) (s : String) (b : Bool)
    → lost (xs ++ (s, b) ∷ []) ≡ lost xs + (if b then 0 else 1)
lost-append [] s b = omega arith
lost-append (x ∷ xs) s b = ground (arith, lost-append xs s b)

texts-append :
    (xs : List (String × Bool)) (h : String × Bool) → texts (xs ++ h ∷ []) ≡ texts xs ++ h.0 ∷ []
texts-append [] h = refl
texts-append (x ∷ xs) h = ap (λ r. x.0 ∷ r) (texts-append xs h)

-- The messages that are queued before a connection ends, oldest first, and whether the tunnel is
-- cancelled there.
abbrev pub until_end : List SocketEvent → List String × Bool
until_end [] = ([], false)
until_end (queues s ∷ events) = let (new, shut) = until_end events in (s ∷ new, shut)
until_end (cancels ∷ events) = ([], true)
until_end (pings now true ∷ events) = until_end events
until_end (pings now false ∷ events) = ([], false)
until_end (sends true ∷ events) = until_end events
until_end (sends false ∷ events) = ([], false)
until_end (text s ∷ events) = until_end events
until_end (pong rtt ∷ events) = until_end events
until_end (ping ∷ events) = until_end events
until_end (binary ∷ events) = until_end events
until_end (senders_gone ∷ events) = ([], false)
until_end (close ∷ events) = ([], false)
until_end (read_error ∷ events) = ([], false)
until_end (ends ∷ events) = ([], false)

-- The messages that are queued in a turn, and whether it is the last.
abbrev pub queued_in : Round → List String × Bool
queued_in (queued s) = (s ∷ [], false)
queued_in (refused cancelled) = ([], cancelled)
queued_in (connected takes events cancelled) =
    ((until_end events).0, if (until_end events).1 then true else cancelled)

-- Every message that is queued until the tunnel is cancelled, oldest first.
abbrev pub all_queued : (connector : Bool) → List Round → List String
all_queued connector [] = []
all_queued connector (round ∷ rounds) =
    let (new, over) = queued_in (turn connector round) in
    let later = all_queued connector rounds in if over then new else new ++ later

-- These messages were queued, at most `n` more were lost, and none was put before another.
abbrev pub Moves : ℕ → List String → Link → Link → Type 0
Moves n new l l' = (messages l' ≡ messages l ++ new) × (lost l'.handed ≤ lost l.handed + n)

stays-Moves : (n : ℕ) (l : Link) → Moves n [] l l
stays-Moves n l = (sym (append-nil (messages l)), omega arith)

Moves-Moves :
    (n k : ℕ) (new new' : List String) (l m r : Link)
    → Moves n new l m
    → Moves k new' m r
    → Moves (n + k) (new ++ new') l r
Moves-Moves n k new new' l m r (e, a) (e', b) =
    (e' ∙ ap (λ x. x ++ new') e ∙ append_assoc (messages l) new new', omega (arith, a, b))

-- The oldest message is handed over.
hands_over :
    (s : String) (taken : Bool) (queue : List String) (handed : List (String × Bool))
    → texts (handed ++ (s, taken) ∷ []) ++ queue ≡ texts handed ++ s ∷ queue
hands_over s taken queue handed =
    ap (λ x. x ++ queue) (texts-append handed (s, taken))
    ∙ append_assoc (texts handed) (s ∷ []) queue

take_oldest-Moves :
    (taken : Bool) (queue : List String) (l : Link)
    → l.queue ≡ queue
    → Moves (if taken then 0 else 1) [] l (take_oldest taken queue l)
take_oldest-Moves taken [] l e = (sym (append-nil (messages l)), ground arith)
take_oldest-Moves taken (s ∷ queue) l e = (
  hands_over s taken queue l.handed
      ∙ ap (λ q. texts l.handed ++ q) (sym e)
      ∙ sym (append-nil (messages l)),
  ground (arith, lost-append l.handed s taken),
)

drain-texts :
    (takes : ℕ → Bool) (i : ℕ) (queue : List String) (handed : List (String × Bool))
    → let (handed', queue') = drain takes i queue handed in
      (texts handed' ++ queue' ≡ texts handed ++ queue) × (lost handed' ≤ lost handed + 1)
unfolding drain
drain-texts takes i [] handed = (refl, omega arith)
drain-texts takes i (s ∷ queue) handed = elim (Bool-cases (takes i)) [
  | inl t ↦
      let rest = drain-texts takes (suc i) queue (handed ++ (s, true) ∷ []) in
      rw (drain, t)
        (rest.0 ∙ hands_over s true queue handed, omega (arith, rest.1, lost-append handed s true))
  | inr f ↦
      rw (drain, f) (hands_over s false queue handed, omega (arith, lost-append handed s false))
]

answered-Moves : (rtt : F64) (sent : Option F64) (l : Link) → Moves 0 [] l (answered rtt sent l)
answered-Moves rtt none l = stays-Moves 0 l
answered-Moves rtt (some now) l = stays-Moves 0 l

main_loop-Moves :
    (events : List SocketEvent) (l : Link) → Moves 1 (until_end events).0 l (main_loop events l).0
unfolding main_loop
main_loop-Moves [] l = stays-Moves 1 l
main_loop-Moves (cancels ∷ events) l = stays-Moves 1 l
main_loop-Moves (pings now true ∷ events) l =
    main_loop-Moves events (record l { ping_sent_at = some now })
main_loop-Moves (pings now false ∷ events) l = stays-Moves 1 l
main_loop-Moves (queues s ∷ events) l =
    let l1 : Link = record l { queue = l.queue ++ s ∷ [] } in
    Moves-Moves 0 1 (s ∷ []) (until_end events).0 l l1 (main_loop events l1).0
      (sym (append_assoc (texts l.handed) l.queue (s ∷ [])), omega arith)
      (main_loop-Moves events l1)
main_loop-Moves (sends true ∷ events) l =
    let l1 = take_oldest true l.queue l in
    Moves-Moves 0 1 [] (until_end events).0 l l1 (main_loop events l1).0
      (take_oldest-Moves true l.queue l refl) (main_loop-Moves events l1)
main_loop-Moves (sends false ∷ events) l = take_oldest-Moves false l.queue l refl
main_loop-Moves (senders_gone ∷ events) l = stays-Moves 1 l
main_loop-Moves (text s ∷ events) l =
    main_loop-Moves events (record l { inbound = l.inbound ++ s ∷ [] })
main_loop-Moves (pong rtt ∷ events) l =
    let l1 = answered rtt l.ping_sent_at l in
    Moves-Moves 0 1 [] (until_end events).0 l l1 (main_loop events l1).0
      (answered-Moves rtt l.ping_sent_at l) (main_loop-Moves events l1)
main_loop-Moves (close ∷ events) l = stays-Moves 1 l
main_loop-Moves (ping ∷ events) l = main_loop-Moves events l
main_loop-Moves (binary ∷ events) l = main_loop-Moves events l
main_loop-Moves (read_error ∷ events) l = stays-Moves 1 l
main_loop-Moves (ends ∷ events) l = stays-Moves 1 l

-- The main loop says that the tunnel is cancelled exactly where it is.
main_loop-until_end :
    (events : List SocketEvent) (l : Link) → (main_loop events l).1 ≡ (until_end events).1
unfolding main_loop
main_loop-until_end [] l = refl
main_loop-until_end (cancels ∷ events) l = refl
main_loop-until_end (pings now true ∷ events) l =
    main_loop-until_end events (record l { ping_sent_at = some now })
main_loop-until_end (pings now false ∷ events) l = refl
main_loop-until_end (queues s ∷ events) l =
    main_loop-until_end events (record l { queue = l.queue ++ s ∷ [] })
main_loop-until_end (sends true ∷ events) l =
    main_loop-until_end events (take_oldest true l.queue l)
main_loop-until_end (sends false ∷ events) l = refl
main_loop-until_end (senders_gone ∷ events) l = refl
main_loop-until_end (text s ∷ events) l =
    main_loop-until_end events (record l { inbound = l.inbound ++ s ∷ [] })
main_loop-until_end (pong rtt ∷ events) l =
    main_loop-until_end events (answered rtt l.ping_sent_at l)
main_loop-until_end (close ∷ events) l = refl
main_loop-until_end (ping ∷ events) l = main_loop-until_end events l
main_loop-until_end (binary ∷ events) l = main_loop-until_end events l
main_loop-until_end (read_error ∷ events) l = refl
main_loop-until_end (ends ∷ events) l = refl

-- The state in which the main loop of a connection starts.
abbrev opened : (ℕ → Bool) → Link → Link
opened takes l =
    let (handed, queue) = drain takes 0 l.queue l.handed in
    record l {
      backoff = 1;
      connected = true;
      latency_ms = none;
      ping_sent_at = none;
      handed = handed;
      queue = queue;
    }

connection-Moves :
    (takes : ℕ → Bool) (events : List SocketEvent) (l : Link)
    → Moves 2 (until_end events).0 l (connection takes events l).0
      × ((connection takes events l).1 ≡ (until_end events).1)
unfolding connection
connection-Moves takes events l =
    let (same, few) = drain-texts takes 0 l.queue l.handed in
    let l1 = opened takes l in
    (
      Moves-Moves 1 1 [] (until_end events).0 l l1 (main_loop events l1).0
          (same ∙ sym (append-nil (messages l)), few) (main_loop-Moves events l1),
      main_loop-until_end events l1,
    )

-- How many connections there were.
abbrev pub connections : (connector : Bool) → List Round → ℕ
connections connector [] = 0
connections true (connected takes events cancelled ∷ rounds) = 1 + connections true rounds
connections true (queued s ∷ rounds) = connections true rounds
connections true (refused cancelled ∷ rounds) = connections true rounds
connections false (round ∷ rounds) = connections false rounds

-- The messages that a turn may lose.
abbrev cost : Round → ℕ
cost (queued s) = 0
cost (refused cancelled) = 0
cost (connected takes events cancelled) = 2

connections-cost :
    (connector : Bool) (round : Round) (rounds : List Round)
    → 2 * connections connector (round ∷ rounds)
      ≡ cost (turn connector round) + 2 * connections connector rounds
connections-cost true (queued s) rounds = omega arith
connections-cost true (refused cancelled) rounds = omega arith
connections-cost true (connected takes events cancelled) rounds = omega arith
connections-cost false (queued s) rounds = omega arith
connections-cost false (refused cancelled) rounds = omega arith
connections-cost false (connected takes events cancelled) rounds = omega arith

run_round-Moves :
    (round : Round) (l : Link)
    → Moves (cost round) (queued_in round).0 l (run_round round l).0
      × ((run_round round l).1 ≡ (queued_in round).1)
unfolding run_round
run_round-Moves (queued s) l =
    ((sym (append_assoc (texts l.handed) l.queue (s ∷ [])), omega arith), refl)
run_round-Moves (refused cancelled) l = (stays-Moves 0 l, refl)
run_round-Moves (connected takes events cancelled) l =
    let (moves, same) = connection-Moves takes events l in
    (moves, ap (λ b. if b then true else cancelled) same)

-- Whatever happens, the messages that the tunnel handed to its sockets, followed by those that
-- still wait, are those that were there before, followed by exactly the messages that were queued
-- until it was cancelled, all in their order; and of those handed over at most two more are lost
-- with each connection.
pub run_loop-Moves :
    (connector : Bool) (rounds : List Round) (l : Link)
    → Moves
        (2 * connections connector rounds)
        (all_queued connector rounds)
        l
        (run_loop connector rounds l).0
unfolding run_loop
run_loop-Moves true [] l = stays-Moves 0 l
run_loop-Moves false [] l = stays-Moves 0 l
run_loop-Moves connector (round ∷ rounds) l =
    let now = turn connector round in
    let l1 = (run_round now l).0 in
    let (first, same) = run_round-Moves now l in
    let rest = run_loop-Moves connector rounds l1 in
    let most = connections-cost connector round rounds in
    elim (Bool-cases (queued_in now).1) [
      | inl b ↦ rw (run_loop, same, b) (first.0, omega (arith, first.1, most))
      | inr b ↦
          let both =
            Moves-Moves (cost now) (2 * connections connector rounds) (queued_in now).0
              (all_queued connector rounds) l l1 (run_loop connector rounds l1).0 first rest in
          rw (run_loop, same, b) (both.0, omega (arith, both.1, most))
    ]
