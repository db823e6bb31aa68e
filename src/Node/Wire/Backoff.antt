-- ===== src/Node/Wire/Backoff.antt =====
-- How long the tunnel waits before it connects again, and what it reports meanwhile.
use jw_swarm.Common.{
  ℕ, zero, suc, ◌*◌, ◌^◌, ◌≤◌, String, List, [], ◌∷◌, ◌++◌, Bool, true, false, Option, none, some,
  ltb, if◌then◌else◌, ◌≡◌, refl, arith, Bool-cases, inl, inr, ap, ◌∙◌, sym,
}
use native.Mathlib.Nat.{pow-suc, mul_comm, mul_assoc, mul-le-mul_left}
use jw_swarm.Float.{F64}
use jw_swarm.Node.Wire.{
  queued, turn, Link, SocketEvent, Round, refused, connected, grow, max_backoff, main_loop,
  connection, run_round, run_loop, initial, answered, drain, take_oldest, cancels, pings, queues,
  sends, senders_gone, text, pong, close, ping, binary, read_error, ends,
}

-- `b` doubled `k` times, but at most the maximum.
abbrev pub capped : ℕ → ℕ → ℕ
capped b k = if ltb max_backoff (b * 2 ^ k) then max_backoff else b * 2 ^ k

-- `k` turns without a connection, none of them cancelled.
abbrev pub refusals : ℕ → List Round
refusals zero = []
refusals (suc k) = refused false ∷ refusals k

pow_positive : (k : ℕ) → 1 ≤ 2 ^ k
pow_positive zero = omega arith
pow_positive (suc k) = omega (arith, pow-suc 2 k, pow_positive k)

capped-grow : (b k : ℕ) → 1 ≤ b → b ≤ 60 → capped (grow b) k ≡ capped b (suc k)
capped-grow b k low high =
    let doubled : b * 2 ^ suc k ≡ b * 2 * 2 ^ k =
      ap (λ x. b * x) (pow-suc 2 k ∙ mul_comm (2 ^ k) 2) ∙ sym (mul_assoc b 2 (2 ^ k)) in
    let large : 60 * 1 ≤ 60 * 2 ^ k = mul-le-mul_left 60 (pow_positive k) in
    let larger : b * 2 * 1 ≤ b * 2 * 2 ^ k = mul-le-mul_left (b * 2) (pow_positive k) in
    elim (Bool-cases (ltb max_backoff (b * 2))) [
      | inl t ↦ rw (t, doubled) (ground (arith, t, large, larger))
      | inr f ↦ rw (f, doubled) refl
    ]

-- However many connections in a row are refused, the wait after the last of them is the wait
-- before the first doubled as many times, but at most 60 seconds, with a connector and without.
pub run_loop-refusals :
    (connector : Bool) (k : ℕ) (l : Link)
    → 1 ≤ l.backoff
    → l.backoff ≤ 60
    → (run_loop connector (refusals k) l).0.backoff ≡ capped l.backoff k
unfolding run_loop run_round
run_loop-refusals connector zero l low high = ground (arith, low, high)
run_loop-refusals true (suc k) l low high =
    run_loop-refusals true k (record l { backoff = grow l.backoff }) (ground (arith, low))
      (ground (arith, high))
    ∙ capped-grow l.backoff k low high
run_loop-refusals false (suc k) l low high =
    run_loop-refusals false k (record l { backoff = grow l.backoff }) (ground (arith, low))
      (ground (arith, high))
    ∙ capped-grow l.backoff k low high

take_oldest_keeps :
    (taken : Bool) (queue : List String) (l : Link)
    → (take_oldest taken queue l).backoff ≡ l.backoff
take_oldest_keeps taken [] l = refl
take_oldest_keeps taken (s ∷ queue) l = refl

answered_keeps :
    (rtt : F64) (sent : Option F64) (l : Link) → (answered rtt sent l).backoff ≡ l.backoff
answered_keeps rtt none l = refl
answered_keeps rtt (some now) l = refl

main_loop_keeps :
    (events : List SocketEvent) (l : Link) → ((main_loop events l).0.backoff ≡ l.backoff)
unfolding main_loop
main_loop_keeps [] l = refl
main_loop_keeps (cancels ∷ events) l = refl
main_loop_keeps (pings now true ∷ events) l =
    main_loop_keeps events (record l { ping_sent_at = some now })
main_loop_keeps (pings now false ∷ events) l = refl
main_loop_keeps (queues s ∷ events) l =
    main_loop_keeps events (record l { queue = l.queue ++ s ∷ [] })
main_loop_keeps (sends true ∷ events) l =
    main_loop_keeps events (take_oldest true l.queue l) ∙ take_oldest_keeps true l.queue l
main_loop_keeps (sends false ∷ events) l = take_oldest_keeps false l.queue l
main_loop_keeps (senders_gone ∷ events) l = refl
main_loop_keeps (text s ∷ events) l =
    main_loop_keeps events (record l { inbound = l.inbound ++ s ∷ [] })
main_loop_keeps (pong rtt ∷ events) l =
    main_loop_keeps events (answered rtt l.ping_sent_at l) ∙ answered_keeps rtt l.ping_sent_at l
main_loop_keeps (close ∷ events) l = refl
main_loop_keeps (ping ∷ events) l = main_loop_keeps events l
main_loop_keeps (binary ∷ events) l = main_loop_keeps events l
main_loop_keeps (read_error ∷ events) l = refl
main_loop_keeps (ends ∷ events) l = refl

-- Between two connections: no connection and no latency are reported, and the next wait is at
-- least one second and at most 60.
abbrev pub IsIdle : Link → Type 0
IsIdle l = (l.connected ≡ false) × (l.latency_ms ≡ none) × (1 ≤ l.backoff) × (l.backoff ≤ 60)

connection-backoff :
    (takes : ℕ → Bool) (events : List SocketEvent) (l : Link)
    → (connection takes events l).0.backoff ≡ 1
unfolding connection
connection-backoff takes events l =
    let drained = drain takes 0 l.queue l.handed in
    main_loop_keeps events (record l {
      backoff = 1;
      connected = true;
      latency_ms = none;
      ping_sent_at = none;
      handed = drained.0;
      queue = drained.1;
    })

run_round-IsIdle : (round : Round) (l : Link) → IsIdle l → IsIdle (run_round round l).0
unfolding run_round
run_round-IsIdle (queued s) l idle = idle
run_round-IsIdle (refused cancelled) l (c, lat, low, high) =
    (c, lat, ground (arith, low), ground (arith, high))
run_round-IsIdle (connected takes events cancelled) l idle = (
  refl,
  refl,
  ground (arith, connection-backoff takes events l),
  ground (arith, connection-backoff takes events l),
)

run_loop_keeps :
    (connector : Bool) (rounds : List Round) (l : Link)
    → IsIdle l
    → IsIdle (run_loop connector rounds l).0
unfolding run_loop
run_loop_keeps connector [] l idle = idle
run_loop_keeps connector (round ∷ rounds) l idle =
    let now = turn connector round in
    let next = run_round-IsIdle now l idle in
    elim (Bool-cases (run_round now l).1) [
      | inl b ↦ rw (run_loop, b) next
      | inr b ↦ rw (run_loop, b) (run_loop_keeps connector rounds (run_round now l).0 next)
    ]

-- Whatever happens on the connections and between them, whenever the tunnel is not connected it
-- says so and reports no latency, and the wait before the next attempt has been set to at least
-- one second and at most 60.
pub run_loop-IsIdle :
    (connector : Bool) (rounds : List Round) → IsIdle (run_loop connector rounds initial).0
run_loop-IsIdle connector rounds =
    run_loop_keeps connector rounds initial (refl, refl, omega arith, omega arith)
