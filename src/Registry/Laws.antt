-- ===== src/Registry/Laws.antt =====
-- The registry's invariant, kept by every method of registry.rs, and what a method leaves alone.
use jw_swarm.Common.{String, List, [], ◌∷◌, some, ◌≡◌, refl, All}
use jw_swarm.Common.HashMap
use jw_swarm.Common.HashMap.{HashMap, Distinct, Each, get-insert, get-remove, get-modify}
use jw_swarm.Channel.{Sender}
use jw_swarm.Proto.{ScheduleStateValue, Metrics, Register}
use jw_swarm.Registry.{
  Registry, NodeState, new, upsert_node, remove_node, update_metrics, update_ready_models,
  update_schedule, register_request, complete_request, snapshot, node_sender,
}

-- The methods that change the registry, with their arguments.
pub data Method : Type 0 where
  upserts : Register → Sender → Method
  removes : String → Method
  measures : String → Metrics → ScheduleStateValue → Method
  readies : String → List String → Method
  schedules : String → ScheduleStateValue → Method
  requests : String → String → String → Sender → Method
  completes : String → Method

unfoldable pub call : Registry → Method → Registry
unfolding upsert_node remove_node update_metrics update_ready_models update_schedule
    register_request complete_request
call r (upserts reg tx) = upsert_node r reg tx
call r (removes k) = remove_node r k
call r (measures k m s) = update_metrics r k m s
call r (readies k ms) = update_ready_models r k ms
call r (schedules k s) = update_schedule r k s
call r (requests q m k tx) = register_request r q m k tx
call r (completes q) = complete_request r q

unfoldable pub calls : Registry → List Method → Registry
calls r [] = r
calls r (m ∷ ms) = calls (call r m) ms

abbrev OwnId : String → NodeState → Type 0
OwnId k n = (n.node_id ≡ k) × (n.register.node_id ≡ k)

-- Every node stands under its own id, which is also the id that it registered with, and no id or
-- request stands twice.
pub record IsKeyed (r : Registry) : Type 0 where
  pub distinct : Distinct r.nodes
  pub distinct_pending : Distinct r.pending
  pub own_id : Each OwnId r.nodes

pub call-IsKeyed : (r : Registry) (m : Method) → IsKeyed r → IsKeyed (call r m)
unfolding call
call-IsKeyed r (upserts reg tx) h = record {
  distinct = HashMap.insert-Distinct r.nodes reg.node_id _ h.distinct;
  distinct_pending = h.distinct_pending;
  own_id = HashMap.insert-Each r.nodes reg.node_id _ h.own_id (refl, refl);
}
call-IsKeyed r (removes i) h = record {
  distinct = HashMap.remove-Distinct r.nodes i h.distinct;
  distinct_pending = h.distinct_pending;
  own_id = HashMap.remove-Each r.nodes i h.own_id;
}
call-IsKeyed r (measures i m s) h = record {
  distinct = HashMap.modify-Distinct r.nodes i _ h.distinct;
  distinct_pending = h.distinct_pending;
  own_id = HashMap.modify-Each r.nodes i _ h.own_id (λ v p. p);
}
call-IsKeyed r (readies i ms) h = record {
  distinct = HashMap.modify-Distinct r.nodes i _ h.distinct;
  distinct_pending = h.distinct_pending;
  own_id = HashMap.modify-Each r.nodes i _ h.own_id (λ v p. p);
}
call-IsKeyed r (schedules i s) h = record {
  distinct = HashMap.modify-Distinct r.nodes i _ h.distinct;
  distinct_pending = h.distinct_pending;
  own_id = HashMap.modify-Each r.nodes i _ h.own_id (λ v p. p);
}
call-IsKeyed r (requests q m i tx) h = record {
  distinct = h.distinct;
  distinct_pending = HashMap.insert-Distinct r.pending q _ h.distinct_pending;
  own_id = h.own_id;
}
call-IsKeyed r (completes q) h = record {
  distinct = h.distinct;
  distinct_pending = HashMap.remove-Distinct r.pending q h.distinct_pending;
  own_id = h.own_id;
}

pub calls-IsKeyed : (r : Registry) (ms : List Method) → IsKeyed r → IsKeyed (calls r ms)
unfolding calls
calls-IsKeyed r [] h = h
calls-IsKeyed r (m ∷ ms) h = calls-IsKeyed (call r m) ms (call-IsKeyed r m h)

new-IsKeyed : IsKeyed new
unfolding HashMap.get
new-IsKeyed = record { distinct = tt; distinct_pending = tt; own_id = λ k n e. cc }

-- After any calls of the registry's methods, starting from the empty registry, every node stands
-- once, under the id that it registered with, and every pending request stands once.
pub calls-new-IsKeyed : (ms : List Method) → IsKeyed (calls new ms)
calls-new-IsKeyed ms = calls-IsKeyed new ms new-IsKeyed

-- A node that a snapshot shows is reached through the sender of its own entry.
abbrev pub Reachable : Registry → NodeState → Type 0
Reachable r n = node_sender r n.node_id ≡ some n.tx

-- Every node that a snapshot of a keyed registry shows is reached by its id through the sender of
-- its own entry.
pub snapshot-Reachable : (r : Registry) → IsKeyed r → All (Reachable r) (snapshot r)
unfolding snapshot node_sender
snapshot-Reachable r h = HashMap.values-Each r.nodes h.distinct λ k n e. rw ((h.own_id k n e).0, e)
