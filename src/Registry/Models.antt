-- ===== src/Registry/Models.antt =====
-- Which models a registry offers (`available_models`, `can_serve`), and since when.
use jw_swarm.Common.{
  String, List, [], ◌∷◌, ◌++◌, Bool, true, false, Option, some, ◌≡◌, ◌≢◌, refl, sym, ◌∙◌, arith,
  eq_iff, ◌==◌, ◌||◌, if◌then◌else◌, any, contains,
}
use jw_swarm.Common.HashMap
use jw_swarm.Common.HashMap.{Each}
use jw_swarm.Common.Sort.{Increasing, dedup-sort-Increasing, contains-dedup-sort}
use jw_swarm.Channel.{Sender}
use jw_swarm.Proto.{Register}
use jw_swarm.Registry.{
  Registry, NodeState, upsert_node, ready_of_awake, available_models, snapshot, can_serve,
}
use jw_swarm.Registry.Laws.{
  Method, call, calls, upserts, removes, measures, readies, schedules, requests, completes,
}

contains-append :
    (xs ys : List String) (k : String) → contains (xs ++ ys) k ≡ (contains xs k || contains ys k)
contains-append [] ys k = refl
contains-append (x ∷ xs) ys k = ground (arith, contains-append xs ys k)

contains-ready_of_awake :
    (ns : List NodeState) (model : String)
    → contains (ready_of_awake ns) model ≡ any (λ n. can_serve n model) ns
unfolding ready_of_awake can_serve
contains-ready_of_awake [] model = refl
contains-ready_of_awake (n ∷ ns) model = ground (
  arith,
  contains-append n.ready_models (ready_of_awake ns) model,
  contains-ready_of_awake ns model,
)

-- A model is available exactly if some node of a snapshot can serve it, and the list is strictly
-- increasing, so that no model stands in it twice.
pub available_models_lem :
    (r : Registry)
    → ((model : String)
        → contains (available_models r) model ≡ any (λ n. can_serve n model) (snapshot r))
      × Increasing (available_models r)
unfolding available_models snapshot
available_models_lem r = (
  λ model.
      contains-dedup-sort model (ready_of_awake (HashMap.values r.nodes))
      ∙ contains-ready_of_awake (HashMap.values r.nodes) model,
  dedup-sort-Increasing (ready_of_awake (HashMap.values r.nodes)),
)

-- No call among these tells the registry which models the node has ready.
abbrev pub Quiet : String → List Method → Type 0
Quiet k [] = Unit
Quiet k (readies j models ∷ ms) = (j ≢ k) × Quiet k ms
Quiet k (m ∷ ms) = Quiet k ms

-- The node, if it is there, has nothing ready.
abbrev Unready : String → Registry → Type 0
Unready k r = Each (λ j n. j ≡ k → n.ready_models ≡ []) r.nodes

call-Unready :
    (k : String) (r : Registry) (m : Method) → Quiet k (m ∷ []) → Unready k r → Unready k (call r m)
unfolding call
call-Unready k r (upserts reg tx) q h = HashMap.insert-Each r.nodes reg.node_id _ h (λ e. refl)
call-Unready k r (removes i) q h = HashMap.remove-Each r.nodes i h
call-Unready k r (measures i m s) q h = HashMap.modify-Each r.nodes i _ h (λ v p. p)
call-Unready k r (readies i ms) q h = HashMap.modify-Each r.nodes i _ h (λ v p e. absurd (q.0 e))
call-Unready k r (schedules i s) q h = HashMap.modify-Each r.nodes i _ h (λ v p. p)
call-Unready k r (requests q' m i tx) q h = h
call-Unready k r (completes q') q h = h

calls-Unready :
    (k : String) (r : Registry) (ms : List Method)
    → Quiet k ms
    → Unready k r
    → Unready k (calls r ms)
unfolding calls
calls-Unready k r [] q h = h
calls-Unready k r (upserts reg tx ∷ ms) q h =
    calls-Unready k (call r (upserts reg tx)) ms q (call-Unready k r (upserts reg tx) tt h)
calls-Unready k r (removes i ∷ ms) q h =
    calls-Unready k (call r (removes i)) ms q (call-Unready k r (removes i) tt h)
calls-Unready k r (measures i m s ∷ ms) q h =
    calls-Unready k (call r (measures i m s)) ms q (call-Unready k r (measures i m s) tt h)
calls-Unready k r (readies i models ∷ ms) q h =
    calls-Unready k (call r (readies i models)) ms q.1
      (call-Unready k r (readies i models) (q.0, tt) h)
calls-Unready k r (schedules i s ∷ ms) q h =
    calls-Unready k (call r (schedules i s)) ms q (call-Unready k r (schedules i s) tt h)
calls-Unready k r (requests q' m i tx ∷ ms) q h =
    calls-Unready k (call r (requests q' m i tx)) ms q (call-Unready k r (requests q' m i tx) tt h)
calls-Unready k r (completes q' ∷ ms) q h =
    calls-Unready k (call r (completes q')) ms q (call-Unready k r (completes q') tt h)

can_serve_unready :
    (n : NodeState) (model : String) → n.ready_models ≡ [] → can_serve n model ≡ false
unfolding can_serve
can_serve_unready n model e = ground arith

set_unready :
    (b : Bool) (fresh n : NodeState) (o : Option NodeState)
    → b ≡ true
    → fresh.ready_models ≡ []
    → (if b then some fresh else o) ≡ some n
    → n.ready_models ≡ []
set_unready b fresh n o t f e = ground arith

upsert_node-Unready :
    (r : Registry) (reg : Register) (tx : Sender) → Unready reg.node_id (upsert_node r reg tx)
unfolding upsert_node
upsert_node-Unready r reg tx j n e p =
    set_unready (reg.node_id == j) _ n (HashMap.get r.nodes j) ((eq_iff reg.node_id j).1 (sym p))
      refl (sym (HashMap.get-insert r.nodes reg.node_id j _) ∙ e)

-- A node that has just registered serves no model until a call reports its ready models, whatever
-- other calls come in between: heartbeats, schedule changes, requests, other nodes, even its own
-- disconnect and registration anew.
pub upsert_node-unready :
    (r : Registry) (reg : Register) (tx : Sender) (ms : List Method) (model : String)
    (n : NodeState)
    → Quiet reg.node_id ms
    → HashMap.get (calls (upsert_node r reg tx) ms).nodes reg.node_id ≡ some n
    → can_serve n model ≡ false
upsert_node-unready r reg tx ms model n q e = can_serve_unready n model (
    calls-Unready reg.node_id (upsert_node r reg tx) ms q (upsert_node-Unready r reg tx) reg.node_id
      n e refl)
