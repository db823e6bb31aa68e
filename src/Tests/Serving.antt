-- ===== src/Tests/Serving.antt =====
-- Runs of the choice of a node, the API, the catalog and the registry.
use jw_swarm.Common.{List, [], ◌∷◌, ◌++◌, false, some, ◌≡◌, refl, arith, eq_iff}
use jw_swarm.Common.HashMap
use jw_swarm.Proto.{nvidia}
use jw_swarm.Registry.{get_pending, NodeState, new, can_serve, snapshot, complete_request, finished}
use jw_swarm.Registry.Laws.{IsKeyed}
use jw_swarm.Router.{pick_node, candidates, score}
use jw_swarm.Router.Choice.{Candidate, IsBest, pick_node-IsBest}
use jw_swarm.Catalog.{resolve_for}
use jw_swarm.Catalog.Resolve.{AreOffers, resolve_for-AreOffers}
use jw_swarm.Http.{json}
use jw_swarm.State.{AppState}
use jw_swarm.Api.{chat_completions, dispatched, stream_response, buffered_response, completion}
use jw_swarm.Api.Outcome.{NoTrace, Runs, chat, chat_completions-NoTrace, chat_completions-Runs}
use jw_swarm.Api.Streams.{chunks, streamed_text, buffered-stream_response}
use jw_swarm.Tests.{
  fl, fl-CmpLaws, catalog, node, registry, state, json_reader, body, hello, report, usage,
}

abbrev nodes : List NodeState
nodes = node ∷ []

pick_node-IsBest_example :
    (n : NodeState) × (n.node_id ≡ "n1")
    × Candidate nodes "m" n
    × IsBest fl state.weights n (candidates fl nodes "m")
unfolding pick_node can_serve score
pick_node-IsBest_example =
    pick_node-IsBest fl state.weights fl-CmpLaws nodes "m" "n1" (refl, tt) refl

registry-IsKeyed : IsKeyed registry
unfolding HashMap.get
registry-IsKeyed = record {
  distinct = (refl, tt);
  distinct_pending = (refl, tt);
  own_id = λ k n e. ground (arith, eq_iff "n1" k);
}

chat_completions-Runs_example :
    (n : NodeState) × Candidate (snapshot registry) "m" n
    × ((chat fl json_reader "r" 9 body state).0 ≡ dispatched false "r" "m" n.node_id 9)
    × Runs state false "m" n.node_id "r" 9 body (chat fl json_reader "r" 9 body state).1 n.tx
unfolding snapshot can_serve HashMap.values
chat_completions-Runs_example =
    chat_completions-Runs fl json_reader "r" 9 body state "m" refl refl registry-IsKeyed (refl, tt)

-- The registry without its node.
abbrev nobody : AppState
nobody = record state { registry = new }

chat_completions-NoTrace_example : NoTrace nobody (chat fl json_reader "r" 9 body nobody).1
unfolding chat_completions pick_node snapshot get_pending HashMap.get HashMap.values
chat_completions-NoTrace_example =
    chat_completions-NoTrace fl json_reader "r" 9 body nobody refl refl

buffered-stream_response_example :
    (buffered_response state "q" "m" 5 false (chunks (hello ∷ []) ++ finished report ∷ [])
      ≡ some (
        json (completion "q" "m" 5 "hello" usage),
        record state { registry = complete_request registry "q" },
      ))
    × (streamed_text (stream_response "q" "m" 5 (chunks (hello ∷ []) ++ finished report ∷ []))
        ≡ "hello")
unfolding stream_response
buffered-stream_response_example =
    buffered-stream_response state "q" "m" 5 false (hello ∷ []) report []

resolve_for-AreOffers_example : AreOffers nvidia catalog.models (resolve_for catalog nvidia)
resolve_for-AreOffers_example = resolve_for-AreOffers catalog nvidia
