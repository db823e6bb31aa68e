-- ===== src/Api/Outcome.antt =====
-- What a chat request comes to.
use jw_swarm.Common.{
  ℕ, String, List, [], ◌∷◌, ◌++◌, Bool, true, false, none, some, ◌≡◌, refl, sym, ◌∙◌, arith, any,
  and_then, unwrap_or, is_some, Option-cases, inl, inr, eq_iff, eq_refl, All, ap, subst,
}
use jw_swarm.Common.HashMap
use jw_swarm.Float.{Floats}
use jw_swarm.Proto.{Value, prompt_dispatch}
use jw_swarm.Channel.{Sender, send, sends}
use jw_swarm.Registry.{
  NodeState, snapshot, node_sender, get_pending, can_serve, register_request, complete_request,
}
use jw_swarm.Registry.Laws.{IsKeyed, snapshot-Reachable}
use jw_swarm.Router.{pick_node}
use jw_swarm.Router.Choice.{In, Candidate, pick_node-Candidate, is_some-pick_node}
use jw_swarm.Http.{Json}
use jw_swarm.State.{AppState}
use jw_swarm.Api.{Dispatch, refused, dispatched, submit, chat_completions}

abbrev pub is_refused : Dispatch → Bool
is_refused (refused r) = true
is_refused (dispatched stream request_id model node_id event_rx) = false

-- Nothing that a request can leave behind differs: every pending request, the messages to the
-- nodes, the database.
pub record NoTrace (s s' : AppState) : Type 0 where
  pub same_pending : (q : String) → get_pending s'.registry q ≡ get_pending s.registry q
  pub same_outbound : s'.outbound ≡ s.outbound
  pub same_db : s'.db ≡ s.db

module _ (s : AppState) (stream : Bool) (model node_id request_id : String) (event_rx : ℕ)
    (body : Value) where
  abbrev outcome : Dispatch × AppState
  outcome = submit s stream model node_id request_id event_rx body

  submit-NoTrace :
      get_pending s.registry request_id ≡ none → is_refused outcome.0 ≡ true → NoTrace s outcome.1
  unfolding submit get_pending register_request complete_request
  submit-NoTrace fresh h = record {
    same_pending = λ q. ground (
      arith,
      HashMap.get-remove
          (HashMap.insert s.registry.pending request_id
            (record { tx = record { channel = event_rx }; model = model; node_id = node_id }))
          request_id q,
      HashMap.get-insert s.registry.pending request_id q
          (record { tx = record { channel = event_rx }; model = model; node_id = node_id }),
      eq_iff request_id q,
    );
    same_outbound = ground arith;
    same_db = ground arith;
  }

  -- The request is pending under its id with its model, node and channel, and the node's channel
  -- has the prompt as its newest message.
  pub record Runs (s' : AppState) (tx : Sender) : Type 0 where
    pub pends :
        get_pending s'.registry request_id
        ≡ some (record { tx = record { channel = event_rx }; model = model; node_id = node_id })
    pub prompts :
        (s'.outbound tx.channel).sent
        ≡ (s.outbound tx.channel).sent
          ++ prompt_dispatch (record { request_id = request_id; model = model; payload = body })
            ∷ []

  submit-Runs :
      (tx : Sender)
      → node_sender s.registry node_id ≡ some tx
      → sends s.outbound tx ≡ true
      → (outcome.0 ≡ dispatched stream request_id model node_id event_rx) × Runs outcome.1 tx
  unfolding submit get_pending register_request send
  submit-Runs tx found receiving = (
    ground arith,
    record {
      pends = ground (
        arith,
        HashMap.get-insert s.registry.pending request_id request_id
            (record { tx = record { channel = event_rx }; model = model; node_id = node_id }),
        eq_refl request_id,
      );
      prompts = ground arith;
    },
  )

-- Every node that the registry shows has a writer that still receives.
abbrev pub AllReceive : AppState → Type 0
AllReceive x = All (λ n. sends x.outbound n.tx ≡ true) (snapshot x.registry)

at_node : (P : NodeState → Type 0) (ns : List NodeState) (n : NodeState) → In n ns → All P ns → P n
at_node P [] n h all = absurd h
at_node P (x ∷ xs) n (inl p) all = subst P p all.0
at_node P (x ∷ xs) n (inr h) all = at_node P xs n h all.1

module _ (fl : Floats) (j : Json) (request_id : String) (event_rx : ℕ) (body : Value)
    (s : AppState) where
  -- The handler when no other task comes between its steps.
  abbrev pub chat : Dispatch × AppState
  chat = chat_completions fl j (λ x. x) request_id event_rx body s

  abbrev wants_stream : Bool
  wants_stream = unwrap_or (and_then (j.get body "stream") j.as_bool) false

  chat-submit :
      (model node_id : String)
      → and_then (j.get body "model") j.as_str ≡ some model
      → pick_node fl (snapshot s.registry) model s.weights ≡ some node_id
      → chat ≡ submit s wants_stream model node_id request_id event_rx body
  unfolding chat_completions
  chat-submit model node_id n p = rw (n, chat_completions) (rw (p, chat_completions) refl)

  -- A request that is refused, for whatever reason, leaves no trace, if its id was new and no other
  -- task comes between the steps.
  pub chat_completions-NoTrace :
      get_pending s.registry request_id ≡ none → is_refused chat.0 ≡ true → NoTrace s chat.1
  unfolding chat_completions
  chat_completions-NoTrace fresh h = elim (Option-cases (and_then (j.get body "model") j.as_str)) [
    | inl n ↦ rw (n, chat_completions) nothing
    | inr (model, n) ↦ elim (Option-cases (pick_node fl (snapshot s.registry) model s.weights)) [
      | inl p ↦ rw (n, chat_completions) (rw (p, chat_completions) nothing)
      | inr (k, p) ↦
          subst (λ r. is_refused r.0 ≡ true → NoTrace s r.1) (sym (chat-submit model k n p))
            (submit-NoTrace s wants_stream model k request_id event_rx body fresh) h
    ]
  ]
    where
      nothing : NoTrace s s
      nothing = record { same_pending = λ q. refl; same_outbound = refl; same_db = refl }

  -- A request for a model that some node can serve reaches a node that can serve it: it is pending
  -- there, and the prompt is the newest message to that node. No other task comes between the
  -- steps, the registry is keyed, and the writers of its nodes still receive.
  pub chat_completions-Runs :
      (model : String)
      → and_then (j.get body "model") j.as_str ≡ some model
      → any (λ n. can_serve n model) (snapshot s.registry) ≡ true
      → IsKeyed s.registry
      → AllReceive s
      → (n : NodeState) × Candidate (snapshot s.registry) model n
        × (chat.0 ≡ dispatched wants_stream request_id model n.node_id event_rx)
        × Runs s wants_stream model n.node_id request_id event_rx body chat.1 n.tx
  chat_completions-Runs model m can keyed receive =
      elim (Option-cases (pick_node fl (snapshot s.registry) model s.weights)) [
        | inl p ↦ cc (ap is_some p, is_some-pick_node fl s.weights (snapshot s.registry) model, can)
        | inr (k, p) ↦
            reached k p (pick_node-Candidate fl s.weights (snapshot s.registry) model k p)
      ]
    where
      reached :
          (k : String)
          → pick_node fl (snapshot s.registry) model s.weights ≡ some k
          → (n : NodeState) × (n.node_id ≡ k) × Candidate (snapshot s.registry) model n
          → (n : NodeState) × Candidate (snapshot s.registry) model n
            × (chat.0 ≡ dispatched wants_stream request_id model n.node_id event_rx)
            × Runs s wants_stream model n.node_id request_id event_rx body chat.1 n.tx
      reached k p (n, same, c) =
          let eq = chat-submit model n.node_id m (p ∙ ap some (sym same)) in
          let runs =
            submit-Runs s wants_stream model n.node_id request_id event_rx body n.tx
              (at_node _ (snapshot s.registry) n c.0 (snapshot-Reachable s.registry keyed))
              (at_node _ (snapshot s.registry) n c.0 receive) in
          (
            n,
            c,
            subst (λ r. r.0 ≡ dispatched wants_stream request_id model n.node_id event_rx) (sym eq)
                runs.0,
            subst (λ r. Runs s wants_stream model n.node_id request_id event_rx body r.1 n.tx)
                (sym eq) runs.1,
          )
