-- ===== src/Router/Choice.antt =====
-- What `pick_node` of router.rs chooses.
use jw_swarm.Common.{
  String, List, [], ◌∷◌, Bool, true, false, ◌&&◌, some, ◌≡◌, refl, ◌∙◌, arith, select,
  if◌then◌else◌, map_option, any, is_some, contains, All, Any, inl, inr, Bool-cases,
}
use mathlib.Core.Option.{some-injective}
use jw_swarm.Float.{F64, Floats, gt, le, IsNumber, CmpLaws}
use jw_swarm.Proto.{is_awake}
use jw_swarm.Registry.{NodeState, can_serve}
use jw_swarm.Router.{Weights, score, max_from, max_by_score, candidates, pick_node}

-- The node stands in the list.
abbrev pub In : NodeState → List NodeState → Type 0
In n = Any (λ m. m ≡ n)

-- The nodes of the list that `pick_node` may choose.
abbrev pub Candidate : List NodeState → String → NodeState → Type 0
Candidate nodes model n =
    In n nodes × (is_awake n.schedule_state ≡ true) × (contains n.ready_models model ≡ true)

Candidate-cons :
    (b : Bool) (x : NodeState) (xs rest : List NodeState) (model : String) (n : NodeState)
    → (is_awake x.schedule_state && can_serve x model) ≡ b
    → (In n rest → Candidate xs model n)
    → In n (if b then x ∷ rest else rest)
    → Candidate (x ∷ xs) model n
unfolding can_serve
Candidate-cons true x xs rest model n e ih (inl p) = (inl p, ground arith, ground arith)
Candidate-cons true x xs rest model n e ih (inr h) = (inr (ih h).0, (ih h).1, (ih h).2)
Candidate-cons false x xs rest model n e ih h = (inr (ih h).0, (ih h).1, (ih h).2)

candidates-Candidate :
    (nodes : List NodeState) (model : String) (n : NodeState)
    → In n (select (λ n. is_awake n.schedule_state && can_serve n model) nodes)
    → Candidate nodes model n
candidates-Candidate [] model n h = absurd h
candidates-Candidate (x ∷ xs) model n h =
    Candidate-cons (is_awake x.schedule_state && can_serve x model) x xs _ model n refl
      (candidates-Candidate xs model n) h

module _ (fl : Floats) (w : Weights) where
  -- None of the nodes scores above this one.
  abbrev pub IsBest : NodeState → List NodeState → Type 0
  IsBest n ns = All (λ m. le fl (score fl m w) (score fl n w) ≡ true) ns

  -- No score is a NaN.
  abbrev pub Scored : List NodeState → Type 0
  Scored = All (λ m. IsNumber fl (score fl m w))

  In-kept :
      (b : Bool) (best n x : NodeState) (ns : List NodeState)
      → In x ((if b then best else n) ∷ ns)
      → In x (best ∷ n ∷ ns)
  In-kept true best n x ns (inl p) = inl p
  In-kept true best n x ns (inr p) = inr (inr p)
  In-kept false best n x ns h = inr h

  max_from-In : (best : NodeState) (ns : List NodeState) → In (max_from fl w best ns) (best ∷ ns)
  unfolding max_from
  max_from-In best [] = inl refl
  max_from-In best (n ∷ ns) =
      In-kept (gt fl (score fl best w) (score fl n w)) best n _ ns
        (max_from-In (if gt fl (score fl best w) (score fl n w) then best else n) ns)

  picked :
      (cs : List NodeState) (id : String)
      → map_option (λ n. n.node_id) (max_by_score fl w cs) ≡ some id
      → (n : NodeState) × (n.node_id ≡ id) × In n cs
  unfolding max_by_score
  picked [] id e = cc
  picked (x ∷ xs) id e = (max_from fl w x xs, some-injective _ _ e, max_from-In x xs)

  -- The choice is a candidate, whatever the scores.
  pub pick_node-Candidate :
      (nodes : List NodeState) (model id : String)
      → pick_node fl nodes model w ≡ some id
      → (n : NodeState) × (n.node_id ≡ id) × Candidate nodes model n
  unfolding pick_node
  pick_node-Candidate nodes model id e =
      let (n, same, there) = picked (candidates fl nodes model) id e in
      (n, same, candidates-Candidate nodes model n there)

  module _ (laws : CmpLaws fl) where
    le_of_not-gt :
        (a b : F64) → IsNumber fl a → IsNumber fl b → gt fl a b ≡ false → le fl a b ≡ true
    le_of_not-gt a b p q e = elim (Bool-cases (le fl a b)) [
      | inl h ↦ h
      | inr h ↦ cc (laws.le_or_gt a b p q h, e)
    ]

    -- The one kept of two is not below either.
    kept_above :
        (b : Bool) (best n : NodeState)
        → gt fl (score fl best w) (score fl n w) ≡ b
        → IsNumber fl (score fl best w)
        → IsNumber fl (score fl n w)
        → IsBest (if b then best else n) (best ∷ n ∷ [])
    kept_above true best n e p q = (rw p refl, (laws.gt-ge _ _ e, tt))
    kept_above false best n e p q = (le_of_not-gt _ _ p q e, (rw q refl, tt))

    kept-Scored :
        (b : Bool) (best n : NodeState) (ns : List NodeState)
        → Scored (best ∷ n ∷ ns)
        → Scored ((if b then best else n) ∷ ns)
    kept-Scored true best n ns h = (h.0, h.1.1)
    kept-Scored false best n ns h = h.1

    max_from-IsBest :
        (best : NodeState) (ns : List NodeState)
        → Scored (best ∷ ns)
        → IsBest (max_from fl w best ns) (best ∷ ns)
    unfolding max_from
    max_from-IsBest best [] h = (rw h.0 refl, tt)
    max_from-IsBest best (n ∷ ns) h =
        let b = gt fl (score fl best w) (score fl n w) in
        let rest = max_from-IsBest (if b then best else n) ns (kept-Scored b best n ns h) in
        let two = kept_above b best n refl h.0 h.1.0 in
        (laws.le_trans _ _ _ two.0 rest.0, (laws.le_trans _ _ _ two.1.0 rest.0, rest.1))

    IsBest-of :
        (cs : List NodeState) (id : String)
        → Scored cs
        → map_option (λ n. n.node_id) (max_by_score fl w cs) ≡ some id
        → (n : NodeState) × (n.node_id ≡ id) × In n cs × IsBest n cs
    unfolding max_by_score
    IsBest-of [] id h e = cc
    IsBest-of (x ∷ xs) id h e =
        (max_from fl w x xs, some-injective _ _ e, max_from-In x xs, max_from-IsBest x xs h)

    -- If no candidate's score is a NaN, the choice is a candidate, and no candidate scores above it.
    pub pick_node-IsBest :
        (nodes : List NodeState) (model id : String)
        → Scored (candidates fl nodes model)
        → pick_node fl nodes model w ≡ some id
        → (n : NodeState) × (n.node_id ≡ id)
          × Candidate nodes model n
          × IsBest n (candidates fl nodes model)
    unfolding pick_node
    pick_node-IsBest nodes model id h e =
        let (n, same, there, best) = IsBest-of (candidates fl nodes model) id h e in
        (n, same, candidates-Candidate nodes model n there, best)

  is_some-max_by_score :
      (p : NodeState → Bool) (ns : List NodeState)
      → is_some (map_option (λ n. n.node_id) (max_by_score fl w (select p ns))) ≡ any p ns
  unfolding max_by_score
  is_some-max_by_score p [] = refl
  is_some-max_by_score p (x ∷ xs) = elim (Bool-cases (p x)) [
    | inl e ↦ rw (e, select, any) refl
    | inr e ↦ rw (e, select, any) (is_some-max_by_score p xs)
  ]

  any-candidate :
      (nodes : List NodeState) (model : String)
      → any (λ n. is_awake n.schedule_state && can_serve n model) nodes
        ≡ any (λ n. can_serve n model) nodes
  unfolding can_serve
  any-candidate [] model = refl
  any-candidate (x ∷ xs) model = ground (arith, any-candidate xs model)

  -- A node is picked exactly if some node is awake and has the model ready. No condition on the
  -- scores is needed.
  pub is_some-pick_node :
      (nodes : List NodeState) (model : String)
      → is_some (pick_node fl nodes model w) ≡ any (λ n. can_serve n model) nodes
  unfolding pick_node
  is_some-pick_node nodes model =
      is_some-max_by_score (λ n. is_awake n.schedule_state && can_serve n model) nodes
      ∙ any-candidate nodes model
