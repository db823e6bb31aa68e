-- ===== src/Registry/View.antt =====
-- The registry as the rest of the program sees it: what each id stands for, whatever the order of
-- the two hash maps.
use jw_swarm.Common.{
  String, List, [], ◌∷◌, Option, none, some, map_option, if◌then◌else◌, ◌==◌, ◌≡◌, refl, ap, ◌∙◌,
  any, Bool, true, eq_iff, eq_refl, Bool-cases, inl, inr, arith, sym,
}
use mathlib.Core.Option.{none-ne-some}
use mathlib.Core.Bool.{false≢true}
use jw_swarm.Common.Increasing.{Increasing-ext}
use jw_swarm.Common.HashMap
use jw_swarm.Common.HashMap.{HashMap, Distinct, get-insert, get-remove, get-modify}
use jw_swarm.Proto.{asleep}
use jw_swarm.Registry.{
  can_serve, Registry, NodeState, PendingMeta, upsert_node, remove_node, update_metrics,
  update_ready_models, update_schedule, register_request, complete_request, snapshot,
  available_models,
}
use jw_swarm.Registry.Models.{available_models_lem}
use jw_swarm.Registry.Laws.{
  calls-IsKeyed, Method, call, calls, upserts, removes, measures, readies, schedules, requests,
  completes, IsKeyed,
}

-- What each key stands for.
abbrev pub Lookup {ℓ} : Type ℓ → Type ℓ
Lookup V = String → Option V

abbrev pub set {ℓ} : {V : Type ℓ} → String → V → Lookup V → Lookup V
set k v f j = if k == j then some v else f j

abbrev pub clear {ℓ} : {V : Type ℓ} → String → Lookup V → Lookup V
clear k f j = if k == j then none else f j

abbrev pub change {ℓ} : {V : Type ℓ} → String → (V → V) → Lookup V → Lookup V
change k g f j = if k == j then map_option g (f j) else f j

-- The nodes and the pending requests.
abbrev pub View : Type 0
View = Lookup NodeState × Lookup PendingMeta

abbrev pub view : Registry → View
view r = (HashMap.get r.nodes, HashMap.get r.pending)

-- What each method does to what is seen.
abbrev pub perform : Method → View → View
perform (upserts reg tx) (nodes, pending) = (
  set reg.node_id
      (record {
        node_id = reg.node_id;
        register = reg;
        metrics = none;
        ready_models = [];
        schedule_state = asleep;
        tx = tx;
      })
      nodes,
  pending,
)
perform (removes k) (nodes, pending) = (clear k nodes, pending)
perform (measures k m s) (nodes, pending) =
    (change k (λ n. record n { metrics = some m; schedule_state = s }) nodes, pending)
perform (readies k ms) (nodes, pending) =
    (change k (λ n. record n { ready_models = ms }) nodes, pending)
perform (schedules k s) (nodes, pending) =
    (change k (λ n. record n { schedule_state = s }) nodes, pending)
perform (requests q m k tx) (nodes, pending) =
    (nodes, set q (record { tx = tx; model = m; node_id = k }) pending)
perform (completes q) (nodes, pending) = (nodes, clear q pending)

abbrev pub performs : List Method → View → View
performs [] v = v
performs (m ∷ ms) v = performs ms (perform m v)

view-call : (r : Registry) (m : Method) → view (call r m) ≡ perform m (view r)
unfolding call upsert_node remove_node update_metrics update_ready_models update_schedule
    register_request complete_request
view-call r (upserts reg tx) = λ i. (
  λ j.
      get-insert r.nodes reg.node_id j
        (record {
          node_id = reg.node_id;
          register = reg;
          metrics = none;
          ready_models = [];
          schedule_state = asleep;
          tx = tx;
        })
        i,
  HashMap.get r.pending,
)
view-call r (removes k) = λ i. (λ j. get-remove r.nodes k j i, HashMap.get r.pending)
view-call r (measures k m s) = λ i. (
  λ j. get-modify r.nodes k j (λ n. record n { metrics = some m; schedule_state = s }) i,
  HashMap.get r.pending,
)
view-call r (readies k ms) = λ i.
    (λ j. get-modify r.nodes k j (λ n. record n { ready_models = ms }) i, HashMap.get r.pending)
view-call r (schedules k s) = λ i.
    (λ j. get-modify r.nodes k j (λ n. record n { schedule_state = s }) i, HashMap.get r.pending)
view-call r (requests q m k tx) = λ i. (
  HashMap.get r.nodes,
  λ j. get-insert r.pending q j (record { tx = tx; model = m; node_id = k }) i,
)
view-call r (completes q) = λ i. (HashMap.get r.nodes, λ j. get-remove r.pending q j i)

view-calls : (r : Registry) (ms : List Method) → view (calls r ms) ≡ performs ms (view r)
unfolding calls
view-calls r [] = refl
view-calls r (m ∷ ms) = view-calls (call r m) ms ∙ ap (performs ms) (view-call r m)

-- A value for which the test holds stands under some key, and counts wherever it stands.
any_found :
    (f : NodeState → Bool) (m : HashMap NodeState)
    → Distinct m
    → any f (HashMap.values m) ≡ true
    → (k : String) × (n : NodeState) × (HashMap.get m k ≡ some n) × (f n ≡ true)
unfolding HashMap.values HashMap.get
any_found f [] d t = absurd (false≢true t)
any_found f ((k, n) ∷ m) d t = elim (Bool-cases (f n)) [
  | inl b ↦ (k, n, rw (eq_refl k) refl, b)
  | inr b ↦
      let (j, w, g, h) = any_found f m d.1 (ground (arith, t, b)) in
      (j, w, ground (arith, g, d.0, eq_iff k j), h)
]

any_get :
    (f : NodeState → Bool) (m : HashMap NodeState) (k : String) (n : NodeState)
    → HashMap.get m k ≡ some n
    → f n ≡ true
    → any f (HashMap.values m) ≡ true
unfolding HashMap.values HashMap.get
any_get f [] k n g h = absurd (none-ne-some n g)
any_get f ((j, w) ∷ m) k n g h = ground (arith, any_get f m k n, g, h)

any_same :
    (f : NodeState → Bool) (m m' : HashMap NodeState)
    → Distinct m
    → Distinct m'
    → HashMap.get m ≡ HashMap.get m'
    → any f (HashMap.values m) ≡ any f (HashMap.values m')
any_same f m m' d d' e =
    let move =
      λ (x y : HashMap NodeState) (dx : Distinct x) (same : HashMap.get x ≡ HashMap.get y)
          (t : any f (HashMap.values x) ≡ true).
        let (k, n, g, h) = any_found f x dx t in any_get f y k n (ap (λ l. l k) (sym same) ∙ g) h in
    elim (Bool-cases (any f (HashMap.values m))) [
      | inl t ↦ t ∙ sym (move m m' d e t)
      | inr b ↦ elim (Bool-cases (any f (HashMap.values m'))) [
        | inl t ↦ absurd (false≢true (sym b ∙ move m' m d' (sym e) t))
        | inr c ↦ b ∙ sym c
      ]
    ]

-- Any calls of the registry's methods, one after the other, do to what is seen of the registry what
-- is said of each of them; and after the same calls two registries of which the same was seen,
-- however their maps are ordered, offer the same models in the same order, if every node and
-- every request stood in them once.
pub view-calls-available_models :
    (r r' : Registry) (ms : List Method)
    → IsKeyed r
    → IsKeyed r'
    → view r ≡ view r'
    → (view (calls r ms) ≡ performs ms (view r))
      × (available_models (calls r ms) ≡ available_models (calls r' ms))
unfolding snapshot
view-calls-available_models r r' ms k k' e =
    let s = calls r ms in
    let s' = calls r' ms in
    let same : view s ≡ view s' = view-calls r ms ∙ ap (performs ms) e ∙ sym (view-calls r' ms) in
    (
      view-calls r ms,
      Increasing-ext (available_models s) (available_models s') (available_models_lem s).1
          (available_models_lem s').1
          λ model.
            (available_models_lem s).0 model
            ∙ any_same (λ n. can_serve n model) s.nodes s'.nodes (calls-IsKeyed r ms k).distinct
                (calls-IsKeyed r' ms k').distinct (ap (λ v. v.0) same)
            ∙ sym ((available_models_lem s').0 model),
    )
