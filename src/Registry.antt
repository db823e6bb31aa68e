-- ===== src/Registry.antt =====
-- jw-swarm-fleet-manager/src/registry.rs: the connected nodes and the requests in flight. Each
-- method runs under the lock, so it is one step on the maps.
pub mod Laws
pub mod Models
pub mod View
use jw_swarm.Common.{
  ℕ, String, List, [], ◌∷◌, ◌++◌, Bool, true, false, ◌&&◌, Option, none, some, contains, select,
  ◌==◌, if◌then◌else◌, map_option,
}
use jw_swarm.Common.Sort.{sort, dedup}
use jw_swarm.Common.HashMap
use jw_swarm.Common.HashMap.{HashMap}
use jw_swarm.Channel.{Sender, Channels, send}
use jw_swarm.Proto.{
  ScheduleStateValue, asleep, is_awake, GpuVendor, Metrics, Register, TokenChunk, Done, ProtoError,
}

pub data RequestEvent : Type 0 where
  chunk : TokenChunk → RequestEvent
  finished : Done → RequestEvent
  failed : ProtoError → RequestEvent

pub record NodeState : Type 0 where
  pub node_id : String
  pub register : Register
  pub metrics : Option Metrics
  pub ready_models : List String
  pub schedule_state : ScheduleStateValue
  pub tx : Sender

unfoldable pub can_serve : NodeState → String → Bool
can_serve n model = is_awake n.schedule_state && contains n.ready_models model

pub record PendingMeta : Type 0 where
  pub tx : Sender
  pub model : String
  pub node_id : String

pub record Registry : Type 0 where
  pub nodes : HashMap NodeState
  pub pending : HashMap PendingMeta

abbrev pub new : Registry
new = record { nodes = []; pending = [] }

unfoldable pub upsert_node : Registry → Register → Sender → Registry
upsert_node r reg tx = record r {
  nodes = HashMap.insert r.nodes reg.node_id (record {
    node_id = reg.node_id;
    register = reg;
    metrics = none;
    ready_models = [];
    schedule_state = asleep;
    tx = tx;
  });
}

unfoldable pub remove_node : Registry → String → Registry
remove_node r node_id = record r { nodes = HashMap.remove r.nodes node_id }

unfoldable pub update_metrics : Registry → String → Metrics → ScheduleStateValue → Registry
update_metrics r node_id metrics state = record r {
  nodes =
      HashMap.modify r.nodes node_id
        λ node. record node { metrics = some metrics; schedule_state = state };
}

unfoldable pub update_ready_models : Registry → String → List String → Registry
update_ready_models r node_id ready_models = record r {
  nodes = HashMap.modify r.nodes node_id λ node. record node { ready_models = ready_models };
}

unfoldable pub update_schedule : Registry → String → ScheduleStateValue → Registry
update_schedule r node_id state = record r {
  nodes = HashMap.modify r.nodes node_id λ node. record node { schedule_state = state };
}

unfoldable pub snapshot : Registry → List NodeState
snapshot r = HashMap.values r.nodes

-- The ready models of the nodes that are awake, node by node.
unfoldable pub ready_of_awake : List NodeState → List String
ready_of_awake [] = []
ready_of_awake (n ∷ ns) =
    if is_awake n.schedule_state then n.ready_models ++ ready_of_awake ns else ready_of_awake ns

unfoldable pub available_models : Registry → List String
unfolding ready_of_awake
available_models r = dedup (sort (ready_of_awake (HashMap.values r.nodes)))

unfoldable pub node_sender : Registry → String → Option Sender
node_sender r node_id = map_option (λ n. n.tx) (HashMap.get r.nodes node_id)

unfoldable pub node_vendor : Registry → String → Option GpuVendor
node_vendor r node_id = map_option (λ n. n.register.gpu.vendor) (HashMap.get r.nodes node_id)

unfoldable pub register_request : Registry → String → String → String → Sender → Registry
register_request r request_id model node_id tx = record r {
  pending =
      HashMap.insert r.pending request_id (record { tx = tx; model = model; node_id = node_id });
}

unfoldable pub complete_request : Registry → String → Registry
complete_request r request_id = record r { pending = HashMap.remove r.pending request_id }

unfoldable pub get_pending : Registry → String → Option PendingMeta
get_pending r request_id = HashMap.get r.pending request_id

-- Sends to the request's channel if it is pending; a closed channel is ignored.
unfoldable pub dispatch_event :
    Registry → Channels RequestEvent → String → RequestEvent → Channels RequestEvent
dispatch_event r events request_id event = elim (get_pending r request_id) [
  | none ↦ events
  | some m ↦ send events m.tx event
]
