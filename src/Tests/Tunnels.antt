-- ===== src/Tests/Tunnels.antt =====
-- Runs of a node's tunnel.
use jw_swarm.Common.{◌-◌, ℕ, [], false, none, some, ◌≡◌, refl, arith}
use mathlib.Core.Option.{some-injective}
use jw_swarm.Common.HashMap
use jw_swarm.Float.{F64, zero_f, gt}
use jw_swarm.Proto.{Register, Heartbeat, awake}
use jw_swarm.Channel.{Sender}
use jw_swarm.Registry.{node_sender}
use jw_swarm.Tunnel.{Session, Moment, on_heartbeat, on_register, finish}
use jw_swarm.Tunnel.Lifecycle.{finish-stale}
use jw_swarm.Tunnel.Points.{on_heartbeat-other_balance}
use jw_swarm.Tests.{metrics, fl, calm, reg, tx, state}

abbrev moment : Moment
moment = record { unix_now_ms = record { bits = 9000 }; touching = calm; crediting = calm }

abbrev tx2 : Sender
tx2 = record { channel = 2 }

finish-stale_example :
    let first = on_register fl state tx reg in
    let second = on_register fl first.0 tx2 reg in
    (node_sender second.0.registry "n1" ≡ some tx2)
    × (node_sender (finish second.0 first.1).registry "n1" ≡ none)
finish-stale_example = finish-stale fl state tx tx2 reg reg refl

abbrev reg2 : Register
reg2 = record reg { node_id = "n2" }

abbrev session : Session
session = record {
  node_id = "n1";
  prev_heartbeat_ms = some (record { bits = 1000 });
  gpu_power_pct = record { bits = 50000 };
  vram_mb = record { bits = 4096000 };
  params_by_model = [];
}

no_time : (a : F64) → gt fl (fl.div (fl.sub a a) (fl.literal 1000 0)) (zero_f fl) ≡ false
no_time a = rw (self-sub a.bits) refl
  where
    self-sub : (n : ℕ) → n - n ≡ 0
    self-sub n = omega arith

abbrev beat : Heartbeat
beat = record { node_id = "n1"; metrics = metrics; schedule_state = awake }

on_heartbeat-other_balance_example :
    HashMap.get (on_heartbeat fl moment state (some session) beat).0.db.node_balances "n2"
    ≡ HashMap.get state.db.node_balances "n2"
on_heartbeat-other_balance_example =
    on_heartbeat-other_balance fl moment state (some session) beat "n2"
      (λ x e. rw (← some-injective session x e) refl)
