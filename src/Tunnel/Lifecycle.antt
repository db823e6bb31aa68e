-- ===== src/Tunnel/Lifecycle.antt =====
-- Which tunnel a node is reached through, from its registration to the close of its socket.
use jw_swarm.Common.{refl, if◌then◌else◌, String, none, some, ◌≡◌, ◌==◌, false, arith, eq_refl}
use jw_swarm.Common.HashMap.{get-insert, get-remove}
use jw_swarm.Float.{Floats}
use jw_swarm.Proto.{Register}
use jw_swarm.Channel.{Sender}
use jw_swarm.Registry.{Registry, node_sender, upsert_node, remove_node}
use jw_swarm.State.{AppState}
use jw_swarm.Tunnel.{on_register, finish}

node_sender-upsert :
    (r : Registry) (reg : Register) (tx : Sender) (k : String)
    → node_sender (upsert_node r reg tx) k ≡ (if reg.node_id == k then some tx else node_sender r k)
unfolding node_sender upsert_node
node_sender-upsert r reg tx k = rw get-insert (ground arith)

node_sender-remove :
    (r : Registry) (i k : String)
    → node_sender (remove_node r i) k ≡ (if i == k then none else node_sender r k)
unfolding node_sender remove_node
node_sender-remove r i k = rw get-remove (ground arith)

module _ (fl : Floats) where
  -- A node that registers is reached through its own tunnel, and no more once that connection has
  -- ended; every other node is reached as before, in both states.
  pub on_register-finish :
      (s : AppState) (tx : Sender) (reg : Register)
      → let opened = on_register fl s tx reg in
        let closed = finish opened.0 opened.1 in
        (node_sender opened.0.registry reg.node_id ≡ some tx)
        × (node_sender closed.registry reg.node_id ≡ none)
        × ((k : String)
            → (reg.node_id == k) ≡ false
            → (node_sender opened.0.registry k ≡ node_sender s.registry k)
              × (node_sender closed.registry k ≡ node_sender s.registry k))
  unfolding on_register finish
  on_register-finish s tx reg = (
    rw (node_sender-upsert, eq_refl) refl,
    rw (node_sender-remove, eq_refl) refl,
    λ k ne. (
      rw (node_sender-upsert, ne) refl,
      rw (node_sender-remove, ne, node_sender-upsert, ne) refl,
    ),
  )

  -- When a node registers again through a second tunnel and the first connection ends after that,
  -- the node is reached no more, although the second connection stands.
  pub finish-stale :
      (s : AppState) (tx tx' : Sender) (reg reg' : Register)
      → reg.node_id ≡ reg'.node_id
      → let first = on_register fl s tx reg in
        let second = on_register fl first.0 tx' reg' in
        (node_sender second.0.registry reg'.node_id ≡ some tx')
        × (node_sender (finish second.0 first.1).registry reg'.node_id ≡ none)
  unfolding on_register finish
  finish-stale s tx tx' reg reg' e =
      (rw (node_sender-upsert, eq_refl) refl, rw (e, node_sender-remove, eq_refl) refl)

  -- When one connection registers two nodes, one after the other, its end removes the second and
  -- leaves the first, which is still reached through the dead tunnel.
  pub finish-renamed :
      (s : AppState) (tx : Sender) (reg reg' : Register)
      → (reg'.node_id == reg.node_id) ≡ false
      → let first = on_register fl s tx reg in
        let second = on_register fl first.0 tx reg' in
        let closed = finish second.0 second.1 in
        (node_sender closed.registry reg'.node_id ≡ none)
        × (node_sender closed.registry reg.node_id ≡ some tx)
  unfolding on_register finish
  finish-renamed s tx reg reg' e = (
    rw (node_sender-remove, eq_refl) refl,
    rw (node_sender-remove, e, node_sender-upsert, e, node_sender-upsert, eq_refl) refl,
  )
