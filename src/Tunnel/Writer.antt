-- ===== src/Tunnel/Writer.antt =====
-- The writer task of a tunnel, in `handle_socket` of jw-swarm-fleet-manager/src/tunnel.rs.
use jw_swarm.Common.{ℕ, suc, String, List, [], ◌∷◌, Bool, true, false, none, some}
use jw_swarm.Proto.{Message}
use jw_swarm.Proto.Codec.{to_json}
use jw_swarm.Serde.{Values}

-- The texts that the socket has taken, of the messages that the task receives. `takes` says which
-- of the texts the socket takes; the first one that it does not ends the loop. A message without a
-- text is passed over.
unfoldable pub write_loop : Values → (takes : ℕ → Bool) → ℕ → List Message → List String
write_loop values takes i [] = []
write_loop values takes i (m ∷ ms) = elim (to_json values m) [
  | none ↦ write_loop values takes i ms
  | some s ↦ elim (takes i) [ true ↦ s ∷ write_loop values takes (suc i) ms | false ↦ [] ]
]
