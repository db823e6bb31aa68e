-- ===== src/System/Written.antt =====
-- From the Fleet Manager to a node: the writer task of jw-swarm-fleet-manager/src/tunnel.rs, and what
-- the node reads, jw-swarm-nodes/linux/src/proto.rs.
use jw_swarm.Common.{
  ℕ, suc, String, List, [], ◌∷◌, ◌++◌, Bool, true, some, map, All, ◌≡◌, refl, sym, ap, ◌∙◌,
  Bool-cases, inl, inr, map_option,
}
use mathlib.Core.Bool.{false≢true}
use jw_swarm.Float.{Floats}
use jw_swarm.Proto.{Message}
use jw_swarm.Proto.Codec.{to_json, to_value}
use jw_swarm.Proto.Codec as FleetCodec
use jw_swarm.Proto.Codec.RoundTrip.{MessageFits, from_value-to_value}
use jw_swarm.Node.Proto.Codec.{from_json}
use jw_swarm.Node.Proto.Same.{node_message}
use jw_swarm.Serde.{Values}
use jw_swarm.System.Frames.{from_json_same}
use jw_swarm.Tunnel.Writer.{write_loop}

module _ (fl : Floats) (values : Values) where
  -- The message has finite floats and a text, from which serde_json reads back its tree.
  abbrev pub HasText : Message → Type 0
  HasText m =
      (s : String) × (to_json values m ≡ some s)
      × (values.from_str s ≡ some (to_value values m))
      × MessageFits values m

  -- The node reads its message in the text.
  from_json-node_message :
      (m : Message) (h : HasText m) → from_json fl values h.0 ≡ some (node_message m)
  unfolding FleetCodec.from_json
  from_json-node_message m (s, written, read, fits) =
      let fleet : FleetCodec.from_json fl values s ≡ some m =
        rw read (from_value-to_value fl values m fits) in
      from_json_same fl values s ∙ ap (map_option node_message) fleet

  -- If the floats of each message are finite, and serde_json writes a text for it that it reads back
  -- as the tree that it wrote, then what the node reads of the texts that the socket takes are the
  -- first of the messages, in their order, each once, and all of them if the socket takes every text.
  pub from_json-write_loop :
      (takes : ℕ → Bool) (i : ℕ) (ms : List Message)
      → All HasText ms
      → (came : List Message) × (lost : List Message) × (ms ≡ came ++ lost)
        × (map (from_json fl values) (write_loop values takes i ms)
            ≡ map (λ m. some (node_message m)) came)
        × (((k : ℕ) → takes k ≡ true) → lost ≡ [])
  unfolding write_loop
  from_json-write_loop takes i [] h = ([], [], refl, refl, λ all. refl)
  from_json-write_loop takes i (m ∷ ms) (h, hs) = elim (Bool-cases (takes i)) [
    | inr e ↦
        ([], m ∷ ms, refl, rw (write_loop, h.1, e) refl, λ all. absurd (false≢true (sym e ∙ all i)))
    | inl e ↦
        let (came, lost, parts, read, rest) = from_json-write_loop takes (suc i) ms hs in
        (
          m ∷ came,
          lost,
          ap (λ x. m ∷ x) parts,
          rw (write_loop, h.1, e) (rw (from_json-node_message m h, read) refl),
          rest,
        )
  ]
