-- ===== src/System/Frames.antt =====
-- The frames of the tunnel, jw-swarm-fleet-manager/src/proto.rs and jw-swarm-nodes/linux/src/proto.rs:
-- what one program writes, and the other reads.
use jw_swarm.Common.{
  ℕ, ◌+◌, ◌≡◌, refl, sym, ap, ◌∙◌, String, List, [], ◌∷◌, ◌++◌, Option, some, map_option,
  Option-cases, inl, inr,
}
use jw_swarm.Float.{Floats}
use jw_swarm.Proto.Codec as FleetCodec
use jw_swarm.Proto.Codec.RoundTrip.{MessageFits, from_value-to_value}
use jw_swarm.Node.Proto.{Message}
use jw_swarm.Node.Proto.Codec.{to_value, to_json, from_json}
use jw_swarm.Node.Proto.Same.{fleet_message, node_message}
use jw_swarm.Node.Proto.Same.Messages.{from_value_same}
use jw_swarm.Node.Proto.Same.Writing.{to_value_same}
use jw_swarm.Node.Proto.Same.Types.{node_message-fleet_message}
use jw_swarm.Serde.{Values}
use jw_swarm.Channel.{Sender}
use jw_swarm.State.{AppState}
use jw_swarm.Tunnel.{Session, Moment, Frame, text, handle_message, handle_socket}

module _ (fl : Floats) (values : Values) where
  -- The node and the Fleet Manager take the same texts for messages, and read the same message in
  -- each of them.
  pub from_json_same :
      (s : String)
      → from_json fl values s ≡ map_option node_message (FleetCodec.from_json fl values s)
  unfolding from_json FleetCodec.from_json
  from_json_same s = elim (Option-cases (values.from_str s)) [
    | inl e ↦ rw e refl
    | inr (t, e) ↦ rw e (from_value_same fl values t)
  ]

  pub to_json_same : (m : Message) → to_json values m ≡ FleetCodec.to_json values (fleet_message m)
  unfolding to_json FleetCodec.to_json
  to_json_same m = ap values.to_string (to_value_same values m)

  -- The message is written as the text, from which serde_json reads back the same tree.
  abbrev pub IsTextOf : Message → String → Type 0
  IsTextOf m s =
      (to_json values m ≡ some s)
      × (values.from_str s ≡ some (to_value values m))
      × MessageFits values (fleet_message m)

  -- Both programs write a message as the same text, and both read it back from there, if its
  -- floats are finite and serde_json reads the text as what it wrote.
  pub from_json-to_json :
      (m : Message) (s : String)
      → IsTextOf m s
      → (FleetCodec.to_json values (fleet_message m) ≡ some s)
        × (FleetCodec.from_json fl values s ≡ some (fleet_message m))
        × (from_json fl values s ≡ some m)
  unfolding FleetCodec.from_json
  from_json-to_json m s h =
      let fleet : FleetCodec.from_json fl values s ≡ some (fleet_message m) =
        rw (h.1, to_value_same values m) (from_value-to_value fl values (fleet_message m) h.2) in
      (
        sym (to_json_same m) ∙ h.0,
        fleet,
        from_json_same s
            ∙ ap (map_option node_message) fleet
            ∙ ap some (node_message-fleet_message m),
      )

  abbrev pub AreTextsOf : List Message → List String → Type 0
  AreTextsOf [] [] = Unit
  AreTextsOf [] (s ∷ texts) = ⊥
  AreTextsOf (m ∷ ms) [] = ⊥
  AreTextsOf (m ∷ ms) (s ∷ texts) = IsTextOf m s × AreTextsOf ms texts

  abbrev pub frames : (ℕ → Moment) → ℕ → List String → List (Moment × Frame)
  frames nows i [] = []
  frames nows i (s ∷ texts) = (nows i, text s) ∷ frames nows (i + 1) texts

  -- The handler, on one message after the other.
  abbrev pub handle_each :
      (ℕ → Moment)
      → ℕ
      → Sender
      → List Message
      → AppState × Option Session
      → AppState × Option Session
  handle_each nows i tx [] (s, session) = (s, session)
  handle_each nows i tx (m ∷ ms) (s, session) =
      handle_each nows (i + 1) tx ms (handle_message fl (nows i) s tx session (fleet_message m))

  -- The Fleet Manager handles the texts of a node's messages as these messages, one after the
  -- other, and then goes on with what follows, if the floats of each message are finite and
  -- serde_json reads each text as the tree that it wrote.
  pub handle_socket-to_json :
      (nows : ℕ → Moment) (i : ℕ) (tx : Sender) (ms : List Message) (texts : List String)
      (rest : List (Moment × Frame)) (s : AppState) (session : Option Session)
      → AreTextsOf ms texts
      → let (s', session') = handle_each nows i tx ms (s, session) in
        handle_socket fl (FleetCodec.from_json fl values) s tx session (frames nows i texts ++ rest)
        ≡ handle_socket fl (FleetCodec.from_json fl values) s' tx session' rest
  unfolding handle_socket
  handle_socket-to_json nows i tx [] [] rest s session h = refl
  handle_socket-to_json nows i tx [] (x ∷ texts) rest s session h = elim h [ ]
  handle_socket-to_json nows i tx (m ∷ ms) [] rest s session h = elim h [ ]
  handle_socket-to_json nows i tx (m ∷ ms) (x ∷ texts) rest s session h =
      let (s', session') = handle_message fl (nows i) s tx session (fleet_message m) in
      rw ((from_json-to_json m x h.0).1, handle_socket)
        (handle_socket-to_json nows (i + 1) tx ms texts rest s' session' h.1)
