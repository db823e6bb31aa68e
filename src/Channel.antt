-- ===== src/Channel.antt =====
-- Unbounded mpsc channels of tokio as the program uses them: a sender names its channel, `send`
-- fails once the receiver is dropped, and the receiver ends only when no sender is left.
use jw_swarm.Common.{ℕ, List, [], ◌∷◌, ◌++◌, Bool, eqb, ◌&&◌, if◌then◌else◌}

-- A sender's handle. A clone is the same handle.
pub record Sender : Type 0 where
  pub channel : ℕ

pub record Queue (A : Type 0) : Type 0 where
  -- the receiver is still there
  pub receiving : Bool
  -- sent, oldest first
  pub sent : List A

abbrev pub Channels : Type 0 → Type 0
Channels A = ℕ → Queue A

module _ {A : Type 0} where
  -- `tx.send(a)`: the result says whether the value was taken.
  unfoldable pub send : Channels A → Sender → A → Channels A
  send c tx a n =
      if eqb n tx.channel && (c n).receiving
      then record (c n) { sent = (c n).sent ++ a ∷ [] }
      else c n

  abbrev pub sends : Channels A → Sender → Bool
  sends c tx = (c tx.channel).receiving
