-- ===== src/Node/Prompt.antt =====
-- What a prompt asks for: the readers of the payload in jw-swarm-nodes/linux/src/backend.rs.
pub mod Readers
use jw_swarm.Common.{
  ℕ, String, List, [], ◌∷◌, ◌++◌, Bool, Option, none, some, and_then, map_option, unwrap_or, ltb,
  if◌then◌else◌,
}
use jw_swarm.Common.Text.{is_empty}
use jw_swarm.Proto.{Value}
use jw_swarm.Http.{Json}

-- `iter().rev()`
unfoldable pub reversed {ℓ} : {A : Type ℓ} → List A → List A
reversed [] = []
reversed (x ∷ xs) = reversed xs ++ x ∷ []

-- `v.clamp(low, high)`
abbrev pub clamp : ℕ → ℕ → ℕ → ℕ
clamp v low high = if ltb v low then low else if ltb high v then high else v

module _ (j : Json) where
  abbrev pub content_of : Value → Option String
  content_of msg = and_then (j.get msg "content") j.as_str

  -- The first message whose content is a text that is not empty.
  unfoldable pub first_content : List Value → Option String
  first_content [] = none
  first_content (msg ∷ msgs) = elim (content_of msg) [
    | none ↦ first_content msgs
    | some content ↦ if is_empty content then first_content msgs else some content
  ]

  unfoldable pub extract_prompt : Value → String
  unfolding first_content reversed
  extract_prompt payload =
      let messages = and_then (j.get payload "messages") j.as_array in
      let bare = unwrap_or (and_then (j.get payload "prompt") j.as_str) "" in
      unwrap_or (and_then messages (λ msgs. first_content (reversed msgs))) bare

  unfoldable pub extract_max_tokens : Value → ℕ
  extract_max_tokens payload =
      unwrap_or (map_option (λ v. clamp v 1 512) (and_then (j.get payload "max_tokens") j.as_u64))
        128
