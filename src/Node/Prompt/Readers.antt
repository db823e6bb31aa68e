-- ===== src/Node/Prompt/Readers.antt =====
-- What the readers find in a payload.
use jw_swarm.Common.{
  refl, ◌++◌, ◌≤◌, String, List, [], ◌∷◌, Option, none, some, and_then, if◌then◌else◌, arith,
  Option-cases, inl, inr, ◌≡◌, unwrap_or,
}
use jw_swarm.Common.Text.{is_empty}
use jw_swarm.Proto.{Value}
use jw_swarm.Http.{Json}
use jw_swarm.Node.Prompt.{content_of, extract_max_tokens, extract_prompt, first_content, reversed}

module _ (j : Json) where
  -- The content after some messages have been read in order: the newest that is not empty.
  abbrev pub newest : Option String → List Value → Option String
  newest found [] = found
  newest found (msg ∷ msgs) = elim (content_of j msg) [
    | none ↦ newest found msgs
    | some content ↦ newest (if is_empty content then found else some content) msgs
  ]

  abbrev or_else : Option String → Option String → Option String
  or_else none b = b
  or_else (some a) b = some a

  first_content-append :
      (xs : List Value) (m : Value)
      → first_content j (xs ++ m ∷ []) ≡ or_else (first_content j xs) (first_content j (m ∷ []))
  unfolding first_content
  first_content-append [] m = refl
  first_content-append (x ∷ xs) m = ground (arith, first_content-append xs m)

  newest-first_content :
      (found : Option String) (msgs : List Value)
      → newest found msgs ≡ or_else (first_content j (reversed msgs)) found
  unfolding first_content reversed
  newest-first_content found [] = refl
  newest-first_content found (m ∷ ms) = ground (
    arith,
    first_content-append (reversed ms) m,
    newest-first_content found ms,
    newest-first_content (content_of j m) ms,
  )

  -- The prompt is the newest content that is not empty among the messages read in order, and the
  -- bare prompt field, or else the empty text, if there are no messages or none has such content.
  pub extract_prompt-newest :
      (payload : Value)
      → extract_prompt j payload
        ≡ unwrap_or
            (and_then (and_then (j.get payload "messages") j.as_array) (newest none))
            (unwrap_or (and_then (j.get payload "prompt") j.as_str) "")
  unfolding extract_prompt
  extract_prompt-newest payload =
      elim (Option-cases (and_then (j.get payload "messages") j.as_array)) [
        | inl n ↦ rw n refl
        | inr (msgs, e) ↦ rw e (ground (arith, newest-first_content none msgs))
      ]

  -- For every payload the number of tokens to generate lies between 1 and 512.
  pub extract_max_tokens_bounds :
      (payload : Value) → (1 ≤ extract_max_tokens j payload) × (extract_max_tokens j payload ≤ 512)
  unfolding extract_max_tokens
  extract_max_tokens_bounds payload =
      elim (Option-cases (and_then (j.get payload "max_tokens") j.as_u64)) [
        | inl n ↦ rw n (ground arith)
        | inr (v, e) ↦ rw e (ground arith)
      ]
