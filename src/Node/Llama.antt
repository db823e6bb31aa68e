-- ===== src/Node/Llama.antt =====
-- The token loop of `generate` in jw-swarm-nodes/linux/src/backend.rs. llama.cpp and the UTF-8
-- decoder are the record `Llama`; its positions are below 2 ^ 31.
use jw_swarm.Common.{
  ℕ, zero, suc, ◌+◌, ◌-◌, ◌%◌, ◌^◌, String, List, [], ◌∷◌, ◌++◌, Bool, Option, none, some, length,
  ltb, eqb, if◌then◌else◌, true,
}
use Prim.Native.String.{◌++◌ as string_append}
use jw_swarm.Common.Attempt.{Attempt, ok, err}
use jw_swarm.Common.Text.{is_empty}
use jw_swarm.Proto.{Message, token_chunk}

-- What llama.cpp does with a loaded model, and what `{}` prints. Tokens are numbers.
pub record Llama : Type 1 where
  pub Context : Type 0
  pub Batch : Type 0
  pub Sampler : Type 0
  pub Decoder : Type 0
  pub str_to_token : String → Attempt (List ℕ)
  -- a context of 4096 tokens, with the size of its batches
  pub new_context : ℕ → Attempt Context
  pub new_batch : ℕ → Batch
  -- a token, its position, and whether its logits are wanted
  pub add : Batch → ℕ → ℕ → Bool → Attempt Batch
  pub clear : Batch → Batch
  pub n_tokens : Batch → ℕ
  pub decode : Context → Batch → Attempt Context
  pub greedy : Sampler
  pub sample : Sampler → Context → ℕ → ℕ
  pub accept : Sampler → ℕ → Sampler
  pub is_eog_token : ℕ → Bool
  pub new_decoder : Decoder
  pub token_to_piece : ℕ → Decoder → Option String × Decoder
  pub print : ℕ → String

-- `map_err`
abbrev pub map_err {ℓ} : {A : Type ℓ} → String → Attempt A → Attempt A
map_err text (ok a) = ok a
map_err text (err e) = err (string_append text e)

module _ (l : Llama) where
  -- The locals of the token loop, with the messages that it has sent.
  pub record Turn : Type 0 where
    pub ctx : l.Context
    pub batch : l.Batch
    pub sampler : l.Sampler
    pub decoder : l.Decoder
    pub n_cur : ℕ
    pub completion_tokens : ℕ
    pub sent : List Message

  -- The prompt's tokens, of which the last one wants logits.
  unfoldable pub add_all : ℕ → ℕ → List ℕ → l.Batch → Attempt l.Batch
  add_all last i [] batch = ok batch
  add_all last i (t ∷ ts) batch = elim (l.add batch t i (eqb i last)) [
    | ok batch' ↦ add_all last (suc i) ts batch'
    | err e ↦ err e
  ]

  abbrev pub piece_messages : String → ℕ → Option String → List Message
  piece_messages rid index none = []
  piece_messages rid index (some piece) =
      if is_empty piece
      then []
      else token_chunk (record { request_id = rid; delta = piece; index = index }) ∷ []

  -- The sampled token is accepted.
  abbrev pub accepted : ℕ → Turn → Turn
  accepted token t = record t { sampler = l.accept t.sampler token }

  -- Its piece is sent, and it is counted.
  abbrev pub emitted : String → ℕ → ℕ → Turn → Turn
  emitted rid index token t =
      let (piece, decoder) = l.token_to_piece token t.decoder in
      record t {
        sent = t.sent ++ piece_messages rid index piece;
        decoder = decoder;
        completion_tokens = t.completion_tokens + 1;
      }

  -- It is decoded, and the loop goes on, unless that fails.
  unfoldable pub decoded : ℕ → Turn → Turn × Option String
  decoded token t = elim (l.add (l.clear t.batch) token t.n_cur true) [
    | err e ↦ (record t { batch = l.clear t.batch }, some e)
    | ok batch ↦
        let t' = record t { batch = batch; n_cur = t.n_cur + 1 } in
        elim (l.decode t.ctx batch) [
          | err e ↦ (t', some (string_append "Decoding failed: " e))
          | ok ctx ↦ (record t' { ctx = ctx }, none)
        ]
  ]

  -- The token loop from `index` on, with the turns that are left, which `max_tokens` bounds; so a
  -- job counts at most 512 tokens, and no `u32` wraps. The batch holds a token at every turn.
  unfoldable pub token_loop : String → ℕ → ℕ → Turn → Turn × Option String
  unfolding decoded
  token_loop rid zero index t = (t, none)
  token_loop rid (suc left) index t =
      let token = l.sample t.sampler t.ctx (l.n_tokens t.batch - 1) in
      if l.is_eog_token token
      then (accepted token t, none)
      else (let (t', failure) = decoded token (emitted rid index token (accepted token t)) in
          elim failure [ some e ↦ (t', some e) | none ↦ token_loop rid left (suc index) t' ])

  -- Everything before the token loop: the prompt is in a context, with its last logits.
  unfoldable pub decode_prompt : List ℕ → String → Attempt Turn
  unfolding add_all
  decode_prompt tokens model_id =
      let n_batch = if ltb (length tokens) 512 then 512 else length tokens in
      elim (map_err (string_append (string_append "Failed to create context for " model_id) ": ")
        (l.new_context (n_batch % 2 ^ 32))) [
          | err e ↦ err e
          | ok ctx ↦ elim (add_all (length tokens - 1) 0 tokens (l.new_batch n_batch)) [
            | err e ↦ err e
            | ok batch ↦ elim (map_err "Decoding failed: " (l.decode ctx batch)) [
              | err e ↦ err e
              | ok ctx' ↦ ok (record {
                ctx = ctx';
                batch = batch;
                sampler = l.greedy;
                decoder = l.new_decoder;
                n_cur = length tokens;
                completion_tokens = 0;
                sent = [];
              })
            ]
          ]
        ]
