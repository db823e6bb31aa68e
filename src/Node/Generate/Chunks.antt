-- ===== src/Node/Generate/Chunks.antt =====
-- The chunks of a job, and the ways through `generate`.
use jw_swarm.Common.{
  ℕ, zero, suc, ◌+◌, ◌-◌, subst, ◌≤◌, ◌<◌, String, List, [], ◌∷◌, ◌++◌, false, Option, none, some,
  length, map, ◌≡◌, refl, arith, Bool-cases, Option-cases, inl, inr, not, is_some, eqb,
}
use Prim.Native.String.{◌++◌ as string_append}
use jw_swarm.Common.HashMap
use jw_swarm.Node.Backend.{Residents, make_resident}
use jw_swarm.Common.Attempt.{Attempt-cases}
use mathlib.Core.List.{append-nil, append_assoc}
use jw_swarm.Common.Text.{is_empty}
use jw_swarm.Proto.{TokenChunk, token_chunk}
use jw_swarm.Node.Llama.{
  Llama, Turn, token_loop, piece_messages, accepted, emitted, decoded, decode_prompt, map_err,
}
use jw_swarm.Node.Generate.{
  Floats, Message, Json, extract_prompt, PromptDispatch, complete, ending, Outcome, Work, Worker,
  extract_max_tokens, failed_with, generate, ok, load_error_text,
}

-- Chunks of one request, none empty, numbered upwards from `low` and below `high`.
abbrev pub AreChunks : String → ℕ → ℕ → List TokenChunk → Type 0
AreChunks rid low high [] = Unit
AreChunks rid low high (c ∷ cs) =
    (c.request_id ≡ rid)
    × (is_empty c.delta ≡ false)
    × (low ≤ c.index)
    × (c.index < high)
    × AreChunks rid (suc c.index) high cs

weaken-AreChunks :
    (rid : String) (low low' high : ℕ) (cs : List TokenChunk)
    → low ≤ low'
    → AreChunks rid low' high cs
    → AreChunks rid low high cs
weaken-AreChunks rid low low' high [] h a = tt
weaken-AreChunks rid low low' high (c ∷ cs) h a = (a.0, a.1, omega (arith, h, a.2), a.3, a.4)

module _ (l : Llama) where
  -- What the loop adds to a turn with at most `left` more tokens.
  abbrev Adds : String → ℕ → ℕ → Turn l → Turn l → Type 0
  Adds rid index left t t' =
      (cs : List TokenChunk) × (t'.sent ≡ t.sent ++ map token_chunk cs)
      × AreChunks rid index (index + left) cs
      × (t.completion_tokens + length cs ≤ t'.completion_tokens)
      × (t'.completion_tokens ≤ t.completion_tokens + left)

  stays-Adds : (rid : String) (left index : ℕ) (t : Turn l) → Adds rid index left t t
  stays-Adds rid left index t =
      ([], ground (arith, append-nil t.sent), tt, omega arith, omega arith)

  decoded-keeps :
      (token : ℕ) (t : Turn l)
      → ((decoded l token t).0.sent ≡ t.sent)
        × ((decoded l token t).0.completion_tokens ≡ t.completion_tokens)
  unfolding decoded
  decoded-keeps token t = (ground arith, ground arith)

  emitted-Adds :
      (rid : String) (left index : ℕ) (piece : Option String) (t d t' : Turn l)
      → d.sent ≡ t.sent ++ piece_messages l rid index piece
      → d.completion_tokens ≡ t.completion_tokens + 1
      → Adds rid (suc index) left d t'
      → Adds rid index (suc left) t t'
  emitted-Adds rid left index none t d t' e n (cs, s, a, low, high) = (
    cs,
    ground (arith, s, e, append-nil t.sent),
    weaken-AreChunks rid index (suc index) (index + suc left) cs (omega arith)
        (subst (λ m. AreChunks rid (suc index) m cs) (omega arith) a),
    omega (arith, low, n),
    omega (arith, high, n),
  )
  emitted-Adds rid left index (some piece) t d t' e n (cs, s, a, low, high) =
      let c : TokenChunk = record { request_id = rid; delta = piece; index = index } in
      let a' : AreChunks rid (suc index) (index + suc left) cs =
        subst (λ m. AreChunks rid (suc index) m cs) (omega arith) a in
      elim (Bool-cases (is_empty piece)) [
        | inl b ↦ (
          cs,
          ground (arith, s, e, b, append-nil t.sent),
          weaken-AreChunks rid index (suc index) (index + suc left) cs (omega arith) a',
          omega (arith, low, n),
          omega (arith, high, n),
        )
        | inr b ↦ (
          c ∷ cs,
          ground (arith, s, e, b, append_assoc t.sent (token_chunk c ∷ []) (map token_chunk cs)),
          (refl, b, omega arith, omega arith, a'),
          omega (arith, low, n),
          omega (arith, high, n),
        )
      ]

  token_loop-Adds :
      (rid : String) (left index : ℕ) (t : Turn l)
      → Adds rid index left t (token_loop l rid left index t).0
  unfolding token_loop
  token_loop-Adds rid zero index t = stays-Adds rid 0 index t
  token_loop-Adds rid (suc left) index t =
      let token = l.sample t.sampler t.ctx (l.n_tokens t.batch - 1) in
      let e = emitted l rid index token (accepted l token t) in
      let d = decoded l token e in
      let piece = (l.token_to_piece token t.decoder).0 in
      let on = λ (t' : Turn l).
        emitted-Adds rid left index piece t d.0 t' (decoded-keeps token e).0
          (decoded-keeps token e).1 in
      elim (Bool-cases (l.is_eog_token token)) [
        | inl b ↦ rw b (stays-Adds rid (suc left) index t)
        | inr b ↦ elim (Option-cases d.1) [
          | inl n ↦
              rw (b, n)
                (on (token_loop l rid left (suc index) d.0).0
                  (token_loop-Adds rid left (suc index) d.0))
          | inr (f, n) ↦ rw (b, n) (on d.0 (stays-Adds rid left (suc index) d.0))
        ]
      ]

-- The chunks that a job of at most `limit` tokens has sent, and the tokens that it counts.
abbrev pub Emits : String → ℕ → ℕ → List Message → Type 0
Emits rid limit completion sent =
    (cs : List TokenChunk) × (sent ≡ map token_chunk cs)
    × AreChunks rid 0 limit cs
    × (length cs ≤ completion)
    × (completion ≤ limit)

decode_prompt_fresh :
    (l : Llama) (tokens : List ℕ) (model_id : String) (t : Turn l)
    → decode_prompt l tokens model_id ≡ ok t
    → (t.sent ≡ []) × (t.completion_tokens ≡ 0)
unfolding decode_prompt
decode_prompt_fresh l tokens model_id t e = (ground (arith, e), ground (arith, e))

module _ (fl : Floats) (j : Json) (Q : Outcome → Type 0) (w : Work) (pd : PromptDispatch) where
  complete_rule :
      (worker : Worker)
      → ((e : String) → Q (failed_with worker [] e))
      → ((prompt completion : ℕ) (sent : List Message) (failure : Option String)
          → Emits pd.request_id (extract_max_tokens j pd.payload) completion sent
          → Q (ending fl j w pd worker prompt completion sent failure))
      → Q (complete fl j w pd worker)
  unfolding complete
  complete_rule worker fails ends =
      let limit = extract_max_tokens j pd.payload in
      elim (Attempt-cases (
        map_err "Failed to tokenize input: "
          (w.model.str_to_token (extract_prompt j pd.payload)))) [
            | inl (e, h) ↦ rw (complete, h) (fails e)
            | inr (tokens, h) ↦ elim (Bool-cases (eqb (length tokens) 0)) [
              | inl b ↦ rw (complete, h, b) (fails "Failed to tokenize input")
              | inr b ↦ elim (Attempt-cases (decode_prompt w.model tokens pd.model)) [
                | inl (e, g) ↦ rw (complete, h, b, g) (fails e)
                | inr (t, g) ↦
                    let (s, n) = decode_prompt_fresh w.model tokens pd.model t g in
                    let run = token_loop w.model pd.request_id limit 0 t in
                    let (cs, e, a, low, high) = token_loop-Adds w.model pd.request_id limit 0 t in
                    rw (complete, h, b, g)
                      (ends (length tokens) run.0.completion_tokens run.0.sent run.1 (
                        cs,
                        ground (arith, s, e),
                        subst (λ m. AreChunks pd.request_id 0 m cs) (omega arith) a,
                        omega (arith, n, low),
                        omega (arith, n, high),
                      ))
              ]
            ]
          ]

  -- What every way through `generate` keeps: it fails before the first chunk, or it comes to its
  -- end after some chunks.
  pub generate_rule :
      (memory_limit_mb : ℕ) (worker : Worker)
      → ((r : Residents) (e : String) → Q (failed_with (record worker { residents = r }) [] e))
      → ((r : Residents) (prompt completion : ℕ) (sent : List Message) (failure : Option String)
          → Emits pd.request_id (extract_max_tokens j pd.payload) completion sent
          → Q (ending fl j w pd (record worker { residents = r }) prompt completion sent failure))
      → Q (generate fl j memory_limit_mb w pd worker)
  unfolding generate
  generate_rule memory_limit_mb worker fails ends =
      let made =
        make_resident memory_limit_mb pd.model w.size_mb (not (is_some w.loading_error))
          worker.residents in
      let worker' : Worker = record worker { residents = made.1 } in
      elim (Option-cases (HashMap.get w.ready pd.model)) [
        | inl n ↦
            rw (generate, n)
              (fails worker.residents (string_append "Model file missing for " pd.model))
        | inr (dir, n) ↦ elim (Option-cases made.0) [
          | inl r ↦ rw (generate, n, r) (complete_rule worker' (fails made.1) (ends made.1))
          | inr (e, r) ↦
              rw (generate, n, r) (fails made.1 (load_error_text w.model.print w.loading_error e))
        ]
      ]
