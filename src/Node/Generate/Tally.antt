-- ===== src/Node/Generate/Tally.antt =====
-- What the worker counts for its jobs.
use jw_swarm.Common.{
  ℕ, ◌+◌, ◌%◌, ◌^◌, ◌<◌, String, List, [], ◌∷◌, ◌++◌, Option, none, some, map, ◌==◌, ◌≡◌, refl,
  eq_refl, arith, unwrap_or, Bool-cases, inl, inr, if◌then◌else◌, eq_iff, false,
}
use jw_swarm.Common.HashMap
use jw_swarm.Common.HashMap.{HashMap, get-insert}
use jw_swarm.Float.{F64, Floats}
use jw_swarm.Http.{Json}
use jw_swarm.Proto.{Message, PromptDispatch, TokenChunk, token_chunk, done, error}
use jw_swarm.Node.Counters.{ModelTokenUsage, Counters, add_usage, count}
use jw_swarm.Node.Prompt.{extract_max_tokens}
use jw_swarm.Node.Generate.{
  Work, Worker, Outcome, failed_with, ending, failure_messages, run_job, worker_loop, usage_of,
}
use jw_swarm.Node.Generate.Chunks.{Emits, generate_rule}
use mathlib.Core.List.{append-nil}

-- The answers with usage among messages, and the tokens that they report.
abbrev pub dones : List Message → ℕ
dones [] = 0
dones (done d ∷ msgs) = dones msgs + 1
dones (_ ∷ msgs) = dones msgs

abbrev pub reported_tokens : List Message → ℕ
reported_tokens [] = 0
reported_tokens (done d ∷ msgs) = reported_tokens msgs + d.usage.completion_tokens
reported_tokens (_ ∷ msgs) = reported_tokens msgs

-- Chunks report nothing.
chunks-dones :
    (cs : List TokenChunk) (msgs : List Message)
    → (dones (map token_chunk cs ++ msgs) ≡ dones msgs)
      × (reported_tokens (map token_chunk cs ++ msgs) ≡ reported_tokens msgs)
chunks-dones [] msgs = (refl, refl)
chunks-dones (c ∷ cs) msgs = chunks-dones cs msgs

-- The counts of a model, zero if there are none.
abbrev pub tally : String → Counters → ModelTokenUsage
tally k c =
    unwrap_or (HashMap.get c.token_usage k)
      (record { input_tokens = 0; output_tokens = 0; requests = 0 })

-- The counts have grown by so many answers and tokens, as `u64`.
abbrev pub Grows : String → Counters → Counters → (answers tokens : ℕ) → Type 0
Grows k before after answers tokens =
    ((tally k after).requests ≡ ((tally k before).requests + answers) % 2 ^ 64)
    × ((tally k after).output_tokens ≡ ((tally k before).output_tokens + tokens) % 2 ^ 64)

-- The counts are values of `u64`.
abbrev pub IsU64 : String → Counters → Type 0
IsU64 k c = ((tally k c).requests < 2 ^ 64) × ((tally k c).output_tokens < 2 ^ 64)

-- `n`, if the job is for the model.
abbrev pub for_model : String → PromptDispatch → ℕ → ℕ
for_model k pd n = if pd.model == k then n else 0

unchanged-Grows : (k : String) (c : Counters) → IsU64 k c → Grows k c c 0 0
unchanged-Grows k c h = (omega (arith, h), omega (arith, h))

count-add_usage :
    (fl : Floats) (model_id : String) (prompt completion : ℕ) (elapsed : F64) (c : Counters)
    → (count fl model_id prompt completion elapsed c).token_usage
      ≡ add_usage model_id prompt completion c.token_usage
unfolding count
count-add_usage fl model_id prompt completion elapsed c = ground arith

count-Grows_own :
    (fl : Floats) (k : String) (prompt completion : ℕ) (elapsed : F64) (c : Counters)
    → Grows k c (count fl k prompt completion elapsed c) 1 completion
unfolding add_usage
count-Grows_own fl k prompt completion elapsed c =
    let old = tally k c in
    let counted : HashMap.get (count fl k prompt completion elapsed c).token_usage k
        ≡ some (record {
          input_tokens = (old.input_tokens + prompt) % 2 ^ 64;
          output_tokens = (old.output_tokens + completion) % 2 ^ 64;
          requests = (old.requests + 1) % 2 ^ 64;
        }) =
      rw (count-add_usage fl k prompt completion elapsed c, get-insert, eq_refl) refl in
    (rw counted refl, rw counted refl)

count-Grows_other :
    (fl : Floats) (k model_id : String) (prompt completion : ℕ) (elapsed : F64) (c : Counters)
    → (model_id == k) ≡ false
    → IsU64 k c
    → Grows k c (count fl model_id prompt completion elapsed c) 0 0
unfolding add_usage
count-Grows_other fl k model_id prompt completion elapsed c e h =
    let kept : HashMap.get (count fl model_id prompt completion elapsed c).token_usage k
        ≡ HashMap.get c.token_usage k =
      rw (count-add_usage fl model_id prompt completion elapsed c, get-insert, e) refl in
    rw kept (unchanged-Grows k c h)

count-Grows :
    (fl : Floats) (k : String) (pd : PromptDispatch) (prompt completion : ℕ) (elapsed : F64)
    (c : Counters)
    → IsU64 k c
    → Grows k c
        (count fl pd.model prompt completion elapsed c)
        (for_model k pd 1)
        (for_model k pd completion)
count-Grows fl k pd prompt completion elapsed c h = elim (Bool-cases (pd.model == k)) [
  | inl e ↦ rw (e, (eq_iff pd.model k).0 e) (count-Grows_own fl k prompt completion elapsed c)
  | inr e ↦ rw e (count-Grows_other fl k pd.model prompt completion elapsed c e h)
]

module _ (fl : Floats) (j : Json) (k : String) where
  abbrev Tallies : PromptDispatch → Worker → Outcome → Type 0
  Tallies pd worker o =
      let msgs = o.sent ++ failure_messages fl j pd.request_id o.failure in
      Grows k worker.counters o.worker.counters (for_model k pd (dones msgs))
        (for_model k pd (reported_tokens msgs))

  none_for : (pd : PromptDispatch) → for_model k pd 0 ≡ 0
  none_for pd = ground arith

  -- A job that fails after some chunks counts nothing.
  fails-Tallies :
      (pd : PromptDispatch) (worker : Worker) (cs : List TokenChunk) (e : String)
      → IsU64 k worker.counters
      → Tallies pd worker (failed_with worker (map token_chunk cs) e)
  fails-Tallies pd worker cs e h =
      let last : Message = error (record { request_id = pd.request_id; message = e }) in
      let (a, b) = chunks-dones cs (last ∷ []) in
      rw (a, b, none_for pd) (unchanged-Grows k worker.counters h)

  ending-Tallies :
      (w : Work) (pd : PromptDispatch) (worker : Worker) (prompt completion : ℕ)
      (sent : List Message) (failure : Option String)
      → IsU64 k worker.counters
      → Emits pd.request_id (extract_max_tokens j pd.payload) completion sent
      → Tallies pd worker (ending fl j w pd worker prompt completion sent failure)
  unfolding ending
  ending-Tallies w pd worker prompt completion sent (some f) h (cs, e, a, low, high) =
      rw e (fails-Tallies pd worker cs f h)
  ending-Tallies w pd worker prompt completion sent none h (cs, e, a, low, high) =
      let last : Message =
        done (record { request_id = pd.request_id; usage = usage_of prompt completion }) in
      let (d, t) = chunks-dones cs (last ∷ []) in
      let alone : 0 + completion ≡ completion = omega arith in
      rw (e, append-nil (map token_chunk cs ++ last ∷ []), d, t, alone)
        (count-Grows fl k pd prompt completion w.elapsed worker.counters h)

  -- The answers with usage, or the tokens in them, that the worker sends to the jobs for the model.
  pub reports : (List Message → ℕ) → ℕ → List (Work × PromptDispatch) → Worker → ℕ
  reports measure limit [] worker = 0
  reports measure limit ((w, pd) ∷ jobs) worker =
      let (worker', sent) = run_job fl j limit w pd worker in
      for_model k pd (measure sent) + reports measure limit jobs worker'

  run_job-Grows :
      (limit : ℕ) (w : Work) (pd : PromptDispatch) (worker : Worker)
      → IsU64 k worker.counters
      → let (worker', sent) = run_job fl j limit w pd worker in
        Grows k worker.counters worker'.counters
          (for_model k pd (dones sent))
          (for_model k pd (reported_tokens sent))
  unfolding run_job
  run_job-Grows limit w pd worker h =
      generate_rule fl j (Tallies pd worker) w pd limit worker
        (λ r e. fails-Tallies pd (record worker { residents = r }) [] e h)
        (λ r prompt completion sent failure.
          ending-Tallies w pd (record worker { residents = r }) prompt completion sent failure h)

  -- Whatever jobs the worker receives, and whatever llama.cpp and the file system do, the counters
  -- of a model, from whatever values of `u64` they have, grow by the number of answers with usage
  -- that the worker sends to the jobs for that model, and by the completion tokens that these
  -- report, and wrap around at 2 ^ 64.
  pub worker_loop-Grows :
      (limit : ℕ) (jobs : List (Work × PromptDispatch)) (worker : Worker)
      → IsU64 k worker.counters
      → Grows k worker.counters
          (worker_loop fl j limit jobs worker).0.counters
          (reports dones limit jobs worker)
          (reports reported_tokens limit jobs worker)
  unfolding worker_loop reports
  worker_loop-Grows limit [] worker h = unchanged-Grows k worker.counters h
  worker_loop-Grows limit ((w, pd) ∷ jobs) worker h =
      let worker' = (run_job fl j limit w pd worker).0 in
      let (r, o) = run_job-Grows limit w pd worker h in
      let (r', o') = worker_loop-Grows limit jobs worker' (omega (arith, r), omega (arith, o)) in
      (omega (arith, r, r'), omega (arith, o, o'))
