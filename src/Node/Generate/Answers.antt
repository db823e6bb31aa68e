-- ===== src/Node/Generate/Answers.antt =====
-- What the worker sends for its jobs.
use jw_swarm.Common.{
  ℕ, ◌≤◌, String, List, [], ◌∷◌, ◌++◌, Option, none, some, length, map, ◌≡◌, refl, arith,
}
use mathlib.Core.List.{append-nil}
use jw_swarm.Proto.{TokenChunk, token_chunk}
use jw_swarm.Node.Generate.{
  Floats, Message, Json, done, PromptDispatch, ending, error, Outcome, Work, Worker,
  extract_max_tokens, failed_with, failure_messages, usage_of, worker_loop, run_job,
}
use jw_swarm.Node.Generate.Chunks.{AreChunks, Emits, generate_rule}

-- The last message of a job, after `n` chunks: usage that counts at least those tokens and at most
-- `limit`, or an error.
abbrev pub IsFinal : String → ℕ → ℕ → Message → Type 0
IsFinal rid limit n (done d) =
    (d.request_id ≡ rid) × (n ≤ d.usage.completion_tokens) × (d.usage.completion_tokens ≤ limit)
IsFinal rid limit n (error e) = e.request_id ≡ rid
IsFinal rid limit n _ = ⊥

abbrev pub IsAnswer : String → ℕ → List Message → Type 0
IsAnswer rid limit msgs =
    (cs : List TokenChunk) × (final : Message) × (msgs ≡ map token_chunk cs ++ final ∷ [])
    × AreChunks rid 0 limit cs
    × IsFinal rid limit (length cs) final

module _ (fl : Floats) (j : Json) where
  abbrev Answers : PromptDispatch → Outcome → Type 0
  Answers pd o =
      IsAnswer pd.request_id (extract_max_tokens j pd.payload)
        (o.sent ++ failure_messages fl j pd.request_id o.failure)

  fails-Answers :
      (pd : PromptDispatch) (worker : Worker) (e : String) → Answers pd (failed_with worker [] e)
  fails-Answers pd worker e =
      ([], error (record { request_id = pd.request_id; message = e }), refl, tt, refl)

  ending-Answers :
      (w : Work) (pd : PromptDispatch) (worker : Worker) (prompt completion : ℕ)
      (sent : List Message) (failure : Option String)
      → Emits pd.request_id (extract_max_tokens j pd.payload) completion sent
      → Answers pd (ending fl j w pd worker prompt completion sent failure)
  unfolding ending
  ending-Answers w pd worker prompt completion sent none (cs, e, a, low, high) =
      let last : Message =
        done (record { request_id = pd.request_id; usage = usage_of prompt completion }) in
      (
        cs,
        last,
        ground (arith, e, append-nil (map token_chunk cs ++ last ∷ [])),
        a,
        (refl, low, high),
      )
  ending-Answers w pd worker prompt completion sent (some f) (cs, e, a, low, high) =
      (cs, error (record { request_id = pd.request_id; message = f }), rw e refl, a, refl)

  pub run_job-IsAnswer :
      (memory_limit_mb : ℕ) (w : Work) (pd : PromptDispatch) (worker : Worker)
      → IsAnswer pd.request_id
          (extract_max_tokens j pd.payload)
          (run_job fl j memory_limit_mb w pd worker).1
  unfolding run_job
  run_job-IsAnswer memory_limit_mb w pd worker =
      generate_rule fl j (Answers pd) w pd memory_limit_mb worker
        (λ r. fails-Answers pd (record worker { residents = r }))
        (λ r. ending-Answers w pd (record worker { residents = r }))

  -- The messages are the answers to the jobs, one after the other.
  abbrev pub AreAnswers : List (Work × PromptDispatch) → List Message → Type 0
  AreAnswers [] msgs = msgs ≡ []
  AreAnswers (job ∷ jobs) msgs =
      (answer : List Message) × (rest : List Message) × (msgs ≡ answer ++ rest)
      × IsAnswer job.1.request_id (extract_max_tokens j job.1.payload) answer
      × AreAnswers jobs rest

  -- The worker answers every job that it receives, in their order, whatever llama.cpp and the file
  -- system do: with chunks under the job's request id that are not empty and numbered upwards
  -- below the prompt's `max_tokens`, and then exactly one last message, which is the usage, or an
  -- error. The usage counts at least the chunks and at most `max_tokens`.
  pub worker_loop-AreAnswers :
      (memory_limit_mb : ℕ) (jobs : List (Work × PromptDispatch)) (worker : Worker)
      → AreAnswers jobs (worker_loop fl j memory_limit_mb jobs worker).1
  unfolding worker_loop run_job
  worker_loop-AreAnswers memory_limit_mb [] worker = refl
  worker_loop-AreAnswers memory_limit_mb ((w, pd) ∷ jobs) worker =
      let (worker', sent) = run_job fl j memory_limit_mb w pd worker in
      (
        sent,
        (worker_loop fl j memory_limit_mb jobs worker').1,
        refl,
        run_job-IsAnswer memory_limit_mb w pd worker,
        worker_loop-AreAnswers memory_limit_mb jobs worker',
      )
