-- ===== src/Node/Generate.antt =====
-- `generate` and `worker_loop` of jw-swarm-nodes/linux/src/backend.rs: a prompt becomes a stream of
-- messages. The worker runs once llama.cpp is initialised; a message always has a JSON text.
pub mod Chunks
pub mod Tally
pub mod Answers
use jw_swarm.Common.{
  ℕ, zero, suc, ◌+◌, ◌-◌, ◌%◌, ◌^◌, String, List, [], ◌∷◌, ◌++◌, Bool, Option, none, some,
  unwrap_or, length, ltb, eqb, not, is_some, if◌then◌else◌, ◌&&◌, true, false,
}
use Prim.Native.String.{◌++◌ as string_append}
use jw_swarm.Common.Attempt.{Attempt, ok, err}
use jw_swarm.Common.Text.{is_empty}
use jw_swarm.Common.HashMap
use jw_swarm.Common.HashMap.{HashMap}
use jw_swarm.Float.{F64, Floats, gt, zero_f}
use jw_swarm.Http.{Json}
use jw_swarm.Proto.{PromptDispatch, Message, Usage, token_chunk, done, error}
use jw_swarm.Node.Backend.{
  Residents, LoadError, file_missing, over_limit, load_failed, make_resident,
}
use jw_swarm.Node.Llama.{Llama, Turn, token_loop, decode_prompt, map_err}
use jw_swarm.Node.Counters.{Counters, count}
use jw_swarm.Node.Prompt.{extract_prompt, extract_max_tokens}

-- What a job meets: the ready models, the size of the model's file, if there is one, llama.cpp's
-- error in loading it, if there is one, the resident model, and the time that generating takes.
pub record Work : Type 1 where
  pub ready : HashMap String
  pub size_mb : Option ℕ
  pub loading_error : Option String
  pub model : Llama
  pub elapsed : F64

pub record Worker : Type 0 where
  pub residents : Residents
  pub counters : Counters

abbrev pub usage_of : ℕ → ℕ → Usage
usage_of prompt completion = record {
  prompt_tokens = prompt % 2 ^ 32;
  completion_tokens = completion;
  total_tokens = (prompt % 2 ^ 32 + completion) % 2 ^ 32;
}

-- The text of an error of making the model resident.
abbrev pub load_error_text : (ℕ → String) → Option String → LoadError → String
load_error_text print failure (file_missing model_id) =
    string_append "Model file missing for " model_id
load_error_text print failure (over_limit model_id size_mb limit) =
    string_append
      (string_append (string_append (string_append "Model " model_id) " is ") (print size_mb))
      (string_append "MB, over configured memory limit " (string_append (print limit) "MB"))
load_error_text print none (load_failed model_id) = string_append "Failed to load model " model_id
load_error_text print (some e) (load_failed model_id) =
    string_append (string_append "Failed to load model " model_id) (string_append ": " e)

-- A worker, the messages sent, and the error, if there is one.
pub record Outcome : Type 0 where
  pub worker : Worker
  pub sent : List Message
  pub failure : Option String

abbrev pub failed_with : Worker → List Message → String → Outcome
failed_with worker sent e = record { worker = worker; sent = sent; failure = some e }

module _ (fl : Floats) (j : Json) where
  -- What is left once the token loop has ended, with an error or without.
  unfoldable pub ending :
      Work → PromptDispatch → Worker → ℕ → ℕ → List Message → Option String → Outcome
  unfolding count
  ending w pd worker prompt completion sent (some e) = failed_with worker sent e
  ending w pd worker prompt completion sent none = record {
    worker = record worker {
      counters = count fl pd.model prompt completion w.elapsed worker.counters;
    };
    sent =
        sent
        ++ done (record { request_id = pd.request_id; usage = usage_of prompt completion }) ∷ [];
    failure = none;
  }

  -- The part of `generate` after the model is resident.
  unfoldable pub complete : Work → PromptDispatch → Worker → Outcome
  unfolding ending token_loop decode_prompt
  complete w pd worker =
      elim (map_err "Failed to tokenize input: "
        (w.model.str_to_token (extract_prompt j pd.payload))) [
          | err e ↦ failed_with worker [] e
          | ok tokens ↦ elim (eqb (length tokens) 0) [
            | true ↦ failed_with worker [] "Failed to tokenize input"
            | false ↦ elim (decode_prompt w.model tokens pd.model) [
              | err e ↦ failed_with worker [] e
              | ok turn ↦
                  let (last, failure) =
                    token_loop w.model pd.request_id (extract_max_tokens j pd.payload) 0 turn in
                  ending w pd worker (length tokens) last.completion_tokens last.sent failure
            ]
          ]
        ]

  unfoldable pub generate : ℕ → Work → PromptDispatch → Worker → Outcome
  unfolding complete
  generate memory_limit_mb w pd worker = elim (HashMap.get w.ready pd.model) [
    | none ↦ failed_with worker [] (string_append "Model file missing for " pd.model)
    | some dir ↦
        let (failure, r) =
          make_resident memory_limit_mb pd.model w.size_mb (not (is_some w.loading_error))
            worker.residents in
        let worker' = record worker { residents = r } in
        elim failure [
          | some e ↦ failed_with worker' [] (load_error_text w.model.print w.loading_error e)
          | none ↦ complete w pd worker'
        ]
  ]

  abbrev pub failure_messages : String → Option String → List Message
  failure_messages rid none = []
  failure_messages rid (some e) = error (record { request_id = rid; message = e }) ∷ []

  -- One turn of the worker's loop.
  unfoldable pub run_job : ℕ → Work → PromptDispatch → Worker → Worker × List Message
  unfolding generate
  run_job memory_limit_mb w pd worker =
      let o = generate memory_limit_mb w pd worker in
      (o.worker, o.sent ++ failure_messages pd.request_id o.failure)

  -- The jobs that the worker receives until every sender is gone, each with what it meets.
  unfoldable pub worker_loop : ℕ → List (Work × PromptDispatch) → Worker → Worker × List Message
  unfolding run_job
  worker_loop memory_limit_mb [] worker = (worker, [])
  worker_loop memory_limit_mb ((w, pd) ∷ jobs) worker =
      let (worker', sent) = run_job memory_limit_mb w pd worker in
      let (last, rest) = worker_loop memory_limit_mb jobs worker' in (last, sent ++ rest)
