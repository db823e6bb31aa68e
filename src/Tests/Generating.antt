-- ===== src/Tests/Generating.antt =====
-- Runs of the node's worker.
use jw_swarm.Common.{
  ℕ, ◌+◌, List, [], ◌∷◌, ◌++◌, false, none, some, ◌≡◌, refl, eqb, map, length, arith,
}
use jw_swarm.Common.Attempt.{ok}
use jw_swarm.Common.HashMap
use jw_swarm.Proto.{PromptDispatch, TokenChunk, Message, token_chunk}
use jw_swarm.Http.{Response}
use jw_swarm.Api.{Completion, buffered_response}
use jw_swarm.Registry.{PendingMeta, complete_request, get_pending}
use jw_swarm.Node.Backend.{make_resident}
use jw_swarm.Node.Prompt.{extract_max_tokens}
use jw_swarm.Node.Llama.{Llama}
use jw_swarm.Node.Generate.{Work, Worker, run_job, worker_loop}
use jw_swarm.Node.Generate.Answers.{AreAnswers, worker_loop-AreAnswers}
use jw_swarm.Node.Generate.Tally.{Grows, dones, reported_tokens, reports, worker_loop-Grows}
use jw_swarm.System.Relay.{handle_all, IsAnswered, run_job-buffered_response}
use jw_swarm.Tests.{fl, json_reader, body, state, tx}
use jw_swarm.Tests.Coordinating.{moments}

-- A model that says "a" three times.
abbrev llama : Llama
llama = record {
  Context = ℕ;
  Batch = ℕ;
  Sampler = ℕ;
  Decoder = ℕ;
  str_to_token = λ s. ok (1 ∷ 2 ∷ []);
  new_context = λ n. ok 0;
  new_batch = λ n. 0;
  add = λ b t i logits. ok (b + 1);
  clear = λ b. 0;
  n_tokens = λ b. b;
  decode = λ c b. ok (c + 1);
  greedy = 0;
  sample = λ s c i. c;
  accept = λ s t. s;
  is_eog_token = λ t. eqb t 4;
  new_decoder = 0;
  token_to_piece = λ t d. (some "a", d);
  print = λ n. "0";
}

abbrev work : Work
work = record {
  ready = ("m", "/models/m") ∷ [];
  size_mb = some 4000;
  loading_error = none;
  model = llama;
  elapsed = record { bits = 1000 };
}

abbrev worker : Worker
worker = record {
  residents = record { loaded = []; loaded_order = [] };
  counters = record {
    total_completion_tokens = 0;
    total_generation_seconds = record { bits = 0 };
    last_tps = record { bits = 0 };
    token_usage = [];
  };
}

abbrev prompt : PromptDispatch
prompt = record { request_id = "q"; model = "m"; payload = body }

abbrev jobs : List (Work × PromptDispatch)
jobs = (work, prompt) ∷ (record work { ready = [] }, prompt) ∷ []

worker_loop-AreAnswers_example :
    AreAnswers fl json_reader jobs (worker_loop fl json_reader 24000 jobs worker).1
worker_loop-AreAnswers_example = worker_loop-AreAnswers fl json_reader 24000 jobs worker

worker_loop-Grows_example :
    Grows "m" worker.counters
      (worker_loop fl json_reader 24000 jobs worker).0.counters
      (reports fl json_reader "m" dones 24000 jobs worker)
      (reports fl json_reader "m" reported_tokens 24000 jobs worker)
unfolding HashMap.get
worker_loop-Grows_example =
    worker_loop-Grows fl json_reader "m" 24000 jobs worker (omega arith, omega arith)

abbrev pending : PendingMeta
pending = record { tx = record { channel = 7 }; model = "m"; node_id = "n1" }

run_job-buffered_response_example :
    let sent = (run_job fl json_reader 24000 work prompt worker).1 in
    let s' = handle_all fl moments 0 tx none sent state in
    (cs : List TokenChunk) × (final : Message) × (r : Response Completion) × (sent
      ≡ map token_chunk cs ++ final ∷ [])
    × (buffered_response s' "q" "m" 0 false (s'.events 7).sent
        ≡ some (r, record s' { registry = complete_request s'.registry "q" }))
    × IsAnswered fl cs final r "q" "m" 0
unfolding get_pending HashMap.get
run_job-buffered_response_example =
    run_job-buffered_response fl json_reader 24000 work prompt worker moments tx none pending state
      "m" 0 (refl, refl, refl)

-- Three chunks and the usage for the first job, and an error for the second.
five_messages : length (worker_loop fl json_reader 24000 jobs worker).1 ≡ 5
unfolding worker_loop HashMap.get make_resident extract_max_tokens
five_messages = refl
