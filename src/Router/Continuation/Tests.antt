-- ===== src/Router/Continuation/Tests.antt =====
-- internal/router/toolshandler.go: a round of two tool calls, and the component's theorems on it.
use auxot.Common.{
  ◌≡◌, refl, true, false, none, some, List, [], ◌∷◌, ◌++◌, Text, codes, text_comparable,
}
use auxot.Common.Assoc.{lookup}
use auxot.Common.Int.{pos}
use auxot.Protocol.{Json, CompleteMessage, ToolCall}
use auxot.Router.ToolsState.{Tools, ToolsConn, JobContext, Pending}
use auxot.Router.Continuation.{start_continuation}
use auxot.Router.Choice.{
  pick_tools_worker_all, pick_from_eligible, sort_by_id, insert_by_id, first, distinct_names,
  values_of,
}
use auxot.Router.Continuation.Results.{
  Report, report, record_tool_result_comm, record_tool_result_repeated,
}
use auxot.Router.Continuation.Calls.{tool_jobs, start_continuation-sent}

abbrev pub json : Json
json = record {
  unmarshal_job = λ text. none;
  marshal_job = λ job. some job.job_id;
  marshal_complete = λ msg. msg.full_response;
  marshal_string = λ s. codes "\"" ++ (s ++ codes "\"");
  unmarshal_string = λ s. none;
  marshal_strings = λ fields. codes "{}";
  marshal_parts = λ text parts. none;
}

abbrev worker_a : ToolsConn
worker_a = record { id = codes "a"; tools = codes "fetch" ∷ codes "run" ∷ [] }

abbrev worker_b : ToolsConn
worker_b = record { id = codes "b"; tools = codes "run" ∷ [] }

abbrev pub ctx : JobContext
ctx = record {
  messages = [];
  tools = [];
  temperature = none;
  max_tokens = none;
  reasoning_effort = [];
  thread_id = [];
}

abbrev call : Text → Text → ToolCall
call id name = record {
  id = id;
  type = codes "function";
  function = record { name = name; arguments = codes "{}" };
}

abbrev calls : List ToolCall
calls = call (codes "c1") (codes "fetch") ∷ call (codes "c2") (codes "run") ∷ []

abbrev completion : CompleteMessage
completion = record {
  type = codes "complete";
  job_id = codes "j1";
  full_response = [];
  post_tool_content = [];
  reasoning_content = [];
  duration_ms = pos 3;
  cache_tokens = pos 0;
  input_tokens = pos 1;
  output_tokens = pos 1;
  reasoning_tokens = pos 0;
  tool_calls = calls;
  builtin_tool_uses = [];
  attachments = [];
  total_cost_usd = 0;
  provider_session_id = [];
  rate_limit_status = [];
  rate_limit_resets_at = pos 0;
  rate_limit_type = [];
}

abbrev pub open_round : Pending
open_round = record {
  job_id = codes "j1";
  ctx = some ctx;
  assistant_msg = record {
    role = codes "assistant";
    content = [];
    tool_call_id = [];
    tool_calls = calls;
  };
  results = (codes "c1", none) ∷ (codes "c2", none) ∷ [];
  remaining = pos 2;
  is_direct = false;
}

abbrev pub before_round : Tools
before_round = record {
  allowed_tools = codes "fetch" ∷ codes "run" ∷ [];
  tool_credentials = [];
  tools_workers = (codes "b", worker_b) ∷ (codes "a", worker_a) ∷ [];
  builtin_defs = [];
  job_contexts = (codes "j1", ctx) ∷ [];
  pending_conts = [];
  tool_job_refs = [];
  sent = [];
  rounds = [];
}

abbrev other_order : Tools
other_order = record before_round {
  tools_workers = (codes "a", worker_a) ∷ (codes "b", worker_b) ∷ [];
}

abbrev in_round : Tools
in_round = record before_round { pending_conts = (codes "j1", open_round) ∷ [] }

abbrev answer : Text → Report
answer id = record {
  tool_call_id = id;
  tool_name = [];
  result = some (codes "1");
  image_parts = [];
  err_msg = [];
}

abbrev names : List Text
names = codes "fetch" ∷ codes "run" ∷ []

record_tool_result_comm_example :
    report (codes "j1") (answer (codes "c2")) (report (codes "j1") (answer (codes "c1")) in_round)
    ≡ report (codes "j1") (answer (codes "c1")) (report (codes "j1") (answer (codes "c2")) in_round)
unfolding lookup
record_tool_result_comm_example =
    record_tool_result_comm (codes "j1") (answer (codes "c1")) (answer (codes "c2")) in_round
      open_round refl refl refl refl refl

record_tool_result_repeated_example :
    (c : Pending) × ((report
        (codes "j1")
        (answer (codes "c1"))
        (report (codes "j1") (answer (codes "c1")) in_round)).rounds
      ≡ c ∷ [])
    × (lookup (codes "c2") c.results ≡ some none)
unfolding lookup
record_tool_result_repeated_example =
    record_tool_result_repeated (codes "j1") (answer (codes "c1")) (codes "c2") in_round open_round
      refl refl refl refl refl refl

-- Both calls go to the one worker that has both tools.
both_covered : pick_tools_worker_all (distinct_names calls) [] before_round ≡ some worker_a
unfolding distinct_names pick_tools_worker_all values_of pick_from_eligible sort_by_id insert_by_id
    first
both_covered = refl

start_continuation-sent_example :
    let (started, h') =
      start_continuation json (λ n. n ∷ []) (λ id. true) completion before_round in
    (started ≡ true)
    × (h'.sent ≡ tool_jobs (λ n. n ∷ []) 0 (codes "j1") ctx [] worker_a calls)
    × (h'.rounds ≡ [])
    × ((cont : Pending) × (lookup (codes "j1") h'.pending_conts ≡ some cont)
        × (cont.remaining ≡ pos 2))
unfolding lookup
start_continuation-sent_example =
    start_continuation-sent json (λ n. n ∷ []) (λ id. true) completion ctx worker_a before_round
      refl refl both_covered (λ i. refl)
