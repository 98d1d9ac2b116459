-- ===== src/Api/OpenAi/Routes.antt =====
-- internal/router/apihandler.go: the handlers that ServeHTTP calls.
pub mod Serve
pub mod Slots
pub mod Keys
use auxot.Common.{
  ℕ, ◌+◌, Bool, true, false, not, ◌⊎◌, inl, inr, Option, none, some, List, [], ◌∷◌, ◌++◌, Text,
  codes, text_comparable, text_beq, is_empty, is_nil, length, if◌then◌else◌,
}
use auxot.Common.Int.{ℤ, pos, ◌+ℤ◌, ◌-ℤ◌, wrap_int}
use auxot.Protocol
use auxot.Protocol.{Json, JobMessage, ChatMessage, type_job}
use auxot.Gpu
use auxot.Gpu.{Pool, WorkerSnapshot, snapshot}
use auxot.Queue.Jobs.{JobQueue, returned, error}
use auxot.Queue.Tokens.{TokenStream}
use auxot.Router.Continuation.{chat_content_string}
use auxot.Router.NextRound.{enqueue_job}
use auxot.Auth.{verify_api_key}
use auxot.Api.Http.{
  Request, Libraries, Surroundings, Served, trim_prefix, extract_bearer_token, is_valid_key,
}
use auxot.Api.OpenAi.{
  Message, Tool, ToolCall, ChatCompletionRequest, ChatCompletionResponse, CompletionRequest,
  CompletionResponse, ModelObject, ModelListResponse, ErrorDetail, new_error_response,
}
use auxot.Api.OpenAi.Stream.{SseLine, stream_chat_response}
use auxot.Api.OpenAi.Blocking.{Reply, blocking_chat_response}
use auxot.Api.OpenAi.Legacy.{LegacyLine, stream_legacy_response, blocking_legacy_response}

-- The map that handleHealth encodes, whose status is always "ok".
pub record Health : Type 0 where
  pub workers : ℕ
  pub total_slots : ℤ
  pub active_jobs : ℤ
  pub available : ℤ

pub data Answer : Type 0 where
  refuse : (status : ℕ) → ErrorDetail → Answer
  health : Health → Answer
  chat_lines : List SseLine → Answer
  chat_replies : List (Reply ChatCompletionResponse) → Answer
  legacy_lines : List LegacyLine → Answer
  legacy_replies : List (Reply CompletionResponse) → Answer
  empty_list : Answer
  model : ModelObject → Answer
  models : ModelListResponse → Answer

abbrev pub write_error_json : ℕ → Text → Text → Answer
write_error_json status type message = refuse status (new_error_response message type [])

-- encoding/json at a request's body: the text of an error, or the request; and at a prompt.
pub record BodyDecoder : Type 0 where
  pub chat : Text → Text ⊎ ChatCompletionRequest
  pub completion : Text → Text ⊎ CompletionRequest
  pub string : Text → Option Text
  pub strings : Text → Option (List Text)

-- APIHandler with the two fields of its configuration that it reads. Its pool is an argument.
pub record ApiHandler : Type 0 where
  pub job_queue : JobQueue
  pub token_stream : TokenStream
  pub model_name : Text
  pub job_timeout : ℕ

-- The sums over the workers.
unfoldable pub sum_slots : List WorkerSnapshot → ℤ → ℤ
sum_slots [] total = total
sum_slots (ws ∷ snap) total = sum_slots snap (wrap_int (total +ℤ ws.max_slots))

unfoldable pub sum_jobs : List WorkerSnapshot → ℤ → ℤ
sum_jobs [] total = total
sum_jobs (ws ∷ snap) total = sum_jobs snap (wrap_int (total +ℤ pos (length ws.active_job_ids)))

unfoldable pub handle_health : Pool → Health
unfolding sum_slots sum_jobs
handle_health pool =
    let snap : List WorkerSnapshot = snapshot pool in
    let total_slots : ℤ = sum_slots snap (pos 0) in
    let active_jobs : ℤ = sum_jobs snap (pos 0) in
    record {
      workers = length snap;
      total_slots = total_slots;
      active_jobs = active_jobs;
      available = wrap_int (total_slots -ℤ active_jobs);
    }

unfoldable pub convert_calls : List ToolCall → List Protocol.ToolCall
convert_calls [] = []
convert_calls (tc ∷ tool_calls) =
    record {
      id = tc.id;
      type = tc.type;
      function = record { name = tc.function.name; arguments = tc.function.arguments };
    }
    ∷ convert_calls tool_calls

unfoldable pub convert_messages : List Message → List ChatMessage
unfolding convert_calls
convert_messages [] = []
convert_messages (m ∷ messages) =
    record {
      role = m.role;
      content = m.content;
      tool_call_id = m.tool_call_id;
      tool_calls = convert_calls m.tool_calls;
    }
    ∷ convert_messages messages

unfoldable pub convert_tools : List Tool → List Protocol.Tool
convert_tools [] = []
convert_tools (t ∷ tools) =
    record {
      type = t.type;
      function = record {
        name = t.function.name;
        description = t.function.description;
        parameters = t.function.parameters;
      };
    }
    ∷ convert_tools tools

abbrev job_with : Text → List ChatMessage → Option ℕ → Option ℤ → JobMessage
job_with job_id messages temperature max_tokens = record {
  type = type_job;
  job_id = job_id;
  reference_id = [];
  model = [];
  messages = messages;
  tools = [];
  temperature = temperature;
  max_tokens = max_tokens;
  reasoning_effort = [];
  arguments = [];
  caller_tools = [];
  compaction_session_id = [];
  credentials = [];
}

unfoldable pub chat_job : Text → ChatCompletionRequest → JobMessage
unfolding convert_messages convert_tools
chat_job job_id req =
    record (job_with job_id (convert_messages req.messages) req.temperature req.max_tokens) {
      tools = convert_tools req.tools;
      reasoning_effort = req.reasoning_effort;
    }

unfoldable pub legacy_job : Json → Text → Text → CompletionRequest → JobMessage
legacy_job json job_id prompt req =
    job_with job_id
      (record {
        role = codes "user";
        content = chat_content_string json prompt;
        tool_call_id = [];
        tool_calls = [];
      }
        ∷ [])
      req.temperature req.max_tokens

abbrev head_or_empty : List Text → Text
head_or_empty [] = []
head_or_empty (t ∷ texts) = t

-- pkg/openai/types.go
unfoldable pub prompt_string : BodyDecoder → Text → Text
prompt_string bodies prompt = if is_empty prompt then [] else elim (bodies.string prompt) [
  | some s ↦ s
  | none ↦ elim (bodies.strings prompt) [ some arr ↦ head_or_empty arr | none ↦ [] ]
]

module _ (p : Libraries) (bodies : BodyDecoder) (h : ApiHandler) where
  -- requireAuth: the refusal that is written, if there is one.
  unfoldable pub authenticate : Surroundings p → Request → Served p → Option Answer × Served p
  authenticate env req w =
      let api_key : Text = extract_bearer_token req.authorization in
      let (outcome, verifier) = verify_api_key p.hashes env.now api_key w.verifier in
      if is_empty api_key
      then (
        some (write_error_json 401 (codes "authentication_error") (codes "missing Bearer token")),
        w,
      )
      else (
        if is_valid_key outcome
            then none
            else some
                (write_error_json 401 (codes "authentication_error") (codes "invalid API key")),
        record w { verifier = verifier },
      )

  abbrev pub proceed : (Served p → Answer × Served p) → Option Answer × Served p → Answer × Served p
  proceed next (some answer, w) = (answer, w)
  proceed next (none, w) = next w

  unfoldable pub with_auth :
      (Served p → Answer × Served p) → Surroundings p → Request → Served p → Answer × Served p
  unfolding authenticate
  with_auth next env req w = proceed next (authenticate env req w)

  abbrev invalid_request : Text → Answer
  invalid_request message = write_error_json 400 (codes "invalid_request_error") message

  -- A job is put on the queue, and `answer` answers it.
  unfoldable pub submit : Surroundings p → JobMessage → Answer → Served p → Answer × Served p
  submit env job answer w =
      let (result, db) = enqueue_job p.redis p.json p.codec h.job_queue h.token_stream job w.db in
      (
        elim result [
          | error _ ↦ write_error_json 503 (codes "server_error") env.enqueue_error
          | returned _ ↦ answer
        ],
        record w { db = db },
      )

  abbrev no_streaming : Answer
  no_streaming = write_error_json 500 (codes "server_error") (codes "streaming not supported")

  unfoldable pub create_chat :
      Surroundings p → Text ⊎ ChatCompletionRequest → Served p → Answer × Served p
  unfolding chat_job submit
  create_chat env (inl message) w = (invalid_request (codes "invalid JSON: " ++ message), w)
  create_chat env (inr body) w =
      let deadline : ℕ = env.now + h.job_timeout in
      let answer : Answer =
        if body.stream
        then if env.can_flush
          then chat_lines (
              stream_chat_response p.json env.job_id env.now_seconds body.model p.decoder p.redis
                p.codec h.token_stream deadline env.moments)
          else no_streaming
        else chat_replies (
            blocking_chat_response p.json env.own_id env.now_seconds body.model p.decoder p.redis
              p.codec h.token_stream deadline env.moments env.read_error env.job_id) in
      let submitted : Answer × Served p = submit env (chat_job env.job_id body) answer w in
      if is_nil body.messages
      then (invalid_request (codes "messages array is required"), w)
      else submitted

  unfoldable pub create_legacy :
      Surroundings p → Text ⊎ CompletionRequest → Served p → Answer × Served p
  unfolding legacy_job submit prompt_string
  create_legacy env (inl message) w = (invalid_request (codes "invalid JSON: " ++ message), w)
  create_legacy env (inr body) w =
      let deadline : ℕ = env.now + h.job_timeout in
      let prompt : Text = prompt_string bodies body.prompt in
      let answer : Answer =
        if body.stream
        then if env.can_flush
          then legacy_lines (
              stream_legacy_response p.json env.own_id env.now_seconds body.model p.decoder p.redis
                p.codec h.token_stream deadline env.moments env.job_id)
          else no_streaming
        else legacy_replies (
            blocking_legacy_response p.json env.own_id env.now_seconds body.model p.decoder p.redis
              p.codec h.token_stream deadline env.moments env.read_error env.job_id) in
      let submitted : Answer × Served p =
        submit env (legacy_job p.json env.job_id prompt body) answer w in
      if is_empty prompt then (invalid_request (codes "prompt is required"), w) else submitted

  unfoldable pub handle_chat_completion : Surroundings p → Request → Served p → Answer × Served p
  unfolding with_auth create_chat
  handle_chat_completion env req w = with_auth (create_chat env (bodies.chat req.body)) env req w

  unfoldable pub handle_legacy_completion : Surroundings p → Request → Served p → Answer × Served p
  unfolding with_auth create_legacy
  handle_legacy_completion env req w =
      with_auth (create_legacy env (bodies.completion req.body)) env req w

  -- The handlers that only answer.
  unfoldable pub handle_list_chat_completions : Answer
  handle_list_chat_completions = empty_list

  unfoldable pub handle_get_chat_completion : Answer
  handle_get_chat_completion =
      write_error_json 404 (codes "not_found_error")
        (codes "No chat completion found. Auxot does not store completions.")

  unfoldable pub handle_delete_chat_completion : Answer
  handle_delete_chat_completion =
      invalid_request
        (codes "Deleting completions is not supported. Auxot does not store completions.")

  unfoldable pub handle_get_completion_messages : Answer
  handle_get_completion_messages =
      write_error_json 404 (codes "not_found_error")
        (codes "No chat completion found. Auxot does not store completions.")

  unfoldable pub handle_embeddings : Answer
  handle_embeddings = write_error_json 501 (codes "not_implemented") (
      codes
        "Embedding support is not yet available. This endpoint requires a worker with embedding capability, which is planned for a future release.")

  abbrev model_object : Surroundings p → ModelObject
  model_object env = record {
    id = h.model_name;
    object = codes "model";
    created = env.now_seconds;
    owned_by = codes "auxot";
  }

  unfoldable pub handle_list_models : Surroundings p → Answer
  handle_list_models env = models (record { object = codes "list"; models = model_object env ∷ [] })

  unfoldable pub handle_get_model : Surroundings p → Request → Answer
  handle_get_model env req =
      let model_id : Text = trim_prefix req.path (codes "/api/openai/models/") in
      if is_empty model_id
      then write_error_json 404 (codes "not_found_error") (codes "model ID required")
      else if not (text_beq model_id h.model_name)
      then write_error_json 404 (codes "not_found_error")
          (codes "The model " ++ (env.quoted model_id ++ codes " does not exist"))
      else model (model_object env)
