-- ===== src/Router/Continuation.antt =====
-- internal/router/toolshandler.go: the tool calls of a GPU job, from the worker's answer to the last
-- result. A method takes the handler's state and returns the new one. The IDs that the handler draws
-- at random are an argument, `ids`; `delivers` says for each tool job whether its message reaches the
-- tools worker. A goroutine that runs continueLLMRound is an entry of `rounds`.
pub mod Results
pub mod Workers
pub mod Calls
pub mod Tests
use auxot.Common.{
  ℕ, zero, suc, ◌+◌, ◌-◌, ◌*◌, ◌%◌, ◌^◌, ◌≡◌, Bool, true, false, not, ◌||◌, Option, none, some,
  List, [], ◌∷◌, ◌++◌, map, Text, codes, text_comparable, text_beq, text_ltb, nat_beq, length,
  get_or, keep, ltb, is_some, is_empty, if◌then◌else◌,
}
use auxot.Common.Assoc.{Assoc, lookup, insert, erase, keys}
use auxot.Common.Int.{ℤ, pos, negsuc, ◌-ℤ◌, ltb_ℤ}
use auxot.Protocol.{
  Json, JobMessage, ChatMessage, CompleteMessage, Tool, ToolCall, ToolJobMessage, ToolResultMessage,
  ImagePart, type_job, type_tool_job,
}
use auxot.Queue.Redis.{Redis, contains}
use auxot.Queue.Jobs.{JobQueue, Error, Result, returned, error, enqueue, marshaling}
use auxot.Queue.Tokens.{TokenStream, TokenEvent, EventCodec, publish, set_ttl}
use Prim.Native.Nat.{bit_xor}
use auxot.Router.ToolsState.{
  ToolsConn, JobContext, ToolCallResult, Pending, ToolJobRef, Tools, save_job_context,
  delete_job_context, allowed_tool_defs, stream_ttl_dispatched, stream_ttl_streaming,
  stream_ttl_done,
}
use auxot.Router.Choice.{
  sort_by_id, fnv64a, pick_from_eligible, values_of, advertises, pick_tools_worker,
  pick_tools_worker_all, distinct_names,
}

-- The assignment to `cont.results`, once the continuation is known.
with_result : Text → ToolCallResult → Pending → Pending
with_result tool_call_id res cont = record cont {
  results = insert tool_call_id (some res) cont.results;
  remaining = cont.remaining -ℤ pos 1;
}

-- The last result of a round starts the next one, unless the call was direct.
finish : Text → Pending → Tools → Tools
finish parent_job_id cont h =
    if ltb_ℤ (pos 0) cont.remaining
    then record h { pending_conts = insert parent_job_id cont h.pending_conts }
    else if cont.is_direct
    then record h { pending_conts = erase parent_job_id h.pending_conts }
    else record h {
      pending_conts = erase parent_job_id h.pending_conts;
      rounds = h.rounds ++ cont ∷ [];
    }

unfoldable pub record_tool_result :
    Text → Text → Text → Option Text → List ImagePart → Text → Tools → Tools
unfolding with_result finish
record_tool_result parent_job_id tool_call_id tool_name result image_parts err_msg h =
    elim (lookup parent_job_id h.pending_conts) [
      | none ↦ h
      | some cont ↦
          if is_some (lookup tool_call_id cont.results)
          then finish parent_job_id
              (with_result tool_call_id
                (record {
                  tool_name = tool_name;
                  result = result;
                  err_msg = err_msg;
                  image_parts = image_parts;
                })
                cont)
              h
          else h
    ]

unfoldable pub handle_tool_result : ToolResultMessage → Tools → Tools
handle_tool_result msg h =
    record_tool_result msg.parent_job_id msg.tool_call_id msg.tool_name msg.result msg.image_parts
      msg.error (record h { tool_job_refs = erase msg.job_id h.tool_job_refs })

unfoldable pub handle_tool_error : Text → Text → Tools → Tools
handle_tool_error tool_job_id err_msg h = elim (lookup tool_job_id h.tool_job_refs) [
  | none ↦ record h { tool_job_refs = erase tool_job_id h.tool_job_refs }
  | some ref ↦
      record_tool_result ref.parent_job_id ref.tool_call_id [] none [] err_msg
        (record h { tool_job_refs = erase tool_job_id h.tool_job_refs })
]

abbrev dispatch_error : Text
dispatch_error = codes "failed to dispatch to tools worker"

pub credentials_for : Text → Assoc Text (Assoc Text Text) → Assoc Text Text
credentials_for name credentials = elim (lookup name credentials) [ none ↦ [] | some c ↦ c ]

-- The message that carries a tool call.
abbrev pub tool_job_for :
    Text → Text → JobContext → Assoc Text (Assoc Text Text) → ToolCall → ToolJobMessage
tool_job_for tool_job_id job_id ctx tool_credentials tc = record {
  type = type_tool_job;
  job_id = tool_job_id;
  parent_job_id = job_id;
  thread_id = ctx.thread_id;
  tool_name = tc.function.name;
  tool_call_id = tc.id;
  arguments = tc.function.arguments;
  credentials = credentials_for tc.function.name tool_credentials;
  mcp_package = [];
  mcp_version = [];
  mcp_url = [];
  mcp_transport = [];
  mcp_headers = [];
}

-- One tool call: the reference, then the message, or a failed result at once.
dispatch_call : Text → (Text → Bool) → Text → JobContext → ToolsConn → ToolCall → Tools → Tools
dispatch_call tool_job_id delivers job_id ctx worker tc h =
    let ref : ToolJobRef = record { parent_job_id = job_id; tool_call_id = tc.id } in
    let h' : Tools = record h { tool_job_refs = insert tool_job_id ref h.tool_job_refs } in
    let tool_job : ToolJobMessage = tool_job_for tool_job_id job_id ctx h.tool_credentials tc in
    if delivers tool_job_id
    then record h' { sent = h.sent ++ (worker.id, tool_job) ∷ [] }
    else record_tool_result job_id tc.id tc.function.name none [] dispatch_error h'

dispatch_calls :
    (ℕ → Text) → ℕ → (Text → Bool) → Text → JobContext → ToolsConn → List ToolCall → Tools → Tools
unfolding dispatch_call
dispatch_calls ids n delivers job_id ctx worker [] h = h
dispatch_calls ids n delivers job_id ctx worker (tc ∷ calls) h =
    dispatch_calls ids (n + 1) delivers job_id ctx worker calls
      (dispatch_call (ids n) delivers job_id ctx worker tc h)

-- A placeholder for each call.
placeholders :
    List ToolCall → Assoc Text (Option ToolCallResult) → Assoc Text (Option ToolCallResult)
placeholders [] results = results
placeholders (tc ∷ calls) results = placeholders calls (insert tc.id none results)

module _ (json : Json) where
  -- protocol.ChatContentString
  abbrev pub chat_content_string : Text → Text
  chat_content_string s = json.marshal_string s

  new_pending : CompleteMessage → JobContext → Pending
  unfolding placeholders
  new_pending msg ctx = record {
    job_id = msg.job_id;
    ctx = some ctx;
    assistant_msg = record {
      role = codes "assistant";
      content = chat_content_string msg.full_response;
      tool_call_id = [];
      tool_calls = msg.tool_calls;
    };
    results = placeholders msg.tool_calls [];
    remaining = pos (length msg.tool_calls);
    is_direct = false;
  }

  unfoldable pub start_continuation :
      (ℕ → Text) → (Text → Bool) → CompleteMessage → Tools → Bool × Tools
  unfolding new_pending dispatch_calls distinct_names
  start_continuation ids delivers msg h =
      if nat_beq (length msg.tool_calls) 0
      then (false, h)
      else elim (lookup msg.job_id h.job_contexts) [
        | none ↦ (false, h)
        | some ctx ↦ elim (pick_tools_worker_all (distinct_names msg.tool_calls) ctx.thread_id h) [
          | none ↦ (false, h)
          | some worker ↦ (
            true,
            dispatch_calls ids 0 delivers msg.job_id ctx worker msg.tool_calls (record h {
              pending_conts = insert msg.job_id (new_pending msg ctx) h.pending_conts;
            }),
          )
        ]
      ]
