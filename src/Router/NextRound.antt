-- ===== src/Router/NextRound.antt =====
-- internal/router/toolshandler.go and dispatch.go: the next round of a job, from the results of its
-- tool calls.
pub mod History
use auxot.Common.{
  ℕ, zero, suc, ◌+◌, ◌-◌, ◌*◌, ◌%◌, ◌^◌, ◌≡◌, Bool, true, false, not, ◌||◌, Option, none, some,
  List, [], ◌∷◌, ◌++◌, map, Text, codes, text_comparable, text_beq, text_ltb, nat_beq, length,
  get_or, keep, ltb, is_some, is_empty, if◌then◌else◌,
}
use auxot.Common.Assoc.{Assoc, lookup, insert, erase, keys}
use auxot.Common.Int.{ℤ, pos, negsuc, ◌-ℤ◌, ltb_ℤ}
use auxot.Protocol.{
  Json, JobMessage, ChatMessage, CompleteMessage, Tool, ToolCall, ToolJobMessage, ToolResultMessage,
  ImagePart, type_job, type_tool_job,
}
use auxot.Queue.Redis.{Redis, contains}
use auxot.Queue.Jobs.{JobQueue, Error, Result, returned, error, enqueue, marshaling}
use auxot.Queue.Tokens.{TokenStream, TokenEvent, EventCodec, publish, set_ttl}
use Prim.Native.Nat.{bit_xor}
use auxot.Router.ToolsState.{
  ToolsConn, JobContext, ToolCallResult, Pending, ToolJobRef, Tools, save_job_context,
  delete_job_context, allowed_tool_defs, stream_ttl_dispatched, stream_ttl_streaming,
  stream_ttl_done,
}
use auxot.Router.Continuation.{
  record_tool_result, handle_tool_result, handle_tool_error, credentials_for, tool_job_for,
  chat_content_string, start_continuation,
}

module _ (json : Json) where
  unfoldable pub tool_result_content : ToolCallResult → Text
  tool_result_content res =
      if not (is_empty res.err_msg)
      then json.marshal_strings ((codes "error", res.err_msg) ∷ [])
      else elim res.result [
        | none ↦ []
        | some raw ↦ elim (json.unmarshal_string raw) [ some s ↦ s | none ↦ raw ]
      ]

  build_multimodal_content : Text → List ImagePart → Text
  build_multimodal_content text imgs = elim (json.marshal_parts text imgs) [
    | some parts ↦ parts
    | none ↦ chat_content_string json text
  ]

  result_message : Text → Option ToolCallResult → ChatMessage
  unfolding build_multimodal_content
  result_message tool_call_id res = record {
    role = codes "tool";
    content = elim res [
      | none ↦ chat_content_string json (codes "{\"error\":\"tool result missing\"}")
      | some r ↦
          let content : Text = tool_result_content r in
          if ltb 0 (length r.image_parts)
          then build_multimodal_content content r.image_parts
          else chat_content_string json content
    ];
    tool_call_id = tool_call_id;
    tool_calls = [];
  }

  result_of : Text → Assoc Text (Option ToolCallResult) → Option ToolCallResult
  result_of tool_call_id results = elim (lookup tool_call_id results) [ none ↦ none | some r ↦ r ]

  -- The tool messages, in the order of the assistant's calls.
  tool_messages : List ToolCall → Assoc Text (Option ToolCallResult) → List ChatMessage
  unfolding result_message result_of
  tool_messages [] results = []
  tool_messages (tc ∷ calls) results =
      result_message tc.id (result_of tc.id results) ∷ tool_messages calls results

  -- The history of the next round: what there was, the assistant's turn, the tools' messages.
  unfoldable pub next_messages : JobContext → Pending → List ChatMessage
  unfolding tool_messages
  next_messages ctx cont =
      ctx.messages
      ++ (cont.assistant_msg ∷ tool_messages cont.assistant_msg.tool_calls cont.results)

  -- The job of the next round, under the same ID.
  unfoldable pub next_job : JobContext → Pending → JobMessage
  next_job ctx cont = record {
    type = type_job;
    job_id = cont.job_id;
    reference_id = [];
    model = [];
    messages = next_messages ctx cont;
    tools = ctx.tools;
    temperature = ctx.temperature;
    max_tokens = ctx.max_tokens;
    reasoning_effort = ctx.reasoning_effort;
    arguments = [];
    caller_tools = [];
    compaction_session_id = [];
    credentials = [];
  }

module _ (r : Redis) (json : Json) (codec : EventCodec) (q : JobQueue) (ts : TokenStream) where
  -- internal/router/dispatch.go
  unfoldable pub enqueue_job : JobMessage → r.Db → Result Text × r.Db
  enqueue_job job db = elim (json.marshal_job job) [
    | none ↦ (error marshaling, db)
    | some body ↦ enqueue r q job.job_id body db
  ]

  -- `describe` gives the text of an error. A continuation with no context is direct and has no round.
  unfoldable pub continue_llm_round : (Error → Text) → Pending → Tools × r.Db → Tools × r.Db
  unfolding next_job next_messages
  continue_llm_round describe cont (h, db) = elim cont.ctx [
    | none ↦ (h, db)
    | some ctx ↦
        let h' : Tools = record h {
          job_contexts =
              insert cont.job_id (record ctx { messages = next_messages json ctx cont })
                h.job_contexts;
        } in
        let (result, db1) = enqueue_job (next_job json ctx cont) db in
        elim result [
          | returned _ ↦ (h', db1)
          | error e ↦
              let details : Text =
                codes "failed to re-enqueue job after tool results: " ++ describe e in
              let err_data : Text =
                json.marshal_strings (
                  (codes "error", codes "continuation_failed") ∷ (codes "details", details) ∷ []) in
              let (_, db2) =
                publish r codec ts cont.job_id (record { type = codes "error"; body = err_data })
                  db1 in
              let (_, db3) = set_ttl r codec ts cont.job_id stream_ttl_done db2 in (h', db3)
        ]
  ]
