-- ===== src/Api/OpenAi/Stream.antt =====
-- internal/router/apihandler.go: streamChatResponse, from a job's events to chunks. What json.Marshal
-- is given here are strings and numbers, which it encodes.
pub mod Ends
pub mod Contents
use auxot.Common.{
  ℕ, suc, Bool, true, false, ◌||◌, Option, none, some, List, [], ◌∷◌, ◌++◌, map, Text, codes,
  is_nil, if◌then◌else◌,
}
use auxot.Common.Int.{ℤ, pos, ◌+ℤ◌, ltb_ℤ, wrap_int}
use auxot.Protocol
use auxot.Protocol.{Json, CompleteMessage}
use auxot.Queue.Redis.{Redis}
use auxot.Queue.Tokens.{TokenStream, EventCodec}
use auxot.Api.Events.{
  Decoder, Turn, goes_on, returns, Moment, Kind, reasoning_token, token, done, failure, skipped,
  kind_of, follow,
}
use auxot.Api.OpenAi.{
  ToolCall, Usage, ChatCompletionChunk, ErrorDetail, new_error_response, new_streaming_chunk,
  new_streaming_reasoning_chunk, new_streaming_role_chunk, new_streaming_tool_call_chunks,
  new_streaming_done_chunk,
}

-- A line of data: a chunk, an error, or the sentinel that closes the stream.
pub data SseLine : Type 0 where
  chunk : ChatCompletionChunk → SseLine
  error_line : ErrorDetail → SseLine
  sse_done : SseLine

-- The calls with their positions, counted from i.
unfoldable pub tool_calls_of : ℕ → List Protocol.ToolCall → List ToolCall
tool_calls_of i [] = []
tool_calls_of i (tc ∷ tool_calls) =
    record {
      index = i;
      id = tc.id;
      type = tc.type;
      function = record { name = tc.function.name; arguments = tc.function.arguments };
    }
    ∷ tool_calls_of (suc i) tool_calls

abbrev pub usage_of : CompleteMessage → Usage
usage_of complete = record {
  cache_tokens = complete.cache_tokens;
  prompt_tokens = complete.input_tokens;
  completion_tokens = complete.output_tokens;
  total_tokens = wrap_int (complete.input_tokens +ℤ complete.output_tokens);
}

-- The usage is left out when nothing was counted.
abbrev some_usage : CompleteMessage → Option Usage
some_usage complete =
    if ltb_ℤ (pos 0) complete.input_tokens
      || ltb_ℤ (pos 0) complete.output_tokens
      || ltb_ℤ (pos 0) complete.cache_tokens
    then some (usage_of complete)
    else none

abbrev pub finish_reason : List Protocol.ToolCall → Text
finish_reason [] = codes "stop"
finish_reason (tc ∷ tool_calls) = codes "tool_calls"

abbrev chunks : List ChatCompletionChunk → List SseLine
chunks [] = []
chunks (c ∷ cs) = chunk c ∷ chunks cs

module _ (json : Json) (id : Text) (created : ℕ) (model : Text) where
  -- The switch on an event's type.
  unfoldable pub on_event : Kind → Unit {0} → Turn (Unit {0}) SseLine
  unfolding tool_calls_of
  on_event (token t) s = goes_on (chunk (new_streaming_chunk json id created model t) ∷ []) s
  on_event (reasoning_token t) s =
      goes_on (chunk (new_streaming_reasoning_chunk json id created model t) ∷ []) s
  on_event (done complete decoded) s = returns (
      chunks (
        new_streaming_tool_call_chunks json id created model 0
          (tool_calls_of 0 complete.tool_calls))
      ++ chunk (
          new_streaming_done_chunk json id created model (finish_reason complete.tool_calls)
            (some_usage complete))
        ∷ sse_done
        ∷ [])
  on_event (failure message) s =
      returns (error_line (new_error_response message (codes "server_error") []) ∷ sse_done ∷ [])
  on_event skipped s = goes_on [] s

  -- The response when the writer can flush; `id` is the job's ID.
  unfoldable pub stream_chat_response :
      (d : Decoder) (r : Redis) (c : EventCodec) (ts : TokenStream) (deadline : ℕ)
      → List (Moment r)
      → List SseLine
  unfolding on_event
  stream_chat_response d r c ts deadline moments =
      chunk (new_streaming_role_chunk json id created model)
      ∷ follow (λ event. on_event (kind_of d event)) r c ts id (some deadline)
          (record {
            on_cancel = [];
            on_deadline =
                chunk (new_streaming_done_chunk json id created model (codes "stop") none)
                ∷ sse_done
                ∷ [];
            on_failure = [];
          })
          moments (codes "0-0") tt
