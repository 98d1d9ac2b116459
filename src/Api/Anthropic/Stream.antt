-- ===== src/Api/Anthropic/Stream.antt =====
-- internal/router/anthropichandler.go: streamResponse, from a job's events to the events of a
-- streamed message. What json.Marshal is given here are strings and numbers, which it encodes.
pub mod Conforms
pub mod Assembled
pub mod Late
use auxot.Common.{
  ℕ, suc, Bool, true, false, not, ◌&&◌, Option, none, some, List, [], ◌∷◌, ◌++◌, Text, codes,
  text_comparable, text_beq, is_empty, if◌then◌else◌,
}
use auxot.Common.Int.{ℤ, pos, ◌+ℤ◌, ltb_ℤ, wrap_int}
use auxot.Protocol.{ToolCall, CompleteMessage}
use auxot.Queue.Redis.{Redis}
use auxot.Queue.Tokens.{TokenStream, EventCodec}
use auxot.Api.Events.{
  Decoder, Turn, goes_on, returns, Moment, Kind, reasoning_token, token, done, failure, skipped,
  kind_of, follow,
}
use auxot.Api.Anthropic.{
  ContentBlock, MessagesResponse, Delta, SseEvent, message_start, ping, content_block_start,
  content_block_delta, content_block_stop, message_delta, message_stop, error_event,
}

-- The random IDs of a response: its own, and the one drawn for the n-th tool call without an ID.
pub record Drawn : Type 0 where
  pub message_id : Text
  pub completion_id : ℕ → Text

-- The loop's variables. The index counts blocks, of which there are two more than tool calls.
pub record Streaming : Type 0 where
  pub output_tokens : ℤ
  pub current_block_index : ℕ
  pub has_started_text_block : Bool
  pub has_started_thinking_block : Bool

abbrev pub not_streaming : Streaming
not_streaming = record {
  output_tokens = pos 0;
  current_block_index = 0;
  has_started_text_block = false;
  has_started_thinking_block = false;
}

abbrev pub empty_block : ContentBlock
empty_block = record { type = []; thinking = []; text = []; id = []; name = []; input = [] }

abbrev pub empty_delta : Delta
empty_delta = record { type = []; thinking = []; text = []; partial_json = [] }

abbrev pub thinking_delta : Text → Delta
thinking_delta t = record empty_delta { type = codes "thinking_delta"; thinking = t }

abbrev pub text_delta : Text → Delta
text_delta t = record empty_delta { type = codes "text_delta"; text = t }

abbrev pub input_json_delta : Text → Delta
input_json_delta json = record empty_delta { type = codes "input_json_delta"; partial_json = json }

unfoldable pub on_reasoning_token : Text → Streaming → Turn Streaming SseEvent
on_reasoning_token t s =
    goes_on (opened ++ content_block_delta s.current_block_index (thinking_delta t) ∷ [])
      (record s { has_started_thinking_block = true })
  where
    opened : List SseEvent
    opened =
        if s.has_started_thinking_block
        then []
        else content_block_start s.current_block_index
            (record empty_block { type = codes "thinking" })
          ∷ []

-- Before a text token: an open thinking block is closed.
unfoldable pub close_thinking : Streaming → List SseEvent × Streaming
close_thinking s =
    if s.has_started_thinking_block && not s.has_started_text_block
    then (
      content_block_stop s.current_block_index ∷ [],
      record s {
        current_block_index = suc s.current_block_index;
        has_started_thinking_block = false;
      },
    )
    else ([], s)

-- The text block is opened with its first token.
unfoldable pub open_text : Streaming → List SseEvent × Streaming
open_text s = if s.has_started_text_block then ([], s) else (
  content_block_start s.current_block_index (record empty_block { type = codes "text" }) ∷ [],
  record s { has_started_text_block = true },
)

unfoldable pub on_token : Text → Streaming → Turn Streaming SseEvent
unfolding close_thinking open_text
on_token t s =
    let (closed, s') = close_thinking s in
    let (opened, s'') = open_text s' in
    goes_on (closed ++ (opened ++ content_block_delta s''.current_block_index (text_delta t) ∷ []))
      (record s'' { output_tokens = wrap_int (s''.output_tokens +ℤ pos 1) })

-- The ID of the n-th tool call.
abbrev pub tool_id : Drawn → ℕ → ToolCall → Text
tool_id drawn n tc = if is_empty tc.id then codes "toolu_" ++ drawn.completion_id n else tc.id

-- The blocks of the tool calls, numbered from n.
unfoldable pub tool_use_events : Drawn → ℕ → ℕ → List ToolCall → List SseEvent
tool_use_events drawn n index [] = []
tool_use_events drawn n index (tc ∷ tool_calls) =
    content_block_start index (record empty_block {
      type = codes "tool_use";
      id = tool_id drawn n tc;
      name = tc.function.name;
    })
    ∷ ((if is_empty tc.function.arguments
          then []
          else content_block_delta index (input_json_delta tc.function.arguments) ∷ [])
        ++ content_block_stop index ∷ tool_use_events drawn (suc n) (suc index) tool_calls)

abbrev pub stop_reason : List ToolCall → Text
stop_reason [] = codes "end_turn"
stop_reason (tc ∷ tool_calls) = codes "tool_use"

-- At the end: the open blocks are closed.
unfoldable pub close_blocks : Streaming → List SseEvent × ℕ
close_blocks s =
    let index = s.current_block_index in
    if s.has_started_text_block
    then (content_block_stop index ∷ [], suc index)
    else if s.has_started_thinking_block
    then (content_block_stop index ∷ [], suc index)
    else ([], index)

unfoldable pub on_done : Drawn → CompleteMessage → Streaming → Turn Streaming SseEvent
unfolding close_blocks tool_use_events
on_done drawn complete s =
    let (closed, index) = close_blocks s in
    let output_tokens : ℤ =
      if ltb_ℤ (pos 0) complete.output_tokens then complete.output_tokens else s.output_tokens in
    let reason : Text = stop_reason complete.tool_calls in
    returns (
      closed
      ++ (tool_use_events drawn 0 index complete.tool_calls
          ++ message_delta (record { stop_reason = some reason; stop_sequence = none })
              output_tokens
            ∷ message_stop
            ∷ []))

module _ (drawn : Drawn) where
  -- The switch on an event's type.
  unfoldable pub on_event : Kind → Streaming → Turn Streaming SseEvent
  unfolding on_reasoning_token on_token on_done
  on_event (reasoning_token t) s = on_reasoning_token t s
  on_event (token t) s = on_token t s
  on_event (done complete decoded) s = on_done drawn complete s
  on_event (failure message) s =
      returns (error_event (record { type = codes "api_error"; message = message }) ∷ [])
  on_event skipped s = goes_on [] s

  -- The message that the response begins with.
  abbrev pub start_message : Text → MessagesResponse
  start_message model = record {
    id = drawn.message_id;
    type = codes "message";
    role = codes "assistant";
    content = [];
    model = model;
    stop_reason = none;
    stop_sequence = none;
    usage = record { input_tokens = pos 0; output_tokens = pos 0 };
  }

  module _ (d : Decoder) (r : Redis) (c : EventCodec) (ts : TokenStream) where
    -- The response when the writer can flush.
    unfoldable pub stream_response : List (Moment r) → Text → Text → List SseEvent
    unfolding on_event
    stream_response moments job_id model =
        message_start (start_message model)
        ∷ ping
        ∷ follow (λ event. on_event (kind_of d event)) r c ts job_id none
            (record { on_cancel = []; on_deadline = []; on_failure = [] }) moments (codes "0-0")
            not_streaming
