-- ===== src/Api/Anthropic/Blocking.antt =====
-- internal/router/anthropichandler.go: blockingResponse, from a job's events to one message.
pub mod Agrees
use auxot.Common.{
  ℕ, suc, Bool, true, false, Option, none, some, List, [], ◌∷◌, ◌++◌, Text, codes, is_empty,
  if◌then◌else◌,
}
use auxot.Common.Int.{ℤ, pos}
use auxot.Protocol.{ToolCall, CompleteMessage}
use auxot.Queue.Redis.{Redis}
use auxot.Queue.Tokens.{TokenStream, EventCodec}
use auxot.Api.Events.{
  Decoder, Turn, goes_on, returns, Moment, Kind, reasoning_token, token, done, failure, skipped,
  kind_of, follow,
}
use auxot.Api.Anthropic.{ContentBlock, Usage, MessagesResponse, ErrorDetail}
use auxot.Api.Anthropic.Stream.{Drawn, empty_block, tool_id, stop_reason}

-- What the handler writes: a message, or an error with its status. A message with tool arguments that
-- are no JSON is not encoded, and leaves the body empty.
pub data Reply : Type 0 where
  message : MessagesResponse → Reply
  refused : (status : ℕ) → ErrorDetail → Reply

-- The two builders.
pub record Collected : Type 0 where
  pub full_content : Text
  pub reasoning_content : Text

abbrev pub nothing_yet : Collected
nothing_yet = record { full_content = []; reasoning_content = [] }

abbrev pub api_error : ℕ → Text → Reply
api_error status text = refused status (record { type = codes "api_error"; message = text })

abbrev or_else : Text → Text → Text
or_else given collected = if is_empty given then collected else given

-- A completion's text and reasoning take the place of what has been collected.
unfoldable pub completed : CompleteMessage → Bool → Collected → Collected
completed complete decoded s =
    if decoded
    then record {
      full_content = or_else complete.full_response s.full_content;
      reasoning_content = or_else complete.reasoning_content s.reasoning_content;
    }
    else s

unfoldable pub tool_use_blocks : Drawn → ℕ → List ToolCall → List ContentBlock
tool_use_blocks drawn n [] = []
tool_use_blocks drawn n (tc ∷ tool_calls) =
    record empty_block {
      type = codes "tool_use";
      id = tool_id drawn n tc;
      name = tc.function.name;
      input = tc.function.arguments;
    }
    ∷ tool_use_blocks drawn (suc n) tool_calls

-- A message without blocks gets an empty one.
abbrev or_empty_text : List ContentBlock → List ContentBlock
or_empty_text [] = record empty_block { type = codes "text" } ∷ []
or_empty_text (b ∷ blocks) = b ∷ blocks

unfoldable pub content_blocks_of : Drawn → Collected → List ToolCall → List ContentBlock
unfolding tool_use_blocks
content_blocks_of drawn s tool_calls =
    let thinking : List ContentBlock =
      if is_empty s.reasoning_content
      then []
      else record empty_block { type = codes "thinking"; thinking = s.reasoning_content } ∷ [] in
    let text : List ContentBlock =
      if is_empty s.full_content
      then []
      else record empty_block { type = codes "text"; text = s.full_content } ∷ [] in
    or_empty_text (thinking ++ (text ++ tool_use_blocks drawn 0 tool_calls))

abbrev usage_of : CompleteMessage → Bool → Usage
usage_of complete decoded =
    if decoded
    then record { input_tokens = complete.input_tokens; output_tokens = complete.output_tokens }
    else record { input_tokens = pos 0; output_tokens = pos 0 }

module _ (drawn : Drawn) (model : Text) where
  -- The switch on an event's type.
  unfoldable pub on_event : Kind → Collected → Turn Collected Reply
  unfolding completed content_blocks_of
  on_event (reasoning_token t) s =
      goes_on [] (record s { reasoning_content = s.reasoning_content ++ t })
  on_event (token t) s = goes_on [] (record s { full_content = s.full_content ++ t })
  on_event (done complete decoded) s = returns (
      message (record {
        id = drawn.message_id;
        type = codes "message";
        role = codes "assistant";
        content = content_blocks_of drawn (completed complete decoded s) complete.tool_calls;
        model = model;
        stop_reason = some (stop_reason complete.tool_calls);
        stop_sequence = none;
        usage = usage_of complete decoded;
      })
      ∷ [])
  on_event (failure text) s = returns (api_error 500 text ∷ [])
  on_event skipped s = goes_on [] s

  -- The error's text of a failed read is an argument.
  unfoldable pub blocking_response :
      (d : Decoder) (r : Redis) (c : EventCodec) (ts : TokenStream)
      → List (Moment r)
      → Text
      → Text
      → List Reply
  unfolding on_event
  blocking_response d r c ts moments error_text job_id =
      follow (λ event. on_event (kind_of d event)) r c ts job_id none
        (record {
          on_cancel = api_error 504 (codes "Client disconnected.") ∷ [];
          on_deadline = [];
          on_failure = api_error 500 (codes "Failed to read response: " ++ error_text) ∷ [];
        })
        moments (codes "0-0") nothing_yet
