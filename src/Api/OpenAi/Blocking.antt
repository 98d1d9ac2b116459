-- ===== src/Api/OpenAi/Blocking.antt =====
-- internal/router/apihandler.go: blockingChatResponse, from a job's events to one response.
pub mod Agrees
use auxot.Common.{
  ℕ, Bool, true, false, Option, none, some, List, [], ◌∷◌, ◌++◌, Text, codes, is_empty, is_nil,
  if◌then◌else◌,
}
use auxot.Common.Int.{ℤ, pos, ◌+ℤ◌, wrap_int}
use auxot.Protocol.{Json, CompleteMessage}
use auxot.Queue.Redis.{Redis}
use auxot.Queue.Tokens.{TokenStream, EventCodec}
use auxot.Api.Events.{
  Decoder, Turn, goes_on, returns, Moment, Kind, reasoning_token, token, done, failure, skipped,
  kind_of, follow,
}
use auxot.Api.OpenAi.{
  ToolCall, Usage, ChatCompletionResponse, CompletionResponse, ErrorDetail, new_error_response,
  new_non_streaming_response, new_non_streaming_response_with_reasoning, new_tool_call_response,
}
use auxot.Api.OpenAi.Stream.{tool_calls_of}

-- What a blocking handler writes: a response, or an error with its status.
pub data Reply {ℓ} (A : Type ℓ) : Type ℓ where
  response : A → Reply A
  refused : (status : ℕ) → ErrorDetail → Reply A

-- The two builders.
pub record Collected : Type 0 where
  pub full_content : Text
  pub reasoning_content : Text

abbrev pub nothing_yet : Collected
nothing_yet = record { full_content = []; reasoning_content = [] }

abbrev pub server_error {ℓ} : {A : Type ℓ} → ℕ → Text → Reply A
server_error status message = refused status (new_error_response message (codes "server_error") [])

abbrev pub or_else : Text → Text → Text
or_else given collected = if is_empty given then collected else given

-- A completion's text and reasoning take the place of what has been collected.
unfoldable pub completed : CompleteMessage → Bool → Collected → Collected
completed complete decoded s =
    if decoded
    then record {
      full_content = or_else complete.full_response s.full_content;
      reasoning_content = or_else complete.reasoning_content s.reasoning_content;
    }
    else s

-- What the decoder filled in counts for the cache even after an error.
abbrev pub blocking_usage : CompleteMessage → Bool → Usage
blocking_usage complete decoded =
    let input : ℤ = if decoded then complete.input_tokens else pos 0 in
    let output : ℤ = if decoded then complete.output_tokens else pos 0 in
    record {
      cache_tokens = complete.cache_tokens;
      prompt_tokens = input;
      completion_tokens = output;
      total_tokens = wrap_int (input +ℤ output);
    }

module _ (json : Json) (id : Text) (created : ℕ) (model : Text) where
  unfoldable pub chat_response : List ToolCall → Collected → Usage → ChatCompletionResponse
  chat_response [] s usage =
      if is_empty s.reasoning_content
      then new_non_streaming_response json id created model s.full_content (codes "stop") usage
      else new_non_streaming_response_with_reasoning json id created model s.full_content
          s.reasoning_content (codes "stop") usage
  chat_response (tc ∷ tool_calls) s usage =
      new_tool_call_response json id created model (tc ∷ tool_calls) usage

  -- The switch on an event's type.
  unfoldable pub on_event : Kind → Collected → Turn Collected (Reply ChatCompletionResponse)
  unfolding completed chat_response
  on_event (token t) s = goes_on [] (record s { full_content = s.full_content ++ t })
  on_event (reasoning_token t) s =
      goes_on [] (record s { reasoning_content = s.reasoning_content ++ t })
  on_event (done complete decoded) s =
      let tool_calls : List ToolCall =
        if decoded then tool_calls_of 0 complete.tool_calls else [] in
      returns (
        response (
          chat_response tool_calls (completed complete decoded s) (blocking_usage complete decoded))
        ∷ [])
  on_event (failure message) s = returns (server_error 500 message ∷ [])
  on_event skipped s = goes_on [] s

  -- The text of a failed read is an argument.
  unfoldable pub blocking_chat_response :
      (d : Decoder) (r : Redis) (c : EventCodec) (ts : TokenStream) (deadline : ℕ)
      → List (Moment r)
      → Text
      → Text
      → List (Reply ChatCompletionResponse)
  unfolding on_event
  blocking_chat_response d r c ts deadline moments error_text job_id =
      follow (λ event. on_event (kind_of d event)) r c ts job_id (some deadline)
        (record {
          on_cancel = server_error 504 (codes "client disconnected") ∷ [];
          on_deadline = server_error 504 (codes "job timed out") ∷ [];
          on_failure = server_error 500 (codes "failed to read response: " ++ error_text) ∷ [];
        })
        moments (codes "0-0") nothing_yet
