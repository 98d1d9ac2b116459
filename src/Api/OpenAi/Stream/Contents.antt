-- ===== src/Api/OpenAi/Stream/Contents.antt =====
-- internal/router/apihandler.go: the texts in the chunks of streamChatResponse.
use auxot.Common.{
  ℕ, ◌≡◌, refl, sym, ap, ◌∙◌, Bool, not, none, some, List, [], ◌∷◌, ◌++◌, map, Text, is_empty, keep,
}
use auxot.Protocol.{Json, CompleteMessage}
use auxot.Api.Events.{Kind, reasoning_token, token, done, failure, skipped}
use auxot.Api.Events.Rounds.{run}
use auxot.Api.Anthropic.Stream.Assembled.{completion, reasoning_of, keep-cons}
use auxot.Api.OpenAi.{
  Message, Choice, ToolCall, empty_message, message_content_string, new_streaming_chunk,
  new_streaming_reasoning_chunk, new_streaming_tool_call_chunks, new_streaming_done_chunk,
}
use auxot.Api.OpenAi.Stream
use auxot.Api.OpenAi.Stream.{
  SseLine, chunk, error_line, sse_done, chunks, tool_calls_of, stream_chat_response, finish_reason,
  some_usage,
}

-- The tokens of text before the event that ends the stream.
unfoldable pub token_list : List Kind → List Text
token_list (reasoning_token t ∷ ks) = token_list ks
token_list (token t ∷ ks) = t ∷ token_list ks
token_list (skipped ∷ ks) = token_list ks
token_list ks = []

abbrev pub delta_of : List Choice → Message
delta_of [] = empty_message
delta_of (c ∷ choices) = elim c.delta [ none ↦ empty_message | some m ↦ m ]

-- The contents and the reasoning in a stream's chunks; a nil content is skipped.
unfoldable pub contents : List SseLine → List Text
contents [] = []
contents (chunk c ∷ lines) = (delta_of c.choices).content ∷ contents lines
contents (error_line e ∷ lines) = contents lines
contents (sse_done ∷ lines) = contents lines

abbrev pub given : List Text → List Text
given texts = keep (λ t. not (is_empty t)) texts

unfoldable pub contents_of : List SseLine → List Text
unfolding contents
contents_of lines = given (contents lines)

unfoldable pub reasoning_in : List SseLine → Text
reasoning_in [] = []
reasoning_in (chunk c ∷ lines) = (delta_of c.choices).reasoning_content ++ reasoning_in lines
reasoning_in (error_line e ∷ lines) = reasoning_in lines
reasoning_in (sse_done ∷ lines) = reasoning_in lines

module _ (json : Json) (id : Text) (created : ℕ) (model : Text) where
  abbrev pub encoded : List Text → List Text
  encoded texts = given (map (message_content_string json id created) texts)

  call_chunks_contents :
      (i : ℕ) (calls : List ToolCall) (lines : List SseLine)
      → contents_of (chunks (new_streaming_tool_call_chunks json id created model i calls) ++ lines)
        ≡ contents_of lines
  unfolding contents_of contents new_streaming_tool_call_chunks
  call_chunks_contents i [] lines = refl
  call_chunks_contents i (tc ∷ calls) lines = call_chunks_contents _ calls lines

  call_chunks_reasoning :
      (i : ℕ) (calls : List ToolCall) (lines : List SseLine)
      → reasoning_in
          (chunks (new_streaming_tool_call_chunks json id created model i calls) ++ lines)
        ≡ reasoning_in lines
  unfolding reasoning_in new_streaming_tool_call_chunks
  call_chunks_reasoning i [] lines = refl
  call_chunks_reasoning i (tc ∷ calls) lines = call_chunks_reasoning _ calls lines

  -- The last lines of a completion.
  abbrev ending : CompleteMessage → List SseLine
  ending complete =
      chunk (
        new_streaming_done_chunk json id created model (finish_reason complete.tool_calls)
          (some_usage complete))
      ∷ sse_done
      ∷ []

  pub run_contents :
      (ks : List Kind) (complete : CompleteMessage) (decoded : Bool)
      → completion ks ≡ some (complete, decoded)
      → contents_of (run (Stream.on_event json id created model) ks tt) ≡ encoded (token_list ks)
  unfolding run Stream.on_event contents_of contents token_list completion new_streaming_chunk
      new_streaming_reasoning_chunk new_streaming_done_chunk
  run_contents [] complete decoded ends = cc
  run_contents (reasoning_token t ∷ ks) complete decoded ends =
      run_contents ks complete decoded ends
  run_contents (token t ∷ ks) complete decoded ends =
      keep-cons (λ t. not (is_empty t)) (message_content_string json id created t)
        (contents (run (Stream.on_event json id created model) ks tt))
      ∙ ap (λ l. given (message_content_string json id created t ∷ []) ++ l)
          (run_contents ks complete decoded ends)
      ∙ sym (
          keep-cons (λ t. not (is_empty t)) (message_content_string json id created t)
            (map (message_content_string json id created) (token_list ks)))
  run_contents (done other decoded' ∷ ks) complete decoded ends =
      call_chunks_contents 0 (tool_calls_of 0 other.tool_calls) (ending other)
  run_contents (failure message ∷ ks) complete decoded ends = cc
  run_contents (skipped ∷ ks) complete decoded ends = run_contents ks complete decoded ends

  pub run_reasoning :
      (ks : List Kind) (complete : CompleteMessage) (decoded : Bool)
      → completion ks ≡ some (complete, decoded)
      → reasoning_in (run (Stream.on_event json id created model) ks tt) ≡ reasoning_of ks
  unfolding run Stream.on_event reasoning_in reasoning_of completion new_streaming_chunk
      new_streaming_reasoning_chunk new_streaming_done_chunk
  run_reasoning [] complete decoded ends = cc
  run_reasoning (reasoning_token t ∷ ks) complete decoded ends =
      ap (λ l. t ++ l) (run_reasoning ks complete decoded ends)
  run_reasoning (token t ∷ ks) complete decoded ends = run_reasoning ks complete decoded ends
  run_reasoning (done other decoded' ∷ ks) complete decoded ends =
      call_chunks_reasoning 0 (tool_calls_of 0 other.tool_calls) (ending other)
  run_reasoning (failure message ∷ ks) complete decoded ends = cc
  run_reasoning (skipped ∷ ks) complete decoded ends = run_reasoning ks complete decoded ends
