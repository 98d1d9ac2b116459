-- ===== src/Api/OpenAi/Blocking/Agrees.antt =====
-- internal/router/apihandler.go: streamChatResponse and blockingChatResponse on the same events.
use auxot.Common.{
  ℕ, ◌≡◌, refl, sym, ap, ◌∙◌, inl, inr, Bool, false, Option, none, some, List, [], ◌∷◌, ◌++◌,
  append_assoc, append-nil, Text, codes, is_empty, Bool-cases, List-cases, if◌then◌else◌, is_nil,
  not, map,
}
use auxot.Protocol.{Json, CompleteMessage}
use auxot.Queue.Redis.{Redis}
use auxot.Queue.Tokens.{TokenStream, TokenStreamEntry, EventCodec}
use auxot.Api.Events.{Decoder, Moment, Kind, reasoning_token, token, done, failure, skipped}
use auxot.Api.Events.Rounds.{Reads, kinds, run, follow-run}
use auxot.Api.Anthropic.Stream.Assembled.{completion, tokens_of, reasoning_of, keep-cons}
use auxot.Api.OpenAi.{
  Message, Choice, ToolCall, ChatCompletionResponse, Usage, empty_message, message_content_string,
  new_streaming_role_chunk, new_non_streaming_response, new_non_streaming_response_with_reasoning,
  new_tool_call_response,
}
use auxot.Api.OpenAi.Stream
use auxot.Api.OpenAi.Stream.{chunk, tool_calls_of, stream_chat_response}
use auxot.Api.OpenAi.Stream.Contents.{
  token_list, contents, contents_of, reasoning_in, encoded, given, run_contents, run_reasoning,
}
use auxot.Api.OpenAi.Blocking.{
  response, Collected, nothing_yet, on_event, completed, chat_response, blocking_usage,
  blocking_chat_response,
}

-- The message of a response.
abbrev message_in : List Choice → Option Message
message_in [] = none
message_in (c ∷ choices) = c.message

abbrev pub message_of : ChatCompletionResponse → Option Message
message_of resp = message_in resp.choices

unfoldable pub concat : List Text → Text
concat [] = []
concat (t ∷ texts) = t ++ concat texts

tokens_of-token_list : (ks : List Kind) → tokens_of ks ≡ concat (token_list ks)
unfolding tokens_of token_list concat
tokens_of-token_list [] = refl
tokens_of-token_list (reasoning_token t ∷ ks) = tokens_of-token_list ks
tokens_of-token_list (token t ∷ ks) = ap (λ l. t ++ l) (tokens_of-token_list ks)
tokens_of-token_list (done complete decoded ∷ ks) = refl
tokens_of-token_list (failure message ∷ ks) = refl
tokens_of-token_list (skipped ∷ ks) = tokens_of-token_list ks

message_of-chat_response :
    (json : Json) (id : Text) (created : ℕ) (model : Text) (calls : List ToolCall) (s : Collected)
    (usage : Usage)
    → message_of (chat_response json id created model calls s usage)
      ≡ some (
          if is_nil calls
          then record empty_message {
            role = codes "assistant";
            content = message_content_string json id created s.full_content;
            reasoning_content = s.reasoning_content;
          }
          else record empty_message { role = codes "assistant"; tool_calls = calls })
unfolding chat_response new_non_streaming_response new_tool_call_response
    new_non_streaming_response_with_reasoning
message_of-chat_response json id created model [] s usage = elim (List-cases s.reasoning_content) [
  | inl e ↦ rw e refl
  | inr (x, xs, e) ↦ rw e refl
]
message_of-chat_response json id created model (tc ∷ calls) s usage = refl

abbrev after : List Kind → Collected → Collected
after ks s = record {
  full_content = s.full_content ++ tokens_of ks;
  reasoning_content = s.reasoning_content ++ reasoning_of ks;
}

module _ (json : Json) (id own_id : Text) (created : ℕ) (model : Text) (complete : CompleteMessage)
    (decoded : Bool) where
  abbrev calls : List ToolCall
  calls = if decoded then tool_calls_of 0 complete.tool_calls else []

  abbrev answer : Collected → ChatCompletionResponse
  answer s =
      chat_response json own_id created model calls (completed complete decoded s)
        (blocking_usage complete decoded)

  run-answer :
      (ks : List Kind) (s : Collected)
      → completion ks ≡ some (complete, decoded)
      → run (on_event json own_id created model) ks s ≡ response (answer (after ks s)) ∷ []
  unfolding run on_event completion tokens_of reasoning_of
  run-answer [] s ends = cc
  run-answer (reasoning_token t ∷ ks) s ends =
      run-answer ks _ ends
      ∙ ap
          (λ l.
            response (
              answer
                (record { full_content = s.full_content ++ tokens_of ks; reasoning_content = l }))
            ∷ [])
          (append_assoc s.reasoning_content t (reasoning_of ks))
  run-answer (token t ∷ ks) s ends =
      run-answer ks _ ends
      ∙ ap
          (λ l.
            response (
              answer (record {
                full_content = l;
                reasoning_content = s.reasoning_content ++ reasoning_of ks;
              }))
            ∷ [])
          (append_assoc s.full_content t (tokens_of ks))
  run-answer (done other decoded' ∷ ks) s ends =
      let same : other ≡ complete = cc in
      let same' : decoded' ≡ decoded = cc in
      rw (same, same', append-nil s.full_content, append-nil s.reasoning_content) refl
  run-answer (failure message ∷ ks) s ends = cc
  run-answer (skipped ∷ ks) s ends = run-answer ks s ends

  calls_none : complete.tool_calls ≡ [] → calls ≡ []
  unfolding tool_calls_of
  calls_none none_called = elim (Bool-cases decoded) [
    | inl e ↦ rw (e, none_called) refl
    | inr e ↦ rw e refl
  ]

  completed_same :
      (s : Collected)
      → complete.full_response ≡ []
      → complete.reasoning_content ≡ []
      → completed complete decoded s ≡ s
  unfolding completed
  completed_same s no_text no_reasoning = elim (Bool-cases decoded) [
    | inl e ↦ rw (e, no_text, no_reasoning) refl
    | inr e ↦ rw e refl
  ]

  blocking_answer :
      (d : Decoder) (r : Redis) (c : EventCodec) (ts : TokenStream) (deadline : ℕ)
      (moments : List (Moment r)) (error_text : Text) (entries : List TokenStreamEntry)
      → Reads r c ts id (some deadline) moments (codes "0-0") entries
      → completion (kinds d entries) ≡ some (complete, decoded)
      → blocking_chat_response json own_id created model d r c ts deadline moments error_text id
        ≡ response (answer (after (kinds d entries) nothing_yet)) ∷ []
  unfolding blocking_chat_response
  blocking_answer d r c ts deadline moments error_text entries reads ends =
      follow-run (on_event json own_id created model) d r c ts id (some deadline) _ moments
        (codes "0-0") entries nothing_yet reads
      ∙ run-answer (kinds d entries) nothing_yet ends

  streamed_run :
      (d : Decoder) (r : Redis) (c : EventCodec) (ts : TokenStream) (deadline : ℕ)
      (moments : List (Moment r)) (entries : List TokenStreamEntry)
      → Reads r c ts id (some deadline) moments (codes "0-0") entries
      → stream_chat_response json id created model d r c ts deadline moments
        ≡ chunk (new_streaming_role_chunk json id created model)
          ∷ run (Stream.on_event json id created model) (kinds d entries) tt
  unfolding stream_chat_response
  streamed_run d r c ts deadline moments entries reads =
      ap (λ l. chunk (new_streaming_role_chunk json id created model) ∷ l)
        (follow-run (Stream.on_event json id created model) d r c ts id (some deadline) _ moments
          (codes "0-0") entries tt reads)

  streamed_contents :
      (d : Decoder) (r : Redis) (c : EventCodec) (ts : TokenStream) (deadline : ℕ)
      (moments : List (Moment r)) (entries : List TokenStreamEntry)
      → Reads r c ts id (some deadline) moments (codes "0-0") entries
      → completion (kinds d entries) ≡ some (complete, decoded)
      → contents_of (stream_chat_response json id created model d r c ts deadline moments)
        ≡ encoded json id created model ([] ∷ token_list (kinds d entries))
  unfolding contents_of contents new_streaming_role_chunk
  streamed_contents d r c ts deadline moments entries reads ends =
      let encode = message_content_string json id created in
      let nonempty : Text → Bool = λ t. not (is_empty t) in
      let ran = run (Stream.on_event json id created model) (kinds d entries) tt in
      ap contents_of (streamed_run d r c ts deadline moments entries reads)
      ∙ keep-cons nonempty (encode []) (contents ran)
      ∙ ap (λ l. given (encode [] ∷ []) ++ l)
          (run_contents json id created model (kinds d entries) complete decoded ends)
      ∙ sym (keep-cons nonempty (encode []) (map encode (token_list (kinds d entries))))

  -- The same completion, without tool calls and without a text or a reasoning of its own, gives the
  -- same through both handlers when they read the same events: the contents of the streamed chunks are
  -- the encoded tokens, the blocking message's content is their encoded concatenation, and its
  -- reasoning is the concatenation of the streamed reasoning.
  pub stream_chat_response-blocking_chat_response :
      (d : Decoder) (r : Redis) (c : EventCodec) (ts : TokenStream) (deadline deadline' : ℕ)
      (moments moments' : List (Moment r)) (error_text : Text) (entries : List TokenStreamEntry)
      → Reads r c ts id (some deadline) moments (codes "0-0") entries
      → Reads r c ts id (some deadline') moments' (codes "0-0") entries
      → completion (kinds d entries) ≡ some (complete, decoded)
      → complete.tool_calls ≡ []
      → complete.full_response ≡ []
      → complete.reasoning_content ≡ []
      → (resp : ChatCompletionResponse) × (blocking_chat_response json own_id created model d r c ts
            deadline' moments' error_text id
          ≡ response resp ∷ [])
        × (message_of resp
            ≡ some (record empty_message {
              role = codes "assistant";
              content =
                  message_content_string json id created (concat (token_list (kinds d entries)));
              reasoning_content =
                  reasoning_in
                    (stream_chat_response json id created model d r c ts deadline moments);
            }))
        × (contents_of (stream_chat_response json id created model d r c ts deadline moments)
            ≡ encoded json id created model ([] ∷ token_list (kinds d entries)))
  unfolding reasoning_in new_streaming_role_chunk
  stream_chat_response-blocking_chat_response d r c ts deadline deadline' moments moments'
        error_text entries reads reads' ends no_calls no_text no_reasoning =
      let ks : List Kind = kinds d entries in
      let s0 : Collected = after ks nothing_yet in
      let encode = message_content_string json id created in
      let reasoning : reasoning_in
            (stream_chat_response json id created model d r c ts deadline moments)
          ≡ reasoning_of ks =
        ap reasoning_in (streamed_run d r c ts deadline moments entries reads)
        ∙ run_reasoning json id created model ks complete decoded ends in
      (
        answer s0,
        blocking_answer d r c ts deadline' moments' error_text entries reads' ends,
        message_of-chat_response json own_id created model calls (completed complete decoded s0)
              (blocking_usage complete decoded)
            ∙ ap
                (λ l. some (
                  if is_nil l
                  then record empty_message {
                    role = codes "assistant";
                    content = encode (completed complete decoded s0).full_content;
                    reasoning_content = (completed complete decoded s0).reasoning_content;
                  }
                  else record empty_message { role = codes "assistant"; tool_calls = l }))
                (calls_none no_calls)
            ∙ ap
                (λ s. some (record empty_message {
                  role = codes "assistant";
                  content = encode s.full_content;
                  reasoning_content = s.reasoning_content;
                }))
                (completed_same s0 no_text no_reasoning)
            ∙ rw (tokens_of-token_list ks, reasoning) refl,
        streamed_contents d r c ts deadline moments entries reads ends,
      )

  -- With tool calls, the blocking message has no content, whatever text came before; the chunks of the
  -- streamed response have it.
  pub blocking_chat_response_drops :
      (d : Decoder) (r : Redis) (c : EventCodec) (ts : TokenStream) (deadline deadline' : ℕ)
      (moments moments' : List (Moment r)) (error_text : Text) (entries : List TokenStreamEntry)
      → Reads r c ts id (some deadline) moments (codes "0-0") entries
      → Reads r c ts id (some deadline') moments' (codes "0-0") entries
      → completion (kinds d entries) ≡ some (complete, decoded)
      → is_nil calls ≡ false
      → (resp : ChatCompletionResponse) × (blocking_chat_response json own_id created model d r c ts
            deadline' moments' error_text id
          ≡ response resp ∷ [])
        × (message_of resp
            ≡ some (record empty_message { role = codes "assistant"; tool_calls = calls }))
        × (contents_of (stream_chat_response json id created model d r c ts deadline moments)
            ≡ encoded json id created model ([] ∷ token_list (kinds d entries)))
  blocking_chat_response_drops d r c ts deadline deadline' moments moments' error_text entries reads
        reads' ends some_calls =
      (
        answer (after (kinds d entries) nothing_yet),
        blocking_answer d r c ts deadline' moments' error_text entries reads' ends,
        message_of-chat_response json own_id created model calls
              (completed complete decoded (after (kinds d entries) nothing_yet))
              (blocking_usage complete decoded)
            ∙ rw some_calls refl,
        streamed_contents d r c ts deadline moments entries reads ends,
      )
