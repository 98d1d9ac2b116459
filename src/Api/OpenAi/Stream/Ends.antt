-- ===== src/Api/OpenAi/Stream/Ends.antt =====
-- internal/router/apihandler.go: how a streamed chat completion ends.
use auxot.Common.{
  ℕ, ◌≡◌, refl, ap, ◌∙◌, Bool, true, false, some, List, [], ◌∷◌, ◌++◌, Text, codes, is_nil,
}
use auxot.Protocol.{Json}
use auxot.Queue.Redis.{Redis}
use auxot.Queue.Tokens.{TokenStream, TokenStreamEntry, EventCodec}
use auxot.Api.Events.{Decoder, Moment, Kind, reasoning_token, token, done, failure, skipped}
use auxot.Api.Events.Rounds.{Reads, kinds, run, follow-run}
use auxot.Api.Anthropic.Stream.Conforms.{has_end}
use auxot.Api.OpenAi.{ChatCompletionChunk, new_streaming_tool_call_chunks, new_streaming_done_chunk}
use auxot.Api.OpenAi.Stream.{
  SseLine, chunk, error_line, sse_done, chunks, on_event, tool_calls_of, stream_chat_response,
  finish_reason, some_usage,
}

-- The sentinel stands at the end, and nowhere else.
abbrev pub is_closed : List SseLine → Bool
is_closed [] = false
is_closed (chunk c ∷ lines) = is_closed lines
is_closed (error_line e ∷ lines) = is_closed lines
is_closed (sse_done ∷ lines) = is_nil lines

is_closed-chunks :
    (cs : List ChatCompletionChunk) (lines : List SseLine)
    → is_closed (chunks cs ++ lines) ≡ is_closed lines
is_closed-chunks [] lines = refl
is_closed-chunks (c ∷ cs) lines = is_closed-chunks cs lines

module _ (json : Json) (id : Text) (created : ℕ) (model : Text) where
  run-is_closed :
      (ks : List Kind)
      → has_end ks ≡ true
      → is_closed (run (on_event json id created model) ks tt) ≡ true
  unfolding run on_event has_end
  run-is_closed [] end = cc
  run-is_closed (reasoning_token t ∷ ks) end = run-is_closed ks end
  run-is_closed (token t ∷ ks) end = run-is_closed ks end
  run-is_closed (done complete decoded ∷ ks) end =
      is_closed-chunks
        (new_streaming_tool_call_chunks json id created model 0
          (tool_calls_of 0 complete.tool_calls))
        (chunk (
            new_streaming_done_chunk json id created model (finish_reason complete.tool_calls)
              (some_usage complete))
          ∷ sse_done
          ∷ [])
  run-is_closed (failure message ∷ ks) end = refl
  run-is_closed (skipped ∷ ks) end = run-is_closed ks end

  -- While no round is cut short by the client, the deadline or Redis, a stream with an event that ends
  -- it is answered by lines of which the last, and no other, is the sentinel.
  pub stream_chat_response-is_closed :
      (d : Decoder) (r : Redis) (c : EventCodec) (ts : TokenStream) (deadline : ℕ)
      (moments : List (Moment r)) (entries : List TokenStreamEntry)
      → Reads r c ts id (some deadline) moments (codes "0-0") entries
      → has_end (kinds d entries) ≡ true
      → is_closed (stream_chat_response json id created model d r c ts deadline moments) ≡ true
  unfolding stream_chat_response
  stream_chat_response-is_closed d r c ts deadline moments entries reads end =
      ap is_closed (
        follow-run (on_event json id created model) d r c ts id (some deadline) _ moments _ entries
          tt reads)
      ∙ run-is_closed (kinds d entries) end
