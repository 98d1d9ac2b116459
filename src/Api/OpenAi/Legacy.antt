-- ===== src/Api/OpenAi/Legacy.antt =====
-- internal/router/apihandler.go: streamLegacyResponse and blockingLegacyResponse.
use auxot.Common.{ℕ, none, some, List, [], ◌∷◌, ◌++◌, Text, codes}
use auxot.Protocol.{Json}
use auxot.Queue.Redis.{Redis}
use auxot.Queue.Tokens.{TokenStream, EventCodec}
use auxot.Api.Events.{
  Decoder, Turn, goes_on, returns, Moment, Kind, reasoning_token, token, done, failure, skipped,
  kind_of, follow,
}
use auxot.Api.OpenAi.{CompletionResponse, new_completion_response}
use auxot.Api.OpenAi.Blocking.{Reply, response, server_error, Collected, completed, blocking_usage}

pub data LegacyLine : Type 0 where
  part : CompletionResponse → LegacyLine
  sse_done : LegacyLine

module _ (json : Json) (id : Text) (created : ℕ) (model : Text) where
  -- A part in the envelope of a whole response.
  abbrev legacy_part : Text → Text → LegacyLine
  legacy_part text finish_reason =
      part (new_completion_response json id created model text finish_reason none)

  unfoldable pub on_stream_event : Kind → Unit {0} → Turn (Unit {0}) LegacyLine
  unfolding new_completion_response
  on_stream_event (token t) s = goes_on (legacy_part t [] ∷ []) s
  on_stream_event (done complete decoded) s =
      returns (legacy_part [] (codes "stop") ∷ sse_done ∷ [])
  on_stream_event (failure message) s = returns (sse_done ∷ [])
  on_stream_event (reasoning_token t) s = goes_on [] s
  on_stream_event skipped s = goes_on [] s

  -- The response when the writer can flush; nothing is written when the loop is cut short.
  unfoldable pub stream_legacy_response :
      (d : Decoder) (r : Redis) (c : EventCodec) (ts : TokenStream) (deadline : ℕ)
      → List (Moment r)
      → Text
      → List LegacyLine
  unfolding on_stream_event
  stream_legacy_response d r c ts deadline moments job_id =
      follow (λ event. on_stream_event (kind_of d event)) r c ts job_id (some deadline)
        (record { on_cancel = []; on_deadline = []; on_failure = [] }) moments (codes "0-0") tt

  -- Reasoning is not collected.
  unfoldable pub on_event : Kind → Text → Turn Text (Reply CompletionResponse)
  unfolding completed
  on_event (token t) s = goes_on [] (s ++ t)
  on_event (done complete decoded) s =
      let collected : Collected = record { full_content = s; reasoning_content = [] } in
      returns (
        response (
          new_completion_response json id created model
            (completed complete decoded collected).full_content (codes "stop")
            (some (blocking_usage complete decoded)))
        ∷ [])
  on_event (failure message) s = returns (server_error 500 message ∷ [])
  on_event (reasoning_token t) s = goes_on [] s
  on_event skipped s = goes_on [] s

  unfoldable pub blocking_legacy_response :
      (d : Decoder) (r : Redis) (c : EventCodec) (ts : TokenStream) (deadline : ℕ)
      → List (Moment r)
      → Text
      → Text
      → List (Reply CompletionResponse)
  unfolding on_event
  blocking_legacy_response d r c ts deadline moments error_text job_id =
      follow (λ event. on_event (kind_of d event)) r c ts job_id (some deadline)
        (record {
          on_cancel = server_error 504 (codes "client disconnected") ∷ [];
          on_deadline = server_error 504 (codes "job timed out") ∷ [];
          on_failure = server_error 500 (codes "failed to read response: " ++ error_text) ∷ [];
        })
        moments (codes "0-0") []
