-- ===== src/Api/Anthropic/Stream/Late.antt =====
-- internal/router/anthropichandler.go: streamResponse when a model reasons again after it has begun
-- its answer.
use auxot.Common.{
  ◌≡◌, refl, ap, ◌∙◌, inl, inr, Bool, true, false, none, List, [], ◌∷◌, ◌++◌, Text, codes,
  Bool-cases,
}
use auxot.Queue.Redis.{Redis}
use auxot.Queue.Tokens.{TokenStream, TokenStreamEntry, EventCodec}
use auxot.Api.Events.{
  Decoder, Moment, goes_on, Kind, reasoning_token, token, done, failure, skipped,
}
use auxot.Api.Events.Rounds.{Reads, kinds, run, then_run, follow-run}
use auxot.Api.Anthropic.{SseEvent}
use auxot.Api.Anthropic.Stream.{
  Drawn, Streaming, not_streaming, on_event, on_reasoning_token, on_token, stream_response,
}
use auxot.Api.Anthropic.Stream.Conforms.{
  Phase, before_message, between, accept_all, accept_all-append, in_order, phase_of, IsSingle,
  Lands, on_token-Lands, on_reasoning_token-Lands,
}

passed :
    (out : List SseEvent) (s : Streaming) (p : Phase) (seen_text : Bool)
    (next : Streaming → List SseEvent)
    → Lands p seen_text (goes_on out s)
    → (IsSingle s → s.has_started_text_block ≡ seen_text → accept_all (phase_of s) (next s) ≡ none)
    → accept_all p (out ++ next s) ≡ none
passed out s p seen_text next (h, single, flag) later =
    accept_all-append p (phase_of s) out (next s) h ∙ later single flag

-- A block is opened inside another.
late_reasoning :
    (t : Text) (s : Streaming) (next : Streaming → List SseEvent)
    → IsSingle s
    → s.has_started_text_block ≡ true
    → accept_all (phase_of s) (then_run (on_reasoning_token t s) next) ≡ none
unfolding accept_all on_reasoning_token
late_reasoning t s next single text =
    let b : s.has_started_thinking_block ≡ false = rw text at single in rw (text, b) refl

run-rejected :
    (drawn : Drawn) (ks : List Kind) (s : Streaming)
    → IsSingle s
    → in_order s.has_started_text_block ks ≡ false
    → accept_all (phase_of s) (run (on_event drawn) ks s) ≡ none
unfolding run on_event in_order on_reasoning_token on_token
run-rejected drawn [] s single late = cc
run-rejected drawn (reasoning_token t ∷ ks) s single late =
    elim (Bool-cases s.has_started_text_block) [
      | inl text ↦ late_reasoning t s (run (on_event drawn) ks) single text
      | inr text_free ↦
          passed _ _ _ false (run (on_event drawn) ks) (on_reasoning_token-Lands t s text_free)
            (λ single' flag.
              run-rejected drawn ks _ single'
                (rw flag (let l : in_order false ks ≡ false = rw text_free at late in l)))
    ]
run-rejected drawn (token t ∷ ks) s single late =
    passed _ _ _ true (run (on_event drawn) ks) (on_token-Lands t s single)
      (λ single' flag. run-rejected drawn ks _ single' (rw flag late))
run-rejected drawn (done complete decoded ∷ ks) s single late = cc
run-rejected drawn (failure message ∷ ks) s single late = cc
run-rejected drawn (skipped ∷ ks) s single late = run-rejected drawn ks s single late

-- If reasoning comes after text, before the stream ends, the client rejects the streamed response: a
-- block is opened inside the text block.
pub stream_response-rejected :
    (drawn : Drawn) (d : Decoder) (r : Redis) (c : EventCodec) (ts : TokenStream)
    (moments : List (Moment r)) (job_id model : Text) (entries : List TokenStreamEntry)
    → Reads r c ts job_id none moments (codes "0-0") entries
    → in_order false (kinds d entries) ≡ false
    → accept_all before_message (stream_response drawn d r c ts moments job_id model) ≡ none
unfolding accept_all stream_response
stream_response-rejected drawn d r c ts moments job_id model entries reads late =
    ap (accept_all (between 0))
      (follow-run (on_event drawn) d r c ts job_id none _ moments _ entries not_streaming reads)
    ∙ run-rejected drawn (kinds d entries) not_streaming refl late
