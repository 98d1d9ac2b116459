-- ===== src/Api/Tests.antt =====
-- internal/router's API handlers on a Redis in memory: runs, and the theorems at inputs that meet their
-- hypotheses.
use auxot.Common.{
  ◌≡◌, refl, true, false, none, some, List, [], ◌∷◌, ◌++◌, map, Text, codes, text_comparable,
}
use auxot.Common.Assoc.{lookup}
use auxot.Common.Int.{pos}
use auxot.Protocol.{CompleteMessage}
use auxot.Queue.Redis.{Redis, ok}
use auxot.Queue.Memory.{Store, memory}
use auxot.Queue.Tokens.{TokenStream, TokenStreamEntry, EventCodec, read_tokens}
use auxot.Api.Events.{Decoder, Moment, Kind, Turn, goes_on, kind_of, follow}
use auxot.Api.Events.Rounds.{Reads, no_more, round, kinds, run, follow-run}
use auxot.Api.Anthropic.{MessagesResponse}
use auxot.Api.Anthropic.Stream.{Drawn, stream_response}
use auxot.Api.Anthropic.Stream.Conforms.{
  accept_all, before_message, finished, in_order, has_end, stream_response-accepted,
}
use auxot.Api.Anthropic.Stream.Assembled.{completion, assemble, filled}
use auxot.Api.Anthropic.Blocking.{message, blocking_response}
use auxot.Api.Anthropic.Blocking.Agrees.{stream_response-blocking_response}
use auxot.Api.Anthropic.Stream.Late.{stream_response-rejected}

-- XREAD gives all the messages that are there.
abbrev pub redis : Redis
redis = record (memory (codes "auxot:jobs")) {
  xread = λ k id count block s. (ok (record { stream = k; messages = s.queue } ∷ []), s);
}

-- An event is encoded by its type, which is its data too.
abbrev pub codec : EventCodec
codec = record {
  marshal = λ event. some event.type;
  unmarshal = λ text. some (record { type = text; body = text });
}

abbrev pub completion_message : CompleteMessage
completion_message = record {
  type = codes "complete";
  job_id = codes "j1";
  full_response = [];
  post_tool_content = [];
  reasoning_content = [];
  duration_ms = pos 1;
  cache_tokens = pos 0;
  input_tokens = pos 3;
  output_tokens = pos 4;
  reasoning_tokens = pos 0;
  tool_calls =
      record {
        id = codes "c1";
        type = codes "function";
        function = record { name = codes "f"; arguments = codes "{}" };
      }
      ∷ [];
  builtin_tool_uses = [];
  attachments = [];
  total_cost_usd = 0;
  provider_session_id = [];
  rate_limit_status = [];
  rate_limit_resets_at = pos 0;
  rate_limit_type = [];
}

abbrev pub decoder : Decoder
decoder = record {
  string = λ t. some t;
  complete = λ t. (completion_message, true);
  strings = λ t. [];
}

abbrev pub token_stream : TokenStream
token_stream = record { prefix = codes "auxot:" }

abbrev drawn : Drawn
drawn = record { message_id = codes "msg_1"; completion_id = λ n. codes "chatcmpl-1" }

abbrev pub holding : List Text → Store
holding types = record {
  next = 0;
  pel = [];
  queue = map (λ t. record { id = t; values = (codes "event", t) ∷ [] }) types;
  log = [];
  beats = [];
}

abbrev pub moment_with : List Text → Moment redis
moment_with types = record { cancelled = false; now = 5; db = holding types }

abbrev pub entries_of : List Text → List TokenStreamEntry
entries_of types = map (λ t. record { id = t; event = record { type = t; body = t } }) types

abbrev pub first : List Text
first = codes "reasoning_token" ∷ codes "token" ∷ []

abbrev pub second : List Text
second = codes "token" ∷ codes "done" ∷ []

-- Two rounds.
reads :
    Reads redis codec token_stream
      (codes "j1")
      none
      (moment_with first ∷ moment_with second ∷ [])
      (codes "0-0")
      (entries_of first ++ (entries_of second ++ []))
unfolding read_tokens lookup
reads =
    round _ _ _ (entries_of first) _ refl refl refl
      (round _ _ _ (entries_of second) _ refl refl refl (no_more _))

stream_response-accepted_example :
    accept_all before_message (
      stream_response drawn decoder redis codec token_stream
        (moment_with first ∷ moment_with second ∷ [])
        (codes "j1")
        (codes "m"))
    ≡ some finished
unfolding in_order has_end kind_of
stream_response-accepted_example =
    stream_response-accepted drawn decoder redis codec token_stream
      (moment_with first ∷ moment_with second ∷ []) (codes "j1") (codes "m")
      (entries_of first ++ (entries_of second ++ [])) reads refl refl

abbrev each : Kind → Unit {0} → Turn (Unit {0}) Kind
each k s = goes_on (k ∷ []) s

-- The same events with reasoning at the end.
abbrev late : List Text
late = codes "token" ∷ codes "reasoning_token" ∷ codes "done" ∷ []

late-Reads :
    Reads redis codec token_stream
      (codes "j1")
      none
      (moment_with late ∷ [])
      (codes "0-0")
      (entries_of late ++ [])
unfolding read_tokens lookup
late-Reads = round _ _ _ (entries_of late) _ refl refl refl (no_more _)

stream_response-rejected_example :
    accept_all before_message (
      stream_response drawn decoder redis codec token_stream
        (moment_with late ∷ [])
        (codes "j1")
        (codes "m"))
    ≡ none
unfolding in_order kind_of
stream_response-rejected_example =
    stream_response-rejected drawn decoder redis codec token_stream (moment_with late ∷ [])
      (codes "j1") (codes "m") (entries_of late ++ []) late-Reads refl

stream_response-blocking_response_example :
    let moments : List (Moment redis) = moment_with first ∷ moment_with second ∷ [] in
    (m : MessagesResponse) × (blocking_response drawn
        (codes "m")
        decoder
        redis
        codec
        token_stream
        moments
        []
        (codes "j1")
      ≡ message m ∷ [])
    × (filled (
          assemble none (
            stream_response drawn decoder redis codec token_stream moments
              (codes "j1")
              (codes "m")))
        ≡ filled m.content)
    × (m.stop_reason ≡ some (codes "tool_use"))
unfolding in_order kind_of completion
stream_response-blocking_response_example =
    stream_response-blocking_response drawn (codes "m") completion_message true decoder redis codec
      token_stream (moment_with first ∷ moment_with second ∷ [])
      (moment_with first ∷ moment_with second ∷ []) (codes "j1") []
      (entries_of first ++ (entries_of second ++ [])) reads reads refl refl refl refl

-- Any handler: here the events themselves.
follow-run_example :
    follow
      (λ event. each (kind_of decoder event))
      redis
      codec
      token_stream
      (codes "j1")
      none
      (record { on_cancel = []; on_deadline = []; on_failure = [] })
      (moment_with first ∷ moment_with second ∷ [])
      (codes "0-0")
      tt
    ≡ run each (kinds decoder (entries_of first ++ (entries_of second ++ []))) tt
follow-run_example =
    follow-run each decoder redis codec token_stream (codes "j1") none
      (record { on_cancel = []; on_deadline = []; on_failure = [] })
      (moment_with first ∷ moment_with second ∷ []) (codes "0-0")
      (entries_of first ++ (entries_of second ++ [])) tt reads
