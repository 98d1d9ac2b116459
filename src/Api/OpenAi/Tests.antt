-- ===== src/Api/OpenAi/Tests.antt =====
-- internal/router/apihandler.go on small inputs: runs, and the theorems at inputs that meet their
-- hypotheses.
use auxot.Common.{
  ◌≡◌, refl, inl, true, false, none, some, List, [], ◌∷◌, ◌++◌, codes, text_comparable, has_prefix,
}
use auxot.Common.Assoc.{lookup}
use auxot.Common.Int.{pos, wrap_int, ◌-ℤ◌, ◌+ℤ◌}
use auxot.Protocol.{CompleteMessage}
use auxot.Queue.Tokens.{TokenStreamEntry, read_tokens}
use auxot.Auth.{verify_api_key, verify_with_cache}
use auxot.Gpu.{Pool, snapshot, snapshot_of}
use auxot.Api.Events.{Decoder, Moment, kind_of}
use auxot.Api.Events.Rounds.{Reads, round, no_more, kinds}
use auxot.Api.Http.{Request, extract_bearer_token}
use auxot.Api.Tests.{
  redis, codec, decoder, token_stream, moment_with, entries_of, first, second, completion_message,
}
use auxot.Api.Anthropic.Tests.{json, libraries, env, served}
use auxot.Api.Anthropic.Stream.Conforms.{has_end}
use auxot.Api.Anthropic.Stream.Assembled.{completion}
use auxot.Api.OpenAi.{ChatCompletionResponse, empty_message, message_content_string}
use auxot.Api.OpenAi.Stream.{stream_chat_response, tool_calls_of}
use auxot.Api.OpenAi.Stream.Ends.{is_closed, stream_chat_response-is_closed}
use auxot.Api.OpenAi.Stream.Contents.{contents_of, reasoning_in, encoded, token_list}
use auxot.Api.OpenAi.Blocking.{response, blocking_chat_response}
use auxot.Api.OpenAi.Blocking.Agrees.{
  message_of, concat, stream_chat_response-blocking_chat_response, blocking_chat_response_drops,
}
use auxot.Api.OpenAi.Routes.{BodyDecoder, ApiHandler, handle_health, sum_slots, sum_jobs}
use auxot.Api.OpenAi.Routes.Serve.{serve_http}
use auxot.Api.OpenAi.Routes.Keys.{IsHarmless, serve_http-IsHarmless}

abbrev rounds : List (Moment redis)
rounds = moment_with first ∷ moment_with second ∷ []

abbrev entries : List TokenStreamEntry
entries = entries_of first ++ (entries_of second ++ [])

in_time : Reads redis codec token_stream (codes "j1") (some 9) rounds (codes "0-0") entries
unfolding read_tokens lookup
in_time =
    round _ _ _ (entries_of first) _ refl refl refl
      (round _ _ _ (entries_of second) _ refl refl refl (no_more _))

stream_chat_response-is_closed_example :
    is_closed (
      stream_chat_response json
        (codes "j1")
        0
        (codes "m")
        decoder
        redis
        codec
        token_stream
        9
        rounds)
    ≡ true
unfolding has_end kind_of
stream_chat_response-is_closed_example =
    stream_chat_response-is_closed json (codes "j1") 0 (codes "m") decoder redis codec token_stream
      9 rounds entries in_time refl

abbrev plain : CompleteMessage
plain = record completion_message { tool_calls = [] }

abbrev plain_decoder : Decoder
plain_decoder = record decoder { complete = λ t. (plain, true) }

stream_chat_response-blocking_chat_response_example :
    (resp : ChatCompletionResponse) × (blocking_chat_response json
        (codes "c1")
        0
        (codes "m")
        plain_decoder
        redis
        codec
        token_stream
        9
        rounds
        []
        (codes "j1")
      ≡ response resp ∷ [])
    × (message_of resp
        ≡ some (record empty_message {
          role = codes "assistant";
          content =
              message_content_string json
                (codes "j1")
                0
                (concat (token_list (kinds plain_decoder entries)));
          reasoning_content = reasoning_in (
              stream_chat_response json
                (codes "j1")
                0
                (codes "m")
                plain_decoder
                redis
                codec
                token_stream
                9
                rounds);
        }))
    × (contents_of (
          stream_chat_response json
            (codes "j1")
            0
            (codes "m")
            plain_decoder
            redis
            codec
            token_stream
            9
            rounds)
        ≡ encoded json (codes "j1") 0 (codes "m") ([] ∷ token_list (kinds plain_decoder entries)))
unfolding kind_of completion
stream_chat_response-blocking_chat_response_example =
    stream_chat_response-blocking_chat_response json (codes "j1") (codes "c1") 0 (codes "m") plain
      true plain_decoder redis codec token_stream 9 9 rounds rounds [] entries in_time in_time refl
      refl refl refl

blocking_chat_response_drops_example :
    (resp : ChatCompletionResponse) × (blocking_chat_response json
        (codes "c1")
        0
        (codes "m")
        decoder
        redis
        codec
        token_stream
        9
        rounds
        []
        (codes "j1")
      ≡ response resp ∷ [])
    × (message_of resp
        ≡ some (record empty_message {
          role = codes "assistant";
          tool_calls = tool_calls_of 0 completion_message.tool_calls;
        }))
    × (contents_of (
          stream_chat_response json
            (codes "j1")
            0
            (codes "m")
            decoder
            redis
            codec
            token_stream
            9
            rounds)
        ≡ encoded json (codes "j1") 0 (codes "m") ([] ∷ token_list (kinds decoder entries)))
unfolding kind_of completion tool_calls_of
blocking_chat_response_drops_example =
    blocking_chat_response_drops json (codes "j1") (codes "c1") 0 (codes "m") completion_message
      true decoder redis codec token_stream 9 9 rounds rounds [] entries in_time in_time refl refl

abbrev no_bodies : BodyDecoder
no_bodies = record {
  chat = λ t. inl t;
  completion = λ t. inl t;
  string = λ t. none;
  strings = λ t. none;
}

abbrev handler : ApiHandler
handler = record {
  job_queue = record { stream_key = codes "auxot:jobs"; group_name = codes "workers" };
  token_stream = token_stream;
  model_name = codes "m";
  job_timeout = 4;
}

abbrev pool : Pool
pool = record {
  workers =
      (
        codes "w1",
        record {
          id = codes "w1";
          capabilities = record {
            backend = codes "cuda";
            model = codes "m";
            ctx_size = pos 1;
            vram_gb = 0;
            parameters = [];
            total_slots = pos 2;
          };
          active_jobs = (codes "j1", 3) ∷ [];
          max_slots = pos 2;
          connected_at = 0;
          last_heartbeat = 0;
        },
      )
      ∷ [];
}

one_free : (handle_health pool).available ≡ pos 1
unfolding handle_health snapshot snapshot_of sum_slots sum_jobs wrap_int ◌-ℤ◌ ◌+ℤ◌
one_free = refl

abbrev request : Request
request = record {
  method = codes "POST";
  path = codes "/api/openai/chat/completions";
  x_api_key = [];
  authorization = codes "Bearer rtr_1 ";
  body = [];
}

token : extract_bearer_token request.authorization ≡ codes "rtr_1"
unfolding extract_bearer_token has_prefix
token = refl

serve_http-IsHarmless_example :
    IsHarmless libraries no_bodies handler pool env request
      (served false)
      (serve_http libraries no_bodies handler pool env request (served false))
unfolding extract_bearer_token has_prefix verify_api_key verify_with_cache lookup
serve_http-IsHarmless_example =
    serve_http-IsHarmless libraries no_bodies handler pool env request (served false) refl
