-- ===== src/Api/Anthropic/Tests.antt =====
-- internal/router/anthropichandler.go on small requests: runs, and the theorems at inputs that meet
-- their hypotheses.
use auxot.Common.{
  has_prefix, ◌≡◌, refl, inl, inr, Bool, true, false, none, some, [], ◌∷◌, ◌++◌, codes,
  text_comparable, text_beq, has_prefix, if◌then◌else◌,
}
use auxot.Common.Int.{pos}
use auxot.Protocol.{Json}
use auxot.Common.Assoc.{lookup}
use auxot.Auth.{Primitives, verify_api_key, verify_with_cache}
use auxot.Api.Http.{Request, Libraries, Surroundings, Served}
use auxot.Api.Tests.{redis, codec, decoder, token_stream, holding}
use auxot.Api.Anthropic.{
  ContentDecoder, InputContentBlock, Message, MessagesRequest, content_blocks,
}
use auxot.Api.Anthropic.Convert.{convert_message, convert_messages}
use auxot.Api.Anthropic.Convert.Calls.{
  calls_in, uses_in, results, convert_messages_calls, convert_message_results,
}
use auxot.Api.Anthropic.Routes.{BodyDecoder, AnthropicHandler, handle_messages}
use auxot.Api.Anthropic.Routes.Serve.{serve_http}
use auxot.Api.Anthropic.Routes.Keys.{
  IsRefused, queued, has_valid_key, serve_http_refuses, handle_messages_db,
}

abbrev pub json : Json
json = record {
  unmarshal_job = λ t. none;
  marshal_job = λ job. some job.job_id;
  marshal_complete = λ msg. msg.full_response;
  marshal_string = λ s. codes "\"" ++ (s ++ codes "\"");
  unmarshal_string = λ s. none;
  marshal_strings = λ fields. codes "{}";
  marshal_parts = λ text parts. none;
}

abbrev block : InputContentBlock
block = record {
  type = codes "text";
  text = codes "hi";
  id = codes "c1";
  name = codes "f";
  input = codes "{}";
  tool_use_id = codes "c1";
  content = codes "4";
}

-- A content that begins with a bracket is an array: of a use, or of a result and a text.
abbrev content : ContentDecoder
content = record {
  string = λ raw. if has_prefix raw (codes "[") then none else some raw;
  blocks = λ raw.
      if text_beq raw (codes "[use]")
      then some (record block { type = codes "tool_use" } ∷ [])
      else if text_beq raw (codes "[result]")
      then some (record block { type = codes "tool_result" } ∷ block ∷ [])
      else none;
}

abbrev question : Message
question = record { role = codes "assistant"; content = codes "[use]" }

abbrev answered : Message
answered = record { role = codes "user"; content = codes "[result]" }

convert_messages_calls_example :
    calls_in (convert_messages json content (question ∷ answered ∷ []))
    ≡ uses_in content (question ∷ answered ∷ [])
convert_messages_calls_example = convert_messages_calls json content (question ∷ answered ∷ [])

one_call :
    uses_in content (question ∷ answered ∷ [])
    ≡ record {
      id = codes "c1";
      type = codes "function";
      function = record { name = codes "f"; arguments = codes "{}" };
    }
      ∷ []
unfolding uses_in content_blocks
one_call = refl

convert_message_results_example :
    convert_message json content answered
    ≡ results json content (record block { type = codes "tool_result" } ∷ block ∷ [])
unfolding content_blocks results
convert_message_results_example =
    convert_message_results json content answered
      (record block { type = codes "tool_result" } ∷ block ∷ []) refl (λ e. cc) (λ e. cc)

-- Hashes that no key has.
abbrev hashes : Primitives
hashes = record {
  id_key = λ key salt params n. [];
  encode = λ b. b;
  decode = λ t. some t;
  scan_params = λ t. none;
}

abbrev pub libraries : Libraries
libraries = record { hashes = hashes; json = json; decoder = decoder; redis = redis; codec = codec }

abbrev body : MessagesRequest
body = record {
  model = codes "m";
  messages = question ∷ answered ∷ [];
  max_tokens = pos 9;
  stream = false;
  system = [];
  temperature = none;
  top_p = none;
  tools = [];
  stop_sequences = [];
  thinking = none;
}

abbrev bodies : BodyDecoder
bodies = record { messages = λ t. inr body; count_tokens = λ t. inl t; content = content }

abbrev handler : AnthropicHandler
handler = record {
  job_queue = record { stream_key = codes "auxot:jobs"; group_name = codes "workers" };
  token_stream = token_stream;
  model_name = codes "m";
}

abbrev pub env : Surroundings libraries
env = record {
  now = 5;
  now_seconds = 0;
  job_id = codes "j1";
  own_id = codes "msg_1";
  completion_id = λ n. [];
  can_flush = true;
  moments = [];
  enqueue_error = [];
  read_error = [];
  timestamp = [];
  quoted = λ t. t;
}

abbrev request : Request
request = record {
  method = codes "POST";
  path = codes "/v1/messages";
  x_api_key = codes "rtr_1";
  authorization = [];
  body = [];
}

-- The cache knows the key as good, or as bad.
abbrev pub served : Bool → Served libraries
served valid = record {
  verifier = record {
    admin_hash = [];
    api_hash = codes "h";
    tools_hash = [];
    cache = (codes "rtr_1|h", record { valid = valid; expires_at = 9 }) ∷ [];
    ttl = 5;
  };
  db = holding [];
}

serve_http_refuses_example :
    IsRefused libraries bodies handler env request
      (served false)
      (has_prefix request.path (codes "/v1/"))
      (serve_http libraries bodies handler env request (served false))
unfolding verify_api_key verify_with_cache lookup
serve_http_refuses_example =
    serve_http_refuses libraries bodies handler env request (served false) refl

handle_messages_db_example :
    (handle_messages libraries bodies handler env request (served true)).1.db
    ≡ queued libraries bodies handler env request
        (served true)
        (has_valid_key libraries bodies handler env request (served true))
        (inr body)
handle_messages_db_example = handle_messages_db libraries bodies handler env request (served true)

accepted : has_valid_key libraries bodies handler env request (served true) ≡ true
unfolding verify_api_key verify_with_cache lookup
accepted = refl
