-- ===== src/Api/Anthropic/Routes.antt =====
-- internal/router/anthropichandler.go: the handlers that ServeHTTP calls.
pub mod Serve
pub mod Keys
use auxot.Common.{
  ℕ, ◌+◌, ◌*◌, Bool, true, false, not, ◌&&◌, ◌⊎◌, inl, inr, Option, none, some, List, [], ◌∷◌, ◌++◌,
  Text, codes, text_comparable, text_beq, is_empty, is_nil, has_prefix, length, if◌then◌else◌,
}
use auxot.Common.Int.{ℤ, pos, beq_ℤ}
use auxot.Protocol.{Json}
use auxot.Queue.Redis.{Redis}
use auxot.Queue.Jobs.{JobQueue, returned, error}
use auxot.Queue.Tokens.{TokenStream, EventCodec}
use auxot.Router.NextRound.{enqueue_job}
use auxot.Auth.{Primitives, Verifier, elem, verify_api_key}
use auxot.Api.Events.{Decoder, Moment}
use auxot.Api.Http.{
  Request, Libraries, Surroundings, Served, trim_prefix, extract_bearer_token, is_valid_key,
}
use auxot.Api.Anthropic.{
  ContentDecoder, MessagesRequest, CountTokensRequest, Message, Tool, ErrorDetail, SseEvent,
  ModelObject, ModelListResponse, system_text, text_content, estimate_tokens,
}
use auxot.Api.Anthropic.Convert.{job_message}
use auxot.Api.Anthropic.Stream.{Drawn, stream_response}
use auxot.Api.Anthropic.Blocking.{Reply, blocking_response}

pub data Answer : Type 0 where
  refuse : (status : ℕ) → ErrorDetail → Answer
  events : List SseEvent → Answer
  replies : List Reply → Answer
  counted : (input_tokens : ℕ) → Answer
  model : ModelObject → Answer
  models : ModelListResponse → Answer

abbrev pub write_anthropic_error : ℕ → Text → Text → Answer
write_anthropic_error status type message =
    refuse status (record { type = type; message = message })

-- encoding/json at a request's body: the text of an error, or the request; and at a content.
pub record BodyDecoder : Type 0 where
  pub messages : Text → Text ⊎ MessagesRequest
  pub count_tokens : Text → Text ⊎ CountTokensRequest
  pub content : ContentDecoder

-- AnthropicHandler, with the model of its configuration.
pub record AnthropicHandler : Type 0 where
  pub job_queue : JobQueue
  pub token_stream : TokenStream
  pub model_name : Text

abbrev pub missing_api_key : Answer
missing_api_key =
    write_anthropic_error 401 (codes "authentication_error")
      (codes "Missing API key. Set the x-api-key header or use Bearer token.")

abbrev pub invalid_api_key : Answer
invalid_api_key =
    write_anthropic_error 401 (codes "authentication_error") (codes "Invalid API key.")

-- The texts that are counted.
unfoldable pub collect_texts : ContentDecoder → CountTokensRequest → List Text
collect_texts d req = system ++ (message_texts req.messages ++ tool_texts req.tools)
  where
    system : List Text
    system = let text : Text = system_text d req.system in if is_empty text then [] else text ∷ []

    message_texts : List Message → List Text
    message_texts [] = []
    message_texts (m ∷ messages) = text_content d m ∷ message_texts messages

    tool_texts : List Tool → List Text
    tool_texts [] = []
    tool_texts (t ∷ tools) =
        t.name ∷ t.description ∷ (if is_empty t.input_schema then [] else t.input_schema ∷ [])
        ++ tool_texts tools

module _ (p : Libraries) (bodies : BodyDecoder) (h : AnthropicHandler) where
  abbrev drawn_of : Surroundings p → Drawn
  drawn_of env = record { message_id = env.own_id; completion_id = env.completion_id }

  -- The checks of requireAuth, which handleMessages and handleCountTokens repeat.
  unfoldable pub authenticate : Surroundings p → Request → Served p → Option Answer × Served p
  authenticate env req w =
      let api_key : Text =
        if is_empty req.x_api_key then extract_bearer_token req.authorization else req.x_api_key in
      let (outcome, verifier) = verify_api_key p.hashes env.now api_key w.verifier in
      if is_empty api_key then (some missing_api_key, w) else (
        if is_valid_key outcome then none else some invalid_api_key,
        record w { verifier = verifier },
      )

  abbrev pub proceed : (Served p → Answer × Served p) → Option Answer × Served p → Answer × Served p
  proceed next (some answer, w) = (answer, w)
  proceed next (none, w) = next w

  unfoldable pub require_auth :
      (Served p → Answer × Served p) → Surroundings p → Request → Served p → Answer × Served p
  unfolding authenticate
  require_auth next env req w = proceed next (authenticate env req w)

  -- handleMessages after the checks.
  unfoldable pub accept_messages : Surroundings p → MessagesRequest → Served p → Answer × Served p
  accept_messages env req w =
      let job = job_message p.json bodies.content env.job_id req in
      let (result, db) = enqueue_job p.redis p.json p.codec h.job_queue h.token_stream job w.db in
      (
        elim result [
          | error _ ↦ write_anthropic_error 503 (codes "overloaded_error") env.enqueue_error
          | returned _ ↦
              if req.stream
              then if env.can_flush
                then events (
                    stream_response (drawn_of env) p.decoder p.redis p.codec h.token_stream
                      env.moments env.job_id req.model)
                else write_anthropic_error 500 (codes "api_error")
                    (codes "Streaming not supported.")
              else replies (
                  blocking_response (drawn_of env) req.model p.decoder p.redis p.codec
                    h.token_stream env.moments env.read_error env.job_id)
        ],
        record w { db = db },
      )

  abbrev invalid_request : Text → Answer
  invalid_request message = write_anthropic_error 400 (codes "invalid_request_error") message

  unfoldable pub create_decoded :
      Surroundings p → Text ⊎ MessagesRequest → Served p → Answer × Served p
  unfolding accept_messages
  create_decoded env (inl message) w = (invalid_request (codes "Invalid JSON: " ++ message), w)
  create_decoded env (inr body) w =
      let accepted : Answer × Served p = accept_messages env body w in
      if is_nil body.messages
      then (invalid_request (codes "messages: Field required"), w)
      else if is_empty body.model
      then (invalid_request (codes "model: Field required"), w)
      else if beq_ℤ body.max_tokens (pos 0)
      then (invalid_request (codes "max_tokens: Field required"), w)
      else accepted

  -- What the two handlers do once the key is accepted.
  unfoldable pub create_message : Surroundings p → Request → Served p → Answer × Served p
  unfolding create_decoded
  create_message env req w = create_decoded env (bodies.messages req.body) w

  unfoldable pub count_tokens : Surroundings p → Request → Served p → Answer × Served p
  unfolding collect_texts
  count_tokens env req w = elim (bodies.count_tokens req.body) [
    | inl message ↦ (invalid_request (codes "Invalid JSON: " ++ message), w)
    | inr body ↦ (
      if is_nil body.messages
          then invalid_request (codes "messages: Field required")
          else counted
              (estimate_tokens (collect_texts bodies.content body) + length body.messages * 4),
      w,
    )
  ]

  unfoldable pub handle_messages : Surroundings p → Request → Served p → Answer × Served p
  unfolding require_auth create_message
  handle_messages env req w = require_auth (create_message env req) env req w

  unfoldable pub handle_count_tokens : Surroundings p → Request → Served p → Answer × Served p
  unfolding require_auth count_tokens
  handle_count_tokens env req w = require_auth (count_tokens env req) env req w

  abbrev pub model_object : Surroundings p → Text → ModelObject
  model_object env id = record {
    id = id;
    created_at = env.timestamp;
    display_name = id;
    type = codes "model";
  }

  unfoldable pub handle_list_models : Surroundings p → Served p → Answer × Served p
  handle_list_models env w = (
    models (record {
      models = model_object env h.model_name ∷ [];
      first_id = some h.model_name;
      has_more = false;
      last_id = some h.model_name;
    }),
    w,
  )

  unfoldable pub handle_get_model : Surroundings p → Request → Served p → Answer × Served p
  handle_get_model env req w =
      let model_id : Text = trim_prefix req.path (codes "/v1/models/") in
      (
        if is_empty model_id
            then write_anthropic_error 404 (codes "not_found_error")
                (codes "The requested resource could not be found.")
            else if not (text_beq model_id h.model_name)
            then write_anthropic_error 404 (codes "not_found_error") (
                codes "The model "
                ++ (env.quoted model_id
                    ++ codes " does not exist or you do not have access to it."))
            else model (model_object env model_id),
        w,
      )

  unfoldable pub handle_batch_stub : Served p → Answer × Served p
  handle_batch_stub w = (
    write_anthropic_error 501 (codes "not_implemented_error") (
        codes
          "Message batches are not yet supported. This feature requires persistent job storage, which is planned for a future release."),
    w,
  )

  unfoldable pub handle_catch_all : Request → Served p → Answer × Served p
  handle_catch_all req w = (
    write_anthropic_error 501 (codes "not_implemented_error") (
        codes "The endpoint '"
        ++ (req.method ++ (codes " " ++ (req.path ++ codes "' is not implemented.")))),
    w,
  )
