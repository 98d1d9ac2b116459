-- ===== src/Api/OpenAi/Routes/Serve.antt =====
-- internal/router/apihandler.go: ServeHTTP.
use auxot.Common.{
  Bool, not, ◌&&◌, Text, codes, text_comparable, text_beq, has_prefix, if◌then◌else◌,
}
use auxot.Gpu.{Pool}
use auxot.Auth.{elem}
use auxot.Api.Http.{Request, Libraries, Surroundings, Served, has_suffix, trim_prefix}
use auxot.Api.OpenAi.Routes.{
  Answer, health, BodyDecoder, ApiHandler, write_error_json, with_auth, handle_health,
  handle_chat_completion, handle_legacy_completion, handle_list_chat_completions,
  handle_get_chat_completion, handle_delete_chat_completion, handle_get_completion_messages,
  handle_embeddings, handle_list_models, handle_get_model,
}

-- The handlers by name.
pub data Route : Type 0 where
  get_health chat_completion list_completions completion_messages : Route
  get_completion delete_completion legacy_completion embeddings : Route
  list_models get_model not_implemented not_found : Route

abbrev stored : Text
stored = codes "/api/openai/chat/completions/"

-- The routes below the stored completions.
unfoldable pub stored_route : Text → Text → Route
stored_route method rest =
    let single : Bool = not (elem 47 rest) in
    if text_beq method (codes "GET") && has_suffix rest (codes "/messages")
    then completion_messages
    else if text_beq method (codes "GET") && single
    then get_completion
    else if text_beq method (codes "DELETE") && single
    then delete_completion
    else not_found

-- The switch.
unfoldable pub route_of : Text → Text → Route
unfolding stored_route
route_of method path =
    let get : Bool = text_beq method (codes "GET") in
    let post : Bool = text_beq method (codes "POST") in
    if get && text_beq path (codes "/health")
    then get_health
    else if post && text_beq path (codes "/api/openai/chat/completions")
    then chat_completion
    else if get && text_beq path (codes "/api/openai/chat/completions")
    then list_completions
    else if has_prefix path stored
    then stored_route method (trim_prefix path stored)
    else if post && text_beq path (codes "/api/openai/completions")
    then legacy_completion
    else if post && text_beq path (codes "/api/openai/embeddings")
    then embeddings
    else if get && text_beq path (codes "/api/openai/models")
    then list_models
    else if get && has_prefix path (codes "/api/openai/models/")
    then get_model
    else if has_prefix path (codes "/api/openai/")
    then not_implemented
    else not_found

module _ (p : Libraries) (bodies : BodyDecoder) (h : ApiHandler) (pool : Pool) where
  -- A handler that only answers, behind the key.
  abbrev answers : Answer → Surroundings p → Request → Served p → Answer × Served p
  answers answer env req w = with_auth p bodies h (λ w'. (answer, w')) env req w

  unfoldable pub serve_route : Route → Surroundings p → Request → Served p → Answer × Served p
  unfolding with_auth
  serve_route get_health env req w = (health (handle_health pool), w)
  serve_route chat_completion env req w = handle_chat_completion p bodies h env req w
  serve_route list_completions env req w =
      answers (handle_list_chat_completions p bodies h) env req w
  serve_route completion_messages env req w =
      answers (handle_get_completion_messages p bodies h) env req w
  serve_route get_completion env req w = answers (handle_get_chat_completion p bodies h) env req w
  serve_route delete_completion env req w =
      answers (handle_delete_chat_completion p bodies h) env req w
  serve_route legacy_completion env req w = handle_legacy_completion p bodies h env req w
  serve_route embeddings env req w = answers (handle_embeddings p bodies h) env req w
  serve_route list_models env req w = answers (handle_list_models p bodies h env) env req w
  serve_route get_model env req w = answers (handle_get_model p bodies h env req) env req w
  serve_route not_implemented env req w =
      (write_error_json 501 (codes "not_implemented") (codes "endpoint not implemented"), w)
  serve_route not_found env req w =
      (write_error_json 404 (codes "not_found") (codes "endpoint not found"), w)

  unfoldable pub serve_http : Surroundings p → Request → Served p → Answer × Served p
  unfolding serve_route route_of
  serve_http env req w = serve_route (route_of req.method req.path) env req w
