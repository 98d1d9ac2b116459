-- ===== src/Api/Anthropic/Routes/Serve.antt =====
-- internal/router/anthropichandler.go: ServeHTTP, on the path after the prefix /api/anthropic.
use auxot.Common.{
  Bool, not, ◌&&◌, Text, codes, text_comparable, text_beq, has_prefix, if◌then◌else◌,
}
use auxot.Auth.{elem}
use auxot.Api.Http.{Request, Libraries, Surroundings, Served, has_suffix, trim_prefix}
use auxot.Api.Anthropic.Routes.{
  Answer, BodyDecoder, AnthropicHandler, write_anthropic_error, require_auth, handle_messages,
  handle_count_tokens, handle_list_models, handle_get_model, handle_batch_stub, handle_catch_all,
}

-- The handlers by name; all but the first two stand behind requireAuth.
pub data Route : Type 0 where
  messages count_tokens batch_stub list_models get_model catch_all not_found : Route

abbrev pub batches : Text
batches = codes "/v1/messages/batches/"

-- The routes below the batches.
unfoldable pub batch_route : Text → Text → Route
batch_route method rest =
    let single : Bool = not (elem 47 rest) in
    if text_beq method (codes "GET") && has_suffix rest (codes "/results")
    then batch_stub
    else if text_beq method (codes "POST") && has_suffix rest (codes "/cancel")
    then batch_stub
    else if text_beq method (codes "GET") && single
    then batch_stub
    else if text_beq method (codes "DELETE") && single
    then batch_stub
    else catch_all

-- The switch.
unfoldable pub route_of : Text → Text → Route
unfolding batch_route
route_of method path =
    let get : Bool = text_beq method (codes "GET") in
    let post : Bool = text_beq method (codes "POST") in
    if post && text_beq path (codes "/v1/messages")
    then messages
    else if post && text_beq path (codes "/v1/messages/count_tokens")
    then count_tokens
    else if post && text_beq path (codes "/v1/messages/batches")
    then batch_stub
    else if get && text_beq path (codes "/v1/messages/batches")
    then batch_stub
    else if has_prefix path batches
    then batch_route method (trim_prefix path batches)
    else if get && text_beq path (codes "/v1/models")
    then list_models
    else if get && has_prefix path (codes "/v1/models/")
    then get_model
    else if has_prefix path (codes "/v1/")
    then catch_all
    else not_found

module _ (p : Libraries) (bodies : BodyDecoder) (h : AnthropicHandler) where
  unfoldable pub serve_route : Route → Surroundings p → Request → Served p → Answer × Served p
  serve_route messages env req w = handle_messages p bodies h env req w
  serve_route count_tokens env req w = handle_count_tokens p bodies h env req w
  serve_route batch_stub env req w =
      require_auth p bodies h (handle_batch_stub p bodies h) env req w
  serve_route list_models env req w =
      require_auth p bodies h (handle_list_models p bodies h env) env req w
  serve_route get_model env req w =
      require_auth p bodies h (handle_get_model p bodies h env req) env req w
  serve_route catch_all env req w =
      require_auth p bodies h (handle_catch_all p bodies h req) env req w
  serve_route not_found env req w = (
    write_anthropic_error 404 (codes "not_found_error")
        (codes "The requested resource could not be found."),
    w,
  )

  unfoldable pub serve_http : Surroundings p → Request → Served p → Answer × Served p
  unfolding serve_route route_of
  serve_http env req w = serve_route (route_of req.method req.path) env req w
