-- ===== src/Api/OpenAi/Routes/Keys.antt =====
-- internal/router/apihandler.go: requests without a valid key.
use auxot.Common.{
  ℕ, ◌≡◌, refl, sym, subst, ◌⊎◌, inl, inr, Bool, false, not, ◌&&◌, none, some, Text, codes,
  is_empty, Bool-cases, if◌then◌else◌,
}
use auxot.Gpu.{Pool}
use auxot.Auth.{Verifier, Outcome, verify_api_key}
use auxot.Api.Http.{Request, Libraries, Surroundings, Served, extract_bearer_token, is_valid_key}
use auxot.Api.OpenAi.{ErrorDetail}
use auxot.Api.OpenAi.Routes.{
  Answer, refuse, health, BodyDecoder, ApiHandler, write_error_json, authenticate, proceed,
  with_auth, create_chat, create_legacy, handle_health, handle_chat_completion,
  handle_legacy_completion, handle_list_chat_completions, handle_get_chat_completion,
  handle_delete_chat_completion, handle_get_completion_messages, handle_embeddings,
  handle_list_models, handle_get_model,
}
use auxot.Api.OpenAi.Routes.Serve.{
  Route, get_health, chat_completion, list_completions, completion_messages, get_completion,
  delete_completion, legacy_completion, embeddings, list_models, get_model, not_implemented,
  not_found, route_of, serve_route, serve_http,
}

module _ (p : Libraries) (bodies : BodyDecoder) (h : ApiHandler) (pool : Pool)
    (env : Surroundings p) (req : Request) (w : Served p) where
  abbrev key : Text
  key = extract_bearer_token req.authorization

  abbrev checked : Outcome Bool × Verifier
  checked = verify_api_key p.hashes env.now key w.verifier

  -- The request brings a Bearer token, which the verifier accepts.
  abbrev pub has_valid_token : Bool
  has_valid_token = not (is_empty key) && is_valid_key checked.0

  -- A refusal, or the report on the pool, that leaves the queue alone.
  abbrev IsRefused : Answer × Served p → Type 0
  IsRefused done =
      ((status : ℕ) × (detail : ErrorDetail) × (done.0 ≡ refuse status detail)) × (done.1.db ≡ w.db)

  abbrev pub IsHarmless : Answer × Served p → Type 0
  IsHarmless done = IsRefused done ⊎ (done ≡ (health (handle_health pool), w))

  authenticate_lem : authenticate p bodies h env req w ≡ (
      if is_empty key
      then (
        some (write_error_json 401 (codes "authentication_error") (codes "missing Bearer token")),
        w,
      )
      else (
        if is_valid_key checked.0
            then none
            else some
                (write_error_json 401 (codes "authentication_error") (codes "invalid API key")),
        record w { verifier = checked.1 },
      ))
  unfolding authenticate
  authenticate_lem = refl

  with_auth_refuses :
      (next : Served p → Answer × Served p)
      → has_valid_token ≡ false
      → IsHarmless (with_auth p bodies h next env req w)
  unfolding with_auth
  with_auth_refuses next invalid = inl (
      subst (λ done. IsRefused (proceed p bodies h next done)) (sym authenticate_lem)
        (elim (Bool-cases (is_empty key)) [
          | inl e ↦ rw e ((401, _, refl), refl)
          | inr e ↦
              let bad : is_valid_key checked.0 ≡ false = rw e at invalid in
              rw (e, bad) ((401, _, refl), refl)
        ]))

  serve_route_refuses :
      (route : Route)
      → has_valid_token ≡ false
      → IsHarmless (serve_route p bodies h pool route env req w)
  unfolding serve_route handle_chat_completion handle_legacy_completion
  serve_route_refuses get_health invalid = inr refl
  serve_route_refuses chat_completion invalid =
      with_auth_refuses (create_chat p bodies h env (bodies.chat req.body)) invalid
  serve_route_refuses list_completions invalid =
      with_auth_refuses (λ w'. (handle_list_chat_completions p bodies h, w')) invalid
  serve_route_refuses completion_messages invalid =
      with_auth_refuses (λ w'. (handle_get_completion_messages p bodies h, w')) invalid
  serve_route_refuses get_completion invalid =
      with_auth_refuses (λ w'. (handle_get_chat_completion p bodies h, w')) invalid
  serve_route_refuses delete_completion invalid =
      with_auth_refuses (λ w'. (handle_delete_chat_completion p bodies h, w')) invalid
  serve_route_refuses legacy_completion invalid =
      with_auth_refuses (create_legacy p bodies h env (bodies.completion req.body)) invalid
  serve_route_refuses embeddings invalid =
      with_auth_refuses (λ w'. (handle_embeddings p bodies h, w')) invalid
  serve_route_refuses list_models invalid =
      with_auth_refuses (λ w'. (handle_list_models p bodies h env, w')) invalid
  serve_route_refuses get_model invalid =
      with_auth_refuses (λ w'. (handle_get_model p bodies h env req, w')) invalid
  serve_route_refuses not_implemented invalid = inl ((501, _, refl), refl)
  serve_route_refuses not_found invalid = inl ((404, _, refl), refl)

  -- A request without a Bearer token that the verifier accepts is refused, or its answer is the report
  -- on the pool that a request for the health of the router gets, and nothing else has changed then.
  -- Either way it puts nothing on the queue.
  pub serve_http-IsHarmless :
      has_valid_token ≡ false → IsHarmless (serve_http p bodies h pool env req w)
  unfolding serve_http
  serve_http-IsHarmless invalid = serve_route_refuses (route_of req.method req.path) invalid
