-- ===== src/Api/Anthropic/Routes/Keys.antt =====
-- internal/router/anthropichandler.go: which requests get past the key, and what a request puts on
-- the queue.
use auxot.Common.{
  ◌≡◌, refl, sym, ap, ◌∙◌, subst, ◌⊎◌, inl, inr, Bool, true, false, not, ◌&&◌, none, some, Text,
  is_empty, is_nil, codes, ◌++◌, arith, append_assoc, text_comparable, text_beq, text_beq-eq,
  has_prefix, has_prefix_sound, has_prefix-append, Bool-cases, if◌then◌else◌,
}
use auxot.Common.Int.{pos, beq_ℤ}
use auxot.Auth.{Verifier, Outcome, verify_api_key}
use auxot.Router.NextRound.{enqueue_job}
use auxot.Api.Http.{
  Request, Libraries, Surroundings, Served, extract_bearer_token, is_valid_key, trim_prefix,
}
use auxot.Api.Anthropic.{MessagesRequest}
use auxot.Api.Anthropic.Convert.{job_message}
use auxot.Api.Anthropic.Routes
use auxot.Api.Anthropic.Routes.{
  Answer, refuse, BodyDecoder, AnthropicHandler, authenticate, require_auth, accept_messages,
  handle_messages, handle_count_tokens, create_message, create_decoded, proceed, missing_api_key,
  invalid_api_key, handle_list_models, handle_get_model, handle_batch_stub, handle_catch_all,
}
use auxot.Api.Anthropic.Routes.Serve.{
  Route, messages, count_tokens, batch_stub, list_models, get_model, catch_all, not_found,
  serve_route, serve_http, route_of, batch_route, batches,
}

abbrev v1 : Text
v1 = codes "/v1/"

is_route : Route → Bool
is_route not_found = false
is_route route = true

is_route-batch_route : (method rest : Text) → is_route (batch_route method rest) ≡ true
unfolding is_route batch_route
is_route-batch_route method rest = ground arith

-- A path that equals a known one, or begins with one, begins with /v1/.
known :
    (path s : Text) → text_beq path s ≡ true → has_prefix s v1 ≡ true → has_prefix path v1 ≡ true
known path s e h = ap (λ t. has_prefix t v1) (text_beq-eq path s e) ∙ h

below : (path s : Text) → has_prefix path (v1 ++ s) ≡ true → has_prefix path v1 ≡ true
below path s e =
    let (rest, same) = has_prefix_sound path (v1 ++ s) e in
    ap (λ t. has_prefix t v1) (same ∙ append_assoc v1 s rest) ∙ has_prefix-append v1 (s ++ rest)

choose :
    (b : Bool) (x y : Route) (v : Bool)
    → (b ≡ true → is_route x ≡ v)
    → (b ≡ false → is_route y ≡ v)
    → is_route (if b then x else y) ≡ v
choose true x y v on off = on refl
choose false x y v on off = off refl

right_of : (a b : Bool) → (a && b) ≡ true → b ≡ true
right_of a b h = ground arith

-- One case of the switch, for a known path.
at_path :
    (a : Bool) (path s : Text) (x y : Route)
    → has_prefix s v1 ≡ true
    → is_route x ≡ true
    → is_route y ≡ has_prefix path v1
    → is_route (if a && text_beq path s then x else y) ≡ has_prefix path v1
at_path a path s x y h route rest =
    choose (a && text_beq path s) x y (has_prefix path v1)
      (λ e. route ∙ sym (known path s (right_of a (text_beq path s) e) h)) (λ e. rest)

-- The paths that have a route are those that begin with /v1/.
is_route-route_of : (method path : Text) → is_route (route_of method path) ≡ has_prefix path v1
unfolding route_of is_route has_prefix
is_route-route_of method path =
    let get = text_beq method (codes "GET") in
    let post = text_beq method (codes "POST") in
    at_path post path (codes "/v1/messages") messages _ refl refl (
      at_path post path (codes "/v1/messages/count_tokens") count_tokens _ refl refl (
        at_path post path (codes "/v1/messages/batches") batch_stub _ refl refl (
          at_path get path (codes "/v1/messages/batches") batch_stub _ refl refl (
            choose (has_prefix path batches) _ _ (has_prefix path v1)
              (λ e.
                is_route-batch_route method (trim_prefix path batches)
                ∙ sym (below path (codes "messages/batches/") e))
              (λ e. at_path get path (codes "/v1/models") list_models _ refl refl (
                choose (get && has_prefix path (codes "/v1/models/")) _ _ (has_prefix path v1)
                  (λ f. sym (
                    below path (codes "models/")
                      (right_of get (has_prefix path (codes "/v1/models/")) f)))
                  (λ f.
                    choose (has_prefix path (codes "/v1/")) catch_all not_found (has_prefix path v1)
                      (λ g. sym g) (λ g. sym g))))))))

-- The key that a request brings, empty if it brings none.
abbrev pub key_of : Request → Text
key_of req =
    if is_empty req.x_api_key then extract_bearer_token req.authorization else req.x_api_key

module _ (p : Libraries) (bodies : BodyDecoder) (h : AnthropicHandler) (env : Surroundings p)
    (req : Request) (w : Served p) where
  abbrev checked : Outcome Bool × Verifier
  checked = verify_api_key p.hashes env.now (key_of req) w.verifier

  -- The request brings a key, which the verifier accepts.
  abbrev pub has_valid_key : Bool
  has_valid_key = not (is_empty (key_of req)) && is_valid_key checked.0

  -- The answer to a request without a valid key, on a path that has a route or none.
  abbrev pub refusal : Bool → Answer
  refusal false = refuse 404 (record {
    type = codes "not_found_error";
    message = codes "The requested resource could not be found.";
  })
  refusal true = refuse 401 (record {
    type = codes "authentication_error";
    message =
        if is_empty (key_of req)
        then codes "Missing API key. Set the x-api-key header or use Bearer token."
        else codes "Invalid API key.";
  })

  -- The request is refused so, and Redis is as before.
  abbrev pub IsRefused : Bool → Answer × Served p → Type 0
  IsRefused has_route done = (done.0 ≡ refusal has_route) × (done.1.db ≡ w.db)

  authenticate_lem : authenticate p bodies h env req w ≡ (
      if is_empty (key_of req) then (some missing_api_key, w) else (
        if is_valid_key checked.0 then none else some invalid_api_key,
        record w { verifier = checked.1 },
      ))
  unfolding authenticate
  authenticate_lem = refl

  require_auth_refuses :
      (next : Served p → Answer × Served p)
      → has_valid_key ≡ false
      → IsRefused true (require_auth p bodies h next env req w)
  unfolding require_auth
  require_auth_refuses next invalid =
      subst (λ done. IsRefused true (proceed p bodies h next done)) (sym authenticate_lem)
        (elim (Bool-cases (is_empty (key_of req))) [
          | inl e ↦ rw e (refl, refl)
          | inr e ↦
              let bad : is_valid_key checked.0 ≡ false = rw e at invalid in rw (e, bad) (refl, refl)
        ])

  require_auth_accepts :
      (next : Served p → Answer × Served p)
      → has_valid_key ≡ true
      → require_auth p bodies h next env req w ≡ next (record w { verifier = checked.1 })
  unfolding require_auth
  require_auth_accepts next valid =
      ap (proceed p bodies h next) authenticate_lem ∙ (elim (Bool-cases (is_empty (key_of req))) [
        | inl e ↦ absurd (let no : ◌≡◌ {A = Bool} false true = rw e at valid in cc)
        | inr e ↦ let good : is_valid_key checked.0 ≡ true = rw e at valid in rw (e, good) refl
      ])

  serve_route_refuses :
      (route : Route)
      → has_valid_key ≡ false
      → IsRefused (is_route route) (serve_route p bodies h route env req w)
  unfolding serve_route handle_messages handle_count_tokens is_route
  serve_route_refuses messages invalid =
      require_auth_refuses (create_message p bodies h env req) invalid
  serve_route_refuses count_tokens invalid =
      require_auth_refuses (Routes.count_tokens p bodies h env req) invalid
  serve_route_refuses batch_stub invalid =
      require_auth_refuses (handle_batch_stub p bodies h) invalid
  serve_route_refuses list_models invalid =
      require_auth_refuses (handle_list_models p bodies h env) invalid
  serve_route_refuses get_model invalid =
      require_auth_refuses (handle_get_model p bodies h env req) invalid
  serve_route_refuses catch_all invalid =
      require_auth_refuses (handle_catch_all p bodies h req) invalid
  serve_route_refuses not_found invalid = (refl, refl)

  -- A request without a key that the verifier accepts is answered with the status 404 if its path does
  -- not begin with /v1/, and otherwise with the status 401, which says whether the key is missing or
  -- wrong; it puts nothing on the queue.
  pub serve_http_refuses :
      has_valid_key ≡ false
      → IsRefused (has_prefix req.path (codes "/v1/")) (serve_http p bodies h env req w)
  unfolding serve_http
  serve_http_refuses invalid =
      subst (λ b. IsRefused b (serve_http p bodies h env req w))
        (is_route-route_of req.method req.path)
        (serve_route_refuses (route_of req.method req.path) invalid)

  -- What a request for a message must have.
  abbrev is_complete : MessagesRequest → Bool
  is_complete body =
      not (is_nil body.messages) && not (is_empty body.model) && not (beq_ℤ body.max_tokens (pos 0))

  -- Redis after a request whose key is valid or not, and whose body is decoded so.
  abbrev pub queued : Bool → Text ⊎ MessagesRequest → p.redis.Db
  queued valid (inl text) = w.db
  queued valid (inr body) =
      if valid && is_complete body
      then (enqueue_job p.redis p.json p.codec h.job_queue h.token_stream
          (job_message p.json bodies.content env.job_id body) w.db).1
      else w.db

  create_decoded_db :
      (v : Verifier) (body : Text ⊎ MessagesRequest)
      → (create_decoded p bodies h env body (record w { verifier = v })).1.db ≡ queued true body
  unfolding create_decoded accept_messages
  create_decoded_db v (inl text) = refl
  create_decoded_db v (inr body) = elim (Bool-cases (is_nil body.messages)) [
    | inl a ↦ rw a refl
    | inr a ↦ elim (Bool-cases (is_empty body.model)) [
      | inl b ↦ rw (a, b) refl
      | inr b ↦ elim (Bool-cases (beq_ℤ body.max_tokens (pos 0))) [
        | inl c ↦ rw (a, b, c) refl
        | inr c ↦ rw (a, b, c) refl
      ]
    ]
  ]

  queued-invalid : (body : Text ⊎ MessagesRequest) → w.db ≡ queued false body
  queued-invalid (inl text) = refl
  queued-invalid (inr body) = refl

  -- A request for a message puts its job on the queue if its key is valid, its body is decoded and has
  -- messages, a model and a limit of tokens that is not 0; in every other case Redis stays as it was.
  pub handle_messages_db :
      (handle_messages p bodies h env req w).1.db ≡ queued has_valid_key (bodies.messages req.body)
  unfolding handle_messages create_message
  handle_messages_db = elim (Bool-cases has_valid_key) [
    | inl valid ↦
        ap (λ done. done.1.db) (require_auth_accepts (create_message p bodies h env req) valid)
        ∙ create_decoded_db checked.1 (bodies.messages req.body)
        ∙ ap (λ b. queued b (bodies.messages req.body)) (sym valid)
    | inr invalid ↦
        (require_auth_refuses (create_message p bodies h env req) invalid).1
        ∙ queued-invalid (bodies.messages req.body)
        ∙ ap (λ b. queued b (bodies.messages req.body)) (sym invalid)
  ]
