-- ===== src/Api/Http.antt =====
-- internal/router/apihandler.go: what both API handlers take from a request.
use auxot.Common.{
  ℕ, ◌-◌, Bool, false, ◌&&◌, ◌||◌, List, [], ◌∷◌, Text, codes, text_comparable, text_beq, is_empty,
  has_prefix, drop, length, leb, nat_beq, if◌then◌else◌,
}
use auxot.Protocol.{Json}
use auxot.Queue.Redis.{Redis}
use auxot.Queue.Tokens.{EventCodec}
use auxot.Api.Events.{Decoder, Moment}
use auxot.Auth.{Primitives, Verifier, Outcome, ok, failed}

-- A request: its method and path, the first values of the two headers that are read, and its body.
pub record Request : Type 0 where
  pub method : Text
  pub path : Text
  pub x_api_key : Text
  pub authorization : Text
  pub body : Text

-- `strings.HasSuffix`, `strings.TrimPrefix` and `strings.Contains` of one byte.
abbrev pub has_suffix : Text → Text → Bool
has_suffix s suffix =
    leb (length suffix) (length s) && text_beq (drop (length s - length suffix) s) suffix

abbrev pub trim_prefix : Text → Text → Text
trim_prefix s prefix = if has_prefix s prefix then drop (length prefix) s else s

abbrev is_space : ℕ → Bool
is_space c = nat_beq c 32 || (leb 9 c && leb c 13)

abbrev trim_left : Text → Text
trim_left [] = []
trim_left (c ∷ s) = let rest : Text = trim_left s in if is_space c then rest else c ∷ s

abbrev trim_right : Text → Text
trim_right [] = []
trim_right (c ∷ s) =
    let rest : Text = trim_right s in if is_space c && is_empty rest then [] else c ∷ rest

-- `strings.TrimSpace` on text without the white space beyond ASCII.
abbrev pub trim_space : Text → Text
trim_space s = trim_right (trim_left s)

unfoldable pub extract_bearer_token : Text → Text
extract_bearer_token authorization =
    if has_prefix authorization (codes "Bearer ") then trim_space (drop 7 authorization) else []

-- `VerifyAPIKey` with its two results as one test.
abbrev pub is_valid_key : Outcome Bool → Bool
is_valid_key (ok valid) = valid
is_valid_key (failed f) = false

-- What the handlers use that is not under internal/router.
pub record Libraries : Type 1 where
  pub hashes : Primitives
  pub json : Json
  pub decoder : Decoder
  pub redis : Redis
  pub codec : EventCodec

-- What the code around a request decides: the time, the random IDs, whether the writer can flush, the
-- moments of the loop, and the texts of errors, of the present time, and of a quoted string.
pub record Surroundings (p : Libraries) : Type 0 where
  pub now : ℕ
  pub now_seconds : ℕ
  pub job_id : Text
  pub own_id : Text
  pub completion_id : ℕ → Text
  pub can_flush : Bool
  pub moments : List (Moment p.redis)
  pub enqueue_error : Text
  pub read_error : Text
  pub timestamp : Text
  pub quoted : Text → Text

-- What requests change.
pub record Served (p : Libraries) : Type 0 where
  pub verifier : Verifier
  pub db : p.redis.Db
