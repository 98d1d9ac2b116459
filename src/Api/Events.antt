-- ===== src/Api/Events.antt =====
-- internal/router/apihandler.go and internal/router/anthropichandler.go: the loop that six handlers
-- share. It reads the events of a job's stream and hands them on, one at a time, until one ends it.
pub mod Rounds
use auxot.Common.{
  ℕ, Bool, false, Option, none, some, List, [], ◌∷◌, ◌++◌, Text, codes, text_comparable, text_beq,
  ltb, is_empty, if◌then◌else◌,
}
use auxot.Common.Assoc.{Assoc, lookup}
use auxot.Common.Int.{pos}
use auxot.Protocol.{CompleteMessage}
use auxot.Queue.Redis.{Redis}
use auxot.Queue.Jobs.{Result, returned, error, string_value}
use auxot.Queue.Tokens.{TokenStream, TokenEvent, TokenStreamEntry, EventCodec, read_tokens}

-- encoding/json, where the handlers decode an event's data. `complete` and `strings` give what the
-- decoder has filled in, `complete` also whether it returned no error.
pub record Decoder : Type 0 where
  pub string : Text → Option Text
  pub complete : Text → CompleteMessage × Bool
  pub strings : Text → Assoc Text Text

-- What a handler does with an event: it writes, and goes on or returns.
pub data Turn {ℓ κ} (S : Type ℓ) (O : Type κ) : Type (ℓ ⊔ κ) where
  goes_on : List O → S → Turn S O
  returns : List O → Turn S O

-- What the loop sees when it begins a round: whether the request's context is done, the time in
-- nanoseconds, and Redis.
pub record Moment (r : Redis) : Type 0 where
  pub cancelled : Bool
  pub now : ℕ
  pub db : r.Db

-- What a handler writes when the loop ends without an event that ends it.
pub record Endings {κ} (O : Type κ) : Type κ where
  pub on_cancel : List O
  pub on_deadline : List O
  pub on_failure : List O

abbrev pub is_past : ℕ → Option ℕ → Bool
is_past now none = false
is_past now (some deadline) = ltb deadline now

-- The message of an "error" event.
unfoldable pub error_message : Decoder → Text → Text
error_message d body =
    let message : Text = string_value (codes "error") (d.strings body) in
    if is_empty message then codes "internal error" else message

-- An event as every handler's switch takes it: by its type, with its data decoded. A token whose data
-- is no JSON string is skipped like an event of another type.
pub data Kind : Type 0 where
  reasoning_token : Text → Kind
  token : Text → Kind
  done : CompleteMessage → (decoded : Bool) → Kind
  failure : Text → Kind
  skipped : Kind

module _ (d : Decoder) where
  unfoldable pub kind_of : TokenEvent → Kind
  unfolding error_message
  kind_of event =
      if text_beq event.type (codes "reasoning_token")
      then elim (d.string event.body) [ none ↦ skipped | some t ↦ reasoning_token t ]
      else if text_beq event.type (codes "token")
      then elim (d.string event.body) [ none ↦ skipped | some t ↦ token t ]
      else if text_beq event.type (codes "done")
      then (let (complete, decoded) = d.complete event.body in done complete decoded)
      else if text_beq event.type (codes "error")
      then failure (error_message d event.body)
      else skipped

module _ {ℓ κ} {S : Type ℓ} {O : Type κ} where
  -- What an event's turn writes, before what is done with the next ones.
  abbrev pub before : Turn S O → (S → List O × Option (Text × S)) → List O × Option (Text × S)
  before (returns out) next = (out, none)
  before (goes_on out s) next = let (rest, end) = next s in (out ++ rest, end)

  -- What one reading writes, before the next readings.
  abbrev pub then_follow : List O × Option (Text × S) → (Text → S → List O) → List O
  then_follow (out, none) next = out
  then_follow (out, some (last_id, s)) next = out ++ next last_id s

  module _ (on_event : TokenEvent → S → Turn S O) where
    -- The inner loop: what is written, and the last ID with the state unless the handler returned.
    unfoldable pub process : List TokenStreamEntry → Text → S → List O × Option (Text × S)
    process [] last_id s = ([], some (last_id, s))
    process (entry ∷ entries) last_id s = before (on_event entry.event s) (process entries entry.id)

    -- The outer loop, for the rounds that there are: what is written by then.
    unfoldable pub follow :
        (r : Redis) (c : EventCodec) (ts : TokenStream) (job_id : Text) (deadline : Option ℕ)
        (endings : Endings O) (moments : List (Moment r))
        → Text
        → S
        → List O
    unfolding process
    follow r c ts job_id deadline endings [] last_id s = []
    follow r c ts job_id deadline endings (m ∷ ms) last_id s =
        let later : Text → S → List O = follow r c ts job_id deadline endings ms in
        if m.cancelled
        then endings.on_cancel
        else if is_past m.now deadline
        then endings.on_deadline
        else elim (read_tokens r c ts job_id last_id (pos 100) (pos 1_000_000_000) m.db).0 [
          | error _ ↦ endings.on_failure
          | returned entries ↦ then_follow (process entries last_id s) later
        ]
