-- ===== src/Queue/Tokens.antt =====
-- pkg/queue/job_queue.go: TokenStream, a stream of events for each job.
pub mod Laws
use auxot.Common.{
  ℕ, ◌≡◌, refl, Option, none, some, List, [], ◌∷◌, ◌++◌, Text, codes, text_comparable, Bool,
  if◌then◌else◌,
}
use auxot.Common.Assoc.{Assoc, lookup}
use auxot.Common.Int.{ℤ, pos, negsuc, ltb_ℤ}
use auxot.Queue.Redis.{Redis, Reply, ok, failed, Failure, nil_reply, message, XMessage, XStream}
use auxot.Queue.Jobs.{
  Result, returned, error, Error, marshaling, publishing, parsing, reading, expiring, deleting,
  string_value,
}

-- `body` is the raw JSON of the event's data, empty if there is none.
pub record TokenEvent : Type 0 where
  pub type : Text
  pub body : Text

pub record TokenStreamEntry : Type 0 where
  pub id : Text
  pub event : TokenEvent

pub record TokenStream : Type 0 where
  pub prefix : Text

-- encoding/json at a TokenEvent.
pub record EventCodec : Type 0 where
  pub marshal : TokenEvent → Option Text
  pub unmarshal : Text → Option TokenEvent

unfoldable pub stream_key : TokenStream → Text → Text
stream_key ts job_id = ts.prefix ++ (codes "tokens:" ++ job_id)

module _ (c : EventCodec) where
  -- The inner loop of Read, over one stream's messages.
  parse_messages : List XMessage → Result (List TokenStreamEntry)
  parse_messages [] = returned []
  parse_messages (msg ∷ messages) = elim (c.unmarshal (string_value (codes "event") msg.values)) [
    | none ↦ error parsing
    | some event ↦ elim (parse_messages messages) [
      | returned entries ↦ returned (record { id = msg.id; event = event } ∷ entries)
      | error e ↦ error e
    ]
  ]

  parse_streams : List XStream → Result (List TokenStreamEntry)
  parse_streams [] = returned []
  parse_streams (stream ∷ results) = elim (parse_messages stream.messages) [
    | error e ↦ error e
    | returned entries ↦ elim (parse_streams results) [
      | returned rest ↦ returned (entries ++ rest)
      | error e ↦ error e
    ]
  ]

module _ (r : Redis) (c : EventCodec) where
  unfoldable pub publish : TokenStream → Text → TokenEvent → r.Db → Result Text × r.Db
  publish ts job_id event db = elim (c.marshal event) [
    | none ↦ (error marshaling, db)
    | some text ↦
        let (reply, db') = r.xadd (stream_key ts job_id) ((codes "event", text) ∷ []) db in
        (elim reply [ ok id ↦ returned id | failed _ ↦ error publishing ], db')
  ]

  unfoldable pub read_tokens :
      TokenStream → Text → Text → ℤ → ℤ → r.Db → Result (List TokenStreamEntry) × r.Db
  unfolding parse_streams parse_messages
  read_tokens ts job_id last_id count block db =
      let args_block : ℤ = if ltb_ℤ (pos 0) block then block else negsuc 0 in
      let (reply, db') = r.xread (stream_key ts job_id) last_id count args_block db in
      (
        elim reply [
          | ok results ↦ parse_streams c results
          | failed f ↦ elim f [ nil_reply ↦ returned [] | message _ ↦ error reading ]
        ],
        db',
      )

  unfoldable pub set_ttl : TokenStream → Text → ℕ → r.Db → Result (Unit {0}) × r.Db
  set_ttl ts job_id ttl db =
      let (reply, db') = r.expire (stream_key ts job_id) ttl db in
      (elim reply [ ok _ ↦ returned tt | failed _ ↦ error expiring ], db')

  unfoldable pub delete : TokenStream → Text → r.Db → Result (Unit {0}) × r.Db
  delete ts job_id db =
      let (reply, db') = r.del (stream_key ts job_id) db in
      (elim reply [ ok _ ↦ returned tt | failed _ ↦ error deleting ], db')
