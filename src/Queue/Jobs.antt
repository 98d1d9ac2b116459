-- ===== src/Queue/Jobs.antt =====
-- pkg/queue/job_queue.go: JobQueue, a stream of jobs with a consumer group. A method takes Redis's
-- state and returns its result with the new state; the texts of wrapped errors are left out.
pub mod Laws
use auxot.Common.{
  ℕ, ◌≡◌, refl, ◌⊎◌, inl, inr, Option, none, some, List, [], ◌∷◌, ◌++◌, Text, codes,
  text_comparable, text_beq, if◌then◌else◌,
}
use auxot.Common.Assoc.{Assoc, lookup}
use auxot.Common.Int.{ℤ, pos, negsuc}
use auxot.Queue.Redis.{
  Redis, Reply, ok, failed, Failure, nil_reply, message, error_text, XMessage, XStream,
}

pub record JobQueue : Type 0 where
  pub stream_key : Text
  pub group_name : Text

-- JobPayload and StreamEntry.
pub record JobPayload : Type 0 where
  pub job_id : Text
  pub body : Text

pub record StreamEntry : Type 0 where
  pub id : Text
  pub payload : JobPayload

pub data Error : Type 0 where
  creating_group enqueuing reading acknowledging deleting claiming : Error
  reading_pending length_error marshaling publishing parsing expiring : Error
  refreshing checking removing scanning : Error

pub data Result {ℓ} (A : Type ℓ) : Type ℓ where
  returned : A → Result A
  error : Error → Result A

pub Result-cases {ℓ} :
    {A : Type ℓ} (result : Result A)
    → ((e : Error) × (result ≡ error e)) ⊎ ((a : A) × (result ≡ returned a))
Result-cases (returned a) = inr (a, refl)
Result-cases (error e) = inl (e, refl)

-- `v, _ := values[name].(string)`: a missing value is the empty string.
abbrev text_or_empty : Option Text → Text
text_or_empty none = []
text_or_empty (some t) = t

abbrev pub string_value : Text → Assoc Text Text → Text
string_value name values = text_or_empty (lookup name values)

unfoldable pub entry_of : XMessage → StreamEntry
entry_of msg = record {
  id = msg.id;
  payload = record {
    job_id = string_value (codes "job_id") msg.values;
    body = string_value (codes "data") msg.values;
  };
}

unfoldable pub parse_xmessages : List XMessage → Result (List StreamEntry)
parse_xmessages messages = returned (collect messages)
  where
    collect : List XMessage → List StreamEntry
    collect [] = []
    collect (msg ∷ rest) = entry_of msg ∷ collect rest

append_parsed : Result (List StreamEntry) → Result (List StreamEntry) → Result (List StreamEntry)
append_parsed (returned parsed) (returned rest) = returned (parsed ++ rest)
append_parsed (returned parsed) (error e) = error e
append_parsed (error e) rest = error e

unfoldable pub parse_stream_results : List XStream → Result (List StreamEntry)
unfolding append_parsed parse_xmessages
parse_stream_results [] = returned []
parse_stream_results (stream ∷ results) =
    append_parsed (parse_xmessages stream.messages) (parse_stream_results results)

-- The first lines of both readers: redis.Nil is an empty result.
entries_of : Error → Reply (List XStream) → Result (List StreamEntry)
entries_of e (ok results) = parse_stream_results results
entries_of e (failed nil_reply) = returned []
entries_of e (failed (message text)) = error e

abbrev busygroup : Text
busygroup = codes "BUSYGROUP Consumer Group name already exists"

abbrev nogroup : JobQueue → Text
nogroup q =
    codes "NOGROUP No such consumer group '"
    ++ (q.group_name ++ (codes "' for key name '" ++ (q.stream_key ++ codes "'")))

-- The values that Enqueue stores.
abbrev pub job_values : Text → Text → Assoc Text Text
job_values job_id body = (codes "job_id", job_id) ∷ (codes "data", body) ∷ []

module _ (r : Redis) where
  unfoldable pub new_blocking_reader : JobQueue → JobQueue
  new_blocking_reader q = record { stream_key = q.stream_key; group_name = q.group_name }

  unfoldable pub ensure_group : JobQueue → r.Db → Result (Unit {0}) × r.Db
  ensure_group q db =
      let (reply, db') = r.xgroup_create_mkstream q.stream_key q.group_name (codes "0") db in
      (
        elim reply [
          | ok _ ↦ returned tt
          | failed f ↦
              if text_beq (error_text f) busygroup then returned tt else error creating_group
        ],
        db',
      )

  unfoldable pub enqueue : JobQueue → Text → Text → r.Db → Result Text × r.Db
  enqueue q job_id body db =
      let (reply, db') = r.xadd q.stream_key (job_values job_id body) db in
      (elim reply [ ok id ↦ returned id | failed _ ↦ error enqueuing ], db')

  unfoldable pub read : JobQueue → Text → ℤ → r.Db → Result (List StreamEntry) × r.Db
  unfolding entries_of
  read q consumer_name block_timeout db =
      let (reply, db') =
        r.xreadgroup q.group_name consumer_name q.stream_key (codes ">") 1 block_timeout db in
      (entries_of reading reply, db')

  -- XDEL only after a successful XACK.
  unfoldable pub ack : JobQueue → Text → r.Db → Result (Unit {0}) × r.Db
  ack q entry_id db =
      let (reply, db') = r.xack q.stream_key q.group_name entry_id db in
      elim reply [
        | failed _ ↦ (error acknowledging, db')
        | ok _ ↦
            let (reply', db'') = r.xdel q.stream_key entry_id db' in
            (elim reply' [ ok _ ↦ returned tt | failed _ ↦ error deleting ], db'')
      ]

  unfoldable pub claim_pending : JobQueue → Text → ℕ → r.Db → Result (List StreamEntry) × r.Db
  claim_pending q consumer_name min_idle db =
      let (reply, db') =
        r.xautoclaim q.stream_key q.group_name consumer_name min_idle (codes "0-0") 100 db in
      (
        elim reply [
          | ok messages ↦ parse_xmessages messages
          | failed f ↦ if text_beq (error_text f) (nogroup q) then returned [] else error claiming
        ],
        db',
      )

  unfoldable pub read_pending : JobQueue → Text → r.Db → Result (List StreamEntry) × r.Db
  unfolding entries_of
  read_pending q consumer_name db =
      let (reply, db') =
        r.xreadgroup q.group_name consumer_name q.stream_key (codes "0") 10 (negsuc 0) db in
      (entries_of reading_pending reply, db')

  unfoldable pub len : JobQueue → r.Db → Result ℕ × r.Db
  len q db =
      let (reply, db') = r.xlen q.stream_key db in
      (elim reply [ ok n ↦ returned n | failed _ ↦ error length_error ], db')
