-- ===== src/Queue/Redis.antt =====
-- Redis as the package's client sees it (github.com/redis/go-redis, not part of the repository): its
-- commands, three views of its state, and what its documentation says the commands do to them.
use auxot.Common.{
  ◌⊎◌, inl, inr, ℕ, ◌≡◌, refl, Bool, true, false, List, [], ◌∷◌, ◌++◌, map, Text, drop, codes, take,
  text_comparable, if◌then◌else◌, ltb, text_beq,
}
use auxot.Common.Assoc.{Assoc, erase}
use auxot.Common.Int.{ℤ}

-- redis.XMessage; the values that Redis returns are strings.
pub record XMessage : Type 0 where
  pub id : Text
  pub values : Assoc Text Text

-- redis.XStream
pub record XStream : Type 0 where
  pub stream : Text
  pub messages : List XMessage

-- redis.XPending: the number of pending entries, and of those of each consumer.
pub record XPending : Type 0 where
  pub count : ℕ
  pub consumers : Assoc Text ℕ

-- An error of a command: redis.Nil, or a message.
pub data Failure : Type 0 where
  nil_reply : Failure
  message : Text → Failure

pub data Reply {ℓ} (A : Type ℓ) : Type ℓ where
  ok : A → Reply A
  failed : Failure → Reply A

abbrev pub error_text : Failure → Text
error_text nil_reply = codes "redis: nil"
error_text (message t) = t

-- A pending entries list: each entry's ID with the consumer that holds it.
abbrev pub Pel : Type 0
Pel = Assoc Text Text

abbrev pub contains : List Text → Text → Bool
contains [] a = false
contains (x ∷ xs) a = if text_beq x a then true else contains xs a

-- The list after the entries `ids` have been given to `consumer`.
unfoldable pub claimed : List Text → Text → Pel → Pel
claimed ids consumer [] = []
claimed ids consumer ((i, c) ∷ m) =
    (i, if contains ids i then consumer else c) ∷ claimed ids consumer m

-- The list after a consumer has been deleted with what it held.
unfoldable pub dropped : Text → Pel → Pel
dropped consumer [] = []
dropped consumer ((i, c) ∷ m) =
    if text_beq c consumer then dropped consumer m else (i, c) ∷ dropped consumer m

-- The IDs of the entries that a consumer holds.
unfoldable pub held : Text → Pel → List Text
held consumer [] = []
held consumer ((i, c) ∷ m) = if text_beq c consumer then i ∷ held consumer m else held consumer m

pub record Redis : Type 1 where
  pub Db : Type 0
  -- key, group, first ID
  pub xgroup_create_mkstream : Text → Text → Text → Db → Reply (Unit {0}) × Db
  -- key, values
  pub xadd : Text → Assoc Text Text → Db → Reply Text × Db
  -- group, consumer, key, ID, count, block
  pub xreadgroup : Text → Text → Text → Text → ℕ → ℤ → Db → Reply (List XStream) × Db
  -- key, last ID, count, block
  pub xread : Text → Text → ℤ → ℤ → Db → Reply (List XStream) × Db
  -- key, group, ID
  pub xack : Text → Text → Text → Db → Reply ℕ × Db
  -- key, ID
  pub xdel : Text → Text → Db → Reply ℕ × Db
  pub xlen : Text → Db → Reply ℕ × Db
  -- key, group, consumer, minimal idle time, first ID, count
  pub xautoclaim : Text → Text → Text → ℕ → Text → ℕ → Db → Reply (List XMessage) × Db
  -- key, group
  pub xpending : Text → Text → Db → Reply XPending × Db
  -- key, group, first ID, last ID, count, consumer; the entries' IDs
  pub xpending_ext : Text → Text → Text → Text → ℕ → Text → Db → Reply (List Text) × Db
  -- key, group, consumer, minimal idle time, IDs
  pub xclaim : Text → Text → Text → ℕ → List Text → Db → Reply (List XMessage) × Db
  -- key, group, consumer
  pub xgroup_delconsumer : Text → Text → Text → Db → Reply ℕ × Db
  -- key, value, time to live
  pub set : Text → Text → ℕ → Db → Reply (Unit {0}) × Db
  pub exists : Text → Db → Reply ℕ × Db
  pub del : Text → Db → Reply ℕ × Db
  -- cursor, pattern, count; the keys and the next cursor
  pub scan : ℕ → Text → ℕ → Db → Reply (List Text × ℕ) × Db
  -- key, time to live
  pub expire : Text → ℕ → Db → Reply Bool × Db
  -- The pending entries of a stream's group, in the order of their IDs.
  pub pending : Text → Text → Db → Pel
  -- The messages of a stream that its group has not delivered to anyone, oldest first.
  pub waiting : Text → Text → Db → List XMessage
  -- The values of a stream's messages, oldest first.
  pub history : Text → Db → List (Assoc Text Text)
  -- Whether a key holds a string.
  pub is_set : Text → Db → Bool

pub Reply-cases {ℓ} :
    {A : Type ℓ} (reply : Reply A)
    → ((f : Failure) × (reply ≡ failed f)) ⊎ ((a : A) × (reply ≡ ok a))
Reply-cases (ok a) = inr (a, refl)
Reply-cases (failed f) = inl (f, refl)

-- By the outcome of a command.
abbrev pub on_ok {ℓ κ} : {A : Type ℓ} {B : Type κ} → Reply A → B → B → B
on_ok (ok _) then_ else_ = then_
on_ok (failed _) then_ else_ = else_

abbrev pub IsOk {ℓ} : {A : Type ℓ} → Reply A → Type 0
IsOk (ok _) = Unit {0}
IsOk (failed _) = ⊥

-- A command that leaves a view of the state alone, whatever it replies.
abbrev pub Frames : (r : Redis) {A V : Type 0} → (r.Db → V) → (r.Db → Reply A × r.Db) → Type 0
Frames r view command = (db : r.Db) → view (command db).1 ≡ view db

-- The documented effects on a stream `key` with a group `group`, and on the other streams. A command
-- that fails changes nothing: a reply that is lost on its way is not covered.
pub record Documented (r : Redis) (key group : Text) : Type 0 where
  -- XACK takes an entry off the list. XDEL, XADD and EXPIRE with a time in the future leave the list
  -- alone, and so do the commands that only read.
  pub xack_pending :
      (id : Text) (db : r.Db)
      → r.pending key group (r.xack key group id db).1
        ≡ on_ok
            (r.xack key group id db).0
            (erase id (r.pending key group db))
            (r.pending key group db)
  pub xdel_pending : (id : Text) → Frames r (r.pending key group) (r.xdel key id)
  pub xadd_pending :
      (k : Text) (values : Assoc Text Text) → Frames r (r.pending key group) (r.xadd k values)
  pub expire_pending :
      (k : Text) (ttl : ℕ) → ltb 0 ttl ≡ true → Frames r (r.pending key group) (r.expire k ttl)
  pub exists_pending : (k : Text) → Frames r (r.pending key group) (r.exists k)
  pub scan_pending :
      (cursor : ℕ) (pattern : Text) (count : ℕ)
      → Frames r (r.pending key group) (r.scan cursor pattern count)
  pub xpending_pending : Frames r (r.pending key group) (r.xpending key group)
  pub xpending_ext_pending :
      (count : ℕ) (consumer : Text)
      → Frames r
          (r.pending key group)
          (r.xpending_ext key group (codes "-") (codes "+") count consumer)
  -- XPENDING lists the first entries of a consumer, no more than `count`.
  pub xpending_ext_ok :
      (count : ℕ) (consumer : Text) (db : r.Db) (ids : List Text)
      → (r.xpending_ext key group (codes "-") (codes "+") count consumer db).0 ≡ ok ids
      → ids ≡ take count (held consumer (r.pending key group db))
  -- XCLAIM with no minimal idle time changes the holder of the entries that it is given. A pending
  -- entry is taken to be in the stream still: the program deletes none before its XACK, and no
  -- XADD of the job queue trims the stream.
  pub xclaim_pending :
      (consumer : Text) (ids : List Text) (db : r.Db)
      → r.pending key group (r.xclaim key group consumer 0 ids db).1
        ≡ on_ok
            (r.xclaim key group consumer 0 ids db).0
            (claimed ids consumer (r.pending key group db))
            (r.pending key group db)
  -- XGROUP DELCONSUMER takes all that the consumer holds off the list.
  pub xgroup_delconsumer_pending :
      (consumer : Text) (db : r.Db)
      → r.pending key group (r.xgroup_delconsumer key group consumer db).1
        ≡ on_ok
            (r.xgroup_delconsumer key group consumer db).0
            (dropped consumer (r.pending key group db))
            (r.pending key group db)
  -- XREADGROUP with the ID ">" delivers the oldest messages that nobody has had, in order, and
  -- enters them under the consumer.
  pub xreadgroup_new :
      (consumer : Text) (count : ℕ) (block : ℤ) (db : r.Db) (results : List XStream)
      → (r.xreadgroup group consumer key (codes ">") count block db).0 ≡ ok results
      → (results ≡ record { stream = key; messages = take count (r.waiting key group db) } ∷ [])
        × (r.waiting key group (r.xreadgroup group consumer key (codes ">") count block db).1
            ≡ drop count (r.waiting key group db))
        × (r.pending key group (r.xreadgroup group consumer key (codes ">") count block db).1
            ≡ r.pending key group db
              ++ map (λ m. (m.id, consumer)) (take count (r.waiting key group db)))
  -- XADD appends a message under the ID that it replies, to the stream that it names.
  pub xadd_waiting :
      (values : Assoc Text Text) (db : r.Db) (id : Text)
      → (r.xadd key values db).0 ≡ ok id
      → r.waiting key group (r.xadd key values db).1
        ≡ r.waiting key group db ++ record { id = id; values = values } ∷ []
  pub xadd_history :
      (k other : Text) (values : Assoc Text Text) (db : r.Db)
      → r.history other (r.xadd k values db).1
        ≡ on_ok
            (r.xadd k values db).0
            (if text_beq k other then r.history other db ++ values ∷ [] else r.history other db)
            (r.history other db)
  -- The commands on the job stream leave the other streams alone.
  pub xack_history : (id k : Text) → Frames r (r.history k) (r.xack key group id)
  pub xdel_history : (id k : Text) → text_beq key k ≡ false → Frames r (r.history k) (r.xdel key id)
  pub expire_history :
      (k : Text) (ttl : ℕ) (j : Text) → ltb 0 ttl ≡ true → Frames r (r.history j) (r.expire k ttl)
  -- EXISTS counts.
  pub exists_ok :
      (k : Text) (db : r.Db) (n : ℕ) → (r.exists k db).0 ≡ ok n → ltb 0 n ≡ r.is_set k db
  pub xpending_is_set : (j : Text) → Frames r (r.is_set j) (r.xpending key group)
  pub exists_is_set : (k j : Text) → Frames r (r.is_set j) (r.exists k)
