-- ===== src/Router/Handlers/Settled.antt =====
-- internal/router/wshandler.go: the end of a job, by its completion or its error.
use auxot.Common.{
  ℕ, ◌≡◌, refl, sym, ◌∙◌, ap, ◌⊎◌, inl, inr, Bool, false, some, Text, text_comparable, is_empty,
  not, Bool-cases,
}
use auxot.Common.Assoc.{Assoc, lookup, erase}
use auxot.Protocol.{Json, CompleteMessage, ErrorMessage}
use auxot.Queue.Redis.{Redis, Documented, on_ok}
use auxot.Queue.Jobs.Laws.{ack-pending}
use auxot.Queue.Tokens.{TokenEvent, EventCodec}
use auxot.Queue.Tokens.Laws.{publish-pending, set_ttl-pending}
use auxot.Router.Conn.{ActiveJob, complete_job}
use auxot.Router.Conn.Slots.{InSync, complete-InSync, complete_job-conn}
use auxot.Router.ToolsState.{stream_ttl_done}
use auxot.Router.Dispatch.{WsHandler, World, ack_entry}
use auxot.Router.Handlers.{
  settle, publish_last, done_event, error_event, try_continuation, handle_complete,
  handle_worker_error,
}

-- A job that has ended: it is off the connection, the others are as before, and what has become of
-- the list of pending entries is what Redis replies to an XACK of the job's entry in the state
-- `acking`: on success the entry is off the list, and on an error the list is as before.
pub record Ended (r : Redis) (h : WsHandler) (job_id : Text) (aj : ActiveJob) (acking : r.Db)
    (w w' : World r) : Type 0 where
  pub freed : w'.conn.active_jobs ≡ erase job_id w.conn.active_jobs
  pub acknowledged :
      r.pending h.job_queue.stream_key h.job_queue.group_name w'.db
      ≡ on_ok
          (r.xack h.job_queue.stream_key h.job_queue.group_name aj.entry_id acking).0
          (erase aj.entry_id (r.pending h.job_queue.stream_key h.job_queue.group_name w.db))
          (r.pending h.job_queue.stream_key h.job_queue.group_name w.db)

module _ (r : Redis) (json : Json) (codec : EventCodec) (h : WsHandler) where
  settle-InSync :
      (job_id : Text) (w : World r)
      → InSync w.conn w.pool
      → let w' = settle r json codec h job_id w in InSync w'.conn w'.pool
  unfolding settle
  settle-InSync job_id w s = complete-InSync job_id w.conn w.pool s

  -- The two ends of handleComplete change neither the connection nor the pool.
  complete_frame :
      (ids : ℕ → Text) (delivers : Text → Bool) (msg : CompleteMessage) (w : World r)
      → let w' = handle_complete r json codec h ids delivers msg w in
        let settled = settle r json codec h msg.job_id w in
        (w'.conn ≡ settled.conn)
        × (w'.pool ≡ settled.pool)
        × ((w'.db ≡ settled.db)
            ⊎ (w'.db
                ≡ publish_last r json codec h msg.job_id
                    (done_event r json codec h msg)
                    settled.db))
  unfolding handle_complete
  complete_frame ids delivers msg w =
      elim (Bool-cases (try_continuation json ids delivers msg w.tools).0) [
        | inl started ↦ (
          rw (started, handle_complete),
          rw (started, handle_complete),
          inl (rw (started, handle_complete)),
        )
        | inr passed ↦ (
          rw (passed, handle_complete),
          rw (passed, handle_complete),
          inr (rw (passed, handle_complete)),
        )
      ]

  pub complete-InSync_handler :
      (ids : ℕ → Text) (delivers : Text → Bool) (msg : CompleteMessage) (w : World r)
      → InSync w.conn w.pool
      → let w' = handle_complete r json codec h ids delivers msg w in InSync w'.conn w'.pool
  complete-InSync_handler ids delivers msg w s =
      let (conn', pool', _) = complete_frame ids delivers msg w in
      rw (conn', pool') (settle-InSync msg.job_id w s)

  -- The state after the error has been published.
  abbrev pub with_error : ErrorMessage → World r → World r
  with_error msg w = record w {
    db = publish_last r json codec h msg.job_id (error_event r json codec h msg) w.db;
  }

  pub error-InSync :
      (msg : ErrorMessage) (w : World r)
      → InSync w.conn w.pool
      → let w' = handle_worker_error r json codec h msg w in InSync w'.conn w'.pool
  unfolding handle_worker_error
  error-InSync msg w s = elim (Bool-cases (not (is_empty msg.job_id))) [
    | inl e ↦ rw (e, handle_worker_error) (settle-InSync msg.job_id (with_error msg w) s)
    | inr e ↦ rw (e, handle_worker_error) s
  ]

  module _ (doc : Documented r h.job_queue.stream_key h.job_queue.group_name) where
    abbrev pending : r.Db → Assoc Text Text
    pending = r.pending h.job_queue.stream_key h.job_queue.group_name

    publish_last-pending :
        (job_id : Text) (event : TokenEvent) (db : r.Db)
        → pending (publish_last r json codec h job_id event db) ≡ pending db
    unfolding publish_last
    publish_last-pending job_id event db =
        set_ttl-pending r codec h.job_queue doc h.token_stream job_id stream_ttl_done _ refl
        ∙ publish-pending r codec h.job_queue doc h.token_stream job_id event db

    ack_entry-pending :
        (entry_id : Text) (db : r.Db)
        → is_empty entry_id ≡ false
        → pending (ack_entry r json codec h entry_id db)
          ≡ on_ok
              (r.xack h.job_queue.stream_key h.job_queue.group_name entry_id db).0
              (erase entry_id (pending db))
              (pending db)
    unfolding ack_entry
    ack_entry-pending entry_id db named = rw named (ack-pending r h.job_queue doc entry_id db)

    settle-Ended :
        (job_id : Text) (aj : ActiveJob) (w : World r)
        → lookup job_id w.conn.active_jobs ≡ some aj
        → is_empty aj.entry_id ≡ false
        → Ended r h job_id aj w.db w (settle r json codec h job_id w)
    unfolding settle complete_job
    settle-Ended job_id aj w e named = record {
      freed = ap (λ wc. wc.active_jobs) (complete_job-conn job_id w.conn);
      acknowledged = rw (e, complete_job) (ack_entry-pending aj.entry_id w.db named);
    }

    -- Where the connection holds the completed job under a Redis entry, handleComplete takes the job
    -- off the connection and no other, and acknowledges its entry: if Redis accepts XACK of the entry
    -- in the state that the message found, the entry is off the list of pending entries, and if it
    -- refuses, the list is as before. So it does whether the tool calls go on to a tools worker or
    -- not.
    pub handle_complete-Ended :
        (ids : ℕ → Text) (delivers : Text → Bool) (msg : CompleteMessage) (aj : ActiveJob)
        (w : World r)
        → lookup msg.job_id w.conn.active_jobs ≡ some aj
        → is_empty aj.entry_id ≡ false
        → Ended r h msg.job_id aj w.db w (handle_complete r json codec h ids delivers msg w)
    handle_complete-Ended ids delivers msg aj w e named =
        let (conn', _, db') = complete_frame ids delivers msg w in
        let settled = settle-Ended msg.job_id aj w e named in
        let same : pending (handle_complete r json codec h ids delivers msg w).db
            ≡ pending (settle r json codec h msg.job_id w).db =
          elim db' [
            | inl d ↦ ap pending d
            | inr d ↦
                ap pending d ∙ publish_last-pending msg.job_id (done_event r json codec h msg) _
          ] in
        record {
          freed = ap (λ wc. wc.active_jobs) conn' ∙ settled.freed;
          acknowledged = rw same settled.acknowledged;
        }

    -- An error that names a job which the connection holds under a Redis entry takes the job off the
    -- connection and no other, and acknowledges its entry once the error has been published: if Redis
    -- then accepts XACK of the entry, the entry is off the list of pending entries, and if it
    -- refuses, the list is as before.
    pub handle_worker_error-Ended :
        (msg : ErrorMessage) (aj : ActiveJob) (w : World r)
        → is_empty msg.job_id ≡ false
        → lookup msg.job_id w.conn.active_jobs ≡ some aj
        → is_empty aj.entry_id ≡ false
        → Ended r h msg.job_id aj (with_error msg w).db w (handle_worker_error r json codec h msg w)
    unfolding handle_worker_error
    handle_worker_error-Ended msg aj w id e named =
        let settled = settle-Ended msg.job_id aj (with_error msg w) e named in
        let same = publish_last-pending msg.job_id (error_event r json codec h msg) w.db in
        rw (id, handle_worker_error)
          (record { freed = settled.freed; acknowledged = rw (sym same) settled.acknowledged })
