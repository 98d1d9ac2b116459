-- ===== src/Router/Dispatch/Delivery/Again.antt =====
-- internal/router/wshandler.go: an entry that is read again, since it stays on the list of pending
-- entries until the job ends.
use auxot.Common.{
  ℕ, ◌≡◌, refl, sym, ◌∙◌, ap, inl, inr, Bool, true, some, Text, text_comparable, Bool-cases,
  is_some, is_empty, if◌then◌else◌, ◌&&◌,
}
use auxot.Common.Assoc.{Assoc, lookup}
use auxot.Protocol.{Json, JobMessage}
use auxot.Queue.Redis.{Redis, Documented}
use auxot.Queue.Jobs.{StreamEntry}
use auxot.Queue.Tokens.{EventCodec}
use auxot.Router.Conn.{WorkerConn, assign_job, assign_ok, assign_duplicate, assign_at_capacity}
use auxot.Queue.Tokens.Laws.{publish-pending, set_ttl-pending}
use auxot.Router.ToolsState.{stream_ttl_dispatched}
use auxot.Router.Dispatch.{
  WsHandler, World, DispatchResult, already_assigned, dispatch_to_worker, send_job,
}
use auxot.Router.Dispatch.Delivery.{job_of, job_of-job_id, assign_outcome, with_context}

module _ (r : Redis) (json : Json) (codec : EventCodec) (h : WsHandler) where
  abbrev dispatch : ℕ → Bool → StreamEntry → World r → DispatchResult × World r
  dispatch = dispatch_to_worker r json codec h

  duplicate :
      (now : ℕ) (job_id entry_id : Text) (wc : WorkerConn)
      → is_some (lookup job_id wc.active_jobs) ≡ true
      → (assign_job now job_id entry_id wc).0 ≡ assign_duplicate
  unfolding assign_job
  duplicate now job_id entry_id wc held = rw (held, assign_job)

  -- A job that the connection holds is not sent.
  dispatch_held :
      (now : ℕ) (delivers : Bool) (entry : StreamEntry) (w : World r) (parsed : JobMessage)
      → json.unmarshal_job entry.payload.body ≡ some parsed
      → is_some (lookup (job_of parsed entry w).job_id w.conn.active_jobs) ≡ true
      → dispatch now delivers entry w
        ≡ (already_assigned, with_context r json codec h parsed entry w)
  dispatch_held now delivers entry w parsed e held =
      let dup = duplicate now (job_of parsed entry w).job_id entry.id w.conn held in
      elim (assign_outcome r json codec h now delivers entry w parsed e) [
        | inl (_, done) ↦ done
        | inr (inl (full, done)) ↦
            let no : assign_at_capacity ≡ assign_duplicate = sym full ∙ dup in cc
        | inr (inr (took, done)) ↦ let no : assign_ok ≡ assign_duplicate = sym took ∙ dup in cc
      ]

  -- The ID of an entry's job: its own, or else the entry's.
  abbrev pub id_of : JobMessage → StreamEntry → Text
  id_of parsed entry = if is_empty parsed.job_id then entry.payload.job_id else parsed.job_id

  -- An entry whose job the connection holds is not sent, in whatever state it is read and whatever the
  -- worker was sent since the job: the attempt says that the job is assigned already, and leaves
  -- Redis, the pool, the connection and what has been sent as they are.
  pub dispatch_again :
      (now : ℕ) (delivers : Bool) (entry : StreamEntry) (w : World r) (parsed : JobMessage)
      → json.unmarshal_job entry.payload.body ≡ some parsed
      → is_some (lookup (id_of parsed entry) w.conn.active_jobs) ≡ true
      → let (result, w') = dispatch_to_worker r json codec h now delivers entry w in
        (result ≡ already_assigned)
        × (w'.db ≡ w.db)
        × (w'.pool ≡ w.pool)
        × (w'.conn ≡ w.conn)
        × (w'.sent ≡ w.sent)
  dispatch_again now delivers entry w parsed e holds =
      let held =
        ap (λ j. is_some (lookup j w.conn.active_jobs)) (job_of-job_id parsed entry w) ∙ holds in
      rw (dispatch_held now delivers entry w parsed e held) (refl, refl, refl, refl, refl)

  module _ (doc : Documented r h.job_queue.stream_key h.job_queue.group_name) where
    abbrev pending : r.Db → Assoc Text Text
    pending = r.pending h.job_queue.stream_key h.job_queue.group_name

    send_job-pending :
        (now : ℕ) (delivers : Bool) (job : JobMessage) (w : World r)
        → pending (send_job r json codec h now delivers job w).1.db ≡ pending w.db
    unfolding send_job
    send_job-pending now delivers job w =
        elim (Bool-cases (is_some (json.marshal_job job) && delivers)) [
          | inl ok ↦
              rw (ok, send_job)
                (set_ttl-pending r codec h.job_queue doc h.token_stream job.job_id
                    stream_ttl_dispatched _ refl
                  ∙ publish-pending r codec h.job_queue doc h.token_stream job.job_id _ w.db)
          | inr lost ↦ rw (lost, send_job)
        ]

    -- Until its job ends, an entry stays pending: whatever comes of an attempt to send an entry that
    -- holds a job, the list of pending entries is as before.
    pub dispatch-pending :
        (now : ℕ) (delivers : Bool) (entry : StreamEntry) (w : World r) (parsed : JobMessage)
        → json.unmarshal_job entry.payload.body ≡ some parsed
        → r.pending h.job_queue.stream_key h.job_queue.group_name
            (dispatch_to_worker r json codec h now delivers entry w).1.db
          ≡ r.pending h.job_queue.stream_key h.job_queue.group_name w.db
    dispatch-pending now delivers entry w parsed e =
        elim (assign_outcome r json codec h now delivers entry w parsed e) [
          | inl (_, done) ↦ rw done
          | inr (inl (_, done)) ↦ rw done
          | inr (inr (_, done)) ↦ rw done (send_job-pending now delivers (job_of parsed entry w) _)
        ]
