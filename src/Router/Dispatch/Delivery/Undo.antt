-- ===== src/Router/Dispatch/Delivery/Undo.antt =====
-- internal/router/wshandler.go: the connection and the pool stay in step over dispatchToWorker, and
-- a failed send leaves no trace in them.
use auxot.Common.{ℕ, ◌≡◌, refl, sym, ◌∙◌, ap, inl, inr, Bool, Text, Option-cases, arith}
use auxot.Protocol.{Json, JobMessage}
use auxot.Queue.Redis.{Redis}
use auxot.Queue.Jobs.{StreamEntry}
use auxot.Queue.Tokens.{EventCodec}
use auxot.Router.Conn.{WorkerConn, assign_job, assign_ok}
use auxot.Router.Conn.Slots.{InSync, assign-InSync, complete-assign}
use auxot.Router.Dispatch.{
  WsHandler, World, dispatched, dispatch_failed, dispatch_to_worker, send_job,
}
use auxot.Router.Dispatch.Delivery.{
  job_of, send_outcome, assign_outcome, corrupt_outcome, with_context,
}

-- The two counts of a state.
abbrev pub Synced : {r : Redis} → World r → Type 0
Synced w = InSync w.conn w.pool

module _ (r : Redis) (json : Json) (codec : EventCodec) (h : WsHandler) where
  -- The assignment keeps the connection's ID.
  assign_id :
      (now : ℕ) (job_id entry_id : Text) (wc : WorkerConn)
      → (assign_job now job_id entry_id wc).1.id ≡ wc.id
  unfolding assign_job
  assign_id now job_id entry_id wc = ground arith

  -- A failed send gives back what the assignment took; a send that works keeps it.
  sent-Synced :
      (now : ℕ) (delivers : Bool) (entry_id : Text) (job : JobMessage) (w : World r)
      → (assign_job now job.job_id entry_id w.conn).0 ≡ assign_ok
      → Synced w
      → let wc' = (assign_job now job.job_id entry_id w.conn).1 in
        let sent = send_job r json codec h now delivers job (record w { conn = wc' }) in
        Synced sent.1 × (sent.0 ≡ dispatch_failed → (sent.1.conn ≡ w.conn) × (sent.1.pool ≡ w.pool))
  sent-Synced now delivers entry_id job w e s =
      let wc' = (assign_job now job.job_id entry_id w.conn).1 in
      let same = assign_id now job.job_id entry_id w.conn in
      let undone = complete-assign now job.job_id entry_id w.conn w.pool e s in
      elim (send_outcome r json codec h now delivers job (record w { conn = wc' })) [
        | inl (result, conn', pool') ↦ (
          rw (conn', pool', same) (assign-InSync now job.job_id entry_id w.conn w.pool e s),
          λ lost. let no : dispatched ≡ dispatch_failed = sym result ∙ lost in cc,
        )
        | inr (result, conn', pool') ↦
            let conn_back = conn' ∙ undone.0 in
            let pool_back = pool' ∙ rw same undone.1 in
            (rw (conn_back, pool_back) s, λ lost. (conn_back, pool_back))
      ]

  pub dispatch-Synced :
      (now : ℕ) (delivers : Bool) (entry : StreamEntry) (w : World r)
      → Synced w
      → Synced (dispatch_to_worker r json codec h now delivers entry w).1
  dispatch-Synced now delivers entry w s =
      elim (Option-cases (json.unmarshal_job entry.payload.body)) [
        | inl corrupt ↦ rw (corrupt_outcome r json codec h now delivers entry w corrupt) s
        | inr (parsed, e) ↦ elim (assign_outcome r json codec h now delivers entry w parsed e) [
          | inl (_, done) ↦ rw done s
          | inr (inl (_, done)) ↦ rw done s
          | inr (inr (took, done)) ↦ rw done (
              (sent-Synced now delivers entry.id (job_of parsed entry w)
                (with_context r json codec h parsed entry w) took s).0)
        ]
      ]

  -- If a job cannot be sent to a worker whose connection and pool entry are in step, both are as
  -- before the attempt.
  pub dispatch_failed_undone :
      (now : ℕ) (delivers : Bool) (entry : StreamEntry) (w : World r)
      → Synced w
      → (dispatch_to_worker r json codec h now delivers entry w).0 ≡ dispatch_failed
      → let w' = (dispatch_to_worker r json codec h now delivers entry w).1 in
        (w'.conn ≡ w.conn) × (w'.pool ≡ w.pool)
  dispatch_failed_undone now delivers entry w s lost =
      elim (Option-cases (json.unmarshal_job entry.payload.body)) [
        | inl corrupt ↦
            rw (corrupt_outcome r json codec h now delivers entry w corrupt) (refl, refl)
        | inr (parsed, e) ↦ elim (assign_outcome r json codec h now delivers entry w parsed e) [
          | inl (_, done) ↦ rw done (refl, refl)
          | inr (inl (_, done)) ↦ rw done (refl, refl)
          | inr (inr (took, done)) ↦ rw done (
              (sent-Synced now delivers entry.id (job_of parsed entry w)
                  (with_context r json codec h parsed entry w) took s).1
                (ap (λ x. x.0) (sym done) ∙ lost))
        ]
      ]
