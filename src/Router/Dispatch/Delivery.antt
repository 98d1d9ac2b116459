-- ===== src/Router/Dispatch/Delivery.antt =====
-- internal/router/wshandler.go: the outcomes of dispatchToWorker, and what each does to the
-- connection, the pool, and the list of pending entries.
pub mod Undo
pub mod Again
pub mod Threads
pub mod Tests
use auxot.Common.{
  ℕ, ◌≡◌, refl, sym, ◌∙◌, ap, ◌⊎◌, inl, inr, Bool, true, false, Option, none, some, List, [], ◌∷◌,
  Text, text_comparable, ◌&&◌, is_some, is_empty, if◌then◌else◌, Bool-cases, Option-cases, ◌++◌,
  arith, codes,
}
use auxot.Common.Assoc.{lookup, insert, erase, lookup-insert_self}
use auxot.Protocol.{Json, JobMessage}
use auxot.Gpu
use auxot.Queue.Redis.{Redis, Documented, Reply-cases}
use auxot.Queue.Jobs.{JobQueue, StreamEntry, ack}
use auxot.Queue.Tokens.{TokenStream, TokenEvent, EventCodec, publish, set_ttl, stream_key}
use auxot.Router.Conn.{
  WorkerConn, AssignResult, assign_ok, assign_duplicate, assign_at_capacity, assign_job,
  complete_job,
}
use auxot.Router.Conn.Slots.{
  InSync, Assigned, assign_job-Assigned, assign-InSync, complete-InSync, complete-assign,
}
use auxot.Router.Dispatch.{
  WsHandler, World, DispatchResult, dispatched, already_assigned, worker_full, dispatch_failed,
  send_job, assign_and_send, dispatch_to_worker, named_job, with_tool_defs, save_context, job_to,
}
use auxot.Router.ToolsState.{Tools}

pub AssignResult-cases :
    (a : AssignResult) → (a ≡ assign_duplicate) ⊎ (a ≡ assign_at_capacity) ⊎ (a ≡ assign_ok)
AssignResult-cases assign_duplicate = inl refl
AssignResult-cases assign_at_capacity = inr (inl refl)
AssignResult-cases assign_ok = inr (inr refl)

-- The job that an entry stands for, as it is sent to the worker.
pub job_of : {r : Redis} → JobMessage → StreamEntry → World r → JobMessage
job_of parsed entry w = with_tool_defs w.tools (named_job entry.payload.job_id parsed)

-- Its ID does not depend on the tools that are connected.
job_of-job_id :
    {r : Redis} (parsed : JobMessage) (entry : StreamEntry) (w : World r)
    → (job_of parsed entry w).job_id
      ≡ (if is_empty parsed.job_id then entry.payload.job_id else parsed.job_id)
unfolding job_of with_tool_defs named_job
job_of-job_id parsed entry w = elim (Option-cases w.tools) [
  | inl e ↦ rw (e, with_tool_defs)
  | inr (tools, e) ↦ rw (e, with_tool_defs)
]

module _ (r : Redis) (json : Json) (codec : EventCodec) (h : WsHandler) where
  abbrev dispatch : ℕ → Bool → StreamEntry → World r → DispatchResult × World r
  dispatch = dispatch_to_worker r json codec h

  -- Saving the context changes nothing but the tools handler's state.
  abbrev with_context : JobMessage → StreamEntry → World r → World r
  with_context parsed entry w = record w { tools = save_context (job_of parsed entry w) w.tools }

  -- A job that is sent, by its delivery.
  send_outcome :
      (now : ℕ) (delivers : Bool) (job : JobMessage) (w : World r)
      → (((send_job r json codec h now delivers job w).0 ≡ dispatched)
          × ((send_job r json codec h now delivers job w).1.conn ≡ w.conn)
          × ((send_job r json codec h now delivers job w).1.pool
              ≡ (Gpu.assign_job now w.conn.id job.job_id w.pool).1))
        ⊎ (((send_job r json codec h now delivers job w).0 ≡ dispatch_failed)
            × ((send_job r json codec h now delivers job w).1.conn
                ≡ (complete_job job.job_id w.conn).1)
            × ((send_job r json codec h now delivers job w).1.pool
                ≡ (Gpu.complete_job w.conn.id job.job_id
                    (Gpu.assign_job now w.conn.id job.job_id w.pool).1).1))
  unfolding send_job
  send_outcome now delivers job w = elim (Bool-cases (is_some (json.marshal_job job) && delivers)) [
    | inl sent ↦ inl (rw (sent, send_job), rw (sent, send_job), rw (sent, send_job))
    | inr lost ↦ inr (rw (lost, send_job), rw (lost, send_job), rw (lost, send_job))
  ]

  -- What dispatchToWorker comes to, by the slot that the job gets.
  assign_outcome :
      (now : ℕ) (delivers : Bool) (entry : StreamEntry) (w : World r) (parsed : JobMessage)
      → json.unmarshal_job entry.payload.body ≡ some parsed
      → let job = job_of parsed entry w in
        let tried = assign_job now job.job_id entry.id w.conn in
        let w1 = with_context parsed entry w in
        ((tried.0 ≡ assign_duplicate) × (dispatch now delivers entry w ≡ (already_assigned, w1)))
        ⊎ ((tried.0 ≡ assign_at_capacity) × (dispatch now delivers entry w ≡ (worker_full, w1)))
        ⊎ ((tried.0 ≡ assign_ok)
            × (dispatch now delivers entry w
                ≡ send_job r json codec h now delivers job (record w1 { conn = tried.1 })))
  unfolding dispatch_to_worker assign_and_send job_of
  assign_outcome now delivers entry w parsed e =
      let job = job_of parsed entry w in
      elim (AssignResult-cases (assign_job now job.job_id entry.id w.conn).0) [
        | inl a ↦ inl (a, rw (e, dispatch_to_worker, a, assign_and_send))
        | inr (inl a) ↦ inr (inl (a, rw (e, dispatch_to_worker, a, assign_and_send)))
        | inr (inr a) ↦ inr (inr (a, rw (e, dispatch_to_worker, a, assign_and_send)))
      ]

  corrupt_outcome :
      (now : ℕ) (delivers : Bool) (entry : StreamEntry) (w : World r)
      → json.unmarshal_job entry.payload.body ≡ none
      → dispatch now delivers entry w
        ≡ (dispatch_failed, record w { db = (ack r h.job_queue entry.id w.db).1 })
  unfolding dispatch_to_worker
  corrupt_outcome now delivers entry w e = rw (e, dispatch_to_worker)
