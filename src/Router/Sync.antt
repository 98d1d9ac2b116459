-- ===== src/Router/Sync.antt =====
-- internal/router/wshandler.go: what holds between the handlers of a connection that run one by one.
use auxot.Common.{
  ℕ, ◌*◌, ◌^◌, Bool, List, [], ◌∷◌, Text, text_comparable, inl, inr, length, Bool-cases, ltb,
}
use auxot.Common.Int.{pos}
use auxot.Gpu
use auxot.Protocol.{Json, CompleteMessage, ErrorMessage, TokenMessage}
use auxot.Queue.Redis.{Redis}
use auxot.Queue.Jobs.{StreamEntry, Result-cases, read, read_pending, new_blocking_reader}
use auxot.Queue.Tokens.{EventCodec}
use auxot.Router.Conn.{has_capacity}
use auxot.Router.Conn.Slots.{InSync}
use auxot.Router.Dispatch.{WsHandler, World, dispatch_to_worker, expire_stale_jobs}
use auxot.Router.Handlers.{
  handle_config, handle_heartbeat, handle_token, handle_tool_generating, handle_complete,
  handle_worker_error,
}
use auxot.Router.Reader.{job_reader_round, dispatch_each, read_round, read_new}
use auxot.Router.Dispatch.Delivery.Undo.{dispatch-Synced}
use auxot.Router.Dispatch.Expiry.{expire-InSync}
use auxot.Router.Handlers.Config.{config-InSync, heartbeat-InSync}
use auxot.Router.Handlers.Settled.{complete-InSync_handler, error-InSync}

-- One thing that happens on a connection.
pub data Event : Type 0 where
  reads : ℕ → (Text → Bool) → Event
  configures : Bool → Gpu.Capabilities → Event
  beats : ℕ → Bool → Event
  sends_token : TokenMessage → Event
  generates_tool : Text → Event
  completes : (ℕ → Text) → (Text → Bool) → CompleteMessage → Event
  fails : ErrorMessage → Event

module _ (r : Redis) (json : Json) (codec : EventCodec) (h : WsHandler) where
  unfoldable pub handle : World r → Event → World r
  handle w (reads now delivers) = (job_reader_round r json codec h now delivers w).1
  handle w (configures delivers caps) = handle_config r json codec h delivers caps w
  handle w (beats now delivers) = handle_heartbeat r json codec h now delivers w
  handle w (sends_token msg) = handle_token r json codec h msg w
  handle w (generates_tool job_id) = handle_tool_generating r json codec h job_id w
  handle w (completes ids delivers msg) = handle_complete r json codec h ids delivers msg w
  handle w (fails msg) = handle_worker_error r json codec h msg w

  unfoldable pub handle_all : World r → List Event → World r
  unfolding handle
  handle_all w [] = w
  handle_all w (e ∷ events) = handle_all (handle w e) events

  dispatch_each-InSync :
      (now : ℕ) (delivers : Text → Bool) (entries : List StreamEntry) (w : World r)
      → InSync w.conn w.pool
      → let w' = (dispatch_each r json codec h now delivers entries w).1 in InSync w'.conn w'.pool
  unfolding dispatch_each
  dispatch_each-InSync now delivers [] w s = s
  dispatch_each-InSync now delivers (entry ∷ entries) w s =
      dispatch_each-InSync now delivers entries
        (dispatch_to_worker r json codec h now (delivers entry.id) entry w).1
        (dispatch-Synced r json codec h now (delivers entry.id) entry w s)

  read_new-InSync :
      (now : ℕ) (delivers : Text → Bool) (w : World r)
      → InSync w.conn w.pool
      → let w' = (read_new r json codec h now delivers w).1 in InSync w'.conn w'.pool
  unfolding read_new
  read_new-InSync now delivers w s =
      let reader = new_blocking_reader r h.job_queue in
      let reading = read r reader w.conn.id (pos (30 * 10 ^ 9)) w.db in
      let w' : World r = record w { db = reading.1 } in
      elim (Result-cases reading.0) [
        | inl (_, e) ↦ rw (e, read_new) s
        | inr (entries, e) ↦ rw (e, read_new) (dispatch_each-InSync now delivers entries w' s)
      ]

  read_round-InSync :
      (now : ℕ) (delivers : Text → Bool) (w : World r)
      → InSync w.conn w.pool
      → let w' = (read_round r json codec h now delivers w).1 in InSync w'.conn w'.pool
  unfolding read_round
  read_round-InSync now delivers w s =
      let reading = read_pending r h.job_queue w.conn.id w.db in
      let w' : World r = record w { db = reading.1 } in
      elim (Result-cases reading.0) [
        | inl (_, e) ↦ rw (e, read_round) s
        | inr (entries, e) ↦ elim (Bool-cases (ltb 0 (length entries))) [
          | inl some_pending ↦
              rw (e, read_round, some_pending) (dispatch_each-InSync now delivers entries w' s)
          | inr nothing ↦ rw (e, read_round, nothing) (read_new-InSync now delivers w' s)
        ]
      ]

  round-InSync :
      (now : ℕ) (delivers : Text → Bool) (w : World r)
      → InSync w.conn w.pool
      → let w' = (job_reader_round r json codec h now delivers w).1 in InSync w'.conn w'.pool
  unfolding job_reader_round
  round-InSync now delivers w s = elim (Bool-cases (has_capacity w.conn)) [
    | inl free ↦
        rw (free, job_reader_round)
          (read_round-InSync now delivers (expire_stale_jobs r json codec h now w)
            (expire-InSync r json codec h now w s))
    | inr full ↦ rw (full, job_reader_round) s
  ]

  pub handle-InSync :
      (w : World r) (e : Event) → InSync w.conn w.pool → InSync (handle w e).conn (handle w e).pool
  unfolding handle handle_token handle_tool_generating
  handle-InSync w (reads now delivers) s = round-InSync now delivers w s
  handle-InSync w (configures delivers caps) s = config-InSync r json codec h delivers caps w s
  handle-InSync w (beats now delivers) s = heartbeat-InSync r json codec h now delivers w s
  handle-InSync w (sends_token msg) s = s
  handle-InSync w (generates_tool job_id) s = s
  handle-InSync w (completes ids delivers msg) s =
      complete-InSync_handler r json codec h ids delivers msg w s
  handle-InSync w (fails msg) s = error-InSync r json codec h msg w s

  -- Rounds of the job reader and messages of the worker that run one after the other, each to its
  -- end before the next begins, keep the pool and the connection in step, in whatever order they
  -- come: the pool has the worker, with the connection's jobs in flight and its number of slots, if
  -- it was so at the start. Nothing is said of a round that overlaps with a message.
  pub handle_all-InSync :
      (w : World r) (events : List Event)
      → InSync w.conn w.pool
      → InSync (handle_all w events).conn (handle_all w events).pool
  unfolding handle_all
  handle_all-InSync w [] s = s
  handle_all-InSync w (e ∷ events) s = handle_all-InSync (handle w e) events (handle-InSync w e s)
