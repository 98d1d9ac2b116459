-- ===== src/Router/Dispatch.antt =====
-- internal/router/wshandler.go: a job goes from the queue to a GPU worker's connection, and is given
-- up when it is stale. `delivers` says whether a message reaches the worker's socket.
pub mod Delivery
pub mod Expiry
use auxot.Common.{
  ℕ, ◌≡◌, Bool, true, false, not, ◌&&◌, Option, none, some, List, [], ◌∷◌, ◌++◌, map, Text, codes,
  text_comparable, keep, is_some, is_empty, if◌then◌else◌,
}
use auxot.Protocol.{Json, JobMessage, Tool, type_job}
use auxot.Gpu
use auxot.Queue.Redis.{Redis, contains}
use auxot.Queue.Jobs.{JobQueue, StreamEntry, ack}
use auxot.Queue.Tokens.{TokenStream, TokenEvent, EventCodec, publish, set_ttl}
use auxot.Queue.Beats.{Heartbeat}
use auxot.Router.Conn.{
  WorkerConn, AssignResult, assign_ok, assign_duplicate, assign_at_capacity, assign_job,
  complete_job, StaleJob, stale_jobs,
}
use auxot.Router.ToolsState.{
  Tools, allowed_tool_defs, save_job_context, stream_ttl_dispatched, stream_ttl_done,
}

-- WSHandler's fields that do not change, with the texts of its job timeout and of an event's data.
pub record WsHandler : Type 0 where
  pub job_queue : JobQueue
  pub token_stream : TokenStream
  pub heartbeat : Heartbeat
  pub job_timeout : ℕ
  pub timeout_text : Text

-- A message to the worker.
pub data ServerMessage : Type 0 where
  job_to : JobMessage → ServerMessage
  config_ack heartbeat_ack : ServerMessage

-- What one connection's handlers change. `connected` says whether `workers` holds the connection.
pub record World (r : Redis) : Type 0 where
  pub db : r.Db
  pub pool : Gpu.Pool
  pub conn : WorkerConn
  pub tools : Option Tools
  pub connected : Bool
  pub sent : List ServerMessage

pub data DispatchResult : Type 0 where
  dispatched already_assigned worker_full dispatch_failed : DispatchResult

unfoldable pub tool_name : Tool → Text
tool_name t = t.function.name

unfoldable pub missing_defs : List Text → List Tool → List Tool
unfolding tool_name
missing_defs existing defs = keep (λ t. not (contains existing (tool_name t))) defs

-- The job as it is sent, but for its tools.
named_job : Text → JobMessage → JobMessage
named_job payload_id job = record job {
  type = type_job;
  job_id = if is_empty job.job_id then payload_id else job.job_id;
}

-- With the definitions of the allowed tools that it does not have.
with_tool_defs : Option Tools → JobMessage → JobMessage
unfolding missing_defs tool_name
with_tool_defs none job = job
with_tool_defs (some tools) job = record job {
  tools = job.tools ++ missing_defs (map tool_name job.tools) (allowed_tool_defs tools);
}

save_context : JobMessage → Option Tools → Option Tools
save_context job none = none
save_context job (some tools) = some (save_job_context job.job_id job tools)

module _ (r : Redis) (json : Json) (codec : EventCodec) (h : WsHandler) where
  -- After the job has a slot.
  send_job : ℕ → Bool → JobMessage → World r → DispatchResult × World r
  send_job now delivers job w =
      let pool' : Gpu.Pool = (Gpu.assign_job now w.conn.id job.job_id w.pool).1 in
      if is_some (json.marshal_job job) && delivers
      then (let sentinel : TokenEvent = record { type = codes "job_dispatched"; body = [] } in
          let (_, db1) = publish r codec h.token_stream job.job_id sentinel w.db in
          let (_, db2) = set_ttl r codec h.token_stream job.job_id stream_ttl_dispatched db1 in
          (dispatched, record w { db = db2; pool = pool'; sent = w.sent ++ job_to job ∷ [] }))
      else (
        dispatch_failed,
        record w {
          conn = (complete_job job.job_id w.conn).1;
          pool = (Gpu.complete_job w.conn.id job.job_id pool').1;
        },
      )

  -- From assignJob on.
  assign_and_send : ℕ → Bool → Text → JobMessage → World r → DispatchResult × World r
  unfolding send_job
  assign_and_send now delivers entry_id job w =
      let (result, conn') = assign_job now job.job_id entry_id w.conn in
      elim result [
        | assign_duplicate ↦ (already_assigned, w)
        | assign_at_capacity ↦ (worker_full, w)
        | assign_ok ↦ send_job now delivers job (record w { conn = conn' })
      ]

  unfoldable pub dispatch_to_worker : ℕ → Bool → StreamEntry → World r → DispatchResult × World r
  unfolding named_job with_tool_defs save_context assign_and_send
  dispatch_to_worker now delivers entry w = elim (json.unmarshal_job entry.payload.body) [
    | none ↦
        let (_, db') = ack r h.job_queue entry.id w.db in (dispatch_failed, record w { db = db' })
    | some parsed ↦
        let job : JobMessage = with_tool_defs w.tools (named_job entry.payload.job_id parsed) in
        assign_and_send now delivers entry.id job (record w { tools = save_context job w.tools })
  ]

  abbrev timeout_event : TokenEvent
  timeout_event = record {
    type = codes "error";
    body = json.marshal_strings (
        (codes "error", codes "job_timeout")
        ∷ (
          codes "details",
          codes "Job timed out after "
              ++ (h.timeout_text ++ codes " without completion from worker"),
        )
        ∷ []);
  }

  -- `Ack` if there is an entry ID.
  unfoldable pub ack_entry : Text → r.Db → r.Db
  ack_entry entry_id db =
      let (_, db') = ack r h.job_queue entry_id db in if is_empty entry_id then db else db'

  expire_job : StaleJob → World r → World r
  unfolding ack_entry
  expire_job s w =
      let db1 = ack_entry s.entry_id w.db in
      let (_, db2) = publish r codec h.token_stream s.job_id timeout_event db1 in
      let (_, db3) = set_ttl r codec h.token_stream s.job_id stream_ttl_done db2 in
      record w {
        db = db3;
        pool = (Gpu.complete_job w.conn.id s.job_id w.pool).1;
        conn = (complete_job s.job_id w.conn).1;
      }

  expire_each : List StaleJob → World r → World r
  unfolding expire_job
  expire_each [] w = w
  expire_each (s ∷ stale) w = expire_each stale (expire_job s w)

  unfoldable pub expire_stale_jobs : ℕ → World r → World r
  unfolding expire_each
  expire_stale_jobs now w = expire_each (stale_jobs now h.job_timeout w.conn) w
