-- ===== src/Router/Handlers.antt =====
-- internal/router/wshandler.go: what a GPU worker's messages do, and the end of its connection.
pub mod Settled
pub mod Config
use auxot.Common.{
  ℕ, ◌-◌, ◌≡◌, Bool, true, false, not, Option, none, some, List, [], ◌∷◌, ◌++◌, Text, codes, length,
  text_comparable, take, drop, ltb, leb, is_empty, if◌then◌else◌,
}
use auxot.Common.Int.{ℤ, pos, ltb_ℤ}
use auxot.Protocol.{Json, CompleteMessage, ErrorMessage, TokenMessage}
use auxot.Gpu
use auxot.Queue.Redis.{Redis}
use auxot.Queue.Tokens.{TokenEvent, EventCodec, publish, set_ttl}
use auxot.Queue.Beats
use auxot.Router.Conn.{WorkerConn, complete_job, active_job_ids}
use auxot.Router.ToolsState.{Tools, delete_job_context, stream_ttl_streaming, stream_ttl_done}
use auxot.Router.Continuation.{start_continuation}
use auxot.Router.Dispatch.{WsHandler, World, ServerMessage, config_ack, heartbeat_ack, ack_entry}

unfoldable pub escape_json : Json → Text → Text
escape_json json s =
    let b : Text = json.marshal_string s in
    if leb 2 (length b) then take (length b - 2) (drop 1 b) else s

-- The connection's own record of its slots.
set_max_slots : ℤ → WorkerConn → WorkerConn
set_max_slots total_slots wc =
    if ltb_ℤ (pos 0) total_slots then record wc { max_slots = total_slots } else wc

-- StartContinuation, if there are tool calls and a tools handler.
try_continuation :
    Json → (ℕ → Text) → (Text → Bool) → CompleteMessage → Option Tools → Bool × Option Tools
try_continuation json ids delivers msg none = (false, none)
try_continuation json ids delivers msg (some tools) =
    let (started, tools') = start_continuation json ids delivers msg tools in
    if ltb 0 (length msg.tool_calls) then (started, some tools') else (false, some tools)

forget_context : Text → Option Tools → Option Tools
forget_context job_id none = none
forget_context job_id (some tools) = some (delete_job_context job_id tools)

module _ (r : Redis) (json : Json) (codec : EventCodec) (h : WsHandler) where
  acknowledge : Bool → ServerMessage → World r → World r
  acknowledge delivers msg w = if delivers then record w { sent = w.sent ++ msg ∷ [] } else w

  unfoldable pub handle_config : Bool → Gpu.Capabilities → World r → World r
  unfolding set_max_slots acknowledge
  handle_config delivers caps w = acknowledge delivers config_ack (record w {
    pool = (Gpu.update_capabilities w.conn.id caps w.pool).1;
    conn = set_max_slots caps.total_slots w.conn;
  })

  unfoldable pub handle_heartbeat : ℕ → Bool → World r → World r
  unfolding acknowledge
  handle_heartbeat now delivers w =
      acknowledge delivers heartbeat_ack
        (record w { pool = (Gpu.heartbeat now w.conn.id w.pool).1 })

  unfoldable pub handle_tool_generating : Text → World r → World r
  handle_tool_generating job_id w =
      let event : TokenEvent = record { type = codes "tool_generating"; body = codes "{}" } in
      let (_, db') = publish r codec h.token_stream job_id event w.db in record w { db = db' }

  unfoldable pub handle_token : TokenMessage → World r → World r
  handle_token msg w =
      let event : TokenEvent = record {
        type = if msg.reasoning then codes "reasoning_token" else codes "token";
        body = codes "\"" ++ (escape_json json msg.token ++ codes "\"");
      } in
      let (_, db1) = publish r codec h.token_stream msg.job_id event w.db in
      let (_, db2) = set_ttl r codec h.token_stream msg.job_id stream_ttl_streaming db1 in
      record w { db = db2 }

  -- The job is taken off the connection and the pool, and its entry off the queue.
  settle : Text → World r → World r
  settle job_id w =
      let (entry_id, conn') = complete_job job_id w.conn in
      record w {
        db = ack_entry r json codec h entry_id w.db;
        pool = (Gpu.complete_job w.conn.id job_id w.pool).1;
        conn = conn';
      }

  -- A job's last event, and the time that its stream is kept from then on.
  pub publish_last : Text → TokenEvent → r.Db → r.Db
  publish_last job_id event db =
      let (_, db1) = publish r codec h.token_stream job_id event db in
      let (_, db2) = set_ttl r codec h.token_stream job_id stream_ttl_done db1 in db2

  abbrev done_event : CompleteMessage → TokenEvent
  done_event msg = record { type = codes "done"; body = json.marshal_complete msg }

  abbrev pub error_event : ErrorMessage → TokenEvent
  error_event msg = record {
    type = codes "error";
    body = json.marshal_strings ((codes "error", msg.error) ∷ (codes "details", msg.details) ∷ []);
  }

  unfoldable pub handle_complete : (ℕ → Text) → (Text → Bool) → CompleteMessage → World r → World r
  unfolding settle try_continuation publish_last forget_context
  handle_complete ids delivers msg w =
      let w' : World r = settle msg.job_id w in
      let (started, tools') = try_continuation json ids delivers msg w.tools in
      if started then record w' { tools = tools' } else record w' {
        db = publish_last msg.job_id (done_event msg) w'.db;
        tools = forget_context msg.job_id tools';
      }

  unfoldable pub handle_worker_error : ErrorMessage → World r → World r
  unfolding settle publish_last
  handle_worker_error msg w =
      if not (is_empty msg.job_id)
      then settle msg.job_id (record w { db = publish_last msg.job_id (error_event msg) w.db })
      else w

  -- The jobs that are left in flight, for the log, and the state without the worker.
  unfoldable pub cleanup : World r → List Text × World r
  cleanup w =
      let (_, db') = Beats.remove r h.heartbeat w.conn.id w.db in
      (
        active_job_ids w.conn,
        record w { db = db'; pool = (Gpu.remove w.conn.id w.pool).1; connected = false },
      )
