-- ===== src/Router/ToolsConn.antt =====
-- internal/router/toolshandler.go: the connection of a tools worker, from its hello to its end. The
-- ID that newToolsWorkerID draws, and whether a reply reaches the socket, are arguments.
pub mod Gone
pub mod Tests
use auxot.Common.{
  ℕ, ◌≡◌, refl, ◌∙◌, Bool, true, false, not, Option, none, some, List, [], ◌∷◌, ◌++◌, Text, codes,
  text_comparable, ltb, length, is_empty, if◌then◌else◌, inl, inr, Bool-cases, Option-cases,
  is_some,
}
use auxot.Common.Assoc.{Assoc, lookup, insert, erase, erase-insert}
use auxot.Common.Int.{pos, ltb_ℤ}
use auxot.Auth.{Primitives, Verifier, verify_tool_key}
use auxot.Protocol.{ErrorMessage, ToolResultMessage}
use auxot.Protocol.Worker.{HelloMessage, HelloAckMessage, ToolsCapabilities}
use auxot.Protocol.Parse.{
  MessageCodec, Parsed, message, is_tool_result, is_heartbeat, is_error, parse_message,
}
use auxot.Queue.Redis.{contains}
use auxot.Router.ToolsState.{ToolsConn, Tools, Pending}
use auxot.Router.Continuation.{handle_tool_result, handle_tool_error}
use auxot.Router.Hello.{is_accepted}

-- A message to the tools worker.
pub data ToolsReply : Type 0 where
  tools_refusal : ErrorMessage → ToolsReply
  tools_ack : HelloAckMessage → ToolsReply
  tools_heartbeat_ack : ToolsReply

abbrev authentication_failed : ErrorMessage
authentication_failed = record {
  type = codes "error";
  job_id = [];
  error = codes "authentication failed";
  details = [];
}

advertised_by : Option ToolsCapabilities → List Text
advertised_by none = []
advertised_by (some caps) = caps.tools

tools_conn : Text → HelloMessage → ToolsConn
unfolding advertised_by
tools_conn id hello = record { id = id; tools = advertised_by hello.tools_capabilities }

tools_ack_for : Text → HelloAckMessage
tools_ack_for id = record {
  type = codes "hello_ack";
  success = true;
  gpu_id = id;
  policy = none;
  tools_policy = none;
  error = [];
  reconnect_in_seconds = pos 0;
}

pub tools_pool_size : Tools → ℕ
tools_pool_size h = length h.tools_workers

pub has_tools_worker : Tools → Bool
has_tools_worker h = ltb 0 (length h.tools_workers)

-- failPendingToolJobs writes a log line.
abbrev fail_pending_tool_jobs : Text → Tools → Tools
fail_pending_tool_jobs tool_id h = h

unfoldable pub cleanup_tools_worker : ToolsConn → Tools → Tools
cleanup_tools_worker tc h =
    fail_pending_tool_jobs tc.id (record h { tools_workers = erase tc.id h.tools_workers })

-- A text of the tools worker, and whether a reply to it arrives.
pub record ToolsArrival : Type 0 where
  pub acked : Bool
  pub body : Text

-- What a tools worker may send, of which an error without a job's ID is only logged.
pub data Sent : Type 0 where
  a_result : ToolResultMessage → Sent
  a_beat : Sent
  a_failure : ErrorMessage → Sent

-- The switch of toolsMessageLoop.
sent_in : Parsed → Option Sent
sent_in (message is_tool_result m) = some (a_result m)
sent_in (message is_heartbeat m) = some a_beat
sent_in (message is_error m) = some (a_failure m)
sent_in parsed = none

on_sent : Bool → Option Sent → Tools → List ToolsReply × Tools
on_sent acked none h = ([], h)
on_sent acked (some (a_result m)) h = ([], handle_tool_result m h)
on_sent acked (some a_beat) h = (if acked then tools_heartbeat_ack ∷ [] else [], h)
on_sent acked (some (a_failure m)) h =
    ([], if not (is_empty m.job_id) then handle_tool_error m.job_id m.error h else h)

add_new : List Text → List Text → List Text
add_new names [] = names
add_new names (t ∷ ts) = add_new (if contains names t then names else names ++ t ∷ []) ts

add_all_new : List Text → Assoc Text ToolsConn → List Text
unfolding add_new
add_all_new names [] = names
add_all_new names ((id, w) ∷ ws) = add_all_new (add_new names w.tools) ws

unfoldable pub connected_tools : Tools → List Text
unfolding add_all_new
connected_tools h = add_all_new [] h.tools_workers

module _ (a : Primitives) (c : MessageCodec) where
  -- toolsMessageLoop until the socket closes.
  unfoldable pub tools_message_loop :
      ToolsConn → List ToolsArrival → Tools → List ToolsReply × Tools
  unfolding on_sent sent_in cleanup_tools_worker
  tools_message_loop tc [] h = ([], cleanup_tools_worker tc h)
  tools_message_loop tc (arrival ∷ arrivals) h =
      let (replies, h1) = on_sent arrival.acked (sent_in (parse_message c arrival.body)) h in
      let (later, h2) = tools_message_loop tc arrivals h1 in (replies ++ later, h2)

  -- Once the worker is registered.
  greet_tools_worker : Bool → ToolsConn → List ToolsArrival → Tools → List ToolsReply × Tools
  unfolding tools_ack_for tools_message_loop
  greet_tools_worker delivers tc arrivals h =
      if delivers
      then (let (replies, h') = tools_message_loop tc arrivals h in
          (tools_ack (tools_ack_for tc.id) ∷ replies, h'))
      else ([], cleanup_tools_worker tc h)

  unfoldable pub handle_tools_worker :
      ℕ
      → Bool
      → Text
      → HelloMessage
      → List ToolsArrival
      → Verifier × Tools
      → List ToolsReply × (Verifier × Tools)
  unfolding greet_tools_worker tools_conn
  handle_tools_worker now delivers id hello arrivals (v, h) =
      let (verified, v') = verify_tool_key a now hello.gpu_key v in
      if is_accepted verified
      then (let tc : ToolsConn = tools_conn id hello in
          let (replies, h') =
            greet_tools_worker delivers tc arrivals
              (record h { tools_workers = insert id tc h.tools_workers }) in
          (replies, (v', h')))
      else (tools_refusal authentication_failed ∷ [], (v', h))
