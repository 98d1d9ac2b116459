-- ===== src/Router/Loop.antt =====
-- internal/router/wshandler.go: the message loop of a connection. A message is
-- parsed and handled; one that does not parse, or that no worker sends, changes nothing.
use auxot.Common.{ℕ, zero, suc, Bool, Option, none, some, List, [], ◌∷◌, Text, text_comparable}
use auxot.Protocol.{Json}
use auxot.Protocol.Worker.{Capabilities}
use auxot.Protocol.Parse.{
  MessageCodec, Parsed, message, is_heartbeat, is_config, is_token, is_tool_generating, is_complete,
  is_error, parse_message,
}
use auxot.Gpu
use auxot.Queue.Redis.{Redis}
use auxot.Queue.Tokens.{EventCodec}
use auxot.Queue.Beats
use auxot.Router.Dispatch.{WsHandler, World}
use auxot.Router.Handlers.{cleanup}
use auxot.Router.Sync.{
  Event, configures, beats, sends_token, generates_tool, completes, fails, handle,
}

-- A text from the worker, with the time, the IDs that are drawn while it is handled, and which of
-- the messages that it causes reach their sockets.
pub record Arrival : Type 0 where
  pub now : ℕ
  pub ids : ℕ → Text
  pub delivers : Text → Bool
  pub acked : Bool
  pub body : Text

capabilities_of : Capabilities → Gpu.Capabilities
capabilities_of caps = record {
  backend = caps.backend;
  model = caps.model;
  ctx_size = caps.ctx_size;
  vram_gb = caps.vram_gb;
  parameters = caps.parameters;
  total_slots = caps.total_slots;
}

-- The switch of messageLoop.
unfoldable pub event_of : Arrival → Parsed → Option Event
unfolding capabilities_of
event_of a (message is_heartbeat m) = some (beats a.now a.acked)
event_of a (message is_config m) = some (configures a.acked (capabilities_of m.capabilities))
event_of a (message is_token m) = some (sends_token m)
event_of a (message is_tool_generating m) = some (generates_tool m.job_id)
event_of a (message is_complete m) = some (completes a.ids a.delivers m)
event_of a (message is_error m) = some (fails m)
event_of a parsed = none

module _ (r : Redis) (json : Json) (codec : EventCodec) (h : WsHandler) (c : MessageCodec) where
  unfoldable pub receive : Arrival → World r → World r
  unfolding event_of
  receive a w = elim (event_of a (parse_message c a.body)) [
    | none ↦ w
    | some e ↦ handle r json codec h w e
  ]

  unfoldable pub receive_all : List Arrival → World r → World r
  unfolding receive
  receive_all [] w = w
  receive_all (a ∷ arrivals) w = receive_all arrivals (receive a w)

  -- The texts that arrive until the socket closes, one handled after the other.
  unfoldable pub message_loop : List Arrival → World r → World r
  unfolding receive_all
  message_loop arrivals w = (cleanup r json codec h (receive_all arrivals w)).1

  -- heartbeatLoop for a number of ticks after its first ping, which does not wait.
  unfoldable pub heartbeat_loop : ℕ → Text → r.Db → r.Db
  heartbeat_loop zero worker_id db = (Beats.ping r h.heartbeat worker_id db).1
  heartbeat_loop (suc ticks) worker_id db =
      heartbeat_loop ticks worker_id (Beats.ping r h.heartbeat worker_id db).1
