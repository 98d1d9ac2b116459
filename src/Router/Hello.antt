-- ===== src/Router/Hello.antt =====
-- internal/router/wshandler.go: a worker connects. Its first message is a hello with its key; the
-- worker of a valid key is added to the pool, and it is sent its policy. The ID that newWorkerID
-- draws, `time.Now()` and whether the reply reaches the socket are arguments.
pub mod Admitted
pub mod Tests
use auxot.Common.{
  ℕ, ◌≡◌, Bool, true, false, Option, none, some, List, [], ◌∷◌, Text, codes, text_beq,
  text_comparable, if◌then◌else◌,
}
use auxot.Common.Assoc.{Assoc, lookup, insert, erase}
use auxot.Common.Int.{ℤ, pos, ltb_ℤ}
use auxot.Auth.{Primitives, Verifier, Outcome, ok, failed, verify_admin_key}
use auxot.Gpu
use auxot.Protocol.{Json, ErrorMessage, JobMessage}
use auxot.Protocol.Worker.{HelloMessage, HelloAckMessage}
use auxot.Protocol.Parse.{MessageCodec, Parsed, message, is_hello, parse_message}
use auxot.Queue.Redis.{Redis}
use auxot.Queue.Tokens.{EventCodec}
use auxot.Router.Conn.{WorkerConn}
use auxot.Router.ToolsState.{Tools}
use auxot.Router.Dispatch.{WsHandler, World, ServerMessage, job_to}
use auxot.Router.Handlers.{cleanup}
use auxot.Router.Policy.{Config, policy_for}

-- What WSHandler shares between its connections.
pub record Server (r : Redis) : Type 0 where
  pub db : r.Db
  pub pool : Gpu.Pool
  pub verifier : Verifier
  pub workers : Assoc Text WorkerConn
  pub tools : Option Tools

-- How the first message is answered. A tools worker is given to its own handler.
pub data Reply : Type 0 where
  no_reply : Reply
  refusal : ErrorMessage → Reply
  to_tools : HelloMessage → Reply
  greeted : HelloAckMessage → WorkerConn → Reply

abbrev tools_not_enabled : ErrorMessage
tools_not_enabled = record {
  type = codes "error";
  job_id = [];
  error = codes "tools workers not enabled on this router (AUXOT_TOOLS_KEY_HASH not set)";
  details = [];
}

abbrev invalid_gpu_key : ErrorMessage
invalid_gpu_key = record {
  type = codes "error";
  job_id = [];
  error = codes "invalid GPU key";
  details = codes "Authentication failed. Check your admin key.";
}

-- err == nil && valid.
unfoldable pub is_accepted : Outcome Bool → Bool
is_accepted (ok valid) = valid
is_accepted (failed f) = false

-- msg.(protocol.HelloMessage)
unfoldable pub hello_of : Parsed → Option HelloMessage
hello_of (message is_hello hello) = some hello
hello_of parsed = none

abbrev pub slots_for : Config → HelloMessage → ℤ
slots_for config hello =
    if ltb_ℤ (pos 0) hello.capabilities.total_slots
    then hello.capabilities.total_slots
    else config.max_parallel

abbrev pub capabilities_for : Config → HelloMessage → Gpu.Capabilities
capabilities_for config hello = record {
  backend = hello.capabilities.backend;
  model = hello.capabilities.model;
  ctx_size = hello.capabilities.ctx_size;
  vram_gb = hello.capabilities.vram_gb;
  parameters = hello.capabilities.parameters;
  total_slots = slots_for config hello;
}

abbrev pub new_conn : Config → HelloMessage → Text → WorkerConn
new_conn config hello id = record { id = id; active_jobs = []; max_slots = slots_for config hello }

unfoldable pub ack_for : Config → HelloMessage → Text → HelloAckMessage
ack_for config hello id = record {
  type = codes "hello_ack";
  success = true;
  gpu_id = id;
  policy = some (policy_for config hello);
  tools_policy = none;
  error = [];
  reconnect_in_seconds = pos 0;
}

module _ (r : Redis) (json : Json) (codec : EventCodec) (h : WsHandler) (config : Config) where
  -- The state of one connection among those of the others.
  abbrev pub world_of : WorkerConn → Server r → World r
  world_of wc s = record {
    db = s.db;
    pool = s.pool;
    conn = wc;
    tools = s.tools;
    connected = true;
    sent = [];
  }

  -- cleanup, with the connection taken off `workers`.
  unfoldable pub disconnect : WorkerConn → Server r → Server r
  disconnect wc s =
      let w' : World r = (cleanup r json codec h (world_of wc s)).1 in
      record s { db = w'.db; pool = w'.pool; workers = erase wc.id s.workers }

  unfoldable pub register : Gpu.Pool → Text → HelloMessage → Server r → Server r
  register pool' id hello s = record s {
    pool = pool';
    workers = insert id (new_conn config hello id) s.workers;
  }

  -- After the worker is in the pool: it is sent its policy.
  greet : Bool → Text → HelloMessage → Server r → Reply × Server r
  unfolding disconnect
  greet delivers id hello s =
      if delivers
      then (greeted (ack_for config hello id) (new_conn config hello id), s)
      else (no_reply, disconnect (new_conn config hello id) s)

  -- After the key is accepted.
  add_worker : ℕ → Bool → Text → HelloMessage → Server r → Reply × Server r
  unfolding greet register
  add_worker now delivers id hello s =
      let (err, pool') =
        Gpu.add now id (capabilities_for config hello) (slots_for config hello) s.pool in
      elim err [
        | some e ↦ (no_reply, s)
        | none ↦ greet delivers id hello (register pool' id hello s)
      ]

  refuse_tools : HelloMessage → Server r → Reply × Server r
  refuse_tools hello s = elim s.tools [
    | none ↦ (refusal tools_not_enabled, s)
    | some _ ↦ (to_tools hello, s)
  ]

  module _ (a : Primitives) (c : MessageCodec) where
    on_key : Outcome Bool → ℕ → Bool → Text → HelloMessage → Server r → Reply × Server r
    unfolding add_worker
    on_key verified now delivers id hello s =
        if is_accepted verified
        then add_worker now delivers id hello s
        else (refusal invalid_gpu_key, s)

    on_hello : ℕ → Bool → Text → HelloMessage → Server r → Reply × Server r
    unfolding on_key refuse_tools
    on_hello now delivers id hello s =
        if text_beq hello.worker_type (codes "tools")
        then refuse_tools hello s
        else (let checked = verify_admin_key a now hello.gpu_key s.verifier in
            on_key checked.0 now delivers id hello (record s { verifier = checked.1 }))

    -- The first message, if it is read and is a hello.
    unfoldable pub first_hello : Option Text → Option HelloMessage
    unfolding hello_of
    first_hello none = none
    first_hello (some body) = hello_of (parse_message c body)

    -- `none` is a connection that is not upgraded, or whose first message is not read.
    unfoldable pub serve_http : ℕ → Bool → Text → Option Text → Server r → Reply × Server r
    unfolding on_hello
    serve_http now delivers id first s = elim (first_hello first) [
      | none ↦ (no_reply, s)
      | some hello ↦ on_hello now delivers id hello s
    ]

-- SendJob: the message for the worker's socket, if the worker is connected.
unfoldable pub send_job_to :
    {r : Redis} → Text → JobMessage → Server r → Option (WorkerConn × ServerMessage)
send_job_to worker_id job s = elim (lookup worker_id s.workers) [
  | none ↦ none
  | some wc ↦ some (wc, job_to job)
]
