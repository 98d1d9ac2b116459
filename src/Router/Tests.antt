-- ===== src/Router/Tests.antt =====
-- internal/router on the Redis in memory: runs, and the package's theorems at inputs that meet their
-- hypotheses.
use auxot.Common.{
  ℕ, ◌≡◌, refl, Bool, true, false, Option, none, some, [], ◌∷◌, ◌++◌, Text, codes, text_comparable,
}
use auxot.Common.Assoc.{lookup}
use auxot.Common.Int.{pos}
use auxot.Protocol.{Json, JobMessage, CompleteMessage, ErrorMessage, TokenMessage}
use auxot.Gpu
use auxot.Queue.Redis.{Redis, Documented}
use auxot.Queue.Memory.{memory, memory-Documented}
use auxot.Queue.Jobs.{StreamEntry}
use auxot.Queue.Tokens.{EventCodec}
use auxot.Router.Conn.{assign_job, active_job_ids}
use auxot.Router.Conn.Slots.{InSync}
use auxot.Router.Dispatch.{
  WsHandler, World, DispatchResult, dispatched, already_assigned, dispatch_failed,
  dispatch_to_worker, expire_stale_jobs,
}
use auxot.Router.Handlers.{handle_complete, handle_worker_error, handle_token, cleanup, escape_json}
use auxot.Router.Reader.{pause_time, for_capacity}
use auxot.Router.Dispatch.Delivery.Undo.{dispatch_failed_undone}
use auxot.Router.Dispatch.Delivery.Again.{dispatch_again}
use auxot.Router.Dispatch.Expiry.{lookup-expire_stale_jobs}
use auxot.Router.Handlers.Settled.{
  Ended, with_error, handle_complete-Ended, handle_worker_error-Ended,
}

abbrev jobs_key : Text
jobs_key = codes "auxot:jobs"

abbrev pub redis : Redis
redis = memory jobs_key

abbrev documented : Documented redis jobs_key (codes "workers")
documented = memory-Documented jobs_key (codes "workers")

abbrev pub handler : WsHandler
handler = record {
  job_queue = record { stream_key = jobs_key; group_name = codes "workers" };
  token_stream = record { prefix = codes "auxot:" };
  heartbeat = record { prefix = codes "auxot:"; ttl = 10 };
  job_timeout = 60;
  timeout_text = codes "1m0s";
}

abbrev plain_job : JobMessage
plain_job = record {
  type = [];
  job_id = [];
  reference_id = codes "t1";
  model = [];
  messages = [];
  tools = [];
  temperature = none;
  max_tokens = none;
  reasoning_effort = [];
  arguments = [];
  caller_tools = [];
  compaction_session_id = [];
  credentials = [];
}

-- The empty text is no job, and every other text is the same job.
abbrev job_in : Text → Option JobMessage
job_in [] = none
job_in (c ∷ text) = some plain_job

abbrev pub json : Json
json = record {
  unmarshal_job = job_in;
  marshal_job = λ job. some job.job_id;
  marshal_complete = λ msg. msg.full_response;
  marshal_string = λ s. codes "\"" ++ (s ++ codes "\"");
  unmarshal_string = λ s. none;
  marshal_strings = λ fields. codes "{}";
  marshal_parts = λ text parts. none;
}

abbrev pub codec : EventCodec
codec = record {
  marshal = λ e. some e.type;
  unmarshal = λ t. some (record { type = t; body = [] });
}

abbrev caps : Gpu.Capabilities
caps = record {
  backend = codes "cuda";
  model = codes "m";
  ctx_size = pos 4096;
  vram_gb = 0;
  parameters = codes "7B";
  total_slots = pos 2;
}

-- A worker with two slots and no jobs.
abbrev pub idle : World redis
idle = record {
  db = record { next = 0; pel = (codes "e1", codes "w1") ∷ []; queue = []; log = []; beats = [] };
  pool = record {
    workers =
        (
          codes "w1",
          record {
            id = codes "w1";
            capabilities = caps;
            active_jobs = [];
            max_slots = pos 2;
            connected_at = 0;
            last_heartbeat = 0;
          },
        )
        ∷ [];
  };
  conn = record { id = codes "w1"; active_jobs = []; max_slots = pos 2 };
  tools = none;
  connected = true;
  sent = [];
}

abbrev pub entry : StreamEntry
entry = record { id = codes "e1"; payload = record { job_id = codes "j1"; body = codes "{}" } }

abbrev dispatch : ℕ → Bool → World redis → DispatchResult × World redis
dispatch now delivers w = dispatch_to_worker redis json codec handler now delivers entry w

-- The worker with the job in flight since the time 5.
abbrev busy : World redis
busy = record idle {
  conn = record idle.conn {
    active_jobs = (codes "j1", record { entry_id = codes "e1"; assigned_at = 5 }) ∷ [];
  };
}

idle-InSync : InSync idle.conn idle.pool
unfolding lookup
idle-InSync = record {
  worker = record {
    id = codes "w1";
    capabilities = caps;
    active_jobs = [];
    max_slots = pos 2;
    connected_at = 0;
    last_heartbeat = 0;
  };
  found = refl;
  same_jobs = refl;
  same_slots = refl;
}

abbrev failure : ErrorMessage
failure = record { type = codes "error"; job_id = codes "j1"; error = codes "oom"; details = [] }

abbrev completion : CompleteMessage
completion = record {
  type = codes "complete";
  job_id = codes "j1";
  full_response = codes "hi";
  post_tool_content = [];
  reasoning_content = [];
  duration_ms = pos 3;
  cache_tokens = pos 0;
  input_tokens = pos 1;
  output_tokens = pos 1;
  reasoning_tokens = pos 0;
  tool_calls = [];
  builtin_tool_uses = [];
  attachments = [];
  total_cost_usd = 0;
  provider_session_id = [];
  rate_limit_status = [];
  rate_limit_resets_at = pos 0;
  rate_limit_type = [];
}

abbrev first_token : TokenMessage
first_token = record {
  type = codes "token";
  job_id = codes "j1";
  token = codes "hi";
  reasoning = false;
}

job_sent : (dispatch 5 true idle).0 ≡ dispatched
unfolding dispatch_to_worker assign_job lookup
job_sent = refl

job_lost : (dispatch 5 false idle).0 ≡ dispatch_failed
unfolding dispatch_to_worker assign_job lookup
job_lost = refl

-- Its first token, and the end of its connection.
stream_after :
    (cleanup redis json codec handler (handle_token redis json codec handler first_token busy)).0
    ≡ codes "j1" ∷ []
unfolding cleanup active_job_ids handle_token
stream_after = refl

escaped : escape_json json (codes "a") ≡ codes "a"
unfolding escape_json
escaped = refl

waited : pause_time for_capacity ≡ 500000000
unfolding pause_time
waited = refl

dispatch_failed_undone_example :
    let w' = (dispatch_to_worker redis json codec handler 5 false entry idle).1 in
    (w'.conn ≡ idle.conn) × (w'.pool ≡ idle.pool)
dispatch_failed_undone_example =
    dispatch_failed_undone redis json codec handler 5 false entry idle idle-InSync job_lost

-- A second job on the worker, beside the first.
abbrev busier : World redis
busier = record busy {
  conn = record busy.conn {
    active_jobs =
        (codes "j2", record { entry_id = codes "e2"; assigned_at = 6 }) ∷ busy.conn.active_jobs;
  };
}

dispatch_again_example :
    let (result, w') = dispatch_to_worker redis json codec handler 8 true entry busier in
    (result ≡ already_assigned)
    × (w'.db ≡ busier.db)
    × (w'.pool ≡ busier.pool)
    × (w'.conn ≡ busier.conn)
    × (w'.sent ≡ busier.sent)
unfolding lookup
dispatch_again_example =
    dispatch_again redis json codec handler 8 true entry busier plain_job refl refl

lookup-expire_stale_jobs_example :
    lookup (codes "j1") (expire_stale_jobs redis json codec handler 100 busy).conn.active_jobs
    ≡ none
unfolding lookup
lookup-expire_stale_jobs_example =
    lookup-expire_stale_jobs redis json codec handler 100 (codes "j1") busy (refl, tt)

handle_complete-Ended_example :
    Ended redis handler
      (codes "j1")
      (record { entry_id = codes "e1"; assigned_at = 5 })
      busy.db
      busy
      (handle_complete redis json codec handler (λ n. n ∷ []) (λ id. true) completion busy)
unfolding lookup
handle_complete-Ended_example =
    handle_complete-Ended redis json codec handler documented (λ n. n ∷ []) (λ id. true) completion
      (record { entry_id = codes "e1"; assigned_at = 5 }) busy refl refl

handle_worker_error-Ended_example :
    Ended redis handler
      (codes "j1")
      (record { entry_id = codes "e1"; assigned_at = 5 })
      (with_error redis json codec handler failure busy).db
      busy
      (handle_worker_error redis json codec handler failure busy)
unfolding lookup
handle_worker_error-Ended_example =
    handle_worker_error-Ended redis json codec handler documented failure
      (record { entry_id = codes "e1"; assigned_at = 5 }) busy refl refl refl
