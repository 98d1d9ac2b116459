-- ===== src/Router/Hello/Tests.antt =====
-- internal/router/wshandler.go: workers that connect to a router on the Redis in memory, with a codec
-- of hellos that are their key.
use auxot.Common.{
  ◌≡◌, ◌≢◌, refl, sym, ◌∙◌, has_prefix, true, Option, none, some, [], ◌∷◌, Text, codes,
  text_comparable,
}
use auxot.Common.Assoc.{lookup}
use auxot.Common.Int.{pos}
use auxot.Auth.{
  Primitives, cache_key, verify_admin_key, verify_with_cache, verify_key, parse_phc, split,
}
use auxot.Gpu
use auxot.Protocol.Worker.{HelloMessage, HelloAckMessage}
use auxot.Protocol.Parse.{MessageKind, Payload, is_hello, MessageCodec, parse_message}
use auxot.Router.Conn.{WorkerConn}
use auxot.Router.Policy.{Config, infer_capabilities}
use auxot.Router.Tests.{redis, json, codec, handler}
use auxot.Router.Hello.{
  Server, Reply, refusal, greeted, new_conn, ack_for, invalid_gpu_key, hello_of, first_hello,
  is_accepted, serve_http, world_of,
}
use auxot.Router.Hello.Admitted.{Admission, serve_http-Admission, serve_http-unchanged}
use auxot.Router.Loop.{Arrival, event_of, receive, receive_all}

-- A key that the cache knows is valid; others are hashed to a hash that is not the stored one.
abbrev pub hashes : Primitives
hashes = record {
  id_key = λ key salt params n. [];
  encode = λ s. s;
  decode = λ s. some s;
  scan_params = λ s. none;
}

abbrev config : Config
config = record {
  model_name = codes "Qwen2.5-Coder";
  quantization = codes "Q4_K_S";
  context_size = pos 131072;
  max_parallel = pos 2;
  worker_type = [];
  cli_type = [];
  cli_tools = [];
}

abbrev pub hello : Text → HelloMessage
hello key = record {
  type = codes "hello";
  gpu_key = key;
  worker_type = [];
  capabilities = record {
    backend = codes "cuda";
    model = codes "m";
    ctx_size = pos 4096;
    vram_gb = 0;
    parameters = codes "7B";
    total_slots = pos 0;
    model_capabilities = [];
  };
  tools_capabilities = none;
}

abbrev read_hello : (k : MessageKind) → Text → Option (Payload k)
read_hello is_hello s = some (hello s)
read_hello k s = none

abbrev pub hellos : MessageCodec
hellos = record {
  envelope = λ s. some (codes "hello");
  unmarshal = read_hello;
  marshal = λ k m. none;
}

abbrev admin_key : Text
admin_key = codes "adm_1"

abbrev server : Server redis
server = record {
  db = record { next = 0; pel = []; queue = []; log = []; beats = [] };
  pool = record { workers = [] };
  verifier = record {
    admin_hash = codes "h";
    api_hash = [];
    tools_hash = [];
    cache = (cache_key admin_key (codes "h"), record { valid = true; expires_at = 100 }) ∷ [];
    ttl = 10;
  };
  workers = [];
  tools = none;
}

abbrev serve : Text → Reply × Server redis
serve key =
    serve_http redis json codec handler config hashes hellos 5 true (codes "w1") (some key) server

abbrev conn : WorkerConn
conn = new_conn config (hello admin_key) (codes "w1")

abbrev ack : HelloAckMessage
ack = ack_for config (hello admin_key) (codes "w1")

coder : infer_capabilities (codes "Qwen2.5-Coder") ≡ codes "code" ∷ []
unfolding infer_capabilities has_prefix
coder = refl

chat : infer_capabilities (codes "Llama") ≡ codes "chat" ∷ []
unfolding infer_capabilities has_prefix
chat = refl

serve_http-Admission_example :
    Admission redis json codec handler config hashes hellos 5
      (codes "w1")
      (some admin_key)
      ack
      conn
      server
      (serve admin_key).1
unfolding serve_http hello_of verify_admin_key verify_with_cache parse_message lookup first_hello
    is_accepted Gpu.add
serve_http-Admission_example =
    serve_http-Admission redis json codec handler config hashes hellos 5 true (codes "w1")
      (some admin_key) ack conn server refl

-- Another key is refused.
wrong_key : (serve (codes "adm_2")).0 ≡ refusal invalid_gpu_key
unfolding serve_http hello_of verify_admin_key verify_with_cache parse_message lookup first_hello
    is_accepted Gpu.add verify_key parse_phc split
wrong_key = refl

refused : (a : HelloAckMessage) (wc : WorkerConn) → (serve (codes "adm_2")).0 ≢ greeted a wc
refused a wc e = let no : refusal invalid_gpu_key ≡ greeted a wc = sym wrong_key ∙ e in cc

serve_http-unchanged_example :
    ((serve (codes "adm_2")).1.pool ≡ server.pool)
    × ((serve (codes "adm_2")).1.workers ≡ server.workers)
unfolding lookup
serve_http-unchanged_example =
    serve_http-unchanged redis json codec handler config hashes hellos 5 true (codes "w1")
      (some (codes "adm_2")) server refl refused

abbrev odd_text : Arrival
odd_text = record { now = 7; ids = λ n. []; delivers = λ id. true; acked = true; body = codes "?" }

-- A text of another kind than the loop knows changes nothing.
odd_ignored :
    let w = world_of redis json codec handler config conn (serve admin_key).1 in
    receive_all redis json codec handler hellos (odd_text ∷ odd_text ∷ []) w ≡ w
unfolding receive_all receive event_of parse_message
odd_ignored = refl
