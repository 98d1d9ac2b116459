-- ===== src/Router/ToolsConn/Tests.antt =====
-- internal/router/toolshandler.go: a tools worker that connects, sends a text, and leaves.
use auxot.Common.{◌≡◌, refl, true, some, [], ◌∷◌, Text, codes, text_comparable}
use auxot.Common.Assoc.{lookup}
use auxot.Auth.{Verifier, cache_key, verify_tool_key, verify_with_cache}
use auxot.Protocol.Worker.{HelloMessage}
use auxot.Router.Continuation.Tests.{before_round}
use auxot.Router.Hello.{is_accepted}
use auxot.Router.Hello.Tests.{hashes, hellos, hello}
use auxot.Router.ToolsConn.{ToolsArrival, handle_tools_worker}
use auxot.Router.ToolsConn.Gone.{handle_tools_worker-tools_workers}

abbrev tools_key : Text
tools_key = codes "tls_1"

abbrev tools_hello : HelloMessage
tools_hello = record (hello tools_key) {
  worker_type = codes "tools";
  tools_capabilities = some (record { tools = codes "fetch" ∷ [] });
}

abbrev verifier : Verifier
verifier = record {
  admin_hash = [];
  api_hash = [];
  tools_hash = codes "t";
  cache = (cache_key tools_key (codes "t"), record { valid = true; expires_at = 100 }) ∷ [];
  ttl = 10;
}

abbrev no_message : ToolsArrival
no_message = record { acked = true; body = codes "?" }

handle_tools_worker-tools_workers_example :
    (handle_tools_worker hashes hellos 5 true
      (codes "z")
      tools_hello
      (no_message ∷ [])
      (verifier, before_round)).1.1.tools_workers
    ≡ before_round.tools_workers
unfolding lookup
handle_tools_worker-tools_workers_example =
    handle_tools_worker-tools_workers hashes hellos 5 true (codes "z") tools_hello (no_message ∷ [])
      verifier before_round refl

accepted : is_accepted (verify_tool_key hashes 5 tools_key verifier).0 ≡ true
unfolding is_accepted verify_tool_key verify_with_cache lookup
accepted = refl
