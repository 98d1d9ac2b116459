-- ===== src/Router/Dispatch/Delivery/Tests.antt =====
-- internal/router/wshandler.go: the dispatch of a thread's next round, on the Redis in memory.
use auxot.Common.{◌≡◌, refl, true, some, [], ◌++◌, map, text_comparable}
use auxot.Common.Assoc.{lookup}
use auxot.Protocol.{Json}
use auxot.Router.ToolsState.{Tools, allowed_tool_defs}
use auxot.Router.NextRound.{next_messages, next_job, tool_result_content}
use auxot.Router.Dispatch.{World, dispatch_to_worker, missing_defs, tool_name}
use auxot.Router.Dispatch.Delivery.Threads.{dispatch-next_job}
use auxot.Router.Tests.{redis, codec, handler, idle, entry}
use auxot.Router.Continuation.Tests.{json, ctx, open_round, before_round}

-- Every entry holds the job of the next round.
abbrev rounds_json : Json
rounds_json = record json { unmarshal_job = λ text. some (next_job json ctx open_round) }

abbrev waiting : World redis
waiting = record idle { tools = some before_round }

dispatch-next_job_example :
    (tools : Tools) × ((dispatch_to_worker redis rounds_json codec handler 5 true entry
        waiting).1.tools
      ≡ some tools)
    × (lookup open_round.job_id tools.job_contexts
        ≡ some (record ctx {
          messages = next_messages rounds_json ctx open_round;
          tools =
              ctx.tools ++ missing_defs (map tool_name ctx.tools) (allowed_tool_defs before_round);
          thread_id = [];
        }))
unfolding next_job next_messages tool_result_content
dispatch-next_job_example =
    dispatch-next_job redis rounds_json codec handler 5 true entry waiting before_round ctx
      open_round refl refl refl refl
