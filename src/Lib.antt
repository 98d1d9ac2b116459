-- ===== src/Lib.antt =====
-- auxot is a router for GPU inference. API handlers put jobs on a Redis stream; the router gives
-- them to GPU workers that are connected over WebSockets; tokens and results come back through one
-- stream per job; tool calls that a model makes go to tools workers, and their results start the
-- job's next round.
--
-- The files, and the code that they model (paths from the repository's root):
--     * Common: strings as bytes, slices, maps as association lists, and 64-bit integers. A
--     statement about every list is one about every order in which Go may visit a map.
--     * Gpu (pkg/gpu/pool.go): the pool of GPU workers. Each method of Pool is a function from
--     the pool to its result and the new pool.
--     * Queue/Redis, Queue/Memory: Redis as an interface of commands with three views of its
--     state (pending entries, messages not yet delivered, the history of a stream) and, as the
--     record Documented, what its documentation says of the commands; a small Redis in memory
--     meets it.
--     * Queue/Jobs, Queue/Tokens (pkg/queue/job_queue.go): JobQueue and TokenStream. Queue/Beats
--     (pkg/queue/heartbeat.go): Heartbeat. Queue/Sweeper (pkg/queue/sweeper.go): Sweeper.
--     * Protocol (pkg/protocol): the messages as values. Protocol/Worker, Agent and ToolsWorker
--     have the remaining ones, and Protocol/Parse has ParseMessage, ParseToolsMessage and
--     MarshalMessage. JSON encoding is a parameter, the records Json and MessageCodec.
--     * Router/Conn (internal/router/wshandler.go): workerConn with assignJob, completeJob and
--     staleJobs. Router/Dispatch: dispatchToWorker and expireStaleJobs. Router/Handlers: the
--     handlers of a worker's messages and cleanup. Router/Reader: jobReaderLoop, one round at a
--     time. Router/Policy: the policies of a worker. Router/Hello: ServeHTTP up to the
--     acknowledgement. Router/Loop: messageLoop and heartbeatLoop. Router/Race: the turns that
--     dispatchToWorker and handleComplete take on one connection.
--     * Router/ToolsState (internal/router/toolshandler.go): the tools handler's state,
--     SaveJobContext and AllowedToolDefs. Router/Choice: the choice of a tools worker.
--     Router/ToolsConn: HandleToolsWorker with its loop and its cleanup. Router/Continuation:
--     StartContinuation and recordToolResult. Router/NextRound: continueLLMRound, with enqueueJob
--     of internal/router/dispatch.go.
--     * Auth (pkg/auth/argon2.go): HashKey, VerifyKey and the Verifier with its cache; Argon2id,
--     base64 and Sscanf are the record Primitives, and what their documentation says is
--     DocumentedAt.
--     * CodingTools/Bash (pkg/codingtools/bash.go): the limits on a command's output.
--     CodingTools/Read (pkg/codingtools/read.go): the windows of bytes and lines.
--     * Api/Events (internal/router/apihandler.go, anthropichandler.go): the loop over a job's
--     stream that the six response handlers share. Api/Http: a request, with extractBearerToken.
--     * Api/Anthropic (pkg/anthropic/types.go): the types. Api/Anthropic/Convert, Stream,
--     Blocking and Routes (internal/router/anthropichandler.go): handleMessages' conversion,
--     streamResponse, blockingResponse, and the remaining handlers with ServeHTTP.
--     * Api/OpenAi (pkg/openai/types.go): the types and builders. Api/OpenAi/Stream, Blocking,
--     Legacy and Routes (internal/router/apihandler.go): streamChatResponse,
--     blockingChatResponse, the two legacy handlers, and the remaining handlers with ServeHTTP.
--     * Registry (pkg/registry/registry.go): the catalogue of models, its Find functions, and the
--     names of a sharded model's files.
--     * LlamaCpp (pkg/llamacpp/sanitize.go): SanitizeTools; encoding/json and its values are the
--     record Schemas.
--
-- Components interact by calls. A World holds what the handlers of one GPU worker's connection
-- change: Redis, the pool, the connection's own record of jobs, the tools handler, and the
-- messages sent. Each handler is a function on it, with every call in the source's order.
-- Router/Sync runs the rounds of the reader of the queue and the handlers of messages one after
-- the other, in any order, each to its end. In the program they are two goroutines, and what is
-- atomic is one method of the connection or of the pool. Router/Race has the methods that
-- dispatchToWorker and handleComplete call, with any turns between them; other overlaps are not
-- modelled.
--
-- A response handler's loop is run on a list of moments, one for each round, which say what it
-- finds: whether the client is gone, the time, and Redis. Requests and responses are values; JSON
-- decoding is a parameter, the records Decoder, BodyDecoder and ContentDecoder, about which
-- nothing is assumed.
--
-- Time is an argument, in nanoseconds. Random IDs, the success of a send over a WebSocket, and the
-- texts that fmt prints are arguments too. The binary search of bash.go runs on fuel n + 2 for a
-- text of n bytes, with the theorem that it is enough. The only other fuel is that of
-- Heartbeat.LiveWorkerIDs, whose loop runs until Redis returns the cursor 0: what is proved of the
-- sweep holds for every amount of fuel, also when it runs out. A command of Redis that fails is
-- taken to change nothing.
--
-- Not modelled: log lines, the texts of wrapped errors, WebSocket handling, HTTP headers, the
-- workers and their processes, the tools API and MCP handlers, and DispatchDirectToolCall. A
-- float64 is kept by its bits where no code computes with it.
pub mod Common
pub mod Gpu
pub mod Queue
pub mod Protocol
pub mod Router
pub mod Auth
pub mod CodingTools
pub mod Api
pub mod Registry
pub mod LlamaCpp
