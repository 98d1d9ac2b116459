-- ===== src/Router.antt =====
-- internal/router: the connections of the GPU workers, the tool calls of their jobs, and the loops
-- between them and the queue.
pub mod Conn
pub mod ToolsState
pub mod Choice
pub mod Continuation
pub mod NextRound
pub mod Dispatch
pub mod Handlers
pub mod Reader
pub mod Sync
pub mod Race
pub mod Policy
pub mod Hello
pub mod Loop
pub mod ToolsConn
pub mod Tests
