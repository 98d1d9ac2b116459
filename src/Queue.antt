-- ===== src/Queue.antt =====
-- pkg/queue: the job stream, the token streams, the heartbeats and the sweeper, over Redis.
pub mod Redis
pub mod Jobs
pub mod Tokens
pub mod Beats
pub mod Sweeper
pub mod Memory
pub mod Tests
