-- ===== src/Api.antt =====
-- internal/router/apihandler.go and internal/router/anthropichandler.go: the router's HTTP interfaces
-- in the manner of OpenAI and of Anthropic, with their types (pkg/openai/types.go and
-- pkg/anthropic/types.go).
pub mod Events
pub mod Http
pub mod Anthropic
pub mod OpenAi
pub mod Tests
