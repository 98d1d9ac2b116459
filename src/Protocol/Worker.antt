-- ===== src/Protocol/Worker.antt =====
-- pkg/protocol/messages.go: the other messages between the router and its GPU and CLI workers.
use auxot.Common.{ℕ, Bool, Option, List, Text}
use auxot.Common.Int.{ℤ}
use auxot.Protocol.{ImagePart}

pub record Capabilities : Type 0 where
  pub backend : Text
  pub model : Text
  pub ctx_size : ℤ
  pub vram_gb : ℕ
  pub parameters : Text
  pub total_slots : ℤ
  pub model_capabilities : List Text

pub record ToolsCapabilities : Type 0 where
  pub tools : List Text

pub record HelloMessage : Type 0 where
  pub type : Text
  pub gpu_key : Text
  pub worker_type : Text
  pub capabilities : Capabilities
  pub tools_capabilities : Option ToolsCapabilities

pub record HeartbeatMessage : Type 0 where
  pub type : Text

pub record ConfigMessage : Type 0 where
  pub type : Text
  pub capabilities : Capabilities

pub record ToolGeneratingMessage : Type 0 where
  pub type : Text
  pub job_id : Text

pub record PromptProgressMessage : Type 0 where
  pub type : Text
  pub job_id : Text
  pub total : ℤ
  pub cached : ℤ
  pub processed : ℤ

pub record BuiltinToolMessage : Type 0 where
  pub type : Text
  pub job_id : Text
  pub id : Text
  pub name : Text
  pub args : Text
  pub result : Text

pub record Policy : Type 0 where
  pub worker_type : Text
  pub cli_type : Text
  pub builtin_tools : List Text
  pub model_name : Text
  pub quantization : Text
  pub context_size : ℤ
  pub max_parallelism : ℤ
  pub parameters : Text
  pub family : Text
  pub capabilities : List Text

pub record McpHttpHeader : Type 0 where
  pub header_name : Text
  pub value_prefix : Text
  pub source : Text
  pub oauth_provider : Text
  pub credential_id : Text
  pub secret_name : Text
  pub static_value : Text

pub record McpServerConfig : Type 0 where
  pub id : Text
  pub package_name : Text
  pub version : Text
  pub url : Text
  pub transport : Text
  pub headers : List McpHttpHeader
  pub resolved_headers : List (Text × Text)

pub record ToolsPolicy : Type 0 where
  pub allowed_tools : List Text
  pub mcp_servers : List McpServerConfig

-- A pointer that may be nil is an option.
pub record HelloAckMessage : Type 0 where
  pub type : Text
  pub success : Bool
  pub gpu_id : Text
  pub policy : Option Policy
  pub tools_policy : Option ToolsPolicy
  pub error : Text
  pub reconnect_in_seconds : ℤ

pub record HeartbeatAckMessage : Type 0 where
  pub type : Text

pub record ConfigAckMessage : Type 0 where
  pub type : Text
  pub success : Bool
  pub error : Text

pub record CancelMessage : Type 0 where
  pub type : Text
  pub job_id : Text

pub record PolicyUpdateMessage : Type 0 where
  pub type : Text
  pub policy : Option Policy

pub record JobToolCallRequestMessage : Type 0 where
  pub type : Text
  pub job_id : Text
  pub call_id : Text
  pub tool_name : Text
  pub arguments : Text

pub record JobToolCallResultMessage : Type 0 where
  pub type : Text
  pub job_id : Text
  pub call_id : Text
  pub result : Text
  pub is_error : Bool
  pub image_parts : List ImagePart
