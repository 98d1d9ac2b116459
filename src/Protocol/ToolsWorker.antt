-- ===== src/Protocol/ToolsWorker.antt =====
-- pkg/protocol/tools_messages.go: the messages about a tools worker's policy.
use auxot.Common.{List, Text}
use auxot.Common.Assoc.{Assoc}
use auxot.Protocol.Worker.{ToolsPolicy}

pub record ReloadPolicyMessage : Type 0 where
  pub type : Text
  pub policy : ToolsPolicy

pub record McpAggregateSchema : Type 0 where
  pub tool_name : Text
  pub package_name : Text
  pub version : Text
  pub description : Text
  pub commands : List Text

pub record PolicyReloadedMessage : Type 0 where
  pub type : Text
  pub advertised_tools : List Text
  pub mcp_schemas : List McpAggregateSchema

pub record ValidateConfigurationMessage : Type 0 where
  pub type : Text
  pub request_id : Text
  pub package_name : Text
  pub version : Text
  pub url : Text
  pub transport : Text
  pub resolved_headers : Assoc Text Text
