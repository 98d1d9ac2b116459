-- ===== src/Protocol.antt =====
-- pkg/protocol: the messages between the router and its workers, as values. Raw JSON is kept as
-- text, and a float64 by its 64 bits.
pub mod Worker
pub mod Agent
pub mod ToolsWorker
pub mod Parse
pub mod Tests
use auxot.Common.{ℕ, Bool, Option, List, Text, codes}
use auxot.Common.Assoc.{Assoc}
use auxot.Common.Int.{ℤ}

pub record ToolFunction : Type 0 where
  pub name : Text
  pub arguments : Text

pub record ToolCall : Type 0 where
  pub id : Text
  pub type : Text
  pub function : ToolFunction

pub record ToolDefinition : Type 0 where
  pub name : Text
  pub description : Text
  pub parameters : Text

pub record Tool : Type 0 where
  pub type : Text
  pub function : ToolDefinition

pub record ChatMessage : Type 0 where
  pub role : Text
  pub content : Text
  pub tool_call_id : Text
  pub tool_calls : List ToolCall

pub record JobMessage : Type 0 where
  pub type : Text
  pub job_id : Text
  pub reference_id : Text
  pub model : Text
  pub messages : List ChatMessage
  pub tools : List Tool
  pub temperature : Option ℕ
  pub max_tokens : Option ℤ
  pub reasoning_effort : Text
  pub arguments : Text
  pub caller_tools : List Text
  pub compaction_session_id : Text
  pub credentials : Assoc Text Text

pub record BuiltinToolUse : Type 0 where
  pub id : Text
  pub name : Text
  pub arguments : Text
  pub result : Text

pub record FileAttachment : Type 0 where
  pub name : Text
  pub mime_type : Text
  pub body : Text

pub record CompleteMessage : Type 0 where
  pub type : Text
  pub job_id : Text
  pub full_response : Text
  pub post_tool_content : Text
  pub reasoning_content : Text
  pub duration_ms : ℤ
  pub cache_tokens : ℤ
  pub input_tokens : ℤ
  pub output_tokens : ℤ
  pub reasoning_tokens : ℤ
  pub tool_calls : List ToolCall
  pub builtin_tool_uses : List BuiltinToolUse
  pub attachments : List FileAttachment
  pub total_cost_usd : ℕ
  pub provider_session_id : Text
  pub rate_limit_status : Text
  pub rate_limit_resets_at : ℤ
  pub rate_limit_type : Text

pub record ErrorMessage : Type 0 where
  pub type : Text
  pub job_id : Text
  pub error : Text
  pub details : Text

pub record TokenMessage : Type 0 where
  pub type : Text
  pub job_id : Text
  pub token : Text
  pub reasoning : Bool

pub record ImagePart : Type 0 where
  pub mime_type : Text
  pub body : Text

pub record ToolJobMessage : Type 0 where
  pub type : Text
  pub job_id : Text
  pub parent_job_id : Text
  pub thread_id : Text
  pub tool_name : Text
  pub tool_call_id : Text
  pub arguments : Text
  pub credentials : Assoc Text Text
  pub mcp_package : Text
  pub mcp_version : Text
  pub mcp_url : Text
  pub mcp_transport : Text
  pub mcp_headers : Assoc Text Text

-- An absent result is `none`.
pub record ToolResultMessage : Type 0 where
  pub type : Text
  pub job_id : Text
  pub parent_job_id : Text
  pub tool_call_id : Text
  pub tool_name : Text
  pub result : Option Text
  pub image_parts : List ImagePart
  pub error : Text
  pub duration_ms : ℤ

abbrev pub type_job : Text
type_job = codes "job"

abbrev pub type_tool_job : Text
type_tool_job = codes "tool_job"

-- encoding/json at the types that the router reads and writes; `none` is an error. Go's encoder
-- does not fail on the other messages, whose fields are strings and numbers.
pub record Json : Type 0 where
  pub unmarshal_job : Text → Option JobMessage
  pub marshal_job : JobMessage → Option Text
  pub marshal_complete : CompleteMessage → Text
  pub marshal_string : Text → Text
  pub unmarshal_string : Text → Option Text
  -- An object of strings, by its keys and values.
  pub marshal_strings : Assoc Text Text → Text
  -- The array of a text part and image parts.
  pub marshal_parts : Text → List ImagePart → Option Text
