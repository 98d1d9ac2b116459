-- ===== src/Protocol/Agent.antt =====
-- pkg/protocol/messages.go: the messages between the server and an agent worker.
use auxot.Common.{Bool, List, Text}
use auxot.Common.Assoc.{Assoc}

pub record AgentChatMsg : Type 0 where
  pub role : Text
  pub content : Text

pub record AgentJobMessage : Type 0 where
  pub type : Text
  pub job_id : Text
  pub system_prompt : Text
  pub messages : List AgentChatMsg
  pub credentials : Assoc Text Text

pub record AgentTokenMessage : Type 0 where
  pub type : Text
  pub job_id : Text
  pub token : Text

pub record AgentCompleteMessage : Type 0 where
  pub type : Text
  pub job_id : Text
  pub stop_reason : Text

pub record AgentErrorMessage : Type 0 where
  pub type : Text
  pub job_id : Text
  pub error : Text

pub record AgentToolCallMessage : Type 0 where
  pub type : Text
  pub job_id : Text
  pub id : Text
  pub name : Text
  pub arguments : Text

pub record AgentToolResultMessage : Type 0 where
  pub type : Text
  pub job_id : Text
  pub tool_call_id : Text
  pub content : Text
  pub is_error : Bool
