-- ===== src/Protocol/Parse.antt =====
-- pkg/protocol: ParseMessage, ParseToolsMessage and MarshalMessage. encoding/json is a parameter.
pub mod Kinds
use auxot.Common.{
  Option, none, some, List, [], ◌∷◌, Text, codes, text_beq, if◌then◌else◌, text_comparable,
}
use auxot.Protocol.{
  TokenMessage, CompleteMessage, ErrorMessage, JobMessage, ToolJobMessage, ToolResultMessage,
}
use auxot.Protocol.Worker.{
  HelloMessage, HeartbeatMessage, ConfigMessage, ToolGeneratingMessage, PromptProgressMessage,
  BuiltinToolMessage, HelloAckMessage, HeartbeatAckMessage, ConfigAckMessage, CancelMessage,
  PolicyUpdateMessage, JobToolCallRequestMessage, JobToolCallResultMessage,
}
use auxot.Protocol.Agent.{
  AgentJobMessage, AgentTokenMessage, AgentCompleteMessage, AgentErrorMessage, AgentToolCallMessage,
  AgentToolResultMessage,
}
use auxot.Protocol.ToolsWorker.{
  ReloadPolicyMessage, PolicyReloadedMessage, ValidateConfigurationMessage,
}

-- The types of the messages that ParseMessage knows.
pub data MessageKind : Type 0 where
  is_hello is_heartbeat is_config is_token is_tool_generating : MessageKind
  is_prompt_progress is_builtin_tool is_complete is_error is_hello_ack : MessageKind
  is_heartbeat_ack is_config_ack is_job is_cancel is_policy_update : MessageKind
  is_agent_job is_agent_token is_agent_complete is_agent_error is_agent_tool_call : MessageKind
  is_agent_tool_result is_job_tool_call_request is_job_tool_call_result is_tool_job is_tool_result :
      MessageKind
  is_reload_policy is_policy_reloaded is_validate_configuration : MessageKind

unfoldable pub type_name : MessageKind → Text
type_name is_hello = codes "hello"
type_name is_heartbeat = codes "heartbeat"
type_name is_config = codes "config"
type_name is_token = codes "token"
type_name is_tool_generating = codes "tool_generating"
type_name is_prompt_progress = codes "prompt_progress"
type_name is_builtin_tool = codes "builtin_tool"
type_name is_complete = codes "complete"
type_name is_error = codes "error"
type_name is_hello_ack = codes "hello_ack"
type_name is_heartbeat_ack = codes "heartbeat_ack"
type_name is_config_ack = codes "config_ack"
type_name is_job = codes "job"
type_name is_cancel = codes "cancel"
type_name is_policy_update = codes "policy_update"
type_name is_agent_job = codes "agent_job"
type_name is_agent_token = codes "agent_token"
type_name is_agent_complete = codes "agent_complete"
type_name is_agent_error = codes "agent_error"
type_name is_agent_tool_call = codes "agent_tool_call"
type_name is_agent_tool_result = codes "agent_tool_result"
type_name is_job_tool_call_request = codes "job.tool.call.request"
type_name is_job_tool_call_result = codes "job.tool.call.result"
type_name is_tool_job = codes "tool_job"
type_name is_tool_result = codes "tool_result"
type_name is_reload_policy = codes "reload_policy"
type_name is_policy_reloaded = codes "policy_reloaded"
type_name is_validate_configuration = codes "validate_configuration"

-- The struct of each type.
abbrev pub Payload : MessageKind → Type 0
Payload is_hello = HelloMessage
Payload is_heartbeat = HeartbeatMessage
Payload is_config = ConfigMessage
Payload is_token = TokenMessage
Payload is_tool_generating = ToolGeneratingMessage
Payload is_prompt_progress = PromptProgressMessage
Payload is_builtin_tool = BuiltinToolMessage
Payload is_complete = CompleteMessage
Payload is_error = ErrorMessage
Payload is_hello_ack = HelloAckMessage
Payload is_heartbeat_ack = HeartbeatAckMessage
Payload is_config_ack = ConfigAckMessage
Payload is_job = JobMessage
Payload is_cancel = CancelMessage
Payload is_policy_update = PolicyUpdateMessage
Payload is_agent_job = AgentJobMessage
Payload is_agent_token = AgentTokenMessage
Payload is_agent_complete = AgentCompleteMessage
Payload is_agent_error = AgentErrorMessage
Payload is_agent_tool_call = AgentToolCallMessage
Payload is_agent_tool_result = AgentToolResultMessage
Payload is_job_tool_call_request = JobToolCallRequestMessage
Payload is_job_tool_call_result = JobToolCallResultMessage
Payload is_tool_job = ToolJobMessage
Payload is_tool_result = ToolResultMessage
Payload is_reload_policy = ReloadPolicyMessage
Payload is_policy_reloaded = PolicyReloadedMessage
Payload is_validate_configuration = ValidateConfigurationMessage

-- The field `type` of a struct.
unfoldable pub type_of : (k : MessageKind) → Payload k → Text
type_of is_hello m = m.type
type_of is_heartbeat m = m.type
type_of is_config m = m.type
type_of is_token m = m.type
type_of is_tool_generating m = m.type
type_of is_prompt_progress m = m.type
type_of is_builtin_tool m = m.type
type_of is_complete m = m.type
type_of is_error m = m.type
type_of is_hello_ack m = m.type
type_of is_heartbeat_ack m = m.type
type_of is_config_ack m = m.type
type_of is_job m = m.type
type_of is_cancel m = m.type
type_of is_policy_update m = m.type
type_of is_agent_job m = m.type
type_of is_agent_token m = m.type
type_of is_agent_complete m = m.type
type_of is_agent_error m = m.type
type_of is_agent_tool_call m = m.type
type_of is_agent_tool_result m = m.type
type_of is_job_tool_call_request m = m.type
type_of is_job_tool_call_result m = m.type
type_of is_tool_job m = m.type
type_of is_tool_result m = m.type
type_of is_reload_policy m = m.type
type_of is_policy_reloaded m = m.type
type_of is_validate_configuration m = m.type

-- encoding/json at the envelope and at the structs; `none` is an error.
pub record MessageCodec : Type 0 where
  pub envelope : Text → Option Text
  pub unmarshal : (k : MessageKind) → Text → Option (Payload k)
  pub marshal : (k : MessageKind) → Payload k → Option Text

-- The message of its type, or which error.
pub data Parsed : Type 0 where
  message : (k : MessageKind) → Payload k → Parsed
  bad_envelope : Parsed
  bad_body : MessageKind → Parsed
  unknown_type : Text → Parsed

-- The cases of the switch, in its order.
abbrev kinds : List MessageKind
kinds =
    is_hello ∷ is_heartbeat ∷ is_config ∷ is_token ∷ is_tool_generating ∷ is_prompt_progress
    ∷ is_builtin_tool ∷ is_complete ∷ is_error ∷ is_hello_ack ∷ is_heartbeat_ack ∷ is_config_ack
    ∷ is_job ∷ is_cancel ∷ is_policy_update ∷ is_agent_job ∷ is_agent_token ∷ is_agent_complete
    ∷ is_agent_error ∷ is_agent_tool_call ∷ is_agent_tool_result ∷ is_job_tool_call_request
    ∷ is_job_tool_call_result ∷ is_tool_job ∷ is_tool_result ∷ is_reload_policy ∷ is_policy_reloaded
    ∷ is_validate_configuration ∷ []

-- The first case that a type is.
unfoldable pub kind_in : List MessageKind → Text → Option MessageKind
unfolding type_name
kind_in [] t = none
kind_in (k ∷ ks) t =
    let rest : Option MessageKind = kind_in ks t in
    if text_beq t (type_name k) then some k else rest

unfoldable pub decoded : (k : MessageKind) → Option (Payload k) → Parsed
decoded k none = bad_body k
decoded k (some m) = message k m

module _ (c : MessageCodec) where
  -- What a case gives: the struct is read, but for the heartbeats, which are made without reading.
  read_body : (k : MessageKind) → Text → Option (Payload k)
  read_body is_heartbeat body = some (record { type = codes "heartbeat" })
  read_body is_heartbeat_ack body = some (record { type = codes "heartbeat_ack" })
  read_body k body = c.unmarshal k body

  parse_case : Text → Option MessageKind → Text → Parsed
  unfolding decoded read_body
  parse_case t none body = unknown_type t
  parse_case t (some k) body = decoded k (read_body k body)

  parse_typed : Option Text → Text → Parsed
  unfolding parse_case kind_in
  parse_typed none body = bad_envelope
  parse_typed (some t) body = parse_case t (kind_in kinds t) body

  unfoldable pub parse_message : Text → Parsed
  unfolding parse_typed
  parse_message body = parse_typed (c.envelope body) body

  -- ParseToolsMessage once the envelope is read.
  parse_tools_typed : Option Text → Text → Parsed
  unfolding decoded
  parse_tools_typed none body = bad_envelope
  parse_tools_typed (some t) body =
      if text_beq t (codes "tool_result")
      then decoded is_tool_result (c.unmarshal is_tool_result body)
      else if text_beq t (codes "policy_reloaded")
      then decoded is_policy_reloaded (c.unmarshal is_policy_reloaded body)
      else parse_message body

  unfoldable pub parse_tools_message : Text → Parsed
  unfolding parse_tools_typed
  parse_tools_message body = parse_tools_typed (c.envelope body) body

unfoldable pub marshal_message : (c : MessageCodec) (k : MessageKind) → Payload k → Option Text
marshal_message c k m = c.marshal k m
