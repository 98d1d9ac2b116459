-- ===== src/Router/ToolsState.antt =====
-- internal/router/toolshandler.go: the state of the tools handler, and the contexts of jobs.
use auxot.Common.{
  ℕ, ◌*◌, ◌^◌, Bool, Option, none, some, List, [], ◌∷◌, Text, text_comparable, nat_beq, length,
  if◌then◌else◌,
}
use auxot.Common.Assoc.{Assoc, lookup, insert, erase}
use auxot.Common.Int.{ℤ}
use auxot.Protocol.{JobMessage, ChatMessage, Tool, ToolJobMessage, ImagePart}

-- toolsConn: a connected tools worker and the tools that it advertises.
pub record ToolsConn : Type 0 where
  pub id : Text
  pub tools : List Text

pub record JobContext : Type 0 where
  pub messages : List ChatMessage
  pub tools : List Tool
  pub temperature : Option ℕ
  pub max_tokens : Option ℤ
  pub reasoning_effort : Text
  pub thread_id : Text

pub record ToolCallResult : Type 0 where
  pub tool_name : Text
  pub result : Option Text
  pub err_msg : Text
  pub image_parts : List ImagePart

-- pendingContinuation; a result is `none` until it arrives.
pub record Pending : Type 0 where
  pub job_id : Text
  pub ctx : Option JobContext
  pub assistant_msg : ChatMessage
  pub results : Assoc Text (Option ToolCallResult)
  pub remaining : ℤ
  pub is_direct : Bool

pub record ToolJobRef : Type 0 where
  pub parent_job_id : Text
  pub tool_call_id : Text

-- ToolsWSHandler, with the two settings that it reads, and the messages that it has sent.
pub record Tools : Type 0 where
  pub allowed_tools : List Text
  pub tool_credentials : Assoc Text (Assoc Text Text)
  pub tools_workers : Assoc Text ToolsConn
  pub builtin_defs : Assoc Text Tool
  pub job_contexts : Assoc Text JobContext
  pub pending_conts : Assoc Text Pending
  pub tool_job_refs : Assoc Text ToolJobRef
  pub sent : List (Text × ToolJobMessage)
  pub rounds : List Pending

unfoldable pub context_of : JobMessage → JobContext
context_of job = record {
  messages = job.messages;
  tools = job.tools;
  temperature = job.temperature;
  max_tokens = job.max_tokens;
  reasoning_effort = job.reasoning_effort;
  thread_id = job.reference_id;
}

unfoldable pub save_job_context : Text → JobMessage → Tools → Tools
unfolding context_of
save_job_context job_id job h =
    if nat_beq (length h.allowed_tools) 0
    then h
    else record h { job_contexts = insert job_id (context_of job) h.job_contexts }

unfoldable pub delete_job_context : Text → Tools → Tools
delete_job_context job_id h = record h { job_contexts = erase job_id h.job_contexts }

defs_of : Assoc Text Tool → List Text → List Tool
defs_of builtin_defs [] = []
defs_of builtin_defs (name ∷ names) = elim (lookup name builtin_defs) [
  | none ↦ defs_of builtin_defs names
  | some def ↦ def ∷ defs_of builtin_defs names
]

unfoldable pub allowed_tool_defs : Tools → List Tool
unfolding defs_of
allowed_tool_defs h =
    if nat_beq (length h.allowed_tools) 0
    then []
    else if nat_beq (length h.tools_workers) 0
    then []
    else defs_of h.builtin_defs h.allowed_tools

abbrev pub stream_ttl_dispatched : ℕ
stream_ttl_dispatched = 30 * 60 * 10 ^ 9

abbrev pub stream_ttl_streaming : ℕ
stream_ttl_streaming = 10 * 60 * 10 ^ 9

abbrev pub stream_ttl_done : ℕ
stream_ttl_done = 3 * 60 * 10 ^ 9
