-- ===== src/Api/Anthropic/Convert.antt =====
-- internal/router/anthropichandler.go: handleMessages, from a request to the job that it puts on the
-- queue.
pub mod Calls
use auxot.Common.{
  Option, none, some, List, [], ◌∷◌, ◌++◌, ◌&&◌, is_nil, Text, codes, text_comparable, text_beq,
  is_empty, if◌then◌else◌,
}
use auxot.Protocol
use auxot.Protocol.{Json, JobMessage, ChatMessage, ToolCall, type_job}
use auxot.Router.Continuation.{chat_content_string}
use auxot.Api.Anthropic.{
  ContentDecoder, InputContentBlock, Message, Tool, MessagesRequest, ThinkingConfig, text_content,
  content_blocks, system_text, tool_result_text,
}

-- What the loop over a message's blocks collects.
pub record Gathered : Type 0 where
  pub text_content : Text
  pub tool_calls : List ToolCall
  pub tool_results : List ChatMessage

abbrev pub plain_message : Text → Text → ChatMessage
plain_message role content = record {
  role = role;
  content = content;
  tool_call_id = [];
  tool_calls = [];
}

abbrev pub call_of : InputContentBlock → ToolCall
call_of b = record {
  id = b.id;
  type = codes "function";
  function = record { name = b.name; arguments = b.input };
}

module _ (json : Json) (d : ContentDecoder) where
  abbrev pub tool_result_of : InputContentBlock → ChatMessage
  tool_result_of b = record {
    role = codes "tool";
    content = chat_content_string json (tool_result_text d b);
    tool_call_id = b.tool_use_id;
    tool_calls = [];
  }

  unfoldable pub gather : List InputContentBlock → Gathered
  gather [] = record { text_content = []; tool_calls = []; tool_results = [] }
  gather (b ∷ blocks) =
      let rest = gather blocks in
      if text_beq b.type (codes "text")
      then record rest { text_content = b.text ++ rest.text_content }
      else if text_beq b.type (codes "tool_use")
      then record rest { tool_calls = call_of b ∷ rest.tool_calls }
      else if text_beq b.type (codes "tool_result")
      then record rest { tool_results = tool_result_of b ∷ rest.tool_results }
      else rest

  unfoldable pub assistant_message : Gathered → List ChatMessage
  assistant_message g =
      if is_empty g.text_content && is_nil g.tool_calls
      then []
      else record (plain_message (codes "assistant") (chat_content_string json g.text_content)) {
        tool_calls = g.tool_calls;
      }
        ∷ []

  unfoldable pub other_message : Text → Gathered → List ChatMessage
  other_message role g =
      if is_nil g.tool_results
      then plain_message role (chat_content_string json g.text_content) ∷ []
      else g.tool_results

  -- The messages that one message of the request becomes.
  unfoldable pub convert_message : Message → List ChatMessage
  unfolding gather assistant_message other_message
  convert_message m = elim (content_blocks d m) [
    | some blocks ↦
        if text_beq m.role (codes "assistant")
        then assistant_message (gather blocks)
        else other_message m.role (gather blocks)
    | none ↦ plain_message m.role (chat_content_string json (text_content d m)) ∷ []
  ]

  unfoldable pub convert_messages : List Message → List ChatMessage
  unfolding convert_message
  convert_messages [] = []
  convert_messages (m ∷ messages) = convert_message m ++ convert_messages messages

  unfoldable pub system_message : Text → List ChatMessage
  system_message system =
      let text : Text = system_text d system in
      if is_empty text
      then []
      else plain_message (codes "system") (chat_content_string json text) ∷ []

  unfoldable pub convert_tools : List Tool → List Protocol.Tool
  convert_tools [] = []
  convert_tools (t ∷ tools) =
      record {
        type = codes "function";
        function = record {
          name = t.name;
          description = t.description;
          parameters = t.input_schema;
        };
      }
      ∷ convert_tools tools

  unfoldable pub reasoning_effort : Option ThinkingConfig → Text
  reasoning_effort none = []
  reasoning_effort (some thinking) =
      if text_beq thinking.type (codes "disabled")
      then codes "none"
      else if text_beq thinking.type (codes "enabled")
      then codes "high"
      else []

  unfoldable pub job_message : Text → MessagesRequest → JobMessage
  unfolding convert_messages system_message convert_tools reasoning_effort
  job_message job_id req = record {
    type = type_job;
    job_id = job_id;
    reference_id = [];
    model = [];
    messages = system_message req.system ++ convert_messages req.messages;
    tools = convert_tools req.tools;
    temperature = req.temperature;
    max_tokens = some req.max_tokens;
    reasoning_effort = reasoning_effort req.thinking;
    arguments = [];
    caller_tools = [];
    compaction_session_id = [];
    credentials = [];
  }
