-- ===== src/Api/OpenAi.antt =====
-- pkg/openai/types.go: the requests and responses of OpenAI's APIs and the functions that build them.
-- Raw JSON is kept as text, and a float64 by its 64 bits; `created` is the time in seconds, and a
-- random ID is an argument.
pub mod Stream
pub mod Blocking
pub mod Legacy
pub mod Routes
pub mod Tests
use auxot.Common.{ℕ, suc, Bool, true, false, Option, none, some, List, [], ◌∷◌, Text, codes}
use auxot.Common.Int.{ℤ, pos}
use auxot.Protocol.{Json}

pub record ToolFunction : Type 0 where
  pub name : Text
  pub description : Text
  pub parameters : Text

pub record Tool : Type 0 where
  pub type : Text
  pub function : ToolFunction

pub record ToolCallFunction : Type 0 where
  pub name : Text
  pub arguments : Text

pub record ToolCall : Type 0 where
  pub index : ℕ
  pub id : Text
  pub type : Text
  pub function : ToolCallFunction

-- A nil content is the empty text.
pub record Message : Type 0 where
  pub role : Text
  pub content : Text
  pub reasoning_content : Text
  pub tool_call_id : Text
  pub tool_calls : List ToolCall

-- `stop` and `chat_template_kwargs` are kept as raw JSON.
pub record ChatCompletionRequest : Type 0 where
  pub model : Text
  pub messages : List Message
  pub stream : Bool
  pub temperature : Option ℕ
  pub max_tokens : Option ℤ
  pub tools : List Tool
  pub top_p : Option ℕ
  pub stop : Text
  pub reasoning_effort : Text
  pub chat_template_kwargs : Text
  pub return_progress : Bool
  pub thinking_budget_tokens : Option ℤ

pub record Choice : Type 0 where
  pub index : ℕ
  pub message : Option Message
  pub delta : Option Message
  pub finish_reason : Option Text

pub record Usage : Type 0 where
  pub cache_tokens : ℤ
  pub prompt_tokens : ℤ
  pub completion_tokens : ℤ
  pub total_tokens : ℤ

pub record ChatCompletionResponse : Type 0 where
  pub id : Text
  pub object : Text
  pub created : ℕ
  pub model : Text
  pub choices : List Choice
  pub usage : Option Usage

pub record ChatCompletionChunk : Type 0 where
  pub id : Text
  pub object : Text
  pub created : ℕ
  pub model : Text
  pub choices : List Choice
  pub usage : Option Usage

pub record CompletionRequest : Type 0 where
  pub model : Text
  pub prompt : Text
  pub max_tokens : Option ℤ
  pub temperature : Option ℕ
  pub top_p : Option ℕ
  pub stream : Bool
  pub stop : Text
  pub suffix : Text

-- The log probabilities are always null and left out.
pub record CompletionChoice : Type 0 where
  pub text : Text
  pub index : ℕ
  pub finish_reason : Text

pub record CompletionResponse : Type 0 where
  pub id : Text
  pub object : Text
  pub created : ℕ
  pub model : Text
  pub choices : List CompletionChoice
  pub usage : Option Usage

pub record ModelObject : Type 0 where
  pub id : Text
  pub object : Text
  pub created : ℕ
  pub owned_by : Text

pub record ModelListResponse : Type 0 where
  pub object : Text
  pub models : List ModelObject

pub record ErrorDetail : Type 0 where
  pub message : Text
  pub type : Text
  pub code : Text

abbrev pub empty_message : Message
empty_message = record {
  role = [];
  content = [];
  reasoning_content = [];
  tool_call_id = [];
  tool_calls = [];
}

abbrev pub new_error_response : Text → Text → Text → ErrorDetail
new_error_response message type code = record { message = message; type = type; code = code }

-- What the builders take from their surroundings: encoding/json, the ID and the time.
module _ (json : Json) (id : Text) (created : ℕ) where
  abbrev pub message_content_string : Text → Text
  message_content_string s = json.marshal_string s

  abbrev response : Text → Message → Text → Usage → ChatCompletionResponse
  response model message finish_reason usage = record {
    id = id;
    object = codes "chat.completion";
    created = created;
    model = model;
    choices =
        record {
          index = 0;
          message = some message;
          delta = none;
          finish_reason = some finish_reason;
        }
        ∷ [];
    usage = some usage;
  }

  unfoldable pub new_non_streaming_response : Text → Text → Text → Usage → ChatCompletionResponse
  new_non_streaming_response model content finish_reason usage =
      response model
        (record empty_message {
          role = codes "assistant";
          content = message_content_string content;
        })
        finish_reason usage

  unfoldable pub new_non_streaming_response_with_reasoning :
      Text → Text → Text → Text → Usage → ChatCompletionResponse
  new_non_streaming_response_with_reasoning model content reasoning_content finish_reason usage =
      response model
        (record empty_message {
          role = codes "assistant";
          content = message_content_string content;
          reasoning_content = reasoning_content;
        })
        finish_reason usage

  unfoldable pub new_tool_call_response : Text → List ToolCall → Usage → ChatCompletionResponse
  new_tool_call_response model tool_calls usage =
      response model (record empty_message { role = codes "assistant"; tool_calls = tool_calls })
        (codes "tool_calls") usage

  abbrev chunk : Text → Message → Option Text → Option Usage → ChatCompletionChunk
  chunk model delta finish_reason usage = record {
    id = id;
    object = codes "chat.completion.chunk";
    created = created;
    model = model;
    choices =
        record { index = 0; message = none; delta = some delta; finish_reason = finish_reason }
        ∷ [];
    usage = usage;
  }

  unfoldable pub new_streaming_chunk : Text → Text → ChatCompletionChunk
  new_streaming_chunk model content =
      chunk model (record empty_message { content = message_content_string content }) none none

  unfoldable pub new_streaming_reasoning_chunk : Text → Text → ChatCompletionChunk
  new_streaming_reasoning_chunk model reasoning_content =
      chunk model (record empty_message { reasoning_content = reasoning_content }) none none

  unfoldable pub new_streaming_role_chunk : Text → ChatCompletionChunk
  new_streaming_role_chunk model =
      chunk model
        (record empty_message { role = codes "assistant"; content = message_content_string [] })
        none none

  -- The calls, each with its position as index, counted from i.
  unfoldable pub new_streaming_tool_call_chunks :
      Text → ℕ → List ToolCall → List ChatCompletionChunk
  new_streaming_tool_call_chunks model i [] = []
  new_streaming_tool_call_chunks model i (tc ∷ tool_calls) =
      chunk model (record empty_message { tool_calls = record tc { index = i } ∷ [] }) none none
      ∷ new_streaming_tool_call_chunks model (suc i) tool_calls

  unfoldable pub new_streaming_done_chunk : Text → Text → Option Usage → ChatCompletionChunk
  new_streaming_done_chunk model finish_reason usage =
      chunk model empty_message (some finish_reason) usage

  unfoldable pub new_completion_response : Text → Text → Text → Option Usage → CompletionResponse
  new_completion_response model text finish_reason usage = record {
    id = id;
    object = codes "text_completion";
    created = created;
    model = model;
    choices = record { text = text; index = 0; finish_reason = finish_reason } ∷ [];
    usage = usage;
  }
