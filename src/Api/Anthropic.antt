-- ===== src/Api/Anthropic.antt =====
-- pkg/anthropic/types.go: the requests and responses of Anthropic's Messages API, and what is read
-- off them. Raw JSON is kept as text, and a float64 by its 64 bits.
pub mod Convert
pub mod Stream
pub mod Blocking
pub mod Routes
pub mod Tests
use auxot.Common.{
  ℕ, ◌+◌, ◌/◌, Bool, true, false, Option, none, some, List, [], ◌∷◌, ◌++◌, Text, codes,
  text_comparable, text_beq, is_empty, nat_beq, length, if◌then◌else◌,
}
use auxot.Common.Int.{ℤ}

pub record InputContentBlock : Type 0 where
  pub type : Text
  pub text : Text
  pub id : Text
  pub name : Text
  pub input : Text
  pub tool_use_id : Text
  pub content : Text

pub record Message : Type 0 where
  pub role : Text
  pub content : Text

pub record Tool : Type 0 where
  pub name : Text
  pub description : Text
  pub input_schema : Text

pub record ThinkingConfig : Type 0 where
  pub type : Text
  pub budget_tokens : ℤ

pub record MessagesRequest : Type 0 where
  pub model : Text
  pub messages : List Message
  pub max_tokens : ℤ
  pub stream : Bool
  pub system : Text
  pub temperature : Option ℕ
  pub top_p : Option ℕ
  pub tools : List Tool
  pub stop_sequences : List Text
  pub thinking : Option ThinkingConfig

pub record CountTokensRequest : Type 0 where
  pub model : Text
  pub messages : List Message
  pub system : Text
  pub tools : List Tool

pub record ContentBlock : Type 0 where
  pub type : Text
  pub thinking : Text
  pub text : Text
  pub id : Text
  pub name : Text
  pub input : Text

pub record Usage : Type 0 where
  pub input_tokens : ℤ
  pub output_tokens : ℤ

pub record MessagesResponse : Type 0 where
  pub id : Text
  pub type : Text
  pub role : Text
  pub content : List ContentBlock
  pub model : Text
  pub stop_reason : Option Text
  pub stop_sequence : Option Text
  pub usage : Usage

pub record Delta : Type 0 where
  pub type : Text
  pub thinking : Text
  pub text : Text
  pub partial_json : Text

pub record MessageDelta : Type 0 where
  pub stop_reason : Option Text
  pub stop_sequence : Option Text

pub record ErrorDetail : Type 0 where
  pub type : Text
  pub message : Text

pub record ModelObject : Type 0 where
  pub id : Text
  pub created_at : Text
  pub display_name : Text
  pub type : Text

pub record ModelListResponse : Type 0 where
  pub models : List ModelObject
  pub first_id : Option Text
  pub has_more : Bool
  pub last_id : Option Text

-- The events of a streamed response, by the text before their data.
pub data SseEvent : Type 0 where
  message_start : MessagesResponse → SseEvent
  ping : SseEvent
  content_block_start : ℕ → ContentBlock → SseEvent
  content_block_delta : ℕ → Delta → SseEvent
  content_block_stop : ℕ → SseEvent
  message_delta : MessageDelta → ℤ → SseEvent
  message_stop : SseEvent
  error_event : ErrorDetail → SseEvent

-- encoding/json at the content of a message: a string, or an array of blocks. `none` is an error,
-- and for an array also the JSON value null.
pub record ContentDecoder : Type 0 where
  pub string : Text → Option Text
  pub blocks : Text → Option (List InputContentBlock)

-- The texts of the blocks of type "text", one after another.
unfoldable pub text_of_blocks : List InputContentBlock → Text
text_of_blocks [] = []
text_of_blocks (b ∷ blocks) =
    if text_beq b.type (codes "text")
    then b.text ++ text_of_blocks blocks
    else text_of_blocks blocks

-- The same with line breaks between them, after what is in the builder.
unfoldable pub text_lines : Text → List InputContentBlock → Text
text_lines sb [] = sb
text_lines sb (b ∷ blocks) =
    if text_beq b.type (codes "text")
    then text_lines (if is_empty sb then b.text else sb ++ (10 ∷ b.text)) blocks
    else text_lines sb blocks

module _ (d : ContentDecoder) where
  -- A string as it is, and of an array what `join` makes of it.
  abbrev text_or_blocks : (List InputContentBlock → Text) → Text → Text
  text_or_blocks join raw = if is_empty raw then [] else elim (d.string raw) [
    | some s ↦ s
    | none ↦ elim (d.blocks raw) [ some blocks ↦ join blocks | none ↦ [] ]
  ]

  unfoldable pub system_text : Text → Text
  unfolding text_lines
  system_text system = text_or_blocks (text_lines []) system

  unfoldable pub text_content : Message → Text
  unfolding text_of_blocks
  text_content m = text_or_blocks text_of_blocks m.content

  unfoldable pub tool_result_text : InputContentBlock → Text
  unfolding text_of_blocks
  tool_result_text b = text_or_blocks text_of_blocks b.content

  -- `none` is nil.
  unfoldable pub content_blocks : Message → Option (List InputContentBlock)
  content_blocks m = if is_empty m.content then none else d.blocks m.content

sum_lengths : List Text → ℕ
sum_lengths [] = 0
sum_lengths (t ∷ texts) = length t + sum_lengths texts

-- The sum of the lengths of texts in memory does not reach 2 ^ 63.
unfoldable pub estimate_tokens : List Text → ℕ
unfolding sum_lengths
estimate_tokens texts =
    let total : ℕ = sum_lengths texts in
    if nat_beq (total / 4) 0 then if nat_beq total 0 then 0 else 1 else total / 4
