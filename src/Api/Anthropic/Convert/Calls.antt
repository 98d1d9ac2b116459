-- ===== src/Api/Anthropic/Convert/Calls.antt =====
-- internal/router/anthropichandler.go: what handleMessages keeps of tool calls and tool results.
use auxot.Common.{
  ◌≡◌, refl, sym, ap, ◌∙◌, ◌≢◌, inl, inr, Bool, true, false, Option, none, some, List, [], ◌∷◌,
  ◌++◌, append_assoc, append-nil, Text, codes, text_comparable, text_beq, text_beq_iff, text_beq_ne,
  ◌⊎◌, is_empty, is_nil, Bool-cases, Option-cases, List-cases, if◌then◌else◌,
}
use auxot.Protocol.{Json, ChatMessage, ToolCall}
use auxot.Api.Anthropic.{ContentDecoder, InputContentBlock, Message, content_blocks}
use auxot.Api.Anthropic.Convert.{
  Gathered, call_of, tool_result_of, gather, convert_message, convert_messages, assistant_message,
  other_message,
}

-- The tool calls in a list of messages, and its tool messages.
unfoldable pub calls_in : List ChatMessage → List ToolCall
calls_in [] = []
calls_in (m ∷ messages) = m.tool_calls ++ calls_in messages

abbrev blocks_or_none : Option (List InputContentBlock) → List InputContentBlock
blocks_or_none none = []
blocks_or_none (some blocks) = blocks

uses : List InputContentBlock → List ToolCall
uses [] = []
uses (b ∷ blocks) =
    if text_beq b.type (codes "tool_use") then call_of b ∷ uses blocks else uses blocks

unfoldable pub results : Json → ContentDecoder → List InputContentBlock → List ChatMessage
results json d [] = []
results json d (b ∷ blocks) =
    if text_beq b.type (codes "tool_result")
    then tool_result_of json d b ∷ results json d blocks
    else results json d blocks

block_cases :
    (type : Text)
    → (type ≡ codes "text")
      ⊎ (type ≡ codes "tool_use")
      ⊎ (type ≡ codes "tool_result")
      ⊎ ((text_beq type (codes "text") ≡ false)
          × (text_beq type (codes "tool_use") ≡ false)
          × (text_beq type (codes "tool_result") ≡ false))
block_cases type = elim (Bool-cases (text_beq type (codes "text"))) [
  | inl x ↦ inl ((text_beq_iff type _).0 x)
  | inr x ↦ elim (Bool-cases (text_beq type (codes "tool_use"))) [
    | inl y ↦ inr (inl ((text_beq_iff type _).0 y))
    | inr y ↦ elim (Bool-cases (text_beq type (codes "tool_result"))) [
      | inl z ↦ inr (inr (inl ((text_beq_iff type _).0 z)))
      | inr z ↦ inr (inr (inr (x, y, z)))
    ]
  ]
]

-- The calls that a request's assistant messages make.
unfoldable pub uses_in : ContentDecoder → List Message → List ToolCall
unfolding uses
uses_in d [] = []
uses_in d (m ∷ messages) =
    if text_beq m.role (codes "assistant")
    then uses (blocks_or_none (content_blocks d m)) ++ uses_in d messages
    else uses_in d messages

calls_in-append : (xs ys : List ChatMessage) → calls_in (xs ++ ys) ≡ calls_in xs ++ calls_in ys
unfolding calls_in
calls_in-append [] ys = refl
calls_in-append (m ∷ xs) ys =
    ap (λ l. m.tool_calls ++ l) (calls_in-append xs ys)
    ∙ sym (append_assoc m.tool_calls (calls_in xs) (calls_in ys))

module _ (json : Json) (d : ContentDecoder) where
  gather_calls : (blocks : List InputContentBlock) → (gather json d blocks).tool_calls ≡ uses blocks
  unfolding gather uses
  gather_calls [] = refl
  gather_calls (b ∷ blocks) =
      let ih = gather_calls blocks in
      elim (block_cases b.type) [
        | inl e ↦ rw e ih
        | inr (inl e) ↦ rw (e, ih) refl
        | inr (inr (inl e)) ↦ rw e ih
        | inr (inr (inr (x, y, z))) ↦ rw (x, y, z) ih
      ]

  pub gather_results :
      (blocks : List InputContentBlock)
      → (gather json d blocks).tool_results ≡ results json d blocks
  unfolding gather results
  gather_results [] = refl
  gather_results (b ∷ blocks) =
      let ih = gather_results blocks in
      elim (block_cases b.type) [
        | inl e ↦ rw e ih
        | inr (inl e) ↦ rw e ih
        | inr (inr (inl e)) ↦ rw (e, ih) refl
        | inr (inr (inr (x, y, z))) ↦ rw (x, y, z) ih
      ]

  results_call_nothing : (blocks : List InputContentBlock) → calls_in (results json d blocks) ≡ []
  unfolding results calls_in
  results_call_nothing [] = refl
  results_call_nothing (b ∷ blocks) = elim (Bool-cases (text_beq b.type (codes "tool_result"))) [
    | inl e ↦ rw e (results_call_nothing blocks)
    | inr e ↦ rw e (results_call_nothing blocks)
  ]

  assistant_calls : (g : Gathered) → calls_in (assistant_message json d g) ≡ g.tool_calls
  unfolding assistant_message calls_in
  assistant_calls g = elim (List-cases g.tool_calls) [
    | inl e ↦ elim (Bool-cases (is_empty g.text_content)) [
      | inl t ↦ rw (t, e) refl
      | inr t ↦ rw (t, e) refl
    ]
    | inr (x, xs, e) ↦ elim (Bool-cases (is_empty g.text_content)) [
      | inl t ↦ rw (t, e) (append-nil (x ∷ xs))
      | inr t ↦ rw (t, e) (append-nil (x ∷ xs))
    ]
  ]

  other_calls :
      (role : Text) (g : Gathered)
      → calls_in g.tool_results ≡ []
      → calls_in (other_message json d role g) ≡ []
  unfolding other_message calls_in
  other_calls role g h = elim (Bool-cases (is_nil g.tool_results)) [
    | inl e ↦ rw e refl
    | inr e ↦ rw e h
  ]

  convert_message_calls :
      (m : Message)
      → calls_in (convert_message json d m) ≡ (
          if text_beq m.role (codes "assistant")
          then uses (blocks_or_none (content_blocks d m))
          else [])
  unfolding convert_message calls_in uses
  convert_message_calls m = elim (Option-cases (content_blocks d m)) [
    | inl e ↦ elim (Bool-cases (text_beq m.role (codes "assistant"))) [
      | inl a ↦ rw (e, convert_message, a) refl
      | inr a ↦ rw (e, convert_message, a) refl
    ]
    | inr (blocks, e) ↦ elim (Bool-cases (text_beq m.role (codes "assistant"))) [
      | inl a ↦
          rw (e, convert_message, a) (assistant_calls (gather json d blocks) ∙ gather_calls blocks)
      | inr a ↦
          rw (e, convert_message, a)
            (other_calls m.role (gather json d blocks)
              (ap calls_in (gather_results blocks) ∙ results_call_nothing blocks))
    ]
  ]

  -- The job's messages make the tool calls of the request's assistant messages, in their order, and
  -- no others.
  pub convert_messages_calls :
      (messages : List Message) → calls_in (convert_messages json d messages) ≡ uses_in d messages
  unfolding convert_messages uses_in calls_in
  convert_messages_calls [] = refl
  convert_messages_calls (m ∷ messages) =
      calls_in-append (convert_message json d m) (convert_messages json d messages)
      ∙ ap (λ l. l ++ calls_in (convert_messages json d messages)) (convert_message_calls m)
      ∙ ap (λ l. own ++ l) (convert_messages_calls messages)
      ∙ joined (text_beq m.role (codes "assistant"))
    where
      uses_of_m : List ToolCall
      uses_of_m = uses (blocks_or_none (content_blocks d m))

      own : List ToolCall
      own = if text_beq m.role (codes "assistant") then uses_of_m else []

      joined :
          (b : Bool)
          → (if b then uses_of_m else []) ++ uses_in d messages
            ≡ (if b then uses_of_m ++ uses_in d messages else uses_in d messages)
      joined true = refl
      joined false = refl

  -- A message that is not the assistant's, and whose blocks hold a tool result, becomes the tool
  -- messages of its results: what its other blocks hold is in no message of the job.
  pub convert_message_results :
      (m : Message) (blocks : List InputContentBlock)
      → content_blocks d m ≡ some blocks
      → m.role ≢ codes "assistant"
      → results json d blocks ≢ []
      → convert_message json d m ≡ results json d blocks
  unfolding convert_message other_message
  convert_message_results m blocks e role some_result = elim (List-cases (results json d blocks)) [
    | inl empty ↦ absurd (some_result empty)
    | inr (x, xs, r) ↦
        let got = gather_results blocks ∙ r in
        rw (e, convert_message, text_beq_ne m.role (codes "assistant") role, got, r) refl
  ]
