-- ===== src/Router/NextRound/History.antt =====
-- internal/router/toolshandler.go: what the next round is told.
use auxot.Common.{◌≡◌, refl, ap, Option, List, [], ◌∷◌, ◌++◌, map, Text, text_comparable}
use auxot.Common.Assoc.{Assoc}
use auxot.Protocol.{Json, ChatMessage, ToolCall}
use auxot.Router.ToolsState.{JobContext, Pending, ToolCallResult}
use auxot.Router.NextRound.{tool_messages, result_message, next_messages}

module _ (json : Json) where
  tool_messages-ids :
      (calls : List ToolCall) (results : Assoc Text (Option ToolCallResult))
      → map (λ m. m.tool_call_id) (tool_messages json calls results) ≡ map (λ tc. tc.id) calls
  unfolding tool_messages result_message
  tool_messages-ids [] results = refl
  tool_messages-ids (tc ∷ calls) results = ap (λ ids. tc.id ∷ ids) (tool_messages-ids calls results)

  -- The next round's messages are those of the job before, the assistant's turn, and one answer to each
  -- of its tool calls, in the order of the calls and not of the results.
  pub next_messages_answers :
      (ctx : JobContext) (cont : Pending)
      → (answers : List ChatMessage) × (next_messages json ctx cont
          ≡ ctx.messages ++ (cont.assistant_msg ∷ answers))
        × (map (λ m. m.tool_call_id) answers ≡ map (λ tc. tc.id) cont.assistant_msg.tool_calls)
  unfolding next_messages
  next_messages_answers ctx cont = (
    tool_messages json cont.assistant_msg.tool_calls cont.results,
    refl,
    tool_messages-ids cont.assistant_msg.tool_calls cont.results,
  )
