-- ===== src/Api/Anthropic/Stream/Assembled.antt =====
-- internal/router/anthropichandler.go: what a client assembles from the events of streamResponse.
use auxot.Common.{
  ℕ, suc, ◌≡◌, refl, sym, ap, ◌∙◌, inl, inr, Bool, true, false, ◌&&◌, ◌||◌, Option, none, some,
  List, [], ◌∷◌, ◌++◌, append-nil, append_assoc, Text, codes, text_comparable, text_beq, is_empty,
  keep, List-cases, arith, if◌then◌else◌, not,
}
use auxot.Common.Int.{ℤ, pos, ◌+ℤ◌, ltb_ℤ, wrap_int}
use auxot.Protocol.{ToolCall, CompleteMessage}
use auxot.Api.Events.{Kind, reasoning_token, token, done, failure, skipped}
use auxot.Api.Events.Rounds.{run}
use auxot.Api.Anthropic.{
  ContentBlock, Delta, SseEvent, message_start, ping, content_block_start, content_block_delta,
  content_block_stop, message_delta, message_stop, error_event,
}
use auxot.Api.Anthropic.Stream
use auxot.Api.Anthropic.Stream.{
  Drawn, Streaming, not_streaming, empty_block, tool_id, stop_reason, on_reasoning_token, on_token,
  on_done, close_thinking, open_text, close_blocks, tool_use_events,
}
use auxot.Api.Anthropic.Stream.Conforms.{in_order}
use auxot.Api.Anthropic.Blocking.{tool_use_blocks}

-- The event that ends the stream, if it is a completion.
unfoldable pub completion : List Kind → Option (CompleteMessage × Bool)
completion [] = none
completion (reasoning_token t ∷ ks) = completion ks
completion (token t ∷ ks) = completion ks
completion (done complete decoded ∷ ks) = some (complete, decoded)
completion (failure text ∷ ks) = none
completion (skipped ∷ ks) = completion ks

-- The text and the reasoning before that.
unfoldable pub tokens_of : List Kind → Text
tokens_of (reasoning_token t ∷ ks) = tokens_of ks
tokens_of (token t ∷ ks) = t ++ tokens_of ks
tokens_of (skipped ∷ ks) = tokens_of ks
tokens_of ks = []

unfoldable pub reasoning_of : List Kind → Text
reasoning_of (reasoning_token t ∷ ks) = t ++ reasoning_of ks
reasoning_of (token t ∷ ks) = reasoning_of ks
reasoning_of (skipped ∷ ks) = reasoning_of ks
reasoning_of ks = []

abbrev extend : ContentBlock → Delta → ContentBlock
extend b d = record b {
  thinking = b.thinking ++ d.thinking;
  text = b.text ++ d.text;
  input = b.input ++ d.partial_json;
}

abbrev opened : Option ContentBlock → List ContentBlock
opened none = []
opened (some b) = b ∷ []

abbrev extend_open : Option ContentBlock → Delta → Option ContentBlock
extend_open none d = none
extend_open (some b) d = some (extend b d)

-- What a client makes of a stream: the blocks, each with its deltas.
unfoldable pub assemble : Option ContentBlock → List SseEvent → List ContentBlock
assemble current [] = opened current
assemble current (content_block_start i b ∷ events) = opened current ++ assemble (some b) events
assemble current (content_block_delta i d ∷ events) = assemble (extend_open current d) events
assemble current (content_block_stop i ∷ events) = opened current ++ assemble none events
assemble current (message_start m ∷ events) = assemble current events
assemble current (ping ∷ events) = assemble current events
assemble current (message_delta d u ∷ events) = assemble current events
assemble current (message_stop ∷ events) = assemble current events
assemble current (error_event e ∷ events) = assemble current events

-- A block that is a tool's use, or has text or reasoning.
abbrev pub is_filled : ContentBlock → Bool
is_filled b = text_beq b.type (codes "tool_use") || not (is_empty b.thinking && is_empty b.text)

abbrev pub thinking_block : Text → ContentBlock
thinking_block t = record empty_block { type = codes "thinking"; thinking = t }

abbrev pub text_block : Text → ContentBlock
text_block t = record empty_block { type = codes "text"; text = t }

-- The handler's variables while no block is open, and while one is.
abbrev pub idle : ℤ → ℕ → Streaming
idle o i = record not_streaming { output_tokens = o; current_block_index = i }

abbrev thinking : ℤ → ℕ → Streaming
thinking o i = record (idle o i) { has_started_thinking_block = true }

abbrev texting : ℤ → ℕ → Streaming
texting o i = record (idle o i) { has_started_text_block = true }

abbrev pub filled : List ContentBlock → List ContentBlock
filled blocks = keep is_filled blocks

pub keep-cons {ℓ} :
    {A : Type ℓ} (p : A → Bool) (x : A) (xs : List A)
    → keep p (x ∷ xs) ≡ keep p (x ∷ []) ++ keep p xs
keep-cons p x xs = ground arith

no_reasoning : (ks : List Kind) → in_order true ks ≡ true → reasoning_of ks ≡ []
unfolding in_order reasoning_of
no_reasoning [] order = refl
no_reasoning (reasoning_token t ∷ ks) order = cc
no_reasoning (token t ∷ ks) order = no_reasoning ks order
no_reasoning (done complete decoded ∷ ks) order = refl
no_reasoning (failure text ∷ ks) order = refl
no_reasoning (skipped ∷ ks) order = no_reasoning ks order

module _ (drawn : Drawn) where
  assemble-tool_use_events :
      (n i : ℕ) (calls : List ToolCall) (rest : List SseEvent)
      → assemble none rest ≡ []
      → assemble none (tool_use_events drawn n i calls ++ rest) ≡ tool_use_blocks drawn n calls
  unfolding assemble tool_use_events tool_use_blocks
  assemble-tool_use_events n i [] rest h = h
  assemble-tool_use_events n i (tc ∷ calls) rest h =
      let more = assemble-tool_use_events (suc n) (suc i) calls rest h in
      elim (List-cases tc.function.arguments) [
        | inl e ↦ rw (e, more) refl
        | inr (x, xs, e) ↦ rw (e, more) refl
      ]

  pub filled-tool_use_blocks :
      (n : ℕ) (calls : List ToolCall)
      → filled (tool_use_blocks drawn n calls) ≡ tool_use_blocks drawn n calls
  unfolding tool_use_blocks
  filled-tool_use_blocks n [] = refl
  filled-tool_use_blocks n (tc ∷ calls) = rw (filled-tool_use_blocks (suc n) calls) refl

  -- What follows the open block at a completion, with the index and the tokens counted.
  abbrev ending : CompleteMessage → ℕ → ℤ → List SseEvent
  ending complete i o =
      tool_use_events drawn 0 i complete.tool_calls
      ++ message_delta
          (record { stop_reason = some (stop_reason complete.tool_calls); stop_sequence = none })
          (if ltb_ℤ (pos 0) complete.output_tokens then complete.output_tokens else o)
        ∷ message_stop
        ∷ []

  filled-ending :
      (complete other : CompleteMessage) (i : ℕ) (o : ℤ)
      → other ≡ complete
      → filled (assemble none (ending other i o)) ≡ tool_use_blocks drawn 0 complete.tool_calls
  unfolding assemble
  filled-ending complete other i o same =
      ap filled (assemble-tool_use_events 0 i other.tool_calls _ refl)
      ∙ filled-tool_use_blocks 0 other.tool_calls
      ∙ ap (λ c. tool_use_blocks drawn 0 c.tool_calls) same

  filled-cons-ending :
      (b : ContentBlock) (complete other : CompleteMessage) (i : ℕ) (o : ℤ)
      → other ≡ complete
      → filled (b ∷ assemble none (ending other i o))
        ≡ filled (b ∷ []) ++ tool_use_blocks drawn 0 complete.tool_calls
  filled-cons-ending b complete other i o same =
      keep-cons is_filled b (assemble none (ending other i o))
      ∙ ap (λ l. filled (b ∷ []) ++ l) (filled-ending complete other i o same)

  module _ (complete : CompleteMessage) (decoded : Bool) where
    abbrev pub tools : List ContentBlock
    tools = tool_use_blocks drawn 0 complete.tool_calls

    abbrev pub texts : Text → List ContentBlock
    texts t = filled (text_block t ∷ []) ++ tools

    abbrev pub thoughts : Text → Text → List ContentBlock
    thoughts u t = filled (thinking_block u ∷ []) ++ texts t

    assemble-texting :
        (ks : List Kind) (o : ℤ) (i : ℕ) (t : Text)
        → in_order true ks ≡ true
        → completion ks ≡ some (complete, decoded)
        → filled (assemble (some (text_block t)) (run (Stream.on_event drawn) ks (texting o i)))
          ≡ texts (t ++ tokens_of ks)
    unfolding run assemble Stream.on_event on_token close_thinking open_text on_done close_blocks
        in_order completion tokens_of
    assemble-texting [] o i t order ends = cc
    assemble-texting (reasoning_token u ∷ ks) o i t order ends = cc
    assemble-texting (token u ∷ ks) o i t order ends =
        assemble-texting ks _ i (t ++ u) order ends ∙ ap texts (append_assoc t u (tokens_of ks))
    assemble-texting (done other decoded' ∷ ks) o i t order ends =
        filled-cons-ending (text_block t) complete other (suc i) o (cc)
        ∙ ap texts (sym (append-nil t))
    assemble-texting (failure text ∷ ks) o i t order ends = cc
    assemble-texting (skipped ∷ ks) o i t order ends = assemble-texting ks o i t order ends

    assemble-thinking :
        (ks : List Kind) (o : ℤ) (i : ℕ) (t : Text)
        → in_order false ks ≡ true
        → completion ks ≡ some (complete, decoded)
        → filled
            (assemble (some (thinking_block t)) (run (Stream.on_event drawn) ks (thinking o i)))
          ≡ thoughts (t ++ reasoning_of ks) (tokens_of ks)
    unfolding run assemble Stream.on_event on_reasoning_token on_token close_thinking open_text
        on_done close_blocks in_order completion tokens_of reasoning_of
    assemble-thinking [] o i t order ends = cc
    assemble-thinking (reasoning_token u ∷ ks) o i t order ends =
        assemble-thinking ks o i (t ++ u) order ends
        ∙ ap (λ l. thoughts l (tokens_of ks)) (append_assoc t u (reasoning_of ks))
    assemble-thinking (token u ∷ ks) o i t order ends =
        keep-cons is_filled (thinking_block t) (
          assemble (some (text_block u))
            (run (Stream.on_event drawn) ks (texting (wrap_int (o +ℤ pos 1)) (suc i))))
        ∙ ap (λ l. filled (thinking_block t ∷ []) ++ l) (assemble-texting ks _ _ u order ends)
        ∙ ap (λ l. thoughts l (u ++ tokens_of ks))
            (sym (ap (λ l. t ++ l) (no_reasoning ks order) ∙ append-nil t))
    assemble-thinking (done other decoded' ∷ ks) o i t order ends =
        filled-cons-ending (thinking_block t) complete other (suc i) o (cc)
        ∙ ap (λ l. thoughts l []) (sym (append-nil t))
    assemble-thinking (failure text ∷ ks) o i t order ends = cc
    assemble-thinking (skipped ∷ ks) o i t order ends = assemble-thinking ks o i t order ends

    pub assemble-idle :
        (ks : List Kind) (o : ℤ) (i : ℕ)
        → in_order false ks ≡ true
        → completion ks ≡ some (complete, decoded)
        → filled (assemble none (run (Stream.on_event drawn) ks (idle o i)))
          ≡ thoughts (reasoning_of ks) (tokens_of ks)
    unfolding run assemble Stream.on_event on_reasoning_token on_token close_thinking open_text
        on_done close_blocks in_order completion tokens_of reasoning_of
    assemble-idle [] o i order ends = cc
    assemble-idle (reasoning_token u ∷ ks) o i order ends = assemble-thinking ks o i u order ends
    assemble-idle (token u ∷ ks) o i order ends =
        assemble-texting ks _ i u order ends
        ∙ ap (λ l. thoughts l (u ++ tokens_of ks)) (sym (no_reasoning ks order))
    assemble-idle (done other decoded' ∷ ks) o i order ends = filled-ending complete other i o cc
    assemble-idle (failure text ∷ ks) o i order ends = cc
    assemble-idle (skipped ∷ ks) o i order ends = assemble-idle ks o i order ends
