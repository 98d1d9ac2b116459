-- ===== src/Api/Anthropic/Blocking/Agrees.antt =====
-- internal/router/anthropichandler.go: streamResponse and blockingResponse on the same events.
use auxot.Common.{
  ◌≡◌, refl, sym, ap, ◌∙◌, inl, inr, Bool, true, false, none, some, List, [], ◌∷◌, ◌++◌, append-nil,
  append_assoc, Text, codes, text_comparable, Bool-cases, List-cases,
}
use auxot.Common.Int.{pos}
use auxot.Protocol.{CompleteMessage}
use auxot.Queue.Redis.{Redis}
use auxot.Queue.Tokens.{TokenStream, TokenStreamEntry, EventCodec}
use auxot.Api.Events.{Decoder, Moment, Kind, reasoning_token, token, done, failure, skipped}
use auxot.Api.Events.Rounds.{Reads, kinds, run, follow-run}
use auxot.Api.Anthropic.{ContentBlock, MessagesResponse}
use auxot.Api.Anthropic.Stream
use auxot.Api.Anthropic.Stream.{Drawn, not_streaming, stream_response}
use auxot.Api.Anthropic.Stream.Conforms.{in_order}
use auxot.Api.Anthropic.Stream.Assembled.{
  completion, tokens_of, reasoning_of, assemble, filled, thoughts, tools, assemble-idle,
  filled-tool_use_blocks,
}
use auxot.Api.Anthropic.Blocking.{
  message, Collected, nothing_yet, on_event, completed, content_blocks_of, usage_of, or_empty_text,
  blocking_response,
}

-- The message that answers a completion.
abbrev answer : Drawn → Text → CompleteMessage → Bool → Collected → MessagesResponse
answer drawn model complete decoded s = record {
  id = drawn.message_id;
  type = codes "message";
  role = codes "assistant";
  content = content_blocks_of drawn (completed complete decoded s) complete.tool_calls;
  model = model;
  stop_reason = some (Stream.stop_reason complete.tool_calls);
  stop_sequence = none;
  usage = usage_of complete decoded;
}

abbrev after : List Kind → Collected → Collected
after ks s = record {
  full_content = s.full_content ++ tokens_of ks;
  reasoning_content = s.reasoning_content ++ reasoning_of ks;
}

filled-or_empty_text : (blocks : List ContentBlock) → filled (or_empty_text blocks) ≡ filled blocks
filled-or_empty_text [] = refl
filled-or_empty_text (b ∷ blocks) = refl

module _ (drawn : Drawn) (model : Text) (complete : CompleteMessage) (decoded : Bool) where
  run-answer :
      (ks : List Kind) (s : Collected)
      → completion ks ≡ some (complete, decoded)
      → run (on_event drawn model) ks s
        ≡ message (answer drawn model complete decoded (after ks s)) ∷ []
  unfolding run on_event completion tokens_of reasoning_of
  run-answer [] s ends = cc
  run-answer (reasoning_token t ∷ ks) s ends =
      run-answer ks _ ends
      ∙ ap
          (λ l.
            message (
              answer drawn model complete decoded
                (record { full_content = s.full_content ++ tokens_of ks; reasoning_content = l }))
            ∷ [])
          (append_assoc s.reasoning_content t (reasoning_of ks))
  run-answer (token t ∷ ks) s ends =
      run-answer ks _ ends
      ∙ ap
          (λ l.
            message (
              answer drawn model complete decoded (record {
                full_content = l;
                reasoning_content = s.reasoning_content ++ reasoning_of ks;
              }))
            ∷ [])
          (append_assoc s.full_content t (tokens_of ks))
  run-answer (done other decoded' ∷ ks) s ends =
      let same : other ≡ complete = cc in
      let same' : decoded' ≡ decoded = cc in
      rw (same, same', append-nil s.full_content, append-nil s.reasoning_content) refl
  run-answer (failure text ∷ ks) s ends = cc
  run-answer (skipped ∷ ks) s ends = run-answer ks s ends

  filled-content_blocks_of :
      (s : Collected)
      → filled (content_blocks_of drawn s complete.tool_calls)
        ≡ thoughts drawn complete decoded s.reasoning_content s.full_content
  unfolding content_blocks_of
  filled-content_blocks_of s =
      let calls = filled-tool_use_blocks drawn 0 complete.tool_calls in
      elim (List-cases s.reasoning_content) [
        | inl e ↦ elim (List-cases s.full_content) [
          | inl e' ↦ rw (e, e') (filled-or_empty_text (tools drawn complete decoded) ∙ calls)
          | inr (x, xs, e') ↦ rw (e, e', calls) refl
        ]
        | inr (y, ys, e) ↦ elim (List-cases s.full_content) [
          | inl e' ↦ rw (e, e', calls) refl
          | inr (x, xs, e') ↦ rw (e, e', calls) refl
        ]
      ]

  completed_same :
      (s : Collected)
      → complete.full_response ≡ []
      → complete.reasoning_content ≡ []
      → completed complete decoded s ≡ s
  unfolding completed
  completed_same s no_text no_reasoning = elim (Bool-cases decoded) [
    | inl e ↦ rw (e, no_text, no_reasoning) refl
    | inr e ↦ rw e refl
  ]

  -- The same completion, without a text or a reasoning of its own, is answered by one message: the
  -- blocks that a client assembles from the streamed response are the message's, but for blocks
  -- without text, if both handlers read the same events and all reasoning comes before the text.
  pub stream_response-blocking_response :
      (d : Decoder) (r : Redis) (c : EventCodec) (ts : TokenStream)
      (moments moments' : List (Moment r)) (job_id error_text : Text)
      (entries : List TokenStreamEntry)
      → Reads r c ts job_id none moments (codes "0-0") entries
      → Reads r c ts job_id none moments' (codes "0-0") entries
      → in_order false (kinds d entries) ≡ true
      → completion (kinds d entries) ≡ some (complete, decoded)
      → complete.full_response ≡ []
      → complete.reasoning_content ≡ []
      → (m : MessagesResponse) × (blocking_response drawn model d r c ts moments' error_text job_id
          ≡ message m ∷ [])
        × (filled (assemble none (stream_response drawn d r c ts moments job_id model))
            ≡ filled m.content)
        × (m.stop_reason ≡ some (Stream.stop_reason complete.tool_calls))
  unfolding assemble stream_response blocking_response
  stream_response-blocking_response d r c ts moments moments' job_id error_text entries reads reads'
        order ends no_text no_reasoning =
      (
        answer drawn model complete decoded (after (kinds d entries) nothing_yet),
        follow-run (on_event drawn model) d r c ts job_id none _ moments' _ entries nothing_yet
              reads'
            ∙ run-answer (kinds d entries) nothing_yet ends,
        ap (λ l. filled (assemble none l))
              (follow-run (Stream.on_event drawn) d r c ts job_id none _ moments _ entries
                not_streaming reads)
            ∙ assemble-idle drawn complete decoded (kinds d entries) (pos 0) 0 order ends
            ∙ sym (
                ap (λ s. filled (content_blocks_of drawn s complete.tool_calls))
                  (completed_same (after (kinds d entries) nothing_yet) no_text no_reasoning)
                ∙ filled-content_blocks_of (after (kinds d entries) nothing_yet)),
        refl,
      )
