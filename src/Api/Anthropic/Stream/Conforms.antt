-- ===== src/Api/Anthropic/Stream/Conforms.antt =====
-- internal/router/anthropichandler.go: streamResponse against the order that Anthropic documents for
-- the events of a stream.
use auxot.Common.{
  ℕ, suc, ◌≡◌, refl, ap, ◌∙◌, inl, inr, Bool, true, false, not, ◌&&◌, ◌||◌, Option, none, some,
  List, [], ◌∷◌, ◌++◌, Text, codes, text_comparable, text_beq, nat_beq, is_empty, arith,
  if◌then◌else◌, Bool-cases,
}
use auxot.Protocol.{ToolCall, CompleteMessage}
use auxot.Queue.Redis.{Redis}
use auxot.Queue.Tokens.{TokenStream, TokenStreamEntry, EventCodec}
use auxot.Api.Events.{
  Decoder, Moment, Turn, goes_on, returns, Kind, reasoning_token, token, done, failure, skipped,
}
use auxot.Api.Events.Rounds.{Reads, kinds, run, then_run, follow-run}
use auxot.Api.Anthropic.{
  ErrorDetail, SseEvent, message_start, ping, content_block_start, content_block_delta,
  content_block_stop, message_delta, message_stop, error_event,
}
use auxot.Api.Anthropic.Stream.{
  Drawn, Streaming, not_streaming, on_event, on_reasoning_token, on_token, on_done, close_thinking,
  open_text, close_blocks, tool_use_events, stream_response,
}

-- Where a client is in a stream: before the message, between blocks with the index of the next one,
-- in the block of an index and a type, after the message's last delta, or at the end.
pub data Phase : Type 0 where
  before_message : Phase
  between : ℕ → Phase
  inside : ℕ → Text → Phase
  after_delta finished : Phase

-- The delta that a block of a type takes.
abbrev fits : Text → Text → Bool
fits block delta =
    (text_beq block (codes "thinking") && text_beq delta (codes "thinking_delta"))
    || (text_beq block (codes "text") && text_beq delta (codes "text_delta"))
    || (text_beq block (codes "tool_use") && text_beq delta (codes "input_json_delta"))

abbrev guarded : Bool → Phase → Option Phase
guarded true p = some p
guarded false p = none

-- What a client accepts: blocks with the indices 0, 1, 2 and so on, each opened, filled with deltas
-- of its type and closed before the next, then the message's delta and its end. An error ends it.
abbrev pub accept : Phase → SseEvent → Option Phase
accept before_message (message_start _) = some (between 0)
accept (between n) ping = some (between n)
accept (between n) (content_block_start i b) = guarded (nat_beq i n) (inside n b.type)
accept (between n) (message_delta _ _) = some after_delta
accept (between n) (error_event _) = some finished
accept (inside n type) (content_block_delta i d) =
    guarded (nat_beq i n && fits type d.type) (inside n type)
accept (inside n type) (content_block_stop i) = guarded (nat_beq i n) (between (suc n))
accept (inside n type) (error_event _) = some finished
accept after_delta message_stop = some finished
accept _ _ = none

abbrev and_accept : Option Phase → (Phase → Option Phase) → Option Phase
and_accept none next = none
and_accept (some p) next = next p

unfoldable pub accept_all : Phase → List SseEvent → Option Phase
accept_all p [] = some p
accept_all p (e ∷ events) =
    let later : Phase → Option Phase = λ q. accept_all q events in and_accept (accept p e) later

pub accept_all-append :
    (p q : Phase) (xs ys : List SseEvent)
    → accept_all p xs ≡ some q
    → accept_all p (xs ++ ys) ≡ accept_all q ys
unfolding accept_all
accept_all-append p q [] ys h = ap (λ o. and_accept o (λ r. accept_all r ys)) h
accept_all-append p q (e ∷ xs) ys h = through (accept p e) (λ r. accept_all-append r q xs ys) h
  where
    through :
        (o : Option Phase)
        → ((r : Phase) → accept_all r xs ≡ some q → accept_all r (xs ++ ys) ≡ accept_all q ys)
        → and_accept o (λ r. accept_all r xs) ≡ some q
        → and_accept o (λ r. accept_all r (xs ++ ys)) ≡ accept_all q ys
    through none next e = cc
    through (some r) next e = next r e

-- Reasoning comes before text, up to the event that ends the stream.
unfoldable pub in_order : Bool → List Kind → Bool
in_order seen_text [] = true
in_order seen_text (reasoning_token t ∷ ks) = not seen_text && in_order seen_text ks
in_order seen_text (token t ∷ ks) = in_order true ks
in_order seen_text (done complete decoded ∷ ks) = true
in_order seen_text (failure message ∷ ks) = true
in_order seen_text (skipped ∷ ks) = in_order seen_text ks

-- There is an event that ends the stream.
unfoldable pub has_end : List Kind → Bool
has_end [] = false
has_end (done complete decoded ∷ ks) = true
has_end (failure message ∷ ks) = true
has_end (reasoning_token t ∷ ks) = has_end ks
has_end (token t ∷ ks) = has_end ks
has_end (skipped ∷ ks) = has_end ks

-- Where the client is when the handler's variables are such.
abbrev pub phase_of : Streaming → Phase
phase_of s =
    if s.has_started_text_block
    then inside s.current_block_index (codes "text")
    else if s.has_started_thinking_block
    then inside s.current_block_index (codes "thinking")
    else between s.current_block_index

nat_beq_refl : (n : ℕ) → nat_beq n n ≡ true
nat_beq_refl n = ground arith

tool_use_events-accepted :
    (drawn : Drawn) (n index : ℕ) (calls : List ToolCall) (rest : List SseEvent) (q : Phase)
    → ((i : ℕ) → accept_all (between i) rest ≡ some q)
    → accept_all (between index) (tool_use_events drawn n index calls ++ rest) ≡ some q
unfolding accept_all tool_use_events
tool_use_events-accepted drawn n index [] rest q h = h index
tool_use_events-accepted drawn n index (tc ∷ calls) rest q h =
    let same = nat_beq_refl index in
    let more = tool_use_events-accepted drawn (suc n) (suc index) calls rest q h in
    elim (Bool-cases (is_empty tc.function.arguments)) [
      | inl e ↦ rw (e, same, same) more
      | inr e ↦ rw (e, same, same, same) more
    ]

-- One of the blocks at most is open.
abbrev pub IsSingle : Streaming → Type 0
IsSingle s = (s.has_started_text_block && s.has_started_thinking_block) ≡ false

-- A turn takes a client from where it is to where the handler's variables say, which tell whether
-- there has been text.
abbrev pub Lands : Phase → Bool → Turn Streaming SseEvent → Type 0
Lands p seen_text (goes_on out s) =
    (accept_all p out ≡ some (phase_of s)) × IsSingle s × (s.has_started_text_block ≡ seen_text)
Lands p seen_text (returns out) = accept_all p out ≡ some finished

on_done-Lands :
    (drawn : Drawn) (complete : CompleteMessage) (s : Streaming)
    → Lands (phase_of s) s.has_started_text_block (on_done drawn complete s)
unfolding accept_all on_done close_blocks
on_done-Lands drawn complete s =
    let same = nat_beq_refl s.current_block_index in
    let calls = complete.tool_calls in
    elim (Bool-cases s.has_started_text_block) [
      | inl a ↦ rw (a, same) (tool_use_events-accepted drawn 0 _ calls _ finished (λ i. refl))
      | inr a ↦ elim (Bool-cases s.has_started_thinking_block) [
        | inl b ↦ rw (a, b, same) (tool_use_events-accepted drawn 0 _ calls _ finished (λ i. refl))
        | inr b ↦ rw (a, b) (tool_use_events-accepted drawn 0 _ calls _ finished (λ i. refl))
      ]
    ]

pub on_token-Lands :
    (t : Text) (s : Streaming) → IsSingle s → Lands (phase_of s) true (on_token t s)
unfolding accept_all on_token close_thinking open_text
on_token-Lands t s h =
    let same = nat_beq_refl s.current_block_index in
    let next = nat_beq_refl (suc s.current_block_index) in
    elim (Bool-cases s.has_started_text_block) [
      | inl a ↦
          let b : s.has_started_thinking_block ≡ false = rw a at h in
          rw (a, b, same) (refl, refl, refl)
      | inr a ↦ elim (Bool-cases s.has_started_thinking_block) [
        | inl b ↦ rw (a, b, same, next, next) (refl, refl, refl)
        | inr b ↦ rw (a, b, same, same) (refl, refl, refl)
      ]
    ]

pub on_reasoning_token-Lands :
    (t : Text) (s : Streaming)
    → s.has_started_text_block ≡ false
    → Lands (phase_of s) false (on_reasoning_token t s)
unfolding accept_all on_reasoning_token
on_reasoning_token-Lands t s a =
    let same = nat_beq_refl s.current_block_index in
    elim (Bool-cases s.has_started_thinking_block) [
      | inl b ↦ rw (a, b, same) (refl, refl, refl)
      | inr b ↦ rw (a, b, same, same) (refl, refl, refl)
    ]

landed :
    (t : Turn Streaming SseEvent) (p : Phase) (seen_text : Bool) (next : Streaming → List SseEvent)
    → Lands p seen_text t
    → ((s : Streaming)
        → IsSingle s
        → s.has_started_text_block ≡ seen_text
        → accept_all (phase_of s) (next s) ≡ some finished)
    → accept_all p (then_run t next) ≡ some finished
landed (returns out) p seen_text next h later = h
landed (goes_on out s) p seen_text next (h, single, flag) later =
    accept_all-append p (phase_of s) out (next s) h ∙ later s single flag

error-accepted :
    (s : Streaming) (detail : ErrorDetail)
    → accept_all (phase_of s) (error_event detail ∷ []) ≡ some finished
unfolding accept_all
error-accepted s detail = elim (Bool-cases s.has_started_text_block) [
  | inl a ↦ rw a refl
  | inr a ↦ elim (Bool-cases s.has_started_thinking_block) [
    | inl b ↦ rw (a, b) refl
    | inr b ↦ rw (a, b) refl
  ]
]

run-accepted :
    (drawn : Drawn) (ks : List Kind) (s : Streaming)
    → IsSingle s
    → in_order s.has_started_text_block ks ≡ true
    → has_end ks ≡ true
    → accept_all (phase_of s) (run (on_event drawn) ks s) ≡ some finished
unfolding run on_event on_done in_order has_end
run-accepted drawn [] s single order end = cc
run-accepted drawn (reasoning_token t ∷ ks) s single order end =
    let text_free : s.has_started_text_block ≡ false = ground arith in
    landed (on_reasoning_token t s) _ false _ (on_reasoning_token-Lands t s text_free)
      (λ s' single' flag. run-accepted drawn ks s' single' (ground arith) end)
run-accepted drawn (token t ∷ ks) s single order end =
    landed (on_token t s) _ true _ (on_token-Lands t s single)
      (λ s' single' flag. run-accepted drawn ks s' single' (rw flag order) end)
run-accepted drawn (done complete decoded ∷ ks) s single order end = on_done-Lands drawn complete s
run-accepted drawn (failure message ∷ ks) s single order end = error-accepted s _
run-accepted drawn (skipped ∷ ks) s single order end = run-accepted drawn ks s single order end

-- While no round of the loop is cut short, the client accepts the whole streamed response and is at
-- its end, if all reasoning comes before the text and the stream has an event that ends it.
pub stream_response-accepted :
    (drawn : Drawn) (d : Decoder) (r : Redis) (c : EventCodec) (ts : TokenStream)
    (moments : List (Moment r)) (job_id model : Text) (entries : List TokenStreamEntry)
    → Reads r c ts job_id none moments (codes "0-0") entries
    → in_order false (kinds d entries) ≡ true
    → has_end (kinds d entries) ≡ true
    → accept_all before_message (stream_response drawn d r c ts moments job_id model)
      ≡ some finished
unfolding accept_all stream_response
stream_response-accepted drawn d r c ts moments job_id model entries reads order end =
    ap (accept_all (between 0))
      (follow-run (on_event drawn) d r c ts job_id none _ moments _ entries not_streaming reads)
    ∙ run-accepted drawn (kinds d entries) not_streaming refl order end
