-- ===== src/Router/Continuation/Calls.antt =====
-- internal/router/toolshandler.go: the calls of a round go to one tools worker.
use auxot.Common.{
  ℕ, ◌+◌, ◌≡◌, refl, sym, ◌∙◌, ap, Bool, true, false, some, List, [], ◌∷◌, ◌++◌, Text,
  text_comparable, length, nat_beq, append_assoc, append-nil,
}
use auxot.Common.Assoc.{Assoc, lookup, insert, lookup-insert_self}
use auxot.Common.Int.{pos}
use auxot.Protocol.{Json, CompleteMessage, ToolCall, ToolJobMessage}
use auxot.Router.ToolsState.{Tools, ToolsConn, JobContext, Pending}
use auxot.Router.Continuation.{
  dispatch_call, dispatch_calls, start_continuation, new_pending, tool_job_for,
}
use auxot.Router.Choice.{pick_tools_worker_all, distinct_names}

-- The messages that carry a round's calls, one for each, in order.
abbrev pub tool_jobs :
    (ℕ → Text)
    → ℕ
    → Text
    → JobContext
    → Assoc Text (Assoc Text Text)
    → ToolsConn
    → List ToolCall
    → List (Text × ToolJobMessage)
tool_jobs ids n job_id ctx credentials worker [] = []
tool_jobs ids n job_id ctx credentials worker (tc ∷ calls) =
    (worker.id, tool_job_for (ids n) job_id ctx credentials tc)
    ∷ tool_jobs ids (n + 1) job_id ctx credentials worker calls

-- What sending the calls leaves alone, and what it sends.
pub record Sent (ids : ℕ → Text) (n : ℕ) (job_id : Text) (ctx : JobContext) (worker : ToolsConn)
    (calls : List ToolCall) (h h' : Tools) : Type 0 where
  pub messages : h'.sent ≡ h.sent ++ tool_jobs ids n job_id ctx h.tool_credentials worker calls
  pub waits : h'.pending_conts ≡ h.pending_conts
  pub no_round : h'.rounds ≡ h.rounds

dispatch_call-Sent :
    (tool_job_id : Text) (delivers : Text → Bool) (job_id : Text) (ctx : JobContext)
    (worker : ToolsConn) (tc : ToolCall) (h : Tools)
    → delivers tool_job_id ≡ true
    → let h' = dispatch_call tool_job_id delivers job_id ctx worker tc h in
      (h'.sent
        ≡ h.sent ++ (worker.id, tool_job_for tool_job_id job_id ctx h.tool_credentials tc) ∷ [])
      × (h'.tool_credentials ≡ h.tool_credentials)
      × (h'.pending_conts ≡ h.pending_conts)
      × (h'.rounds ≡ h.rounds)
unfolding dispatch_call
dispatch_call-Sent tool_job_id delivers job_id ctx worker tc h there' = (
  rw (there', dispatch_call),
  rw (there', dispatch_call),
  rw (there', dispatch_call),
  rw (there', dispatch_call),
)

dispatch_calls-Sent :
    (ids : ℕ → Text) (n : ℕ) (delivers : Text → Bool) (job_id : Text) (ctx : JobContext)
    (worker : ToolsConn) (calls : List ToolCall) (h : Tools)
    → ((i : ℕ) → delivers (ids i) ≡ true)
    → Sent ids n job_id ctx worker calls h (dispatch_calls ids n delivers job_id ctx worker calls h)
unfolding dispatch_calls
dispatch_calls-Sent ids n delivers job_id ctx worker [] h all = record {
  messages = sym (append-nil h.sent);
  waits = refl;
  no_round = refl;
}
dispatch_calls-Sent ids n delivers job_id ctx worker (tc ∷ calls) h all =
    let one = dispatch_call-Sent (ids n) delivers job_id ctx worker tc h (all n) in
    let rest =
      dispatch_calls-Sent ids (n + 1) delivers job_id ctx worker calls
        (dispatch_call (ids n) delivers job_id ctx worker tc h) all in
    let m : Text × ToolJobMessage =
      (worker.id, tool_job_for (ids n) job_id ctx h.tool_credentials tc) in
    let later = tool_jobs ids (n + 1) job_id ctx h.tool_credentials worker calls in
    record {
      messages = rest.messages ∙ rw (one.0, one.1) (append_assoc h.sent (m ∷ []) later);
      waits = rest.waits ∙ one.2;
      no_round = rest.no_round ∙ one.3;
    }

module _ (json : Json) where
  -- If a tools worker is found for the calls of a message whose context is known, and every message
  -- reaches it, StartContinuation sends it each call once, in the message's order, and then waits for
  -- as many results as there are calls.
  pub start_continuation-sent :
      (ids : ℕ → Text) (delivers : Text → Bool) (msg : CompleteMessage) (ctx : JobContext)
      (worker : ToolsConn) (h : Tools)
      → nat_beq (length msg.tool_calls) 0 ≡ false
      → lookup msg.job_id h.job_contexts ≡ some ctx
      → pick_tools_worker_all (distinct_names msg.tool_calls) ctx.thread_id h ≡ some worker
      → ((i : ℕ) → delivers (ids i) ≡ true)
      → let (started, h') = start_continuation json ids delivers msg h in
        (started ≡ true)
        × (h'.sent
            ≡ h.sent ++ tool_jobs ids 0 msg.job_id ctx h.tool_credentials worker msg.tool_calls)
        × (h'.rounds ≡ h.rounds)
        × ((cont : Pending) × (lookup msg.job_id h'.pending_conts ≡ some cont)
            × (cont.remaining ≡ pos (length msg.tool_calls)))
  unfolding start_continuation new_pending
  start_continuation-sent ids delivers msg ctx worker h some_calls known found all =
      let cont : Pending = new_pending json msg ctx in
      let h0 : Tools = record h { pending_conts = insert msg.job_id cont h.pending_conts } in
      let sent = dispatch_calls-Sent ids 0 delivers msg.job_id ctx worker msg.tool_calls h0 all in
      rw (some_calls, start_continuation, known, found)
        (
          refl,
          sent.messages,
          sent.no_round,
          (
            cont,
            ap (lookup msg.job_id) sent.waits ∙ lookup-insert_self msg.job_id cont h.pending_conts,
            refl,
          ),
        )
