-- ===== src/Router/Dispatch/Delivery/Threads.antt =====
-- internal/router/wshandler.go and toolshandler.go: the context that is saved when the job of a
-- thread's next round is dispatched.
use auxot.Common.{
  ◌≡◌, refl, ap, ◌∙◌, false, Bool, ℕ, some, [], ◌++◌, map, text_comparable, length, nat_beq, inl,
  inr, is_empty, is_some, Bool-cases, ◌&&◌,
}
use auxot.Common.Assoc.{lookup, lookup-insert_self}
use auxot.Protocol.{Json, JobMessage}
use auxot.Queue.Redis.{Redis}
use auxot.Queue.Jobs.{StreamEntry}
use auxot.Queue.Tokens.{EventCodec}
use auxot.Router.ToolsState.{
  Tools, JobContext, Pending, save_job_context, context_of, allowed_tool_defs,
}
use auxot.Router.NextRound.{next_messages, next_job}
use auxot.Router.Dispatch.{
  WsHandler, World, dispatch_to_worker, send_job, save_context, with_tool_defs, named_job,
  missing_defs, tool_name,
}
use auxot.Router.Dispatch.Delivery.{job_of, assign_outcome}

module _ (r : Redis) (json : Json) (codec : EventCodec) (h : WsHandler) where
  send_job-tools :
      (now : ℕ) (delivers : Bool) (job : JobMessage) (w : World r)
      → (send_job r json codec h now delivers job w).1.tools ≡ w.tools
  unfolding send_job
  send_job-tools now delivers job w =
      elim (Bool-cases (is_some (json.marshal_job job) && delivers)) [
        | inl ok ↦ rw (ok, send_job) refl
        | inr lost ↦ rw (lost, send_job) refl
      ]

  -- Whatever comes of the dispatch, the context of the job has been saved.
  dispatch-tools :
      (now : ℕ) (delivers : Bool) (entry : StreamEntry) (w : World r) (parsed : JobMessage)
      → json.unmarshal_job entry.payload.body ≡ some parsed
      → (dispatch_to_worker r json codec h now delivers entry w).1.tools
        ≡ save_context (job_of parsed entry w) w.tools
  dispatch-tools now delivers entry w parsed e =
      elim (assign_outcome r json codec h now delivers entry w parsed e) [
        | inl (_, done) ↦ rw done refl
        | inr (inl (_, done)) ↦ rw done refl
        | inr (inr (_, done)) ↦ rw done (send_job-tools now delivers (job_of parsed entry w) _)
      ]

  saved_context :
      (tools : Tools) (ctx : JobContext) (cont : Pending) (entry : StreamEntry) (w : World r)
      → w.tools ≡ some tools
      → nat_beq (length tools.allowed_tools) 0 ≡ false
      → is_empty cont.job_id ≡ false
      → let job = job_of (next_job json ctx cont) entry w in
        lookup cont.job_id (save_job_context job.job_id job tools).job_contexts
        ≡ some (record ctx {
          messages = next_messages json ctx cont;
          tools = ctx.tools ++ missing_defs (map tool_name ctx.tools) (allowed_tool_defs tools);
          thread_id = [];
        })
  unfolding job_of with_tool_defs named_job save_job_context next_job context_of
  saved_context tools ctx cont entry w has allowed named =
      rw
        (
          job_of, has, next_job, named_job, named, with_tool_defs, allowed, save_job_context,
          context_of,
        )
        (lookup-insert_self cont.job_id _ tools.job_contexts)

  -- When the entry of a thread's next round is dispatched, by a router that has a tools handler with
  -- allowed tools and reads from the entry the job that continueLLMRound made, the context that is
  -- saved for it has the new messages, the settings of the round before, and the tools of that
  -- round with the definitions of the allowed tools that it lacked, but no thread ID, whatever the
  -- thread ID was and whether the job is sent or not.
  pub dispatch-next_job :
      (now : ℕ) (delivers : Bool) (entry : StreamEntry) (w : World r) (tools : Tools)
      (ctx : JobContext) (cont : Pending)
      → w.tools ≡ some tools
      → nat_beq (length tools.allowed_tools) 0 ≡ false
      → is_empty cont.job_id ≡ false
      → json.unmarshal_job entry.payload.body ≡ some (next_job json ctx cont)
      → (tools' : Tools) × ((dispatch_to_worker r json codec h now delivers entry w).1.tools
          ≡ some tools')
        × (lookup cont.job_id tools'.job_contexts
            ≡ some (record ctx {
              messages = next_messages json ctx cont;
              tools = ctx.tools ++ missing_defs (map tool_name ctx.tools) (allowed_tool_defs tools);
              thread_id = [];
            }))
  unfolding job_of with_tool_defs named_job save_context save_job_context next_job context_of
  dispatch-next_job now delivers entry w tools ctx cont has allowed named e =
      let job = job_of (next_job json ctx cont) entry w in
      (
        save_job_context job.job_id job tools,
        dispatch-tools now delivers entry w (next_job json ctx cont) e ∙ ap (save_context job) has,
        saved_context tools ctx cont entry w has allowed named,
      )
