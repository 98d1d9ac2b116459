-- ===== src/Router/Continuation/Workers.antt =====
-- internal/router/toolshandler.go: a tool's result or error leaves the tools workers as they are.
use auxot.Common.{
  ◌≡◌, refl, inl, inr, Bool-cases, Option-cases, Option, List, Text, text_comparable, is_some,
}
use auxot.Common.Assoc.{lookup, erase}
use auxot.Common.Int.{pos, ltb_ℤ}
use auxot.Protocol.{ToolResultMessage, ImagePart}
use auxot.Router.ToolsState.{Tools, Pending}
use auxot.Router.Continuation.{
  with_result, finish, record_tool_result, handle_tool_result, handle_tool_error,
}

finish-tools_workers :
    (parent : Text) (cont : Pending) (h : Tools)
    → (finish parent cont h).tools_workers ≡ h.tools_workers
unfolding finish
finish-tools_workers parent cont h = elim (Bool-cases (ltb_ℤ (pos 0) cont.remaining)) [
  | inl more ↦ rw (more, finish) refl
  | inr last ↦ elim (Bool-cases cont.is_direct) [
    | inl direct ↦ rw (last, finish, direct) refl
    | inr round ↦ rw (last, finish, round) refl
  ]
]

record_tool_result-tools_workers :
    (parent call name : Text) (result : Option Text) (images : List ImagePart) (err : Text)
    (h : Tools)
    → (record_tool_result parent call name result images err h).tools_workers ≡ h.tools_workers
unfolding record_tool_result
record_tool_result-tools_workers parent call name result images err h =
    elim (Option-cases (lookup parent h.pending_conts)) [
      | inl e ↦ rw (e, record_tool_result) refl
      | inr (cont, e) ↦ elim (Bool-cases (is_some (lookup call cont.results))) [
        | inl known ↦
            rw (e, record_tool_result, known)
              (finish-tools_workers parent
                (with_result call
                  (record {
                    tool_name = name;
                    result = result;
                    err_msg = err;
                    image_parts = images;
                  })
                  cont)
                h)
        | inr other ↦ rw (e, record_tool_result, other) refl
      ]
    ]

pub handle_tool_result-tools_workers :
    (msg : ToolResultMessage) (h : Tools)
    → (handle_tool_result msg h).tools_workers ≡ h.tools_workers
unfolding handle_tool_result
handle_tool_result-tools_workers msg h =
    record_tool_result-tools_workers msg.parent_job_id msg.tool_call_id msg.tool_name msg.result
      msg.image_parts msg.error (record h { tool_job_refs = erase msg.job_id h.tool_job_refs })

pub handle_tool_error-tools_workers :
    (id err : Text) (h : Tools) → (handle_tool_error id err h).tools_workers ≡ h.tools_workers
unfolding handle_tool_error
handle_tool_error-tools_workers id err h = elim (Option-cases (lookup id h.tool_job_refs)) [
  | inl e ↦ rw (e, handle_tool_error) refl
  | inr (ref, e) ↦
      rw (e, handle_tool_error)
        (record_tool_result-tools_workers ref.parent_job_id ref.tool_call_id _ _ _ err
          (record h { tool_job_refs = erase id h.tool_job_refs }))
]
