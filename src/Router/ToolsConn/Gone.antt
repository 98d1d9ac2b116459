-- ===== src/Router/ToolsConn/Gone.antt =====
-- internal/router/toolshandler.go: what is left of a tools worker's connection when it has ended.
use auxot.Common.{
  ℕ, ◌≡◌, refl, ◌∙◌, ap, Bool, true, false, Option, none, some, List, [], ◌∷◌, Text,
  text_comparable, inl, inr, Bool-cases, not, is_empty,
}
use auxot.Common.Assoc.{lookup, insert, erase, erase-insert}
use auxot.Auth.{Primitives, Verifier, verify_tool_key}
use auxot.Protocol.Worker.{HelloMessage}
use auxot.Protocol.Parse.{MessageCodec, parse_message}
use auxot.Router.ToolsState.{ToolsConn, Tools}
use auxot.Router.Continuation.Workers.{
  handle_tool_result-tools_workers, handle_tool_error-tools_workers,
}
use auxot.Router.Hello.{is_accepted}
use auxot.Router.ToolsConn.{
  ToolsArrival, Sent, a_result, a_beat, a_failure, tools_conn, sent_in, on_sent,
  cleanup_tools_worker, tools_message_loop, greet_tools_worker, handle_tools_worker,
}

on_sent-tools_workers :
    (acked : Bool) (sent : Option Sent) (h : Tools)
    → (on_sent acked sent h).1.tools_workers ≡ h.tools_workers
unfolding on_sent
on_sent-tools_workers acked none h = refl
on_sent-tools_workers acked (some (a_result m)) h = handle_tool_result-tools_workers m h
on_sent-tools_workers acked (some a_beat) h = refl
on_sent-tools_workers acked (some (a_failure m)) h = elim (Bool-cases (not (is_empty m.job_id))) [
  | inl named ↦ rw (on_sent, named) (handle_tool_error-tools_workers m.job_id m.error h)
  | inr unnamed ↦ rw (on_sent, unnamed) refl
]

module _ (a : Primitives) (c : MessageCodec) where
  loop-tools_workers :
      (tc : ToolsConn) (arrivals : List ToolsArrival) (h : Tools)
      → (tools_message_loop a c tc arrivals h).1.tools_workers ≡ erase tc.id h.tools_workers
  unfolding tools_message_loop cleanup_tools_worker
  loop-tools_workers tc [] h = refl
  loop-tools_workers tc (arrival ∷ arrivals) h =
      let sent = sent_in (parse_message c arrival.body) in
      loop-tools_workers tc arrivals (on_sent arrival.acked sent h).1
      ∙ ap (erase tc.id) (on_sent-tools_workers arrival.acked sent h)

  greet-tools_workers :
      (delivers : Bool) (tc : ToolsConn) (arrivals : List ToolsArrival) (h : Tools)
      → (greet_tools_worker a c delivers tc arrivals h).1.tools_workers
        ≡ erase tc.id h.tools_workers
  unfolding greet_tools_worker cleanup_tools_worker
  greet-tools_workers true tc arrivals h = loop-tools_workers tc arrivals h
  greet-tools_workers false tc arrivals h = refl

  -- When a tools worker's connection has ended, the tools workers are those that there were without
  -- it, whatever its key was, whether the acknowledgement arrived, and whatever texts it sent, if
  -- no other worker has its new ID.
  pub handle_tools_worker-tools_workers :
      (now : ℕ) (delivers : Bool) (id : Text) (hello : HelloMessage) (arrivals : List ToolsArrival)
      (v : Verifier) (h : Tools)
      → lookup id h.tools_workers ≡ none
      → (handle_tools_worker a c now delivers id hello arrivals (v, h)).1.1.tools_workers
        ≡ h.tools_workers
  unfolding handle_tools_worker tools_conn
  handle_tools_worker-tools_workers now delivers id hello arrivals v h fresh =
      let tc = tools_conn id hello in
      elim (Bool-cases (is_accepted (verify_tool_key a now hello.gpu_key v).0)) [
        | inr bad ↦ rw (bad, handle_tools_worker) refl
        | inl good ↦
            rw (good, handle_tools_worker)
              (greet-tools_workers delivers tc arrivals
                  (record h { tools_workers = insert id tc h.tools_workers })
                ∙ erase-insert id tc h.tools_workers fresh)
      ]
