-- ===== src/Protocol/Parse/Kinds.antt =====
-- pkg/protocol: what ParseMessage makes of a message, by its type.
use auxot.Common.{
  ◌≡◌, refl, sym, ap, ◌∙◌, Option, none, some, true, List, [], ◌∷◌, Text, text_beq, text_beq-eq,
  text_comparable, inl, inr, Bool-cases, Option-cases, codes,
}
use auxot.Protocol.Parse.{
  MessageKind, Payload, type_name, type_of, MessageCodec, Parsed, message, bad_envelope,
  unknown_type, kinds, kind_in, decoded, read_body, parse_case, parse_typed, parse_message,
  parse_tools_typed, parse_tools_message, marshal_message, is_hello, is_heartbeat, is_config,
  is_token, is_tool_generating, is_prompt_progress, is_builtin_tool, is_complete, is_error,
  is_hello_ack, is_heartbeat_ack, is_config_ack, is_job, is_cancel, is_policy_update, is_agent_job,
  is_agent_token, is_agent_complete, is_agent_error, is_agent_tool_call, is_agent_tool_result,
  is_job_tool_call_request, is_job_tool_call_result, is_tool_job, is_tool_result, is_reload_policy,
  is_policy_reloaded, is_validate_configuration,
}

-- Each case is the first of its type: no two types have one name.
kind_in-type_name : (k : MessageKind) → kind_in kinds (type_name k) ≡ some k
unfolding kind_in type_name
kind_in-type_name is_hello = refl
kind_in-type_name is_heartbeat = refl
kind_in-type_name is_config = refl
kind_in-type_name is_token = refl
kind_in-type_name is_tool_generating = refl
kind_in-type_name is_prompt_progress = refl
kind_in-type_name is_builtin_tool = refl
kind_in-type_name is_complete = refl
kind_in-type_name is_error = refl
kind_in-type_name is_hello_ack = refl
kind_in-type_name is_heartbeat_ack = refl
kind_in-type_name is_config_ack = refl
kind_in-type_name is_job = refl
kind_in-type_name is_cancel = refl
kind_in-type_name is_policy_update = refl
kind_in-type_name is_agent_job = refl
kind_in-type_name is_agent_token = refl
kind_in-type_name is_agent_complete = refl
kind_in-type_name is_agent_error = refl
kind_in-type_name is_agent_tool_call = refl
kind_in-type_name is_agent_tool_result = refl
kind_in-type_name is_job_tool_call_request = refl
kind_in-type_name is_job_tool_call_result = refl
kind_in-type_name is_tool_job = refl
kind_in-type_name is_tool_result = refl
kind_in-type_name is_reload_policy = refl
kind_in-type_name is_policy_reloaded = refl
kind_in-type_name is_validate_configuration = refl

kind_in_sound :
    (ks : List MessageKind) (t : Text) (k : MessageKind) → kind_in ks t ≡ some k → t ≡ type_name k
unfolding kind_in
kind_in_sound [] t k h = cc
kind_in_sound (j ∷ ks) t k h = elim (Bool-cases (text_beq t (type_name j))) [
  | inl same ↦
      let found : some j ≡ some k = rw (kind_in, same) at h in
      text_beq-eq t (type_name j) same ∙ ap type_name cc
  | inr other ↦ kind_in_sound ks t k (rw (kind_in, other) at h)
]

heartbeat_lem :
    (m n : Payload is_heartbeat) → type_of is_heartbeat m ≡ type_of is_heartbeat n → some m ≡ some n
unfolding type_of
heartbeat_lem m n h = ap (λ t. some (record { type = t })) h

heartbeat_ack_lem :
    (m n : Payload is_heartbeat_ack)
    → type_of is_heartbeat_ack m ≡ type_of is_heartbeat_ack n
    → some m ≡ some n
unfolding type_of
heartbeat_ack_lem m n h = ap (λ t. some (record { type = t })) h

module _ (c : MessageCodec) where
  -- A struct with the type's name is given back, whether it is read or made.
  read_body_lem :
      (k : MessageKind) (m : Payload k) (body : Text)
      → type_of k m ≡ type_name k
      → c.unmarshal k body ≡ some m
      → read_body c k body ≡ some m
  unfolding read_body type_name type_of
  read_body_lem is_hello m body t u = u
  read_body_lem is_heartbeat m body t u = heartbeat_lem _ m (sym t)
  read_body_lem is_config m body t u = u
  read_body_lem is_token m body t u = u
  read_body_lem is_tool_generating m body t u = u
  read_body_lem is_prompt_progress m body t u = u
  read_body_lem is_builtin_tool m body t u = u
  read_body_lem is_complete m body t u = u
  read_body_lem is_error m body t u = u
  read_body_lem is_hello_ack m body t u = u
  read_body_lem is_heartbeat_ack m body t u = heartbeat_ack_lem _ m (sym t)
  read_body_lem is_config_ack m body t u = u
  read_body_lem is_job m body t u = u
  read_body_lem is_cancel m body t u = u
  read_body_lem is_policy_update m body t u = u
  read_body_lem is_agent_job m body t u = u
  read_body_lem is_agent_token m body t u = u
  read_body_lem is_agent_complete m body t u = u
  read_body_lem is_agent_error m body t u = u
  read_body_lem is_agent_tool_call m body t u = u
  read_body_lem is_agent_tool_result m body t u = u
  read_body_lem is_job_tool_call_request m body t u = u
  read_body_lem is_job_tool_call_result m body t u = u
  read_body_lem is_tool_job m body t u = u
  read_body_lem is_tool_result m body t u = u
  read_body_lem is_reload_policy m body t u = u
  read_body_lem is_policy_reloaded m body t u = u
  read_body_lem is_validate_configuration m body t u = u

  -- A message that is sent with the name of its type, and that encoding/json reads back as it was,
  -- is parsed as that message, whichever of the types it has.
  pub parse_message-marshal_message :
      (k : MessageKind) (m : Payload k) (body : Text)
      → type_of k m ≡ type_name k
      → marshal_message c k m ≡ some body
      → ((b : Text)
          → c.marshal k m ≡ some b
          → (c.envelope b ≡ some (type_of k m)) × (c.unmarshal k b ≡ some m))
      → parse_message c body ≡ message k m
  unfolding parse_message parse_typed parse_case decoded marshal_message
  parse_message-marshal_message k m body t sent reads =
      rw
        (
          (reads body sent).0,
          parse_message,
          t,
          kind_in-type_name k,
          read_body_lem k m body t (reads body sent).1,
        )
        refl

  decoded_kind :
      (j : MessageKind) (r : Option (Payload j)) (k : MessageKind) (m : Payload k)
      → decoded j r ≡ message k m
      → j ≡ k
  unfolding decoded
  decoded_kind j none k m h = cc
  decoded_kind j (some n) k m h = kind_of_eq h
    where
      kind_of_parsed : Parsed → MessageKind
      kind_of_parsed (message i _) = i
      kind_of_parsed _ = j

      kind_of_eq : message j n ≡ message k m → j ≡ k
      kind_of_eq e = ap kind_of_parsed e

  -- Whatever encoding/json reads: a message is given as a struct only if its envelope has the name
  -- of that struct's type.
  pub parse_message_sound :
      (body : Text) (k : MessageKind) (m : Payload k)
      → parse_message c body ≡ message k m
      → c.envelope body ≡ some (type_name k)
  unfolding parse_message parse_typed parse_case
  parse_message_sound body k m h = elim (Option-cases (c.envelope body)) [
    | inl e ↦ let no : bad_envelope ≡ message k m = rw (e, parse_message) at h in cc
    | inr (t, e) ↦ elim (Option-cases (kind_in kinds t)) [
      | inl f ↦ let no : unknown_type t ≡ message k m = rw (e, parse_message, f) at h in cc
      | inr (j, f) ↦
          e
          ∙ ap some (
              kind_in_sound kinds t j f
              ∙ ap type_name
                  (decoded_kind j (read_body c j body) k m (rw (e, parse_message, f) at h)))
    ]
  ]

  parse_tools_typed_lem :
      (t : Text) (body : Text)
      → c.envelope body ≡ some t
      → parse_tools_typed c (some t) body ≡ parse_message c body
  unfolding parse_tools_typed parse_message parse_typed parse_case read_body
  parse_tools_typed_lem t body e = elim (Bool-cases (text_beq t (codes "tool_result"))) [
    | inl result ↦
        rw (parse_tools_typed, result, parse_message, e, is_kind is_tool_result result) refl
    | inr other ↦ elim (Bool-cases (text_beq t (codes "policy_reloaded"))) [
      | inl reloaded ↦
          rw
            (
              parse_tools_typed,
              other,
              reloaded,
              parse_message,
              e,
              is_kind is_policy_reloaded reloaded,
            )
            refl
      | inr neither ↦ rw (parse_tools_typed, other, neither) refl
    ]
  ]
    where
      is_kind : (k : MessageKind) → text_beq t (type_name k) ≡ true → kind_in kinds t ≡ some k
      is_kind k h = ap (kind_in kinds) (text_beq-eq t (type_name k) h) ∙ kind_in-type_name k

  -- ParseToolsMessage reads every text as ParseMessage does, which knows the types of the tools
  -- worker too.
  pub parse_tools_message-parse_message :
      (body : Text) → parse_tools_message c body ≡ parse_message c body
  unfolding parse_tools_message parse_message parse_typed parse_tools_typed
  parse_tools_message-parse_message body = elim (Option-cases (c.envelope body)) [
    | inl e ↦ rw (parse_tools_message, parse_message, e) refl
    | inr (t, e) ↦ ap (λ o. parse_tools_typed c o body) e ∙ parse_tools_typed_lem t body e
  ]
