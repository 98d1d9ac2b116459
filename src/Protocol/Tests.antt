-- ===== src/Protocol/Tests.antt =====
-- pkg/protocol with a codec of its own for one struct: its type and the job's ID on two lines.
use auxot.Common.{
  ◌≡◌, refl, subst, Option, none, some, [], ◌∷◌, ◌++◌, Text, codes, nat_beq, if◌then◌else◌,
  text_comparable,
}
use auxot.Protocol.Worker.{ToolGeneratingMessage}
use auxot.Protocol.Parse.{
  MessageKind, Payload, type_name, type_of, is_tool_generating, is_heartbeat, MessageCodec, message,
  unknown_type, parse_message, parse_tools_message, marshal_message,
}
use auxot.Protocol.Parse.Kinds.{
  parse_message-marshal_message, parse_message_sound, parse_tools_message-parse_message,
}

abbrev line_one : Text → Text
line_one [] = []
line_one (b ∷ s) = let rest : Text = line_one s in if nat_beq b 10 then [] else b ∷ rest

abbrev line_two : Text → Text
line_two [] = []
line_two (b ∷ s) = let rest : Text = line_two s in if nat_beq b 10 then s else rest

abbrev unmarshal_lines : (k : MessageKind) → Text → Option (Payload k)
unmarshal_lines is_tool_generating s = some (record { type = line_one s; job_id = line_two s })
unmarshal_lines k s = none

abbrev marshal_lines : (k : MessageKind) → Payload k → Option Text
marshal_lines is_tool_generating m = some (m.type ++ 10 ∷ m.job_id)
marshal_lines k m = none

abbrev lines_codec : MessageCodec
lines_codec = record {
  envelope = λ s. some (line_one s);
  unmarshal = unmarshal_lines;
  marshal = marshal_lines;
}

abbrev generating : ToolGeneratingMessage
generating = record { type = codes "tool_generating"; job_id = codes "j1" }

abbrev generating_lines : Text
generating_lines = codes "tool_generating" ++ 10 ∷ codes "j1"

unknown_is_refused :
    parse_message lines_codec (codes "tool.execute") ≡ unknown_type (codes "tool.execute")
unfolding parse_message
unknown_is_refused = refl

heartbeat_is_made :
    parse_message lines_codec (codes "heartbeat")
    ≡ message is_heartbeat (record { type = codes "heartbeat" })
unfolding parse_message
heartbeat_is_made = refl

parse_message-marshal_message_example :
    parse_message lines_codec generating_lines ≡ message is_tool_generating generating
unfolding marshal_message type_name type_of
parse_message-marshal_message_example =
    parse_message-marshal_message lines_codec is_tool_generating generating generating_lines refl
      refl reads
  where
    reads :
        (b : Text)
        → lines_codec.marshal is_tool_generating generating ≡ some b
        → (lines_codec.envelope b ≡ some (codes "tool_generating"))
          × (lines_codec.unmarshal is_tool_generating b ≡ some generating)
    reads b e =
        let same : generating_lines ≡ b = cc in
        subst
          (λ x.
            (lines_codec.envelope x ≡ some (codes "tool_generating"))
            × (lines_codec.unmarshal is_tool_generating x ≡ some generating))
          same (refl, refl)

parse_message_sound_example : lines_codec.envelope generating_lines ≡ some (codes "tool_generating")
unfolding parse_message
parse_message_sound_example =
    parse_message_sound lines_codec generating_lines is_tool_generating generating refl

parse_tools_message-parse_message_example :
    parse_tools_message lines_codec generating_lines ≡ parse_message lines_codec generating_lines
parse_tools_message-parse_message_example =
    parse_tools_message-parse_message lines_codec generating_lines
