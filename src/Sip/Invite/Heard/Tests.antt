-- ===== src/Sip/Invite/Heard/Tests.antt =====
-- A 200 behind two silent rounds.
use slmodem_sip_bridge.Base.{
  ◌≡◌, refl, arith, List, [], ◌∷◌, true, Option, none, some, inl, inr, All,
}
use slmodem_sip_bridge.Base.Outcome.{ok}
use slmodem_sip_bridge.Net.{v4, SocketAddr, parse_ip}
use slmodem_sip_bridge.Sdp.{
  parse_answer, answer_lines, answer_line, audio_line, connection_line, finish_answer,
}
use slmodem_sip_bridge.Sip.Invite.Answered.{Answers, answered_by}
use slmodem_sip_bridge.Sip.Invite.Heard.{IsOpen, IsSilent, invite-answered}
use slmodem_sip_bridge.Sip.Invite.Tests.{client, md5_hex, tick, setup, initial}
use slmodem_sip_bridge.Sip.Invite.{setup_of, invite}
use slmodem_sip_bridge.Sip.Message.{ends_tag}
use slmodem_sip_bridge.Sip.Message.Fields.{
  Field, render, lookup, IsField, no_colon-NoColon, is_word-IsWord, is_field-IsField,
}
use slmodem_sip_bridge.Sip.Message.Fields.Lookup.{IsStart}
use slmodem_sip_bridge.Sip.Message.Response.{response_line}
use slmodem_sip_bridge.Text.Ascii.{is_ascii-IsAscii}
use slmodem_sip_bridge.Text.Lines.{is_line-IsLine, avoids-All}
use slmodem_sip_bridge.Text.Number.{show, digits, parse, scan}
use slmodem_sip_bridge.Text.Split.{lines, split_whitespace}
use slmodem_sip_bridge.Text.{
  Text, codes, strip_prefix, trim_end, trim_start_matches, is_whitespace, text_eq,
  to_ascii_lowercase, ascii_lower,
}

abbrev fields : List Field
fields =
    (codes "To", codes "<sip:1@sip.example.com>;tag=far")
    ∷ (codes "CSeq", codes "1 INVITE")
    ∷ (codes "Content-Type", codes "application/sdp")
    ∷ []

abbrev body : Text
body = codes "c=IN IP4 10.0.0.1\r\nm=audio 4000 RTP/AVP 0\r\n"

abbrev endpoint : SocketAddr
endpoint = record { ip = v4 10 0 0 1; port = 4000 }

abbrev success : Text
success = render (response_line 200 (codes "OK")) fields body

are_fields : All IsField fields
unfolding is_whitespace trim_end
are_fields = (
  is_field-IsField (codes "To") (codes "<sip:1@sip.example.com>;tag=far") refl,
  (
    is_field-IsField (codes "CSeq") (codes "1 INVITE") refl,
    (is_field-IsField (codes "Content-Type") (codes "application/sdp") refl, tt),
  ),
)

starts : IsStart (response_line 200 (codes "OK"))
unfolding response_line show digits
starts = (
  is_ascii-IsAscii (codes "SIP/2.0 200 OK") refl,
  is_line-IsLine (codes "SIP/2.0 200 OK") refl,
  no_colon-NoColon (codes "SIP/2.0 200 OK") refl,
)

answers : Answers 200 1 (codes "far") endpoint success
unfolding show digits lookup text_eq to_ascii_lowercase ascii_lower trim_end trim_start_matches
    is_whitespace ends_tag parse_answer lines answer_lines answer_line audio_line connection_line
    finish_answer parse scan parse_ip strip_prefix split_whitespace
answers = record {
  response = record {
    reason = codes "OK";
    fields = fields;
    body = body;
    is_response = refl;
    is_start = starts;
    are_fields = are_fields;
    cseq_small = omega arith;
    method = codes "INVITE";
    cseq_is = refl;
  };
  to = codes "<sip:1@sip.example.com>;";
  to_is = refl;
  to_plain = avoids-All b'=' (codes "<sip:1@sip.example.com>;") refl;
  tag_is = ((λ e. cc), is_word-IsWord (codes "far") refl, (refl, (refl, (refl, tt))));
  says_sdp = inr (inr (inl (refl, refl)));
  full = refl;
  sdp_is = refl;
}

tick-IsOpen : (resp : Option Text) → IsOpen setup (tick resp)
unfolding setup_of
tick-IsOpen resp = record { in_time = omega arith; sends = refl }

silence : All (IsSilent setup) (tick none ∷ tick none ∷ [])
silence =
    let one : IsSilent setup (tick none) = record {
      goes_through = tick-IsOpen none;
      nothing = refl;
    } in
    (one, (one, tt))

invite-answered_example :
    (invite md5_hex client
      (codes "1")
      (codes "v=0")
      60000
      (codes "id")
      (codes "near")
      (codes "z9hG4bK1")
      0
      true
      (tick none ∷ tick none ∷ tick (some success) ∷ [])
      []).0
    ≡ ok (some (answered_by initial.call (codes "far") endpoint))
invite-answered_example =
    invite-answered md5_hex client (codes "1") (codes "v=0") 60000 (codes "id") (codes "near")
      (codes "z9hG4bK1") 0 (tick none ∷ tick none ∷ []) (tick (some success)) [] (codes "far")
      endpoint success (λ e. cc) (omega arith) silence (tick-IsOpen (some success)) refl answers
