-- ===== src/Sip/Message/Tests.antt =====
-- The tests of the parsing helpers in sip.rs, and a panic.
use slmodem_sip_bridge.Text.Ascii.{is_ascii-IsAscii}
use slmodem_sip_bridge.Base.{◌≡◌, refl, some, List, [], ◌∷◌}
use slmodem_sip_bridge.Sip.Message.Fields.{
  Field, render, lookup, no_colon-NoColon, is_field-IsField,
}
use slmodem_sip_bridge.Sip.Message.Fields.Lookup.{or_later, extract_header-render}
use slmodem_sip_bridge.Text.Lines.{is_line-IsLine}
use slmodem_sip_bridge.Base.Outcome.{panic}
use slmodem_sip_bridge.Sip.Message.{parse_status_code, header_matches, find_header, extract_header}
use slmodem_sip_bridge.Text.Split.{lines, splitn}
use slmodem_sip_bridge.Text.Number.{parse}
use slmodem_sip_bridge.Text.{
  Text, codes, strip_prefix, trim_end, trim_start_matches, is_whitespace, split_at, text_eq,
  to_ascii_lowercase, ascii_lower,
}

parses_status_code : parse_status_code (codes "SIP/2.0 180 Ringing\r\n\r\n") ≡ some 180
unfolding parse_status_code lines strip_prefix splitn parse
parses_status_code = refl

-- A line whose fifth byte is inside a character.
abbrev not_ascii : Text
not_ascii = codes "SIP/2.0 200 OK\r\nabcdé: x\r\nCSeq: 1 INVITE\r\n\r\n"

header_panics : extract_header {E = Unit {0}} not_ascii (codes "CSeq") ≡ panic
unfolding extract_header find_header header_matches lines trim_end trim_start_matches is_whitespace
    split_at strip_prefix text_eq to_ascii_lowercase ascii_lower
header_panics = refl

abbrev ascii : Text
ascii = codes "SIP/2.0 200 OK\r\ncseq : 7\r\nCSeq: 1 INVITE\r\n\r\n"

-- A response with two fields of one name, and something like a header in its body.
abbrev start_line : Text
start_line = codes "SIP/2.0 200 OK"

abbrev fields : List Field
fields =
    (codes "Via", codes "SIP/2.0/UDP 10.0.0.2:5060")
    ∷ (codes "cseq", codes "  7 INVITE ")
    ∷ (codes "CSeq", codes "8 INVITE")
    ∷ []

cseq_of_fields : lookup (codes "CSeq") fields ≡ some (codes "7 INVITE")
unfolding lookup text_eq to_ascii_lowercase ascii_lower trim_end trim_start_matches is_whitespace
cseq_of_fields = refl

extract_header-render_example :
    extract_header {E = Unit {0}} (render start_line fields (codes "CSeq: 9\r\n")) (codes "CSeq")
    ≡ or_later (lookup (codes "CSeq") fields) (extract_header (codes "CSeq: 9\r\n") (codes "CSeq"))
unfolding is_whitespace trim_end
extract_header-render_example =
    extract_header-render {E = Unit {0}} start_line fields (codes "CSeq: 9\r\n") (codes "CSeq")
      (
        is_ascii-IsAscii start_line refl,
        is_line-IsLine start_line refl,
        no_colon-NoColon start_line refl,
      )
      (
        is_field-IsField (codes "Via") (codes "SIP/2.0/UDP 10.0.0.2:5060") refl,
        (
          is_field-IsField (codes "cseq") (codes "  7 INVITE ") refl,
          (is_field-IsField (codes "CSeq") (codes "8 INVITE") refl, tt),
        ),
      )
      (is_ascii-IsAscii (codes "CSeq") refl) (no_colon-NoColon (codes "CSeq") refl)
