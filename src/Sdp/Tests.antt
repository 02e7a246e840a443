-- ===== src/Sdp/Tests.antt =====
-- The tests of sdp.rs, and runs of its theorems.
use slmodem_sip_bridge.Base.{◌≡◌, refl, arith, All, Any}
use slmodem_sip_bridge.Base.Outcome.{ok}
use slmodem_sip_bridge.Net.V4.{parse_ip-show_ip_v4}
use slmodem_sip_bridge.Net.{v4, parse_ip}
use slmodem_sip_bridge.Sdp.RoundTrip.{parse_answer-build_offer}
use slmodem_sip_bridge.Sdp.Sound.{AudioOk, AudioLine, ConnectionLine, parse_answer_sound}
use slmodem_sip_bridge.Sdp.{
  build_offer, parse_answer, answer_lines, answer_line, audio_line, audio_words, any_pcmu,
  connection_line, connection_words, finish_answer,
}
use slmodem_sip_bridge.Text.Number.{parse, scan}
use slmodem_sip_bridge.Text.Split.{lines, lines_from, strip_cr, split_whitespace, words_from}
use slmodem_sip_bridge.Text.{
  Text, codes, is_whitespace, strip_prefix, trim_start_matches, trim_end, text_eq,
}

parse_answer-build_offer_example :
    (sdp : Text) × (build_offer {E = Unit {0}} (v4 10 0 0 1) 40000 7 ≡ ok sdp)
    × (parse_answer sdp ≡ ok (record { addr = v4 10 0 0 1; port = 40000 }))
parse_answer-build_offer_example =
    parse_answer-build_offer {E = Unit {0}} (v4 10 0 0 1) 40000 7
      (omega arith, omega arith, omega arith, omega arith)
      (parse_ip-show_ip_v4 10 0 0 1 (omega arith) (omega arith) (omega arith) (omega arith))
      (omega arith) (omega arith)

abbrev answer : Text
answer = codes "v=0\r\nc=IN IP4 10.0.0.1\r\nt=0 0\r\nm=audio 4000 RTP/AVP 0 101\r\n"

parses_answer : parse_answer answer ≡ ok (record { addr = v4 10 0 0 1; port = 4000 })
unfolding parse_answer answer_lines answer_line audio_line audio_words any_pcmu connection_line
    connection_words finish_answer parse scan lines lines_from strip_cr split_whitespace words_from
    is_whitespace strip_prefix trim_start_matches trim_end text_eq parse_ip
parses_answer = refl

parse_answer_sound_example :
    All AudioOk (lines answer)
    × Any (λ l. AudioLine l 4000) (lines answer)
    × Any (λ l. ConnectionLine l (v4 10 0 0 1)) (lines answer)
parse_answer_sound_example =
    parse_answer_sound answer (record { addr = v4 10 0 0 1; port = 4000 }) parses_answer
