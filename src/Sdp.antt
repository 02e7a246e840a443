-- ===== src/Sdp.antt =====
-- sdp.rs: the offer, and the answer's address and port.
pub mod RoundTrip
pub mod Sound
pub mod Total
mod Tests
use slmodem_sip_bridge.Base.{
  ℕ, ◌<◌, List, [], ◌∷◌, ◌++◌, Bool, true, false, ◌||◌, Option, none, some, ltb, leb, if◌then◌else◌,
  length, is_nil,
}
use slmodem_sip_bridge.Base.Outcome.{Outcome, ok, bail, panic, ◌>>=◌, ◌>>◌, assert, ensure, ok_or}
use slmodem_sip_bridge.Net.Shown.{show_ip}
use slmodem_sip_bridge.Net.{IpAddr, v4, v6, parse_ip}
use slmodem_sip_bridge.Text.Lines.{unlines}
use slmodem_sip_bridge.Text.Number.{show, parse, u16_max}
use slmodem_sip_bridge.Text.Split.{lines, split_whitespace}
use slmodem_sip_bridge.Text.{Text, codes, text_eq, strip_prefix, trim}

pub data SdpError : Type 0 where
  no_port_on_line invalid_port no_payload_types no_pcmu no_audio_line no_connection no_media_port :
      SdpError

abbrev pub sdp_version : ℕ
sdp_version = 0

abbrev pub ptime_ms : ℕ
ptime_ms = 20

unfoldable pub ip_ver : IpAddr → Text
ip_ver (v4 _ _ _ _) = codes "IP4"
ip_ver (v6 _) = codes "IP6"

-- The lines of the offer; each ends in `\r\n`.
unfoldable pub offer_lines : IpAddr → ℕ → ℕ → List Text
unfolding ip_ver
offer_lines local_ip rtp_port session_id =
    (codes "v=" ++ show sdp_version)
    ∷ (codes "o=slmodem-sip-bridge "
        ++ (show session_id
            ++ (b' '
                ∷ (show session_id
                    ++ (codes " IN " ++ (ip_ver local_ip ++ (b' ' ∷ show_ip local_ip)))))))
    ∷ codes "s=slmodem-sip-bridge"
    ∷ (codes "c=IN " ++ (ip_ver local_ip ++ (b' ' ∷ show_ip local_ip)))
    ∷ codes "t=0 0"
    ∷ (codes "m=audio " ++ (show rtp_port ++ codes " RTP/AVP 0"))
    ∷ codes "a=rtpmap:0 PCMU/8000"
    ∷ (codes "a=ptime:" ++ show ptime_ms)
    ∷ codes "a=sendrecv"
    ∷ []

unfoldable pub build_offer : {E : Type 0} → IpAddr → ℕ → ℕ → Outcome E Text
build_offer local_ip rtp_port session_id = do
  assert (ltb 0 rtp_port)
  ok (unlines (offer_lines local_ip rtp_port session_id))

pub record SdpAnswer : Type 0 where
  pub addr : IpAddr
  pub port : ℕ

-- The variables of the loop in `parse_answer`.
pub record AnswerState : Type 0 where
  pub connection_addr : Option IpAddr
  pub media_port : Option ℕ
  pub has_audio_line : Bool

-- The words of a `c=` line: the third is the address, if it is one.
unfoldable pub connection_words : List Text → AnswerState → AnswerState
connection_words (_ ∷ _ ∷ text ∷ _) st = elim (parse_ip text) [
  | some ip ↦ record st { connection_addr = some ip }
  | none ↦ st
]
connection_words _ st = st

-- `if line.starts_with("c=") { ... }`, with the text behind the prefix.
unfoldable pub connection_line : Option Text → AnswerState → AnswerState
unfolding connection_words
connection_line none st = st
connection_line (some rest) st = connection_words (split_whitespace rest) st

unfoldable pub any_pcmu : List Text → Bool
any_pcmu [] = false
any_pcmu (pt ∷ pts) = text_eq pt (codes "0") || any_pcmu pts

-- The words of an `m=audio` line: port, protocol, payload types.
unfoldable pub audio_words : List Text → AnswerState → Outcome SdpError AnswerState
unfolding any_pcmu
audio_words [] st = bail no_port_on_line
audio_words (port_text ∷ more) st = do
  port ← ok_or (parse u16_max port_text) invalid_port
  elim more [
    | _ ∷ pt ∷ pts ↦ do
      ensure (any_pcmu (pt ∷ pts)) no_pcmu
      ok (record {
        connection_addr = st.connection_addr;
        media_port = some port;
        has_audio_line = true;
      })
    | _ ↦ bail no_payload_types
  ]

-- `if line.starts_with("m=audio ") { ... }`.
unfoldable pub audio_line : Option Text → AnswerState → Outcome SdpError AnswerState
unfolding audio_words
audio_line none st = ok st
audio_line (some rest) st = audio_words (split_whitespace rest) st

-- The loop's body, on the trimmed line.
unfoldable pub answer_line : Text → AnswerState → Outcome SdpError AnswerState
answer_line line st =
    audio_line (strip_prefix line (codes "m=audio "))
      (connection_line (strip_prefix line (codes "c=")) st)

unfoldable pub answer_lines : List Text → AnswerState → Outcome SdpError AnswerState
answer_lines [] st = ok st
answer_lines (line ∷ rest) st = do st' ← answer_line (trim line) st; answer_lines rest st'

-- What stands behind the loop.
unfoldable pub finish_answer : AnswerState → Outcome SdpError SdpAnswer
finish_answer st = do
  ensure st.has_audio_line no_audio_line
  addr ← ok_or st.connection_addr no_connection
  port ← ok_or st.media_port no_media_port
  ok (record { addr = addr; port = port })

abbrev pub initial : AnswerState
initial = record { connection_addr = none; media_port = none; has_audio_line = false }

unfoldable pub parse_answer : Text → Outcome SdpError SdpAnswer
parse_answer sdp = do st ← answer_lines (lines sdp) initial; finish_answer st
