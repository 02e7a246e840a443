-- ===== src/Sip/Register/Tests.antt =====
-- A registration with a challenge.
use slmodem_sip_bridge.Base.{◌≡◌, refl, List, [], ◌∷◌, true, Option, none, some}
use slmodem_sip_bridge.Base.Outcome.{ok}
use slmodem_sip_bridge.Net.{v4}
use slmodem_sip_bridge.Sip.Build.{build_register}
use slmodem_sip_bridge.Sip.Digest.{
  parse_digest_challenge, auth_header_value, compute_digest_response,
}
use slmodem_sip_bridge.Sip.Message.{
  parse_status_code, extract_cseq_num, extract_header, find_header, header_matches,
  extract_quoted_param, quoted_value,
}
use slmodem_sip_bridge.Sip.Register.Confirmed.{Registered, register-Registered}
use slmodem_sip_bridge.Sip.Register.{
  RegisterTick, register, on_register_response, register_loop, register_reply, register_auth,
}
use slmodem_sip_bridge.Sip.{SipClient, send_msg}
use slmodem_sip_bridge.Text.Number.{parse, scan}
use slmodem_sip_bridge.Text.Split.{lines, splitn, split_whitespace}
use slmodem_sip_bridge.Text.{
  Text, codes, strip_prefix, trim_end, trim_start_matches, is_whitespace, split_at, text_eq,
  to_ascii_lowercase, ascii_lower, find,
}

abbrev pub client : SipClient
client = record {
  sip_domain = codes "d";
  username = codes "u";
  password = codes "p";
  caller_id = codes "1";
  caller_name = codes "m";
  local_ip = v4 10 0 0 2;
  local_port = 5060;
}

abbrev pub md5_hex : Text → Text
md5_hex s = codes "hash"

abbrev challenge : Text
challenge =
    codes "SIP/2.0 401 Unauthorized\r\nWWW-Authenticate: Digest realm=\"r\", nonce=\"n\"\r\n\r\n"

abbrev stale : Text
stale = codes "SIP/2.0 401 Unauthorized\r\nCSeq: 1 REGISTER\r\n\r\n"

abbrev success : Text
success = codes "SIP/2.0 200 OK\r\nCSeq: 2 REGISTER\r\n\r\n"

abbrev ticks : List RegisterTick
ticks =
    record { now = 1; resp = some stale }
    ∷ record { now = 2; resp = none }
    ∷ record { now = 3; resp = some success }
    ∷ []

abbrev value : Text
value =
    codes
      "Digest username=\"u\", realm=\"r\", nonce=\"n\", uri=\"sip:d\", response=\"hash\", algorithm=MD5"

abbrev sent : List Text
sent =
    build_register client (codes "b1") (codes "t") (codes "i") 1 none
    ∷ build_register client (codes "b2") (codes "t") (codes "i") 2
        (some (codes "Authorization", value))
    ∷ []

registers :
    register md5_hex client
      (codes "i")
      (codes "t")
      (codes "b1")
      true
      (some challenge)
      10000
      (codes "c")
      (codes "b2")
      true
      ticks
      []
    ≡ (ok true, sent)
unfolding register on_register_response register_loop register_reply register_auth send_msg
    parse_status_code lines strip_prefix splitn parse scan extract_header find_header header_matches
    trim_end trim_start_matches is_whitespace split_at text_eq to_ascii_lowercase ascii_lower
    parse_digest_challenge extract_quoted_param quoted_value find extract_cseq_num split_whitespace
    auth_header_value compute_digest_response
registers = refl

register-Registered_example :
    (resp : Text) × (◌≡◌ {A = Option Text} (some challenge) (some resp))
    × Registered md5_hex client
        (codes "i")
        (codes "t")
        (codes "b1")
        resp
        10000
        (codes "c")
        (codes "b2")
        ticks
        sent
register-Registered_example =
    register-Registered md5_hex client (codes "i") (codes "t") (codes "b1") true (some challenge)
      10000 (codes "c") (codes "b2") true ticks sent registers
