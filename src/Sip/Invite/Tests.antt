-- ===== src/Sip/Invite/Tests.antt =====
-- Runs of `invite`: a 401, and a 200 with SDP behind it.
use slmodem_sip_bridge.Base.{
  ℕ, zero, suc, ◌+◌, ◌≡◌, ◌≢◌, ◌⊎◌, refl, arith, List, [], ◌∷◌, Bool, true, false, Option, none,
  some,
}
use slmodem_sip_bridge.Base.Outcome.{ok, panic}
use slmodem_sip_bridge.Net.{v4}
use slmodem_sip_bridge.Text.Ascii.{is_ascii-IsAscii}
use slmodem_sip_bridge.Sip.Invite.Calm.{on_response-SipCalm}
use slmodem_sip_bridge.Sip.Invite.Bounded.{invite-ends}
use slmodem_sip_bridge.Sip.Invite.Conversation.{Conversation, Exchange, invite-Conversation}
use slmodem_sip_bridge.Sip.Invite.Ends.{OfSetup, IsInviteState, Connected, round-IsInviteState}
use slmodem_sip_bridge.Sip.Invite.Ends.Connect.{invite-Connected}
use slmodem_sip_bridge.Sip.Invite.Invited.{Invited}
use slmodem_sip_bridge.Sip.Invite.Reply.Handled.{on_response-Replies}
use slmodem_sip_bridge.Sip.Invite.Reply.{Replies}
use slmodem_sip_bridge.Sip.Invite.{
  Setup, InviteState, Tick, again, setup_of, start, round, retransmit_due, on_response, on_status,
  on_answer, with_remote_tag, response_tag, tag_of_to, set_remote_tag, sdp_endpoint, invite_loop,
  invite,
}
use slmodem_sip_bridge.Sip.Message.{
  parse_status_code, extract_cseq_num, extract_header, find_header, header_matches,
  extract_tag_param, extract_sdp_body, any_sdp_content_type, is_sdp_content_type, ends_tag,
}
use slmodem_sip_bridge.Sip.{Call, SipClient, answered, send_msg}
use slmodem_sip_bridge.Net.{parse_ip}
use slmodem_sip_bridge.Sdp.{
  parse_answer, answer_lines, answer_line, audio_line, connection_line, finish_answer,
}
use slmodem_sip_bridge.Text.Number.{parse, scan}
use slmodem_sip_bridge.Text.Split.{lines, splitn, split_whitespace}
use slmodem_sip_bridge.Text.{
  Text, codes, strip_prefix, trim_end, trim_start_matches, is_whitespace, split_at, text_eq,
  to_ascii_lowercase, ascii_lower, find, find_char,
}

abbrev pub client : SipClient
client = record {
  sip_domain = codes "sip.example.com";
  username = codes "user";
  password = codes "secret";
  caller_id = codes "+15550001";
  caller_name = codes "Modem";
  local_ip = v4 10 0 0 2;
  local_port = 5060;
}

-- In place of the hash.
abbrev pub md5_hex : Text → Text
md5_hex s = s

abbrev challenge : Text
challenge =
    codes
      "SIP/2.0 401 Unauthorized\r\nCSeq: 1 INVITE\r\nWWW-Authenticate: Digest realm=\"r\", nonce=\"n\"\r\n\r\n"

abbrev success : Text
success =
    codes
      "SIP/2.0 200 OK\r\nTo: <sip:1@sip.example.com>;tag=far\r\nCSeq: 1 INVITE\r\nContent-Type: application/sdp\r\n\r\nc=IN IP4 10.0.0.1\r\nm=audio 4000 RTP/AVP 0\r\n"

abbrev pub tick : Option Text → Tick
tick resp = record {
  now = 10;
  timer_now = 10;
  resent_at = 10;
  resp = resp;
  auth_sent_at = 10;
  resend_ok = true;
  ack_ok = true;
  invite_ok = true;
  branch = codes "z9hG4bK2";
  cnonce = codes "c";
}

abbrev pub setup : Setup
setup =
    setup_of client (codes "1") (codes "v=0") (0 + 60000) (codes "id") (codes "near")
      (codes "z9hG4bK1")

abbrev pub initial : InviteState
initial = start setup (codes "near") (codes "z9hG4bK1") 0

abbrev pub repeat : ℕ → Tick → List Tick
repeat zero t = []
repeat (suc n) t = t ∷ repeat n t

invite-Conversation_example :
    let (result, log) =
      invite md5_hex client
        (codes "1")
        (codes "v=0")
        60000
        (codes "id")
        (codes "near")
        (codes "z9hG4bK1")
        0
        true
        (tick (some challenge) ∷ tick (some success) ∷ [])
        [] in
    (((codes "1" ≡ []) ⊎ (true ≡ false)) × (log ≡ []))
    ⊎ ((ms : List Text) × (log ≡ setup.invite ∷ ms)
        × Exchange md5_hex setup initial
            (tick (some challenge) ∷ tick (some success) ∷ [])
            result
            ms
        × Conversation setup false 7 initial.call ms)
invite-Conversation_example =
    invite-Conversation md5_hex client (codes "1") (codes "v=0") 60000 (codes "id") (codes "near")
      (codes "z9hG4bK1") 0 true (tick (some challenge) ∷ tick (some success) ∷ [])

on_response-Replies_example :
    Replies md5_hex setup initial
      (tick none)
      (some challenge)
      (on_response md5_hex setup initial (tick none) challenge)
      []
on_response-Replies_example = on_response-Replies md5_hex setup initial (tick none) challenge []

invite-ends_example :
    (invite md5_hex client
      (codes "1")
      (codes "v=0")
      60000
      (codes "id")
      (codes "near")
      (codes "z9hG4bK1")
      0
      true
      (repeat 1001 (tick none))
      []).0
    ≢ ok none
invite-ends_example =
    invite-ends md5_hex client (codes "1") (codes "v=0") 60000 (codes "id") (codes "near")
      (codes "z9hG4bK1") 0 true (repeat 1001 (tick none)) (omega arith)

-- The call that is returned for the 200.
abbrev connected : Call
connected = record {
  call_id = codes "id";
  cseq = 1;
  local_tag = codes "near";
  remote_tag = some (codes "far");
  remote_rtp = some (record { ip = v4 10 0 0 1; port = 4000 });
  state = answered;
  invite_uri = codes "sip:1@sip.example.com";
  via_branch = codes "z9hG4bK1";
}

connects :
    (invite md5_hex client
      (codes "1")
      (codes "v=0")
      60000
      (codes "id")
      (codes "near")
      (codes "z9hG4bK1")
      0
      true
      (tick (some success) ∷ [])
      [])
    ≡ (ok (some connected), setup.invite ∷ [])
unfolding invite setup_of start send_msg invite_loop round retransmit_due on_response
    parse_status_code extract_cseq_num extract_header find_header header_matches with_remote_tag
    response_tag tag_of_to extract_tag_param set_remote_tag on_status sdp_endpoint extract_sdp_body
    any_sdp_content_type is_sdp_content_type on_answer parse_answer answer_lines answer_line
    audio_line connection_line finish_answer parse scan parse_ip lines strip_prefix splitn trim_end
    trim_start_matches is_whitespace split_at text_eq to_ascii_lowercase ascii_lower
    split_whitespace find find_char ends_tag
connects = refl

invite-Connected_example :
    Connected connected
    × ((authenticated : Bool) × OfSetup setup (codes "near") authenticated connected
        × Invited setup (setup.invite ∷ []) connected authenticated)
invite-Connected_example =
    invite-Connected md5_hex client (codes "1") (codes "v=0") 60000 (codes "id") (codes "near")
      (codes "z9hG4bK1") 0 true (tick (some success) ∷ []) connected (setup.invite ∷ []) connects

-- A round in which nothing arrives.
abbrev silent_round : InviteState
silent_round = record initial { iterations = 1 }

goes_on : round md5_hex setup initial (tick none) [] ≡ (ok (again silent_round), [])
unfolding round retransmit_due start setup_of
goes_on = refl

initial-IsInviteState : IsInviteState setup (codes "near") initial
unfolding start setup_of
initial-IsInviteState = record {
  of_setup = record {
    call_id_is = refl;
    local_tag_is = refl;
    invite_uri_is = refl;
    cseq_is = refl;
  };
  count_le = omega arith;
  timer_is = refl;
}

round-IsInviteState_example : IsInviteState setup (codes "near") silent_round
round-IsInviteState_example =
    round-IsInviteState md5_hex setup (codes "near") initial silent_round (tick none) [] []
      initial-IsInviteState goes_on

on_response-SipCalm_example :
    (on_response md5_hex setup initial
      (tick none)
      (codes "SIP/2.0 486 Busy\r\nTo: <sip:1@d>;tag=x\r\n\r\n")
      []).0
    ≢ panic
on_response-SipCalm_example =
    on_response-SipCalm md5_hex setup initial (tick none)
      (codes "SIP/2.0 486 Busy\r\nTo: <sip:1@d>;tag=x\r\n\r\n") []
      (is_ascii-IsAscii (codes "SIP/2.0 486 Busy\r\nTo: <sip:1@d>;tag=x\r\n\r\n") refl)
