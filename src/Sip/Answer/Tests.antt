-- ===== src/Sip/Answer/Tests.antt =====
-- A poll that finds the 200.
use slmodem_sip_bridge.Base.{refl, true, none, some}
use slmodem_sip_bridge.Net.{v4}
use slmodem_sip_bridge.Sip.Answer.Polling.{Poll, poll_answer-Poll}
use slmodem_sip_bridge.Sip.Answer.{poll_answer}
use slmodem_sip_bridge.Sip.{Call, SipClient, early_media}
use slmodem_sip_bridge.Text.{Text, codes}

abbrev client : SipClient
client = record {
  sip_domain = codes "d";
  username = codes "u";
  password = codes "p";
  caller_id = codes "1";
  caller_name = codes "m";
  local_ip = v4 10 0 0 2;
  local_port = 5060;
}

abbrev call : Call
call = record {
  call_id = codes "id";
  cseq = 2;
  local_tag = codes "near";
  remote_tag = none;
  remote_rtp = some (record { ip = v4 10 0 0 1; port = 4000 });
  state = early_media;
  invite_uri = codes "sip:1@d";
  via_branch = codes "z9hG4bK1";
}

abbrev success : Text
success = codes "SIP/2.0 200 OK\r\nTo: <sip:1@d>;tag=far\r\nCSeq: 2 INVITE\r\n\r\n"

poll_answer-Poll_example :
    Poll client call (some success) true (poll_answer client call (some success) true)
poll_answer-Poll_example = poll_answer-Poll client call (some success) true refl
