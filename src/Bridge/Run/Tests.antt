-- ===== src/Bridge/Run/Tests.antt =====
-- A pass whose call has early media and is answered during the relay.
use slmodem_sip_bridge.Base.{◌+◌, ◌≡◌, refl, arith, [], ◌∷◌, true, none, some}
use slmodem_sip_bridge.Base.Outcome.{ok}
use slmodem_sip_bridge.Bridge.Run.Passes.{run_pass-PassEnds}
use slmodem_sip_bridge.Bridge.Run.Teardown.{PassEnds}
use slmodem_sip_bridge.Bridge.Run.{Pass, run_pass}
use slmodem_sip_bridge.Net.{v4}
use slmodem_sip_bridge.Sip.{Call, SipClient, early_media}
use slmodem_sip_bridge.Text.{codes}

abbrev client : SipClient
client = record {
  sip_domain = codes "d";
  username = codes "u";
  password = codes "p";
  caller_id = codes "1";
  caller_name = codes "m";
  local_ip = v4 10 0 0 2;
  local_port = 5060;
}

abbrev call : Call
call = record {
  call_id = codes "id";
  cseq = 1;
  local_tag = codes "near";
  remote_tag = none;
  remote_rtp = some (record { ip = v4 10 0 0 1; port = 4000 });
  state = early_media;
  invite_uri = codes "sip:1@d";
  via_branch = codes "z9hG4bK1";
}

abbrev pass : Pass
pass = record {
  waited = some (codes "T1");
  rtp_bound = true;
  rtp_port = 20000;
  session_id = 7;
  setup = λ dial sdp_offer. ok call;
  ack_ok = true;
  polls = (none, true) ∷ (some (codes "SIP/2.0 200 OK\r\nCSeq: 1 INVITE\r\n\r\n"), true) ∷ [];
  relay_ok = true;
  bye_branch = codes "z9hG4bK2";
  bye_ok = true;
}

run_pass-PassEnds_example :
    PassEnds client pass (codes "T1") (run_pass client 3 pass).0
    × ((run_pass client 3 pass).1 ≡ 3 + 1)
run_pass-PassEnds_example = run_pass-PassEnds client 3 pass (codes "T1") (omega arith) refl
