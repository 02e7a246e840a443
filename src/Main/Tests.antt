-- ===== src/Main/Tests.antt =====
-- The program with an accepted dial string, and the longest wait.
use slmodem_sip_bridge.Base.{
  ℕ, zero, suc, List, [], ◌∷◌, true, none, some, ◌≡◌, ◌≢◌, refl, arith, length, inl,
}
use slmodem_sip_bridge.Base.Int.{pos}
use slmodem_sip_bridge.Base.Outcome.{ok, bail}
use slmodem_sip_bridge.Bridge.Run.{Pass}
use slmodem_sip_bridge.Bridge.Start.Tests.{md5_hex, startup}
use slmodem_sip_bridge.Config.{Cli}
use slmodem_sip_bridge.DialString
use slmodem_sip_bridge.DialString.{DialString, DialError}
use slmodem_sip_bridge.Main.{invalid_dial_string, main}
use slmodem_sip_bridge.Main.Dial.{main-parse}
use slmodem_sip_bridge.Main.Ends.{main-ends}
use slmodem_sip_bridge.Sip.{no_response}
use slmodem_sip_bridge.Text.{Text, codes}

abbrev cli : Cli
cli = record {
  dial_string = codes "T5551234";
  socket_fd = pos 3;
  sip_local_addr = codes "10.0.0.2";
  sip_local_rtp_port = 20000;
  invite_timeout_secs = 60;
  telnyx_sip_user = codes "u";
  telnyx_sip_pass = codes "p";
  telnyx_sip_domain = codes "10.0.0.1";
  telnyx_outbound_cid = codes "1";
  telnyx_outbound_name = codes "m";
}

abbrev other : Text
other = codes "1"

main-parse_example :
    ((e : DialError)
      → DialString.parse cli.dial_string ≡ bail e
      → main md5_hex (λ bytes. bytes) cli startup [] ≡ (some (bail (invalid_dial_string e)), []))
    × ((a b : DialString)
        → DialString.parse cli.dial_string ≡ ok a
        → DialString.parse other ≡ ok b
        → main md5_hex (λ bytes. bytes) cli startup []
          ≡ main md5_hex (λ bytes. bytes) (record cli { dial_string = other }) startup [])
main-parse_example = main-parse md5_hex (λ bytes. bytes) startup [] cli other

-- A pass whose call is not set up.
abbrev pass : Pass
pass = record {
  waited = some (codes "1");
  rtp_bound = true;
  rtp_port = 20000;
  session_id = 7;
  setup = λ dial sdp_offer. bail no_response;
  ack_ok = true;
  polls = [];
  relay_ok = true;
  bye_branch = codes "z9hG4bK2";
  bye_ok = true;
}

abbrev repeat : ℕ → List Pass
repeat zero = []
repeat (suc n) = pass ∷ repeat n

length-repeat : (n : ℕ) → length (repeat n) ≡ n
length-repeat zero = refl
length-repeat (suc n) = omega (arith, length-repeat n)

main-ends_example : (main md5_hex (λ bytes. bytes) cli startup (repeat 1001)).0 ≢ none
main-ends_example =
    main-ends md5_hex (λ bytes. bytes) startup cli (repeat 1001) (inl (omega arith))
      (omega (arith, length-repeat 1001))
