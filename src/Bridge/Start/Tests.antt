-- ===== src/Bridge/Start/Tests.antt =====
-- A start that is registered at once, with the server's address in place of a domain.
use slmodem_sip_bridge.Base.{
  ℕ, ◌+◌, List, [], ◌∷◌, ◌++◌, true, none, some, ◌≡◌, ◌≢◌, ◌↔◌, refl, arith,
}
use slmodem_sip_bridge.Base.Int.{pos}
use slmodem_sip_bridge.Base.Outcome.{ok, to_option}
use slmodem_sip_bridge.Bridge.Start.{Startup, resolve_server, prepare, register_client, start}
use slmodem_sip_bridge.Bridge.Start.Prepared.{Prepared, prepare_iff, resolve_server-show_ip}
use slmodem_sip_bridge.Bridge.Start.Ready.{Readied, unblocked, start_iff, start-Registered}
use slmodem_sip_bridge.Config.{Config}
use slmodem_sip_bridge.Net.{v4, SocketAddr}
use slmodem_sip_bridge.Net.Shown.{show_ip, show_v4}
use slmodem_sip_bridge.Net.Socket.{parse_socket_addr, parse_socket_addr-show_ip}
use slmodem_sip_bridge.Sip.Client.{Sockets, received, recv_response_timeout}
use slmodem_sip_bridge.Sip.Client.Created.{bound}
use slmodem_sip_bridge.Sip.Ids.{generate_call_id, generate_tag, generate_branch, generate_cnonce}
use slmodem_sip_bridge.Sip.Message.{parse_status_code}
use slmodem_sip_bridge.Sip.Register.{register, on_register_response}
use slmodem_sip_bridge.Sip.Register.Confirmed.{Registered}
use slmodem_sip_bridge.Sip.{SipClient, send_msg, register_timeout}
use slmodem_sip_bridge.Text.Number.{show, digits, parse, scan}
use slmodem_sip_bridge.Text.Split.{lines, splitn}
use slmodem_sip_bridge.Text.Utf8.{from_utf8_lossy, decode_from, decode_byte, first_byte}
use slmodem_sip_bridge.Text.{Text, codes, strip_prefix}

abbrev pub addr : ℕ → ℕ → SocketAddr
addr last port = record { ip = v4 10 0 0 last; port = port }

abbrev pub sockets : Sockets
sockets = record {
  bind = λ a. true;
  bound_addr = λ a. some (addr 2 40000);
  probe_bind = true;
  probe_connect = λ server. true;
  probe_addr = λ server. none;
}

abbrev pub md5_hex : Text → Text
md5_hex s = codes "hash"

abbrev pub cfg : Config
cfg = record {
  dial_string = codes "5551234";
  socket_fd = pos 3;
  sip_local_addr = codes "10.0.0.2";
  sip_local_rtp_port = 20000;
  invite_timeout = 60000;
  telnyx_sip_user = codes "u";
  telnyx_sip_pass = codes "p";
  telnyx_sip_domain = codes "10.0.0.1";
  caller_id = codes "1";
  caller_name = codes "m";
}

abbrev pub response : Text
response = codes "SIP/2.0 200 OK\r\n\r\n"

abbrev pub startup : Startup
startup = record {
  nonblocking_ok = true;
  stream_ok = true;
  to_socket_addrs = λ name. none;
  sockets = sockets;
  registration = record {
    now = 1;
    pid = 2;
    tag_hash = 3;
    branch_hash = 4;
    first_ok = true;
    response = received response;
    cnonce_time = 5;
    branch2_hash = 6;
    second_ok = true;
    loop_at = 7;
    ticks = record { now = 10007; resp = none } ∷ [];
  };
  ready_ok = true;
}

abbrev client : SipClient
client = record {
  sip_domain = codes "10.0.0.1";
  username = codes "u";
  password = codes "p";
  caller_id = codes "1";
  caller_name = codes "m";
  local_ip = v4 10 0 0 2;
  local_port = 40000;
}

shown : (last : ℕ) → show_ip (v4 10 0 0 last) ≡ codes "10.0.0." ++ show last
unfolding show_ip show_v4 show digits
shown last = refl

readable : parse_socket_addr (codes "10.0.0.2:0") ≡ some (addr 2 0)
unfolding show_ip show_v4 show digits
readable =
    parse_socket_addr-show_ip 10 0 0 2 (omega arith) (omega arith) (omega arith) (omega arith) 0
      (omega arith)

resolved : resolve_server (λ name. none) (codes "10.0.0.1") ≡ some (addr 1 5060)
unfolding show_ip show_v4 show digits
resolved =
    resolve_server-show_ip (λ name. none) 10 0 0 1 (omega arith) (omega arith) (omega arith)
      (omega arith)

prepared : Prepared cfg startup client
prepared = record {
  in_range = (3, refl, omega arith);
  nonblocking = refl;
  converted = refl;
  sip_server = addr 1 5060;
  resolved = resolved;
  sip_bind_addr = addr 2 0;
  readable = readable;
  created = record {
    has_username = λ e. cc;
    has_password = λ e. cc;
    has_domain = λ e. cc;
    is_bound = refl;
    bound_addr = addr 2 40000;
    at = refl;
    local_ip = v4 10 0 0 2;
    names = bound (v4 10 0 0 2) refl;
    holds = refl;
  };
}

prepare_iff_example : (prepare cfg startup ≡ ok client) ↔ Prepared cfg startup client
prepare_iff_example = prepare_iff cfg startup client

registered :
    register_client md5_hex (λ bytes. bytes) client startup.registration []
    ≡ (ok true, (register_client md5_hex (λ bytes. bytes) client startup.registration []).1)
unfolding register_client register on_register_response send_msg recv_response_timeout
    parse_status_code lines strip_prefix splitn parse scan from_utf8_lossy decode_from decode_byte
    first_byte
registered = refl

readied :
    Readied md5_hex
      (λ bytes. bytes)
      cfg
      startup
      client
      (register_client md5_hex (λ bytes. bytes) client startup.registration []).1
readied = record { prepared = prepared; registered = registered; ready = refl }

start_iff_example :
    (((start md5_hex (λ bytes. bytes) cfg startup).written ≢ []) ↔ (
      (c : SipClient) × (sent : List Text) × Readied md5_hex (λ bytes. bytes) cfg startup c sent))
    × ((c : SipClient) (sent : List Text)
        → Readied md5_hex (λ bytes. bytes) cfg startup c sent
        → start md5_hex (λ bytes. bytes) cfg startup
          ≡ unblocked md5_hex (λ bytes. bytes) cfg startup c sent)
start_iff_example = start_iff md5_hex (λ bytes. bytes) cfg startup

writes : (start md5_hex (λ bytes. bytes) cfg startup).written ≢ []
writes =
    (start_iff md5_hex (λ bytes. bytes) cfg startup).0.1
      (client, (register_client md5_hex (λ bytes. bytes) client startup.registration []).1, readied)

start-Registered_example :
    (c : SipClient) × (resp : Text) × Prepared cfg startup c
    × (to_option (recv_response_timeout (received response)) ≡ some resp)
    × Registered md5_hex c
        (generate_call_id 1 2)
        (generate_tag 3)
        (generate_branch 4)
        resp
        (7 + register_timeout)
        (generate_cnonce (λ bytes. bytes) 5)
        (generate_branch 6)
        (record { now = 10007; resp = none } ∷ [])
        (start md5_hex (λ bytes. bytes) cfg startup).sent
start-Registered_example = start-Registered md5_hex (λ bytes. bytes) cfg startup writes
