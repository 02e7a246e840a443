-- ===== src/Bridge/Start.antt =====
-- bridge.rs: what `run` does before its loop, up to the byte that unblocks slmodemd, and the whole
-- of `run`. What the system, the resolver and the server do is an argument.
pub mod Prepared
pub mod Ready
pub mod Tests
use slmodem_sip_bridge.Base.{
  ℕ, ◌+◌, List, [], ◌∷◌, ◌++◌, Bool, true, false, not, Option, none, some, is_nil, Bytes,
}
use slmodem_sip_bridge.Base.Outcome.{
  Outcome, ok, bail, panic, ◌>>=◌, ◌>>◌, assert, ok_or, map_err, to_option,
}
use slmodem_sip_bridge.Bridge.Run.{RunError, Pass, run_loop}
use slmodem_sip_bridge.Config.{Config}
use slmodem_sip_bridge.Net.{SocketAddr}
use slmodem_sip_bridge.Net.Socket.{parse_socket_addr}
use slmodem_sip_bridge.Sip.Client
use slmodem_sip_bridge.Sip.Client.{Sockets, ClientError, Datagram, recv_response_timeout}
use slmodem_sip_bridge.Sip.Ids.{generate_call_id, generate_tag, generate_branch, generate_cnonce}
use slmodem_sip_bridge.Sip.Register.{RegisterTick, register}
use slmodem_sip_bridge.Sip.{SipClient, SipError, Sip, register_timeout}
use slmodem_sip_bridge.Slmodem.{SocketError, is_non_negative, socket_from_raw_fd}
use slmodem_sip_bridge.Text.{Text, codes, map_some}

-- What the outside gives while `register` runs. The deadline is of the second time.
pub record Registration : Type 0 where
  pub now : ℕ
  pub pid : ℕ
  pub tag_hash : ℕ
  pub branch_hash : ℕ
  pub first_ok : Bool
  pub response : Datagram
  pub cnonce_time : ℕ
  pub branch2_hash : ℕ
  pub second_ok : Bool
  pub loop_at : ℕ
  pub ticks : List RegisterTick

-- What the outside gives before the loop.
pub record Startup : Type 0 where
  pub nonblocking_ok : Bool
  pub stream_ok : Bool
  pub to_socket_addrs : Text → Option (List SocketAddr)
  pub sockets : Sockets
  pub registration : Registration
  pub ready_ok : Bool

pub data StartError : Type 0 where
  socket_failed : SocketError → StartError
  server_not_resolved invalid_local_addr ready_not_sent : StartError
  client_failed : ClientError → StartError
  register_failed : SipError → StartError

-- The first address of a lookup.
abbrev pub first_addr : Option (List SocketAddr) → Option SocketAddr
first_addr none = none
first_addr (some []) = none
first_addr (some (addr ∷ _)) = some addr

unfoldable pub resolve_server : (Text → Option (List SocketAddr)) → Text → Option SocketAddr
resolve_server to_socket_addrs sip_domain = elim (parse_socket_addr (sip_domain ++ codes ":5060")) [
  | some addr ↦ some addr
  | none ↦ first_addr (to_socket_addrs (sip_domain ++ codes ":5060"))
]

-- Up to the client.
unfoldable pub prepare : Config → Startup → Outcome StartError SipClient
prepare cfg out = do
  assert (is_non_negative cfg.socket_fd)
  assert (not (is_nil cfg.telnyx_sip_user))
  map_err socket_failed (socket_from_raw_fd cfg.socket_fd out.nonblocking_ok out.stream_ok)
  sip_server ← ok_or (resolve_server out.to_socket_addrs cfg.telnyx_sip_domain) server_not_resolved
  sip_bind_addr ← ok_or (parse_socket_addr (cfg.sip_local_addr ++ codes ":0")) invalid_local_addr
  map_err client_failed (
      Client.new out.sockets sip_bind_addr sip_server cfg.telnyx_sip_domain cfg.telnyx_sip_user
        cfg.telnyx_sip_pass cfg.caller_id cfg.caller_name)

-- `sip.register()`, with its fresh identifiers; md5 is of bytes, `md5_hex` of a text. A receive that
-- fails and one that times out are both no response: each ends `register` with an error.
unfoldable pub register_client :
    (Text → Text) → (Bytes → Text) → SipClient → Registration → Sip Bool
register_client md5_hex md5_bytes client r =
    register md5_hex client (generate_call_id r.now r.pid) (generate_tag r.tag_hash)
      (generate_branch r.branch_hash) r.first_ok (to_option (recv_response_timeout r.response))
      (r.loop_at + register_timeout) (generate_cnonce md5_bytes r.cnonce_time)
      (generate_branch r.branch2_hash) r.second_ok r.ticks

-- How the part before the loop ends: the client, `none` while `register` still waits, the messages
-- sent to the server, and what was written to slmodemd.
pub record Started : Type 0 where
  pub result : Outcome StartError (Option SipClient)
  pub sent : List Text
  pub written : Bytes

-- `write_all(b"R")`.
unfoldable pub send_ready : SipClient → List Text → Bool → Started
send_ready client sent true = record { result = ok (some client); sent = sent; written = b'R' ∷ [] }
send_ready client sent false = record { result = bail ready_not_sent; sent = sent; written = [] }

-- What follows `register`.
unfoldable pub on_registered : SipClient → Bool → Outcome SipError Bool × List Text → Started
unfolding send_ready
on_registered client ready_ok (ok true, sent) = send_ready client sent ready_ok
on_registered client ready_ok (ok false, sent) = record {
  result = ok none;
  sent = sent;
  written = [];
}
on_registered client ready_ok (bail e, sent) = record {
  result = bail (register_failed e);
  sent = sent;
  written = [];
}
on_registered client ready_ok (panic, sent) = record { result = panic; sent = sent; written = [] }

unfoldable pub start : (Text → Text) → (Bytes → Text) → Config → Startup → Started
start md5_hex md5_bytes cfg out = elim (prepare cfg out) [
  | ok client ↦
      on_registered client out.ready_ok
        (register_client md5_hex md5_bytes client out.registration [])
  | bail e ↦ record { result = bail e; sent = []; written = [] }
  | panic ↦ record { result = panic; sent = []; written = [] }
]

pub data BridgeError : Type 0 where
  start_failed : StartError → BridgeError
  run_failed : RunError → BridgeError

-- `run`, over the passes of its loop: what it returns, `none` while it waits, and the messages of
-- the registration and of the loop itself.
unfoldable pub run :
    (Text → Text)
    → (Bytes → Text)
    → Config
    → Startup
    → List Pass
    → Option (Outcome BridgeError (Unit {0})) × List Text
run md5_hex md5_bytes cfg out passes =
    let started = start md5_hex md5_bytes cfg out in
    elim started.result [
      | ok (some client) ↦
          let (result, sent) = run_loop client 0 passes in
          (map_some (map_err run_failed) result, started.sent ++ sent)
      | ok none ↦ (none, started.sent)
      | bail e ↦ (some (bail (start_failed e)), started.sent)
      | panic ↦ (some panic, started.sent)
    ]
