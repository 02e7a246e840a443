-- ===== src/Sip/Client.antt =====
-- sip.rs: `SipClient::new`, and what is received from the server's socket.
pub mod Created
mod Tests
use slmodem_sip_bridge.Base.{
  ℕ, List, [], ◌∷◌, ◌&&◌, Bool, true, false, not, Option, none, some, ◌==◌, if◌then◌else◌, is_nil,
  Bytes, take, ◌≡◌, ◌≢◌, ◌↔◌, ◌≤◌, refl, ap, ◌∙◌, arith, length,
}
use slmodem_sip_bridge.Base.Outcome.{Outcome, ok, bail, panic, ◌>>=◌, ◌>>◌, assert, ensure, ok_or}
use slmodem_sip_bridge.Net.{IpAddr, v4, v6, SocketAddr}
use slmodem_sip_bridge.Sip.{SipClient}
use slmodem_sip_bridge.Text.{Text}
use slmodem_sip_bridge.Text.Utf8.{from_utf8_lossy}

abbrev pub max_sip_msg_size : ℕ
max_sip_msg_size = 8192

-- What `recv_from` gives within the timeout.
pub data Datagram : Type 0 where
  timed_out recv_error : Datagram
  received : Bytes → Datagram

-- The buffer holds the front of a longer datagram.
unfoldable pub try_recv_response : Datagram → Option Text
try_recv_response timed_out = none
try_recv_response recv_error = none
try_recv_response (received bytes) = some (from_utf8_lossy (take max_sip_msg_size bytes))

pub data RecvError : Type 0 where
  response_timeout socket_recv_error : RecvError

unfoldable pub recv_response_timeout : Datagram → Outcome RecvError Text
recv_response_timeout timed_out = bail response_timeout
recv_response_timeout recv_error = bail socket_recv_error
recv_response_timeout (received bytes) = ok (from_utf8_lossy (take max_sip_msg_size bytes))

-- What the system's UDP sockets do.
pub record Sockets : Type 0 where
  pub bind : SocketAddr → Bool
  pub bound_addr : SocketAddr → Option SocketAddr
  pub probe_bind : Bool
  pub probe_connect : SocketAddr → Bool
  pub probe_addr : SocketAddr → Option SocketAddr

pub data ClientError : Type 0 where
  bind_failed no_bound_addr probe_bind_failed probe_connect_failed no_probe_addr : ClientError

abbrev all_zero : List ℕ → Bool
all_zero [] = true
all_zero (s ∷ rest) = s == 0 && all_zero rest

-- `IpAddr::is_unspecified`.
abbrev pub is_unspecified : IpAddr → Bool
is_unspecified (v4 a b c d) = a == 0 && b == 0 && c == 0 && d == 0
is_unspecified (v6 segments) = all_zero segments

-- The address of the interface that leads to the server.
unfoldable pub probe_ip : Sockets → SocketAddr → Outcome ClientError IpAddr
probe_ip sockets sip_server = do
  ensure sockets.probe_bind probe_bind_failed
  ensure (sockets.probe_connect sip_server) probe_connect_failed
  addr ← ok_or (sockets.probe_addr sip_server) no_probe_addr
  ok addr.ip

unfoldable pub new :
    Sockets
    → SocketAddr
    → SocketAddr
    → Text
    → Text
    → Text
    → Text
    → Text
    → Outcome ClientError SipClient
new sockets local_addr sip_server sip_domain username password caller_id caller_name = do
  assert (not (is_nil username))
  assert (not (is_nil password))
  assert (not (is_nil sip_domain))
  ensure (sockets.bind local_addr) bind_failed
  bound_addr ← ok_or (sockets.bound_addr local_addr) no_bound_addr
  local_ip ←
      (if is_unspecified bound_addr.ip then probe_ip sockets sip_server else ok bound_addr.ip)
  ok (record {
    sip_domain = sip_domain;
    username = username;
    password = password;
    caller_id = caller_id;
    caller_name = caller_name;
    local_ip = local_ip;
    local_port = bound_addr.port;
  })
