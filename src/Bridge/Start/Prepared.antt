-- ===== src/Bridge/Start/Prepared.antt =====
-- When `run` gets as far as its SIP client.
use slmodem_sip_bridge.Base.{
  ℕ, ◌<◌, ◌≤◌, arith, List, [], ◌∷◌, ◌++◌, true, not, Option, some, is_nil, ◌≡◌, ◌≢◌, ◌↔◌, refl, ap,
}
use slmodem_sip_bridge.Base.Int.{pos}
use slmodem_sip_bridge.Base.Outcome.{ok, assert, ok_or, map_err, >>=-ok, ok_or-inv, map_err-inv}
use slmodem_sip_bridge.Bridge.Start.{
  Startup, socket_failed, server_not_resolved, invalid_local_addr, client_failed, resolve_server,
  prepare,
}
use slmodem_sip_bridge.Config.{Config}
use slmodem_sip_bridge.Net.{SocketAddr, v4}
use slmodem_sip_bridge.Net.Shown.{show_ip}
use slmodem_sip_bridge.Net.Socket.{parse_socket_addr, parse_socket_addr-show_ip}
use slmodem_sip_bridge.Sip.Client.Created.{Created, new_iff}
use slmodem_sip_bridge.Sip.{SipClient}
use slmodem_sip_bridge.Slmodem.{is_non_negative, socket_from_raw_fd, socket_from_raw_fd_iff}
use slmodem_sip_bridge.Text.Number.{show, digits}
use slmodem_sip_bridge.Text.{Text, codes}

-- The descriptor is in range and made a socket, the server has an address, the local address can
-- be read, and there is a client.
pub record Prepared (cfg : Config) (out : Startup) (client : SipClient) : Type 0 where
  pub in_range : (n : ℕ) × (cfg.socket_fd ≡ pos n) × (n < 4096)
  pub nonblocking : out.nonblocking_ok ≡ true
  pub converted : out.stream_ok ≡ true
  pub sip_server : SocketAddr
  pub resolved : resolve_server out.to_socket_addrs cfg.telnyx_sip_domain ≡ some sip_server
  pub sip_bind_addr : SocketAddr
  pub readable : parse_socket_addr (cfg.sip_local_addr ++ codes ":0") ≡ some sip_bind_addr
  pub created :
      Created out.sockets sip_server sip_bind_addr cfg.caller_id cfg.caller_name
        cfg.telnyx_sip_domain cfg.telnyx_sip_user cfg.telnyx_sip_pass client

is_nil-not : {A : Type 0} (l : List A) → l ≢ [] → not (is_nil l) ≡ true
is_nil-not [] h = absurd (h refl)
is_nil-not (a ∷ l) h = refl

module _ (cfg : Config) (out : Startup) (client : SipClient) where
  prepare-Prepared : prepare cfg out ≡ ok client → Prepared cfg out client
  unfolding prepare
  prepare-Prepared h =
      let (u, e1, k1) = >>=-ok (assert (is_non_negative cfg.socket_fd)) _ h in
      let (v, e2, k2) = >>=-ok (assert (not (is_nil cfg.telnyx_sip_user))) _ k1 in
      let (w, e3, k3) =
        >>=-ok
          (map_err socket_failed
            (socket_from_raw_fd cfg.socket_fd out.nonblocking_ok out.stream_ok))
          _ k2 in
      let (server, e4, k4) =
        >>=-ok
          (ok_or (resolve_server out.to_socket_addrs cfg.telnyx_sip_domain) server_not_resolved) _
          k3 in
      let (addr, e5, k5) =
        >>=-ok (ok_or (parse_socket_addr (cfg.sip_local_addr ++ codes ":0")) invalid_local_addr) _
          k4 in
      let (in_range, nonblocking, converted) =
        (socket_from_raw_fd_iff cfg.socket_fd out.nonblocking_ok out.stream_ok).0
          (map_err-inv socket_failed _ tt e3) in
      record {
        in_range = in_range;
        nonblocking = nonblocking;
        converted = converted;
        sip_server = server;
        resolved = ok_or-inv _ _ server e4;
        sip_bind_addr = addr;
        readable = ok_or-inv _ _ addr e5;
        created =
            (new_iff out.sockets server addr cfg.caller_id cfg.caller_name cfg.telnyx_sip_domain
                cfg.telnyx_sip_user cfg.telnyx_sip_pass client).0
              (map_err-inv client_failed _ client k5);
      }

  Prepared-prepare : Prepared cfg out client → prepare cfg out ≡ ok client
  unfolding prepare
  Prepared-prepare p =
      let taken =
        (socket_from_raw_fd_iff cfg.socket_fd out.nonblocking_ok out.stream_ok).1
          (p.in_range, p.nonblocking, p.converted) in
      let made =
        (new_iff out.sockets p.sip_server p.sip_bind_addr cfg.caller_id cfg.caller_name
            cfg.telnyx_sip_domain cfg.telnyx_sip_user cfg.telnyx_sip_pass client).1
          p.created in
      let (n, fd, _) = p.in_range in
      let signed : is_non_negative cfg.socket_fd ≡ true = ap is_non_negative fd in
      simp
        (
          signed,
          is_nil-not cfg.telnyx_sip_user p.created.has_username,
          taken,
          p.resolved,
          p.readable,
          made,
        )
        refl

  -- `run` gets a client exactly if the inherited descriptor is one of 0 to 4095 and becomes a
  -- non-blocking socket, the SIP server and the local address are known, and the client can be
  -- made of the configuration.
  pub prepare_iff : (prepare cfg out ≡ ok client) ↔ Prepared cfg out client
  prepare_iff = (prepare-Prepared, Prepared-prepare)

-- A domain that is a V4 address needs no lookup, whatever the resolver says.
pub resolve_server-show_ip :
    (to_socket_addrs : Text → Option (List SocketAddr)) (a b c d : ℕ)
    → a ≤ 255
    → b ≤ 255
    → c ≤ 255
    → d ≤ 255
    → resolve_server to_socket_addrs (show_ip (v4 a b c d))
      ≡ some (record { ip = v4 a b c d; port = 5060 })
unfolding show digits resolve_server
resolve_server-show_ip to_socket_addrs a b c d ha hb hc hd =
    rw (parse_socket_addr-show_ip a b c d ha hb hc hd 5060 (omega arith), resolve_server) refl
