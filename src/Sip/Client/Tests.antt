-- ===== src/Sip/Client/Tests.antt =====
-- A client bound to every interface, and fresh identifiers.
use slmodem_sip_bridge.Base.{ℕ, true, some, ◌≡◌, ◌↔◌, refl}
use slmodem_sip_bridge.Base.Outcome.{ok}
use slmodem_sip_bridge.Net.{v4, SocketAddr}
use slmodem_sip_bridge.Sip.Client.{Sockets, new, probe_ip}
use slmodem_sip_bridge.Sip.Client.Created.{Created, new_iff}
use slmodem_sip_bridge.Sip.{SipClient}
use slmodem_sip_bridge.Text.{codes}

abbrev addr : ℕ → ℕ → SocketAddr
addr last port = record { ip = v4 10 0 0 last; port = port }

abbrev sockets : Sockets
sockets = record {
  bind = λ a. true;
  bound_addr = λ a. some (record { ip = v4 0 0 0 0; port = 40000 });
  probe_bind = true;
  probe_connect = λ server. true;
  probe_addr = λ server. some (addr 2 40001);
}

abbrev client : SipClient
client = record {
  sip_domain = codes "d";
  username = codes "u";
  password = codes "p";
  caller_id = codes "1";
  caller_name = codes "m";
  local_ip = v4 10 0 0 2;
  local_port = 40000;
}

makes_client :
    new sockets (addr 0 0) (addr 1 5060) (codes "d") (codes "u") (codes "p") (codes "1") (codes "m")
    ≡ ok client
unfolding new probe_ip
makes_client = refl

new_iff_example :
    (new sockets
        (addr 0 0)
        (addr 1 5060)
        (codes "d")
        (codes "u")
        (codes "p")
        (codes "1")
        (codes "m")
      ≡ ok client)
    ↔ Created sockets
        (addr 1 5060)
        (addr 0 0)
        (codes "1")
        (codes "m")
        (codes "d")
        (codes "u")
        (codes "p")
        client
new_iff_example =
    new_iff sockets (addr 1 5060) (addr 0 0) (codes "1") (codes "m") (codes "d") (codes "u")
      (codes "p") client
