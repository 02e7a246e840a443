-- ===== src/Sip/Client/Created.antt =====
-- What a client is made of.
use mathlib.Core.Path.{subst}
use slmodem_sip_bridge.Base.{
  [], ◌∷◌, Bool, true, false, some, if◌then◌else◌, ◌≡◌, ◌≢◌, ◌↔◌, refl, sym,
}
use slmodem_sip_bridge.Base.Outcome.{
  Outcome, ok, ensure, ok_or, >>=-ok, ok-inj, ensure-inv, ok_or-inv,
}
use slmodem_sip_bridge.Net.{IpAddr, SocketAddr}
use slmodem_sip_bridge.Sip.Client.{
  Sockets, ClientError, bind_failed, no_bound_addr, probe_bind_failed, probe_connect_failed,
  no_probe_addr, is_unspecified, probe_ip, new,
}
use slmodem_sip_bridge.Sip.{SipClient}
use slmodem_sip_bridge.Text.{Text}

-- The address that the messages name: the bound one, or that of the interface to the server.
pub data LocalIp (sockets : Sockets) (sip_server : SocketAddr) : IpAddr → IpAddr → Type 0 where
  bound : (ip : IpAddr) → is_unspecified ip ≡ false → LocalIp sockets sip_server ip ip
  probed :
      (ip : IpAddr) (addr : SocketAddr)
      → is_unspecified ip ≡ true
      → sockets.probe_bind ≡ true
      → sockets.probe_connect sip_server ≡ true
      → sockets.probe_addr sip_server ≡ some addr
      → LocalIp sockets sip_server ip addr.ip

module _ (sockets : Sockets) (sip_server : SocketAddr) where
  probed-LocalIp :
      (ip local_ip : IpAddr)
      → ◌≡◌ {A = Outcome ClientError IpAddr}
          (if is_unspecified ip then probe_ip sockets sip_server else ok ip)
          (ok local_ip)
      → LocalIp sockets sip_server ip local_ip
  unfolding probe_ip
  probed-LocalIp ip local_ip h = go (is_unspecified ip) refl h
    where
      go :
          (any : Bool)
          → is_unspecified ip ≡ any
          → ◌≡◌ {A = Outcome ClientError IpAddr}
              (if any then probe_ip sockets sip_server else ok ip)
              (ok local_ip)
          → LocalIp sockets sip_server ip local_ip
      go false e k = subst (LocalIp sockets sip_server ip) (ok-inj _ _ k) (bound ip e)
      go true e k =
          let (binds, e1, k1) = >>=-ok (ensure sockets.probe_bind probe_bind_failed) _ k in
          let (connects, e2, k2) =
            >>=-ok (ensure (sockets.probe_connect sip_server) probe_connect_failed) _ k1 in
          let (addr, e3, k3) = >>=-ok (ok_or (sockets.probe_addr sip_server) no_probe_addr) _ k2 in
          subst (LocalIp sockets sip_server ip) (ok-inj _ _ k3) (
            probed ip addr e (ensure-inv _ _ binds e1) (ensure-inv _ _ connects e2)
              (ok_or-inv _ _ addr e3))

  LocalIp-ok :
      (ip local_ip : IpAddr)
      → LocalIp sockets sip_server ip local_ip
      → ◌≡◌ {A = Outcome ClientError IpAddr}
          (if is_unspecified ip then probe_ip sockets sip_server else ok ip)
          (ok local_ip)
  unfolding probe_ip
  LocalIp-ok ip local_ip (bound _ e) = rw e refl
  LocalIp-ok ip local_ip (probed _ addr e binds connects found) =
      simp (e, binds, connects, found) refl

  module _ (local_addr : SocketAddr) (caller_id caller_name : Text) where
    -- What `new` has found out when it returns a client, and what it has put into it.
    pub record Created (sip_domain username password : Text) (client : SipClient) : Type 0 where
      pub has_username : username ≢ []
      pub has_password : password ≢ []
      pub has_domain : sip_domain ≢ []
      pub is_bound : sockets.bind local_addr ≡ true
      pub bound_addr : SocketAddr
      pub at : sockets.bound_addr local_addr ≡ some bound_addr
      pub local_ip : IpAddr
      pub names : LocalIp sockets sip_server bound_addr.ip local_ip
      pub holds : client ≡ record {
        sip_domain = sip_domain;
        username = username;
        password = password;
        caller_id = caller_id;
        caller_name = caller_name;
        local_ip = local_ip;
        local_port = bound_addr.port;
      }

    new-Created :
        (sip_domain username password : Text) (client : SipClient)
        → new sockets local_addr sip_server sip_domain username password caller_id caller_name
          ≡ ok client
        → Created sip_domain username password client
    unfolding new
    new-Created sip_domain [] password client h = absurd (cc)
    new-Created sip_domain (u ∷ username) [] client h = absurd (cc)
    new-Created [] (u ∷ username) (p ∷ password) client h = absurd (cc)
    new-Created (d ∷ sip_domain) (u ∷ username) (p ∷ password) client h =
        let (binds, e1, k1) = >>=-ok (ensure (sockets.bind local_addr) bind_failed) _ h in
        let (addr, e2, k2) = >>=-ok (ok_or (sockets.bound_addr local_addr) no_bound_addr) _ k1 in
        let (ip, e3, k3) =
          >>=-ok (if is_unspecified addr.ip then probe_ip sockets sip_server else ok addr.ip) _
            k2 in
        record {
          has_username = λ e. cc;
          has_password = λ e. cc;
          has_domain = λ e. cc;
          is_bound = ensure-inv _ _ binds e1;
          bound_addr = addr;
          at = ok_or-inv _ _ addr e2;
          local_ip = ip;
          names = probed-LocalIp addr.ip ip e3;
          holds = sym (ok-inj _ _ k3);
        }

    Created-new :
        (sip_domain username password : Text) (client : SipClient)
        → Created sip_domain username password client
        → new sockets local_addr sip_server sip_domain username password caller_id caller_name
          ≡ ok client
    unfolding new
    Created-new sip_domain [] password client c = absurd (c.has_username refl)
    Created-new sip_domain (u ∷ username) [] client c = absurd (c.has_password refl)
    Created-new [] (u ∷ username) (p ∷ password) client c = absurd (c.has_domain refl)
    Created-new (d ∷ sip_domain) (u ∷ username) (p ∷ password) client c =
        let ip = LocalIp-ok c.bound_addr.ip c.local_ip c.names in
        simp (c.is_bound, c.at, ip, c.holds) refl

    -- `new` returns a client exactly if the domain and the credentials are not empty, the socket is
    -- bound, and its address, or the probe's if the bound one names no interface, is known. The
    -- client has these and the bound port.
    pub new_iff :
        (sip_domain username password : Text) (client : SipClient)
        → (new sockets local_addr sip_server sip_domain username password caller_id caller_name
            ≡ ok client)
          ↔ Created sip_domain username password client
    new_iff sip_domain username password client = (
      new-Created sip_domain username password client,
      Created-new sip_domain username password client,
    )
