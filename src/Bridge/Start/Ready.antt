-- ===== src/Bridge/Start/Ready.antt =====
-- When slmodemd gets the byte that unblocks it, and what `run` makes of that.
use mathlib.Core.Path.{subst}
use slmodem_sip_bridge.Base.{
  ◌+◌, List, [], ◌∷◌, Bool, true, false, some, ◌≡◌, ◌≢◌, ◌↔◌, refl, sym, ◌∙◌, ap, Bytes,
}
use slmodem_sip_bridge.Base.Outcome.{Outcome, ok, bail, panic, to_option}
use slmodem_sip_bridge.Bridge.Start.{
  Startup, StartError, prepare, register_client, Started, send_ready, on_registered, start,
}
use slmodem_sip_bridge.Bridge.Start.Prepared.{Prepared, prepare_iff}
use slmodem_sip_bridge.Config.{Config}
use slmodem_sip_bridge.Sip.Client.{recv_response_timeout}
use slmodem_sip_bridge.Sip.Ids.{generate_call_id, generate_tag, generate_branch, generate_cnonce}
use slmodem_sip_bridge.Sip.Register.Confirmed.{Registered, register-Registered}
use slmodem_sip_bridge.Sip.{SipClient, SipError, register_timeout}
use slmodem_sip_bridge.Text.{Text}

module _ (md5_hex : Text → Text) (md5_bytes : Bytes → Text) (cfg : Config) (out : Startup) where
  -- A client that the server has registered, and a socket that took the byte.
  pub record Readied (client : SipClient) (sent : List Text) : Type 0 where
    pub prepared : Prepared cfg out client
    pub registered : register_client md5_hex md5_bytes client out.registration [] ≡ (ok true, sent)
    pub ready : out.ready_ok ≡ true

  abbrev pub unblocked : SipClient → List Text → Started
  unblocked client sent = record { result = ok (some client); sent = sent; written = b'R' ∷ [] }

  send_ready-written :
      (client : SipClient) (sent : List Text) (ready_ok : Bool)
      → (send_ready client sent ready_ok).written ≢ []
      → ready_ok ≡ true
  unfolding send_ready
  send_ready-written client sent true h = refl
  send_ready-written client sent false h = absurd (h refl)

  on_registered-written :
      (client : SipClient) (ready_ok : Bool) (r : Outcome SipError Bool × List Text)
      → (on_registered client ready_ok r).written ≢ []
      → (r ≡ (ok true, r.1)) × (ready_ok ≡ true)
  unfolding on_registered
  on_registered-written client ready_ok (ok true, sent) h =
      (refl, send_ready-written client sent ready_ok h)
  on_registered-written client ready_ok (ok false, sent) h = absurd (h refl)
  on_registered-written client ready_ok (bail e, sent) h = absurd (h refl)
  on_registered-written client ready_ok (panic, sent) h = absurd (h refl)

  start-Readied :
      (start md5_hex md5_bytes cfg out).written ≢ []
      → (client : SipClient) × (sent : List Text) × Readied client sent
  unfolding start
  start-Readied h = go (prepare cfg out) refl h
    where
      go :
          (o : Outcome StartError SipClient)
          → prepare cfg out ≡ o
          → (elim o as (λ _. Started) [
            | ok client ↦
                on_registered client out.ready_ok
                  (register_client md5_hex md5_bytes client out.registration [])
            | bail e ↦ record { result = bail e; sent = []; written = [] }
            | panic ↦ record { result = panic; sent = []; written = [] }
          ]).written
            ≢ []
          → (client : SipClient) × (sent : List Text) × Readied client sent
      go (ok client) e k =
          let (registered, ready) = on_registered-written client out.ready_ok _ k in
          (
            client,
            (register_client md5_hex md5_bytes client out.registration []).1,
            record {
              prepared = (prepare_iff cfg out client).0 e;
              registered = registered;
              ready = ready;
            },
          )
      go (bail x) e k = absurd (k refl)
      go panic e k = absurd (k refl)

  Readied-start :
      (client : SipClient) (sent : List Text)
      → Readied client sent
      → start md5_hex md5_bytes cfg out ≡ unblocked client sent
  unfolding start on_registered send_ready
  Readied-start client sent r =
      rw ((prepare_iff cfg out client).1 r.prepared, start)
        (ap (on_registered client out.ready_ok) r.registered ∙ ap (send_ready client sent) r.ready)

  Readied-written :
      (client : SipClient) (sent : List Text)
      → Readied client sent
      → (start md5_hex md5_bytes cfg out).written ≢ []
  Readied-written client sent r = λ nothing.
      let e : ◌≡◌ {A = Bytes} (b'R' ∷ []) [] =
        sym (ap (λ s. s.written) (Readied-start client sent r)) ∙ nothing in
      cc

  -- slmodemd is unblocked exactly if there is a client, the server has registered it and the socket
  -- takes the byte; then `R` alone is written, and the loop starts with that client.
  pub start_iff :
      (((start md5_hex md5_bytes cfg out).written ≢ [])
        ↔ ((client : SipClient) × (sent : List Text) × Readied client sent))
      × ((client : SipClient) (sent : List Text)
          → Readied client sent
          → start md5_hex md5_bytes cfg out ≡ unblocked client sent)
  start_iff = ((start-Readied, (λ (client, sent, r). Readied-written client sent r)), Readied-start)

  -- slmodemd is unblocked only behind the server's confirmation: the messages sent up to then are
  -- one REGISTER, answered by a 200, or a challenged one and its repetition with credentials, which
  -- a 200 in time confirms.
  pub start-Registered :
      (start md5_hex md5_bytes cfg out).written ≢ []
      → (client : SipClient) × (resp : Text) × Prepared cfg out client
        × (to_option (recv_response_timeout out.registration.response) ≡ some resp)
        × Registered md5_hex client
            (generate_call_id out.registration.now out.registration.pid)
            (generate_tag out.registration.tag_hash)
            (generate_branch out.registration.branch_hash)
            resp
            (out.registration.loop_at + register_timeout)
            (generate_cnonce md5_bytes out.registration.cnonce_time)
            (generate_branch out.registration.branch2_hash)
            out.registration.ticks
            (start md5_hex md5_bytes cfg out).sent
  unfolding register_client
  start-Registered h =
      let (client, sent, r) = start-Readied h in
      let (resp, got, registered) =
        register-Registered md5_hex client _ _ _ _ _ _ _ _ _ _ sent r.registered in
      (
        client,
        resp,
        r.prepared,
        got,
        subst (Registered md5_hex client _ _ _ resp _ _ _ _)
            (sym (ap (λ s. s.sent) (Readied-start client sent r))) registered,
      )
