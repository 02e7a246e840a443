-- ===== src/Sip/Invite/Invited.antt =====
-- The INVITE of the call that is returned was sent.
use slmodem_sip_bridge.Base.{
  ℕ, List, [], ◌∷◌, ◌++◌, Bool, true, false, Option, none, some, ◌≡◌, refl, sym, ap, ◌∙◌, arith,
  append_assoc,
}
use mathlib.Core.Path.{subst}
use slmodem_sip_bridge.Base.Outcome.{Outcome, ok}
use slmodem_sip_bridge.Net.{SocketAddr}
use slmodem_sip_bridge.Sip.Build.{build_ack, build_invite}
use slmodem_sip_bridge.Sip.Invite.Conversation.{Exchange, goes_on, connects}
use slmodem_sip_bridge.Sip.Invite.Reply.{
  credentials, Reply, ignored, provisional, early, picked_up, newest, challenged, rejected, unsent,
  failed, panicked,
}
use slmodem_sip_bridge.Sip.Invite.Response.{Tagged, kept, tagged, IsCurrent-Tagged, Ignores-Tagged}
use slmodem_sip_bridge.Sip.Invite.Round.{counted, Round, overrun, timed_out, unsent, heard, resent}
use slmodem_sip_bridge.Sip.Invite.{
  Setup, InviteState, Tick, Control, again, finished, retransmitted, setup_of, start,
}
use slmodem_sip_bridge.Sip.{Call, CallState, early_media, answered, SipClient, SipError}
use slmodem_sip_bridge.Text.{Text}

-- A message of the log.
abbrev pub InLog : Text → List Text → Type 0
InLog message log = (front : List Text) × (back : List Text) × (log ≡ front ++ message ∷ back)

InLog-append :
    {message : Text} {log : List Text} (ms : List Text)
    → InLog message log
    → InLog message (log ++ ms)
InLog-append {message} ms (front, back, e) =
    (front, back ++ ms, ap (λ l. l ++ ms) e ∙ append_assoc front (message ∷ back) ms)

-- The INVITE of the call.
abbrev pub invite_of : Setup → Call → Option (Text × Text) → Text
invite_of setup call auth =
    build_invite setup.client setup.invite_uri setup.call_id call.local_tag call.via_branch
      call.cseq setup.sdp_offer auth

-- The INVITE with the call's tag, branch and CSeq is in the log: the first one, or one with
-- credentials and CSeq 2.
pub data Invited (setup : Setup) (log : List Text) (call : Call) : Bool → Type 0 where
  plain : call.cseq ≡ 1 → InLog (invite_of setup call none) log → Invited setup log call false
  authenticated :
      (name value : Text)
      → call.cseq ≡ 2
      → InLog (invite_of setup call (some (name, value))) log
      → Invited setup log call true

module _ (setup : Setup) where
  Invited-append :
      {log : List Text} {call : Call} {auth : Bool} (ms : List Text)
      → Invited setup log call auth
      → Invited setup (log ++ ms) call auth
  Invited-append ms (plain e i) = plain e (InLog-append ms i)
  Invited-append ms (authenticated name value e i) = authenticated name value e (InLog-append ms i)

  Tagged-Invited :
      {log : List Text} {call call' : Call} {auth : Bool}
      → Tagged call call'
      → Invited setup log call auth
      → Invited setup log call' auth
  Tagged-Invited kept i = i
  Tagged-Invited (tagged tag e) (plain f i) = plain f i
  Tagged-Invited (tagged tag e) (authenticated name value f i) = authenticated name value f i

  Invited-media :
      {log : List Text} {call : Call} {auth : Bool} (endpoint : Option SocketAddr)
      (state : CallState)
      → Invited setup log call auth
      → Invited setup log (record call { remote_rtp = endpoint; state = state }) auth
  Invited-media endpoint state (plain f i) = plain f i
  Invited-media endpoint state (authenticated name value f i) = authenticated name value f i

  Invited-cseq : {log : List Text} {call : Call} → Invited setup log call false → call.cseq ≡ 1
  Invited-cseq (plain e i) = e

  -- The end of a round, with the log up to there.
  Kept : List Text → Outcome SipError Control → Type 0
  Kept log (ok (again st)) = Invited setup log st.call st.auth_retry_done
  Kept log (ok (finished call)) = (auth : Bool) × Invited setup log call auth
  Kept log _ = Unit

  Reply-Kept :
      {md5_hex : Text → Text} (st : InviteState) {t : Tick} {received : Option Text}
      {o : Outcome SipError Control} {ms : List Text} (log : List Text)
      → Reply md5_hex setup st t received o ms
      → Invited setup log st.call st.auth_retry_done
      → Kept (log ++ ms) o
  unfolding Kept
  Reply-Kept st log (ignored i) v = Invited-append [] (Tagged-Invited (Ignores-Tagged i) v)
  Reply-Kept st log (provisional c what) v =
      Invited-append [] (Tagged-Invited (IsCurrent-Tagged c) v)
  Reply-Kept st log (early addr c rings e) v = (
    st.auth_retry_done,
    Invited-media (some addr) early_media
        (Invited-append [] (Tagged-Invited (IsCurrent-Tagged c) v)),
  )
  Reply-Kept st log (picked_up {call = call} endpoint c e) v = (
    st.auth_retry_done,
    Invited-media (newest endpoint call.remote_rtp) answered
        (Invited-append [] (Tagged-Invited (IsCurrent-Tagged c) v)),
  )
  Reply-Kept {md5_hex} st {t} log (challenged {call = call} {answer = answer} d a acked asked) v =
      let first : Invited setup log st.call false = subst (Invited setup log st.call) a.fresh v in
      let once : call.cseq ≡ 1 = Invited-cseq (Tagged-Invited (IsCurrent-Tagged a.current) first) in
      authenticated answer (credentials md5_hex setup t d) (omega (arith, once)) (
        log ++ build_ack setup.client call ∷ [],
        [],
        sym (append_assoc log (build_ack setup.client call ∷ []) _),
      )
  Reply-Kept st log (rejected c refuses acked) v = tt
  Reply-Kept st log (unsent a acked refused) v = tt
  Reply-Kept st log (failed fault) v = tt
  Reply-Kept st log (panicked broken) v = tt

  Round-Kept :
      {md5_hex : Text → Text} (st : InviteState) {t : Tick} {o : Outcome SipError Control}
      {ms : List Text} (log : List Text)
      → Round md5_hex setup st t o ms
      → Invited setup log st.call st.auth_retry_done
      → Kept (log ++ ms) o
  unfolding Kept retransmitted
  Round-Kept st log (overrun h) v = tt
  Round-Kept st log (timed_out few h) v = tt
  Round-Kept st log (unsent runs due e) v = tt
  Round-Kept st log (heard runs quiet r) v = Reply-Kept (counted st) log r v
  Round-Kept st {t} {o} log (resent {ms = ms} runs due e r) v =
      subst (λ l. Kept l o) (append_assoc log (setup.invite ∷ []) ms)
        (Reply-Kept (retransmitted (counted st) t) (log ++ setup.invite ∷ []) r
          (Invited-append (setup.invite ∷ []) v))

  -- A call that an exchange returns is the one of an INVITE in the log.
  pub Exchange-Invited :
      {md5_hex : Text → Text} {st : InviteState} {ts : List Tick} {call : Call} {ms : List Text}
      (log : List Text)
      → Exchange md5_hex setup st ts (ok (some call)) ms
      → Invited setup log st.call st.auth_retry_done
      → (auth : Bool) × Invited setup (log ++ ms) call auth
  unfolding Kept
  Exchange-Invited {st = st} {call = call} log (goes_on {ms = ms} {rest = rest} r later) v =
      subst (λ l. (auth : Bool) × Invited setup l call auth) (append_assoc log ms rest)
        (Exchange-Invited (log ++ ms) later (Round-Kept st log r v))
  Exchange-Invited {st = st} log (connects r) v = Round-Kept st log r v

-- The first INVITE is that of the call as it starts.
pub start-Invited :
    (client : SipClient) (dial sdp_offer : Text) (deadline : ℕ) (call_id local_tag branch : Text)
    (now : ℕ)
    → let setup = setup_of client dial sdp_offer deadline call_id local_tag branch in
      Invited setup (setup.invite ∷ []) (start setup local_tag branch now).call false
unfolding start setup_of
start-Invited client dial sdp_offer deadline call_id local_tag branch now =
    plain refl ([], [], refl)
