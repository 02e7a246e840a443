-- ===== src/Sip/Invite/Conversation.antt =====
-- The messages of a whole exchange, in order, whatever the server and the clock do.
use slmodem_sip_bridge.Base.{
  ℕ, suc, ◌+◌, ◌-◌, List, [], ◌∷◌, ◌++◌, Bool, true, false, Option, none, some, ◌≡◌, ◌⊎◌, inl, inr,
  refl, sym, ap, ◌∙◌, arith, append-nil, append_assoc,
}
use mathlib.Core.Path.{subst}
use slmodem_sip_bridge.Base.Outcome.{Outcome, ok, bail, panic}
use slmodem_sip_bridge.Sip.Build.{build_ack}
use slmodem_sip_bridge.Sip.Invite.Reply.{
  credentials, with_credentials, Reply, ignored, provisional, early, picked_up, challenged,
  rejected, unsent, failed, panicked,
}
use slmodem_sip_bridge.Sip.Invite.Response.{Tagged, IsCurrent-Tagged, Ignores-Tagged}
use slmodem_sip_bridge.Sip.Invite.Round.{
  counted, Round, overrun, timed_out, unsent, heard, resent, round-Rounds,
}
use slmodem_sip_bridge.Sip.Invite.{
  Setup, InviteState, Tick, Control, again, finished, retransmitted, round, loop_control,
  invite_loop, setup_of, start, invite,
}
use slmodem_sip_bridge.Sip.{Call, SipClient, SipError, Sip, go_on, send_msg}
use slmodem_sip_bridge.Text.{Text}

-- The shape of what the client sends behind its INVITE: whether the challenge has been answered, how
-- often the INVITE may be sent again, and the call as it stands.
pub data Conversation (setup : Setup) : Bool → ℕ → Call → List Text → Type 0 where
  over : {answered : Bool} {left : ℕ} {call : Call} → Conversation setup answered left call []
  again_sent :
      {answered : Bool} {left : ℕ} {call : Call} {ms : List Text}
      → Conversation setup answered left call ms
      → Conversation setup answered (suc left) call (setup.invite ∷ ms)
  learned :
      {answered : Bool} {left : ℕ} {call call' : Call} {ms : List Text}
      → Tagged call call'
      → Conversation setup answered left call' ms
      → Conversation setup answered left call ms
  challenge :
      {left : ℕ} {call : Call} {ms : List Text} (name value branch : Text)
      → Conversation setup true 7 (record call { cseq = call.cseq + 1; via_branch = branch }) ms
      → Conversation setup false left call
          (build_ack setup.client call ∷ with_credentials setup call branch name value ∷ ms)
  last_ack :
      {answered : Bool} {left : ℕ} {call : Call}
      → Conversation setup answered left call (build_ack setup.client call ∷ [])

-- The rounds of an exchange, one for each tick, with the messages of each: from a state of the
-- loop's variables to the outcome, `none` if the exchange still waits behind the last tick.
pub data Exchange (md5_hex : Text → Text) (setup : Setup)
    : InviteState → List Tick → Outcome SipError (Option Call) → List Text → Type 0 where
  waits : {st : InviteState} → Exchange md5_hex setup st [] (ok none) []
  goes_on :
      {st st' : InviteState} {t : Tick} {ts : List Tick} {o : Outcome SipError (Option Call)}
      {ms rest : List Text}
      → Round md5_hex setup st t (ok (again st')) ms
      → Exchange md5_hex setup st' ts o rest
      → Exchange md5_hex setup st (t ∷ ts) o (ms ++ rest)
  connects :
      {st : InviteState} {t : Tick} {ts : List Tick} {call : Call} {ms : List Text}
      → Round md5_hex setup st t (ok (finished call)) ms
      → Exchange md5_hex setup st (t ∷ ts) (ok (some call)) ms
  fails :
      {st : InviteState} {t : Tick} {ts : List Tick} {e : SipError} {ms : List Text}
      → Round md5_hex setup st t (bail e) ms
      → Exchange md5_hex setup st (t ∷ ts) (bail e) ms
  panics :
      {st : InviteState} {t : Tick} {ts : List Tick} {ms : List Text}
      → Round md5_hex setup st t panic ms
      → Exchange md5_hex setup st (t ∷ ts) panic ms

-- The rest of the conversation, given how a round ended.
abbrev Continues : Setup → Outcome SipError Control → List Text → Type 0
Continues setup (ok (again st)) ms =
    Conversation setup st.auth_retry_done (7 - st.retransmit_count) st.call ms
Continues setup _ ms = ms ≡ []

ended :
    {setup : Setup} {answered : Bool} {left : ℕ} {call : Call} (front rest : List Text)
    → Conversation setup answered left call front
    → rest ≡ []
    → Conversation setup answered left call (front ++ rest)
ended front rest c e = rw (e, append-nil front) c

Reply-Conversation :
    {md5_hex : Text → Text} (setup : Setup) (st : InviteState) {t : Tick} {received : Option Text}
    {o : Outcome SipError Control} {ms : List Text} (rest : List Text)
    → Reply md5_hex setup st t received o ms
    → Continues setup o rest
    → Conversation setup st.auth_retry_done (7 - st.retransmit_count) st.call (ms ++ rest)
Reply-Conversation setup st rest (ignored i) c = learned (Ignores-Tagged i) c
Reply-Conversation setup st rest (provisional r what) c = learned (IsCurrent-Tagged r) c
Reply-Conversation setup st rest (early addr r rings e) c = ended [] rest over c
Reply-Conversation setup st rest (picked_up endpoint r e) c = ended [] rest over c
Reply-Conversation {md5_hex} setup st {t} rest (challenged {answer = answer} d a acked asked) c =
    rw a.fresh (
      learned (IsCurrent-Tagged a.current)
        (challenge answer (credentials md5_hex setup t d) t.branch c))
Reply-Conversation setup st rest (rejected {call = call} r refuses acked) c =
    learned (IsCurrent-Tagged r) (ended (build_ack setup.client call ∷ []) rest last_ack c)
Reply-Conversation setup st rest (unsent {call = call} a acked refused) c =
    learned (IsCurrent-Tagged a.current) (ended (build_ack setup.client call ∷ []) rest last_ack c)
Reply-Conversation setup st rest (failed fault) c = ended [] rest over c
Reply-Conversation setup st rest (panicked broken) c = ended [] rest over c

Round-Conversation :
    {md5_hex : Text → Text} (setup : Setup) (st : InviteState) (t : Tick)
    {o : Outcome SipError Control} {ms : List Text} (rest : List Text)
    → Round md5_hex setup st t o ms
    → Continues setup o rest
    → Conversation setup st.auth_retry_done (7 - st.retransmit_count) st.call (ms ++ rest)
unfolding retransmitted
Round-Conversation setup st t rest (overrun h) c = ended [] rest over c
Round-Conversation setup st t rest (timed_out few h) c = ended [] rest over c
Round-Conversation setup st t rest (unsent runs due e) c = ended [] rest over c
Round-Conversation setup st t rest (heard runs quiet r) c =
    Reply-Conversation setup (counted st) rest r c
Round-Conversation setup st t rest (resent {ms = ms} runs due e r) c =
    let left : 7 - st.retransmit_count ≡ suc (7 - (st.retransmit_count + 1)) =
      omega (arith, due.few_copies) in
    subst (λ n. Conversation setup st.auth_retry_done n st.call (setup.invite ∷ (ms ++ rest)))
      (sym left) (again_sent (Reply-Conversation setup (retransmitted (counted st) t) rest r c))

-- The shape follows from the rounds.
Exchange-Conversation :
    {md5_hex : Text → Text} (setup : Setup) {st : InviteState} {ts : List Tick}
    {o : Outcome SipError (Option Call)} {ms : List Text}
    → Exchange md5_hex setup st ts o ms
    → Conversation setup st.auth_retry_done (7 - st.retransmit_count) st.call ms
Exchange-Conversation setup waits = over
Exchange-Conversation setup {st} (goes_on {t = t} {rest = rest} r later) =
    Round-Conversation setup st t rest r (Exchange-Conversation setup later)
Exchange-Conversation setup {st} (connects {t = t} {ms = ms} r) =
    subst (Conversation setup _ _ _) (append-nil ms) (Round-Conversation setup st t [] r refl)
Exchange-Conversation setup {st} (fails {t = t} {ms = ms} r) =
    subst (Conversation setup _ _ _) (append-nil ms) (Round-Conversation setup st t [] r refl)
Exchange-Conversation setup {st} (panics {t = t} {ms = ms} r) =
    subst (Conversation setup _ _ _) (append-nil ms) (Round-Conversation setup st t [] r refl)

module _ (md5_hex : Text → Text) (setup : Setup) where
  pub invite_loop-round :
      (st : InviteState) (t : Tick) (ts : List Tick) (sent : List Text)
      {r : Outcome SipError Control × List Text}
      → round md5_hex setup st t sent ≡ r
      → invite_loop md5_hex setup st (t ∷ ts) sent
        ≡ go_on r (loop_control (λ st'. invite_loop md5_hex setup st' ts))
  unfolding invite_loop
  invite_loop-round st t ts sent e =
      ap (λ r. go_on r (loop_control (λ st'. invite_loop md5_hex setup st' ts))) e

  -- What the loop does from a state on.
  pub record Runs (st : InviteState) (ts : List Tick) (m : Sip (Option Call)) (sent : List Text)
      : Type 0 where
    pub outcome : Outcome SipError (Option Call)
    pub messages : List Text
    pub logged : m sent ≡ (outcome, sent ++ messages)
    pub rounds : Exchange md5_hex setup st ts outcome messages

  pub invite_loop-Runs :
      (st : InviteState) (ts : List Tick) (sent : List Text)
      → Runs st ts (invite_loop md5_hex setup st ts) sent
  unfolding invite_loop
  invite_loop-Runs st [] sent = record {
    outcome = ok none;
    messages = [];
    logged = rw (append-nil sent) refl;
    rounds = waits;
  }
  invite_loop-Runs st (t ∷ ts) sent =
      let r = round-Rounds md5_hex setup st t sent in
      go r.outcome r.messages r.logged r.result (λ st' sent'. invite_loop-Runs st' ts sent')
    where
      go :
          (o : Outcome SipError Control) (ms : List Text)
          → ◌≡◌ {A = Outcome SipError Control × List Text}
              (round md5_hex setup st t sent)
              (o, sent ++ ms)
          → Round md5_hex setup st t o ms
          → ((st' : InviteState) (sent' : List Text)
              → Runs st' ts (invite_loop md5_hex setup st' ts) sent')
          → Runs st (t ∷ ts) (invite_loop md5_hex setup st (t ∷ ts)) sent
      go (ok (again st')) ms e r later =
          let rest = later st' (sent ++ ms) in
          record {
            outcome = rest.outcome;
            messages = ms ++ rest.messages;
            logged =
                invite_loop-round st t ts sent e
                ∙ rest.logged
                ∙ ap (λ l. (rest.outcome, l)) (append_assoc sent ms rest.messages);
            rounds = goes_on r rest.rounds;
          }
      go (ok (finished call)) ms e r later = record {
        outcome = ok (some call);
        messages = ms;
        logged = invite_loop-round st t ts sent e;
        rounds = connects r;
      }
      go (bail x) ms e r later = record {
        outcome = bail x;
        messages = ms;
        logged = invite_loop-round st t ts sent e;
        rounds = fails r;
      }
      go panic ms e r later = record {
        outcome = panic;
        messages = ms;
        logged = invite_loop-round st t ts sent e;
        rounds = panics r;
      }

-- Whatever the server sends and whenever, either nothing is sent at all, because the dial string is
-- empty or the socket refuses the INVITE; or the INVITE comes first, and the outcome and the
-- messages behind it are those of the rounds, one for each tick until the exchange ends: a copy of
-- the INVITE only if the timer has run out without a provisional response, and what the response
-- of that round calls for. In all, behind the INVITE come at most seven copies of it, one ACK and
-- one INVITE with credentials and the next CSeq for a challenge, at most seven more copies of the
-- first INVITE, and one ACK at the end.
pub invite-Conversation :
    (md5_hex : Text → Text) (client : SipClient) (dial sdp_offer : Text) (timeout : ℕ)
    (call_id local_tag branch : Text) (now : ℕ) (first_ok : Bool) (ticks : List Tick)
    → let setup = setup_of client dial sdp_offer (now + timeout) call_id local_tag branch in
      let st = start setup local_tag branch now in
      let (result, log) =
        invite md5_hex client dial sdp_offer timeout call_id local_tag branch now first_ok ticks
          [] in
      (((dial ≡ []) ⊎ (first_ok ≡ false)) × (log ≡ []))
      ⊎ ((ms : List Text) × (log ≡ setup.invite ∷ ms)
          × Exchange md5_hex setup st ticks result ms
          × Conversation setup false 7 st.call ms)
unfolding invite send_msg start
invite-Conversation md5_hex client [] sdp_offer timeout call_id local_tag branch now first_ok
      ticks =
    inl (inl refl, refl)
invite-Conversation md5_hex client (c ∷ dial) sdp_offer timeout call_id local_tag branch now false
      ticks =
    inl (inr refl, refl)
invite-Conversation md5_hex client (c ∷ dial) sdp_offer timeout call_id local_tag branch now true
      ticks =
    let setup = setup_of client (c ∷ dial) sdp_offer (now + timeout) call_id local_tag branch in
    let st = start setup local_tag branch now in
    let r = invite_loop-Runs md5_hex setup st ticks (setup.invite ∷ []) in
    let same : r.outcome ≡ (invite_loop md5_hex setup st ticks (setup.invite ∷ [])).0 =
      sym (ap (λ p. p.0) r.logged) in
    inr (
      r.messages,
      ap (λ p. p.1) r.logged,
      subst (λ o. Exchange md5_hex setup st ticks o r.messages) same r.rounds,
      Exchange-Conversation setup r.rounds,
    )
