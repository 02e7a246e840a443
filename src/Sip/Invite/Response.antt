-- ===== src/Sip/Invite/Response.antt =====
-- What a response to `invite` may be: of another transaction, unreadable, or one that counts.
use mathlib.Core.Path.{subst}
use slmodem_sip_bridge.Base.{
  ℕ, ◌≤◌, ◌<◌, false, Option, none, some, ◌≡◌, ◌≢◌, ◌⊎◌, inl, inr, refl, sym, ◌∙◌, Option-cases,
}
use slmodem_sip_bridge.Base.Outcome
use slmodem_sip_bridge.Base.Outcome.{Outcome, ok, bail, panic, >>=-ok, Fails}
use slmodem_sip_bridge.Sip.Digest.{DigestChallenge, parse_digest_challenge}
use slmodem_sip_bridge.Sip.Invite.{
  InviteState, Control, with_remote_tag, set_remote_tag, response_tag, sdp_endpoint,
}
use slmodem_sip_bridge.Sip.Message.{extract_header, parse_status_code, extract_cseq_num}
use slmodem_sip_bridge.Sip.{Call, SipError, missing_challenge}
use slmodem_sip_bridge.Text.{Text, codes}

-- A call that has no remote tag may get one; nothing else changes.
pub data Tagged : Call → Call → Type 0 where
  kept : {call : Call} → Tagged call call
  tagged :
      {call : Call} (tag : Text)
      → call.remote_tag ≡ none
      → Tagged call (record call { remote_tag = some tag })

set_remote_tag-Tagged :
    (call : Call) (tag : Option Text)
    → call.remote_tag ≡ none
    → Tagged call (set_remote_tag call tag)
unfolding set_remote_tag
set_remote_tag-Tagged call none e = kept
set_remote_tag-Tagged call (some tag) e = tagged tag e

with_remote_tag-none :
    (call : Call) (resp : Text)
    → call.remote_tag ≡ none
    → with_remote_tag call resp
      ≡ Outcome.◌>>=◌ (response_tag resp) (λ tag. ok (set_remote_tag call tag))
unfolding with_remote_tag
with_remote_tag-none call resp e = rw e refl

with_remote_tag-some :
    (call : Call) (resp tag : Text)
    → call.remote_tag ≡ some tag
    → with_remote_tag call resp ≡ ok call
unfolding with_remote_tag
with_remote_tag-some call resp tag e = rw e refl

pub with_remote_tag-Tagged :
    (call : Call) (resp : Text) (call' : Call)
    → with_remote_tag call resp ≡ ok call'
    → Tagged call call'
with_remote_tag-Tagged call resp call' h = elim (Option-cases call.remote_tag) [
  | inl untagged ↦
      let (tag, _, e) =
        >>=-ok (response_tag resp) (λ tag. ok (set_remote_tag call tag))
          (sym (with_remote_tag-none call resp untagged) ∙ h) in
      let same : set_remote_tag call tag ≡ call' = cc in
      subst (Tagged call) same (set_remote_tag-Tagged call tag untagged)
  | inr (tag, already) ↦
      let same : call ≡ call' = cc (with_remote_tag-some call resp tag already) in
      subst (Tagged call) same kept
]

-- A response with this status to the INVITE as it stands, or without a CSeq that can be read; and
-- the call, with the tag of the response if it had none.
pub record IsCurrent (st : InviteState) (received : Option Text) (resp : Text) (status : ℕ)
    (call : Call) : Type 0 where
  pub got : received ≡ some resp
  pub status_is : parse_status_code resp ≡ some status
  pub cseq : Option ℕ
  pub cseq_is : extract_cseq_num {E = SipError} resp ≡ ok cseq
  pub current : (cseq ≡ none) ⊎ (cseq ≡ some st.call.cseq)
  pub call_is : with_remote_tag st.call resp ≡ ok call

pub IsCurrent-Tagged :
    {st : InviteState} {received : Option Text} {resp : Text} {status : ℕ} {call : Call}
    → IsCurrent st received resp status call
    → Tagged st.call call
IsCurrent-Tagged {st = st} {resp = resp} {call = call} c =
    with_remote_tag-Tagged st.call resp call c.call_is

-- What does not count: nothing, no response, a response to another request, or a status that the
-- client has no rule for.
pub data Ignores (st : InviteState) (received : Option Text) : Call → Type 0 where
  nothing : received ≡ none → Ignores st received st.call
  no_status :
      (resp : Text)
      → received ≡ some resp
      → parse_status_code resp ≡ none
      → Ignores st received st.call
  stale :
      (resp : Text) (status cseq : ℕ)
      → received ≡ some resp
      → parse_status_code resp ≡ some status
      → extract_cseq_num {E = SipError} resp ≡ ok (some cseq)
      → cseq ≢ st.call.cseq
      → Ignores st received st.call
  unhandled :
      {resp : Text} {status : ℕ} {call : Call}
      → IsCurrent st received resp status call
      → (status ≢ 100) × (status ≢ 180) × (status ≢ 183) × (status ≢ 200)
      → (status < 400) ⊎ (700 ≤ status)
      → Ignores st received call

pub Ignores-Tagged :
    {st : InviteState} {received : Option Text} {call : Call}
    → Ignores st received call
    → Tagged st.call call
Ignores-Tagged (nothing e) = kept
Ignores-Tagged (no_status resp e f) = kept
Ignores-Tagged (stale resp status cseq e f g h) = kept
Ignores-Tagged (unhandled c different outside) = IsCurrent-Tagged c

-- The statuses of a challenge, with the headers of the challenge and of its answer.
pub data Challenge : ℕ → Text → Text → Type 0 where
  www : Challenge 401 (codes "WWW-Authenticate") (codes "Authorization")
  proxy : Challenge 407 (codes "Proxy-Authenticate") (codes "Proxy-Authorization")

-- A challenge that can be read in this header.
pub record Asks (resp name : Text) (digest : DigestChallenge) : Type 0 where
  pub header : Text
  pub header_is : extract_header {E = SipError} resp name ≡ ok (some header)
  pub digest_is : parse_digest_challenge header ≡ ok digest

-- Why none can be read.
pub data Unasked (resp name : Text) : Outcome SipError Control → Type 0 where
  header :
      {o : Outcome SipError Control}
      → Fails (extract_header {E = SipError} resp name) o
      → Unasked resp name o
  missing :
      extract_header {E = SipError} resp name ≡ ok none → Unasked resp name (bail missing_challenge)
  digest :
      {o : Outcome SipError Control} (header : Text)
      → extract_header {E = SipError} resp name ≡ ok (some header)
      → Fails (parse_digest_challenge header) o
      → Unasked resp name o

-- The statuses whose body is read.
pub data HasBody : ℕ → Type 0 where
  ringing : HasBody 180
  progress : HasBody 183
  success : HasBody 200

-- A response that cannot be read, where it is read.
pub data Breaks (st : InviteState) (received : Option Text) (o : Outcome SipError Control)
    : Type 0 where
  at_cseq :
      (resp : Text) (status : ℕ)
      → received ≡ some resp
      → parse_status_code resp ≡ some status
      → Fails (extract_cseq_num {E = SipError} resp) o
      → Breaks st received o
  at_tag :
      (resp : Text) (status : ℕ) (cseq : Option ℕ)
      → received ≡ some resp
      → parse_status_code resp ≡ some status
      → extract_cseq_num {E = SipError} resp ≡ ok cseq
      → (cseq ≡ none) ⊎ (cseq ≡ some st.call.cseq)
      → Fails (with_remote_tag st.call resp) o
      → Breaks st received o
  at_body :
      {resp : Text} {status : ℕ} {call : Call}
      → IsCurrent st received resp status call
      → HasBody status
      → Fails (sdp_endpoint resp) o
      → Breaks st received o
  at_challenge :
      {resp name answer : Text} {status : ℕ} {call : Call}
      → IsCurrent st received resp status call
      → Challenge status name answer
      → st.auth_retry_done ≡ false
      → Unasked resp name o
      → Breaks st received o
