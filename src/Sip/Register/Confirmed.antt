-- ===== src/Sip/Register/Confirmed.antt =====
-- What `register` returns and sends.
use mathlib.Core.Path.{subst}
use slmodem_sip_bridge.Base.{
  ℕ, ◌<◌, List, [], ◌∷◌, ◌++◌, Bool, true, false, not, Option, none, some, leb, if◌then◌else◌, ◌≡◌,
  ◌⊎◌, inl, inr, refl, ap, arith, Any,
}
use slmodem_sip_bridge.Base.Outcome
use slmodem_sip_bridge.Base.Outcome.{Outcome, ok, bail, panic, >>=-ok}
use slmodem_sip_bridge.Sip.Build.{build_register}
use slmodem_sip_bridge.Sip.Message.{parse_status_code, extract_cseq_num, is_current}
use slmodem_sip_bridge.Sip.Register.{
  RegisterTick, is_status, register_reply, register_loop, register_auth, on_register_response,
  register,
}
use slmodem_sip_bridge.Sip.{
  SipClient, SipError, register_timed_out, Sip, ◌>>=◌, ◌>>◌, lift, send_msg,
}
use slmodem_sip_bridge.Text.{Text, codes}

-- The response of a round is the server's 200 to the second REGISTER, or to one that it does not
-- name, and came before the deadline.
pub record Confirms (deadline : ℕ) (t : RegisterTick) : Type 0 where
  pub response : Text
  pub resp_cseq : Option ℕ
  pub in_time : t.now < deadline
  pub received : t.resp ≡ some response
  pub cseq_is : extract_cseq_num {E = SipError} response ≡ ok resp_cseq
  pub current : is_current 2 resp_cseq ≡ true
  pub status : parse_status_code response ≡ some 200

is_status_lem : (n : ℕ) (status : Option ℕ) → is_status n status ≡ true → status ≡ some n
is_status_lem n none h = cc
is_status_lem n (some s) h = ground arith

-- Of the three outcomes the second.
second_of :
    (e : SipError) (first second : Bool)
    → ◌≡◌ {A = Outcome SipError Bool}
        (if not first then ok false else if second then ok true else bail e)
        (ok true)
    → (first ≡ true) × (second ≡ true)
second_of e true true h = (refl, refl)
second_of e true false h = absurd (cc)
second_of e false _ h = absurd (cc)

register_reply_lem :
    (resp2 : Text)
    → register_reply resp2 ≡ ok true
    → (c : Option ℕ) × (extract_cseq_num {E = SipError} resp2 ≡ ok c)
      × (is_current 2 c ≡ true)
      × (parse_status_code resp2 ≡ some 200)
unfolding register_reply
register_reply_lem resp2 h =
    let (c, found, rest) = >>=-ok (extract_cseq_num resp2) _ h in
    let (current, success) =
      second_of _ (is_current 2 c) (is_status 200 (parse_status_code resp2)) rest in
    (c, found, current, is_status_lem 200 (parse_status_code resp2) success)

-- A round of the loop whose outcome is success.
register_round :
    (late : Bool) (resp : Option Text) (rest : Outcome SipError Bool)
    → ◌≡◌ {A = Outcome SipError Bool}
        (if late then bail register_timed_out else elim resp [
          | none ↦ rest
          | some resp2 ↦
              Outcome.◌>>=◌
                (register_reply resp2)
                (λ registered. if registered then ok true else rest)
        ])
        (ok true)
    → (late ≡ false)
      × (((r : Text) × (resp ≡ some r) × (register_reply r ≡ ok true)) ⊎ (rest ≡ ok true))
register_round true resp rest h = absurd (cc)
register_round false none rest h = (refl, inr h)
register_round false (some r) rest h =
    let (registered, e, out) =
      >>=-ok (register_reply r) (λ registered. if registered then ok true else rest) h in
    (refl, which registered e out)
  where
    which :
        (registered : Bool)
        → register_reply r ≡ ok registered
        → ◌≡◌ {A = Outcome SipError Bool} (if registered then ok true else rest) (ok true)
        → ((r' : Text) × (◌≡◌ {A = Option Text} (some r) (some r')) × (register_reply r' ≡ ok true))
          ⊎ (rest ≡ ok true)
    which true e out = inl (r, refl, e)
    which false e out = inr out

register_loop-Confirms :
    (deadline : ℕ) (ts : List RegisterTick)
    → register_loop deadline ts ≡ ok true
    → Any (Confirms deadline) ts
unfolding register_loop
register_loop-Confirms deadline [] h = absurd (cc)
register_loop-Confirms deadline (t ∷ ts) h =
    let (soon, what) = register_round (leb deadline t.now) t.resp (register_loop deadline ts) h in
    elim what [
      | inl (r, received, reply) ↦
          let (c, cseq_is, current, status) = register_reply_lem r reply in
          inl (record {
            response = r;
            resp_cseq = c;
            in_time = ground arith;
            received = received;
            cseq_is = cseq_is;
            current = current;
            status = status;
          })
      | inr later ↦ inr (register_loop-Confirms deadline ts later)
    ]

-- What a registration that returns `Ok` was.
pub data Registered (md5_hex : Text → Text) (client : SipClient) (call_id tag branch : Text)
    (resp : Text) (deadline : ℕ) (cnonce branch2 : Text) (ticks : List RegisterTick)
    : List Text → Type 0 where
  unchallenged :
      parse_status_code resp ≡ some 200
      → Registered md5_hex client call_id tag branch resp deadline cnonce branch2 ticks
          (build_register client branch tag call_id 1 none ∷ [])
  authenticated :
      (auth_value : Text)
      → parse_status_code resp ≡ some 401
      → register_auth md5_hex client resp cnonce ≡ ok auth_value
      → Any (Confirms deadline) ticks
      → Registered md5_hex client call_id tag branch resp deadline cnonce branch2 ticks (
          build_register client branch tag call_id 1 none
          ∷ build_register client branch2 tag call_id 2 (some (codes "Authorization", auth_value))
          ∷ [])

if-inv :
    (test : Bool) (m n : Sip Bool) (log : List Text) {r : Outcome SipError Bool × List Text}
    → (if test then m else n) log ≡ r
    → ((test ≡ true) × (m log ≡ r)) ⊎ ((test ≡ false) × (n log ≡ r))
if-inv true m n log h = inl (refl, h)
if-inv false m n log h = inr (refl, h)

lift-inv :
    {A : Type 0} (m : Outcome SipError A) (f : A → Sip Bool) (log sent : List Text)
    → (lift m >>= f) log ≡ (ok true, sent)
    → (a : A) × (m ≡ ok a) × (f a log ≡ (ok true, sent))
lift-inv (ok a) f log sent h = (a, refl, h)
lift-inv (bail e) f log sent h = absurd (cc)
lift-inv panic f log sent h = absurd (cc)

send-inv :
    (taken : Bool) (msg : Text) (m : Sip Bool) (log sent : List Text)
    → (send_msg taken msg >> m) log ≡ (ok true, sent)
    → m (log ++ msg ∷ []) ≡ (ok true, sent)
unfolding send_msg
send-inv true msg m log sent h = h
send-inv false msg m log sent h = absurd (cc)

on_register_response-Registered :
    (md5_hex : Text → Text) (client : SipClient) (call_id tag branch resp : Text) (deadline : ℕ)
    (cnonce branch2 : Text) (second_ok : Bool) (ticks : List RegisterTick) (sent : List Text)
    → on_register_response md5_hex client call_id tag resp deadline cnonce branch2 second_ok ticks
        (build_register client branch tag call_id 1 none ∷ [])
      ≡ (ok true, sent)
    → Registered md5_hex client call_id tag branch resp deadline cnonce branch2 ticks sent
unfolding on_register_response
on_register_response-Registered md5_hex client call_id tag branch resp deadline cnonce branch2
      second_ok ticks sent h =
    let first = build_register client branch tag call_id 1 none ∷ [] in
    let status = parse_status_code resp in
    let next : Text → Sip Bool = λ auth_value.
      send_msg second_ok
        (build_register client branch2 tag call_id 2 (some (codes "Authorization", auth_value)))
      >> lift (register_loop deadline ticks) in
    elim (if-inv (is_status 200 status) _ _ first h) [
      | inl (yea, e) ↦
          let log : first ≡ sent = ap (λ r. r.1) e in
          subst (Registered md5_hex client call_id tag branch resp deadline cnonce branch2 ticks)
            log (unchallenged (is_status_lem 200 status yea))
      | inr (nay, e) ↦ elim (if-inv (not (is_status 401 status)) _ _ first e) [
        | inl (other, failed) ↦ absurd (cc)
        | inr (challenged, e') ↦
            let (value, auth, e'') =
              lift-inv (register_auth md5_hex client resp cnonce) next first sent e' in
            let second =
              build_register client branch2 tag call_id 2 (some (codes "Authorization", value)) in
            let last =
              send-inv second_ok second (lift (register_loop deadline ticks)) first sent e'' in
            let log : first ++ second ∷ [] ≡ sent = ap (λ r. r.1) last in
            subst (Registered md5_hex client call_id tag branch resp deadline cnonce branch2 ticks)
              log
              (authenticated value (is_status_lem 401 status (ground (arith, challenged))) auth
                (register_loop-Confirms deadline ticks (ap (λ r. r.0) last)))
      ]
    ]

-- `register` returns `Ok` only if the server confirmed it: the first response is a 200 and one
-- REGISTER was sent; or it is a 401, the second REGISTER answers its challenge, and a response in
-- the loop is a 200, in time, whose CSeq is 2 or not readable.
pub register-Registered :
    (md5_hex : Text → Text) (client : SipClient) (call_id tag branch : Text) (first_ok : Bool)
    (received : Option Text) (deadline : ℕ) (cnonce branch2 : Text) (second_ok : Bool)
    (ticks : List RegisterTick) (sent : List Text)
    → register md5_hex client call_id tag branch first_ok received deadline cnonce branch2 second_ok
        ticks []
      ≡ (ok true, sent)
    → (resp : Text) × (received ≡ some resp)
      × Registered md5_hex client call_id tag branch resp deadline cnonce branch2 ticks sent
unfolding register send_msg
register-Registered md5_hex client call_id tag branch false received deadline cnonce branch2
      second_ok ticks sent h =
    absurd (cc)
register-Registered md5_hex client call_id tag branch true none deadline cnonce branch2 second_ok
      ticks sent h =
    absurd (cc)
register-Registered md5_hex client call_id tag branch true (some resp) deadline cnonce branch2
      second_ok ticks sent h =
    (
      resp,
      refl,
      on_register_response-Registered md5_hex client call_id tag branch resp deadline cnonce branch2
          second_ok ticks sent h,
    )
