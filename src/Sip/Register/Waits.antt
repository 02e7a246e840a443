-- ===== src/Sip/Register/Waits.antt =====
-- The loop in `register` does not wait for ever.
use slmodem_sip_bridge.Base.{
  ℕ, ◌≤◌, List, [], ◌∷◌, ◌++◌, not, Bool, true, false, Option, none, some, leb, if◌then◌else◌, ◌≡◌,
  ◌≢◌, ◌⊎◌, inl, inr, arith, Any, Bool-cases,
}
use slmodem_sip_bridge.Base.Outcome
use slmodem_sip_bridge.Base.Outcome.{Outcome, ok, bail, panic}
use slmodem_sip_bridge.Sip.Build.{build_register}
use slmodem_sip_bridge.Sip.Message.{parse_status_code}
use slmodem_sip_bridge.Sip.Register.{
  RegisterTick, register_reply, register_loop, register_auth, is_status, status_or_zero,
  on_register_response, register,
}
use slmodem_sip_bridge.Sip.{
  SipClient, SipError, no_response, register_failed, ◌>>=◌, ◌>>◌, lift, pure, fail, send_msg, Sip,
}
use slmodem_sip_bridge.Text.{Text, codes}

-- A round that starts at the deadline or later.
abbrev pub Expired : ℕ → RegisterTick → Type 0
Expired deadline t = deadline ≤ t.now

round_waits :
    (m : Outcome SipError Bool) (rest : Outcome SipError Bool)
    → rest ≢ ok false
    → Outcome.◌>>=◌ m (λ registered. if registered then ok true else rest) ≢ ok false
round_waits (ok true) rest h = λ e. cc
round_waits (ok false) rest h = h
round_waits (bail x) rest h = λ e. cc
round_waits panic rest h = λ e. cc

resp_waits :
    (resp : Option Text) (rest : Outcome SipError Bool)
    → rest ≢ ok false
    → ◌≢◌ {A = Outcome SipError Bool}
        (elim resp [
          | none ↦ rest
          | some resp2 ↦
              Outcome.◌>>=◌
                (register_reply resp2)
                (λ registered. if registered then ok true else rest)
        ])
        (ok false)
resp_waits none rest h = h
resp_waits (some r) rest h = round_waits (register_reply r) rest h

pub register_loop-ends :
    (deadline : ℕ) (ts : List RegisterTick)
    → Any (Expired deadline) ts
    → register_loop deadline ts ≢ ok false
unfolding register_loop
register_loop-ends deadline [] h = absurd h
register_loop-ends deadline (t ∷ ts) h = elim (Bool-cases (leb deadline t.now)) [
  | inl late ↦ rw late (λ e. cc)
  | inr soon ↦ rw soon (
      resp_waits t.resp (register_loop deadline ts) (register_loop-ends deadline ts (later soon h)))
]
  where
    later :
        leb deadline t.now ≡ false
        → (deadline ≤ t.now) ⊎ Any (Expired deadline) ts
        → Any (Expired deadline) ts
    later soon (inl past) = absurd (ground arith)
    later soon (inr rest) = rest

-- An exchange that has an end, whatever was sent before.
record Ended (m : Sip Bool) : Type 0 where
  behind : (log : List Text) → (m log).0 ≢ ok false

send-Ended : (taken : Bool) (msg : Text) (m : Sip Bool) → Ended m → Ended (send_msg taken msg >> m)
unfolding send_msg
send-Ended true msg m h = record { behind = λ log. h.behind (log ++ msg ∷ []) }
send-Ended false msg m h = record { behind = λ log e. cc }

lift-Ended :
    {A : Type 0} (o : Outcome SipError A) (f : A → Sip Bool)
    → ((a : A) → Ended (f a))
    → Ended (lift o >>= f)
lift-Ended (ok a) f h = record { behind = (h a).behind }
lift-Ended (bail e) f h = record { behind = λ log k. cc }
lift-Ended panic f h = record { behind = λ log k. cc }

if-Ended : (test : Bool) (m n : Sip Bool) → Ended m → Ended n → Ended (if test then m else n)
if-Ended true m n h k = h
if-Ended false m n h k = k

-- With a round at the deadline or later, `register` does not wait any more: it has returned or
-- panicked.
pub register-ends :
    (md5_hex : Text → Text) (client : SipClient) (call_id tag branch : Text) (first_ok : Bool)
    (received : Option Text) (deadline : ℕ) (cnonce branch2 : Text) (second_ok : Bool)
    (ticks : List RegisterTick) (log : List Text)
    → Any (Expired deadline) ticks
    → (register md5_hex client call_id tag branch first_ok received deadline cnonce branch2
        second_ok ticks log).0
      ≢ ok false
unfolding register on_register_response
register-ends md5_hex client call_id tag branch first_ok received deadline cnonce branch2 second_ok
      ticks log late =
    let waits : Ended (lift (register_loop deadline ticks)) = record {
      behind = λ log'. register_loop-ends deadline ticks late;
    } in
    let all = send-Ended first_ok (build_register client branch tag call_id 1 none) _ (
      lift-Ended (Outcome.ok_or received no_response) _ (λ resp.
        if-Ended (is_status 200 (parse_status_code resp)) (pure true) _
          (record { behind = λ log' e. cc })
          (if-Ended (not (is_status 401 (parse_status_code resp)))
            (fail (register_failed (status_or_zero (parse_status_code resp)))) _
            (record { behind = λ log' e. cc })
            (lift-Ended (register_auth md5_hex client resp cnonce) _ (λ value.
              send-Ended second_ok
                (build_register client branch2 tag call_id 2 (some (codes "Authorization", value)))
                _ waits))))) in
    all.behind log
