-- ===== src/Bridge/Run/Calls.antt =====
-- The calls that the loop in `run` counts.
use mathlib.Core.Path.{subst}
use slmodem_sip_bridge.Base.{
  ℕ, ◌+◌, ◌≤◌, ◌<◌, List, [], ◌∷◌, ◌++◌, Option, none, some, ◌≡◌, ◌≢◌, ◌⊎◌, inl, inr, refl, sym,
  arith, ltb, length, Bool-cases, Option-cases,
}
use slmodem_sip_bridge.Base.Outcome.{Outcome, ok, bail, panic}
use slmodem_sip_bridge.Bridge.Run.{RunError, Pass, Next, next_call, shutdown, run_pass, run_loop}
use slmodem_sip_bridge.Sip.{SipClient}
use slmodem_sip_bridge.Text.{Text}

-- What a pass may be: over the limit, without a dial string, or counted.
run_pass_cases :
    (client : SipClient) (calls_count : ℕ) (pass : Pass)
    → ((run_pass client calls_count pass).0.result ≡ panic)
      ⊎ ((run_pass client calls_count pass).0.result ≡ ok shutdown)
      ⊎ ((calls_count < 1000) × ((run_pass client calls_count pass).1 ≡ calls_count + 1))
unfolding run_pass
run_pass_cases client calls_count pass = elim (Bool-cases (ltb calls_count 1000)) [
  | inr over ↦ inl (simp over refl)
  | inl below ↦ elim (Option-cases pass.waited) [
    | inl none_left ↦ inr (inl (simp (below, none_left) refl))
    | inr (raw, got) ↦ inr (inr (ground arith, simp (below, got) refl))
  ]
]

-- What the loop makes of the result of a pass.
abbrev loop_result :
    Outcome RunError Next
    → Option (Outcome RunError (Unit {0}))
    → Option (Outcome RunError (Unit {0}))
loop_result (ok next_call) rest = rest
loop_result (ok shutdown) rest = some (ok tt)
loop_result (bail e) rest = some (bail e)
loop_result panic rest = some panic

run_loop-loop_result :
    (client : SipClient) (calls_count : ℕ) (pass : Pass) (passes : List Pass)
    → (run_loop client calls_count (pass ∷ passes)).0
      ≡ loop_result
          (run_pass client calls_count pass).0.result
          (run_loop client (run_pass client calls_count pass).1 passes).0
unfolding run_loop
run_loop-loop_result client calls_count pass passes = go (run_pass client calls_count pass).0.result
  where
    rest : Option (Outcome RunError (Unit {0})) × List Text
    rest = run_loop client (run_pass client calls_count pass).1 passes

    sent : List Text
    sent = (run_pass client calls_count pass).0.sent

    go :
        (r : Outcome RunError Next)
        → (elim r as (λ _. Option (Outcome RunError (Unit {0})) × List Text) [
          | ok next_call ↦ (rest.0, sent ++ rest.1)
          | ok shutdown ↦ (some (ok tt), sent)
          | bail e ↦ (some (bail e), sent)
          | panic ↦ (some panic, sent)
        ]).0
          ≡ loop_result r rest.0
    go (ok next_call) = refl
    go (ok shutdown) = refl
    go (bail e) = refl
    go panic = refl

loop_result-ends :
    (r : Outcome RunError Next) (rest : Option (Outcome RunError (Unit {0})))
    → rest ≢ none
    → loop_result r rest ≢ none
loop_result-ends (ok next_call) rest h = h
loop_result-ends (ok shutdown) rest h = λ e. cc
loop_result-ends (bail x) rest h = λ e. cc
loop_result-ends panic rest h = λ e. cc

-- Whatever the passes are, the loop does not wait for another one once it has been given more of
-- them than calls are left of the thousand: it has returned or panicked.
pub run_loop-ends :
    (client : SipClient) (calls_count : ℕ) (passes : List Pass)
    → calls_count ≤ 1000
    → 1000 < calls_count + length passes
    → (run_loop client calls_count passes).0 ≢ none
run_loop-ends client calls_count [] le h = absurd (omega arith)
run_loop-ends client calls_count (pass ∷ passes) le h =
    let rest = (run_loop client (run_pass client calls_count pass).1 passes).0 in
    subst (λ o. o ≢ none) (sym (run_loop-loop_result client calls_count pass passes))
      (elim (run_pass_cases client calls_count pass) [
        | inl over ↦ subst (λ r. loop_result r rest ≢ none) (sym over) (λ e. cc)
        | inr (inl closed) ↦ subst (λ r. loop_result r rest ≢ none) (sym closed) (λ e. cc)
        | inr (inr (below, count)) ↦
            loop_result-ends (run_pass client calls_count pass).0.result rest (
              subst (λ n. (run_loop client n passes).0 ≢ none) (sym count)
                (run_loop-ends client (calls_count + 1) passes (omega arith) (omega arith)))
      ])
