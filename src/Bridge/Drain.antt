-- ===== src/Bridge/Drain.antt =====
-- bridge.rs: `drain_during_sip_setup`. The arms of its `select!` are events, in the order in which
-- they are taken; the result of the setup is the event `setup`.
use slmodem_sip_bridge.Base.{
  ℕ, ◌+◌, ◌≤◌, ◌<◌, List, [], ◌∷◌, ◌++◌, Bool, true, false, not, Option, none, some, ◌≡◌, inl, inr,
  ap, ◌∙◌, arith, ltb, ◌==◌, if◌then◌else◌, length, All, Bool-cases,
}
use slmodem_sip_bridge.Base.Outcome.{Outcome, ok, bail, panic}
use slmodem_sip_bridge.Bridge.{drain_iterations_limit}

pub data DrainError (E : Type 0) : Type 0 where
  socket_closed read_failed silence_failed : DrainError E
  setup_failed : E → DrainError E

-- `read n` is a read of n bytes, `silence ok` a tick with its write.
pub data DrainEvent (E A : Type 0) : Type 0 where
  setup : Outcome E A → DrainEvent E A
  read : ℕ → DrainEvent E A
  read_error : DrainEvent E A
  silence : Bool → DrainEvent E A

-- The setup's own result, with its errors among the loop's.
unfoldable pub setup_result : {E A : Type 0} → Outcome E A → Outcome (DrainError E) A
setup_result (ok a) = ok a
setup_result (bail e) = bail (setup_failed e)
setup_result panic = panic

-- The loop, from a number of iterations; `none` while it waits for the next event.
unfoldable pub drain_during_sip_setup :
    {E A : Type 0} → ℕ → List (DrainEvent E A) → Option (Outcome (DrainError E) A)
unfolding setup_result
drain_during_sip_setup iterations [] =
    if not (ltb iterations drain_iterations_limit) then some panic else none
drain_during_sip_setup iterations (event ∷ events) =
    let rest = drain_during_sip_setup (iterations + 1) events in
    if not (ltb iterations drain_iterations_limit) then some panic else elim event [
      | setup result ↦ some (setup_result result)
      | read n ↦ (if n == 0 then some (bail socket_closed) else rest)
      | read_error ↦ some (bail read_failed)
      | silence true ↦ rest
      | silence false ↦ some (bail silence_failed)
    ]

-- An event that the loop goes on after.
abbrev pub IsQuiet : {E A : Type 0} → DrainEvent E A → Type 0
IsQuiet (setup result) = ⊥
IsQuiet (read n) = 0 < n
IsQuiet read_error = ⊥
IsQuiet (silence written) = written ≡ true

drain-quiet :
    {E A : Type 0} (iterations : ℕ) (event : DrainEvent E A) (events : List (DrainEvent E A))
    → IsQuiet event
    → iterations < 500
    → drain_during_sip_setup iterations (event ∷ events)
      ≡ drain_during_sip_setup (iterations + 1) events
unfolding drain_during_sip_setup
drain-quiet iterations (setup result) events q h = absurd q
drain-quiet iterations (read n) events q h = ground arith
drain-quiet iterations read_error events q h = absurd q
drain-quiet iterations (silence true) events q h = ground arith
drain-quiet iterations (silence false) events q h = absurd (cc)

drain-setup :
    {E A : Type 0} (iterations : ℕ) (result : Outcome E A) (events : List (DrainEvent E A))
    → iterations < 500
    → drain_during_sip_setup iterations (setup result ∷ events) ≡ some (setup_result result)
unfolding drain_during_sip_setup
drain-setup iterations result events h = ground arith

drain-over :
    {E A : Type 0} (iterations : ℕ) (events : List (DrainEvent E A))
    → 500 ≤ iterations
    → drain_during_sip_setup iterations events ≡ some panic
unfolding drain_during_sip_setup
drain-over iterations [] h = ground arith
drain-over iterations (event ∷ events) h = ground arith

-- How often the loop has gone round: the reads and ticks before the setup's result.
drain-from :
    {E A : Type 0} (iterations : ℕ) (quiet : List (DrainEvent E A)) (result : Outcome E A)
    (events : List (DrainEvent E A))
    → All IsQuiet quiet
    → iterations ≤ 500
    → drain_during_sip_setup iterations (quiet ++ setup result ∷ events)
      ≡ (if ltb (iterations + length quiet) 500 then some (setup_result result) else some panic)
drain-from iterations [] result events h le = elim (Bool-cases (ltb iterations 500)) [
  | inl few ↦
      let few' : ltb (iterations + 0) 500 ≡ true = ground arith in
      rw few' (drain-setup iterations result events (ground arith))
  | inr many ↦
      let many' : ltb (iterations + 0) 500 ≡ false = ground arith in
      rw many' (drain-over iterations (setup result ∷ events) (ground arith))
]
drain-from iterations (event ∷ quiet) result events (h, hs) le =
    elim (Bool-cases (ltb iterations 500)) [
      | inl few ↦
          let next = drain-from (iterations + 1) quiet result events hs (ground arith) in
          let same : iterations + 1 + length quiet ≡ iterations + length (event ∷ quiet) =
            omega arith in
          drain-quiet iterations event (quiet ++ setup result ∷ events) h (ground arith)
          ∙ next
          ∙ ap (λ n. if ltb n 500 then some (setup_result result) else some panic) same
      | inr many ↦
          let many' : ltb (iterations + length (event ∷ quiet)) 500 ≡ false = ground arith in
          rw many' (drain-over iterations (event ∷ (quiet ++ setup result ∷ events)) (ground arith))
    ]

-- The setup's result comes through if fewer than 500 reads and silence frames came before it; with
-- 500 or more the assertion on the iterations panics, and the result is lost.
pub drain_during_sip_setup_lem :
    {E A : Type 0} (quiet : List (DrainEvent E A)) (result : Outcome E A)
    (events : List (DrainEvent E A))
    → All IsQuiet quiet
    → drain_during_sip_setup 0 (quiet ++ setup result ∷ events)
      ≡ (if ltb (length quiet) 500 then some (setup_result result) else some panic)
drain_during_sip_setup_lem quiet result events h =
    drain-from 0 quiet result events h (omega arith)
    ∙ ap (λ n. if ltb n 500 then some (setup_result result) else some panic) (omega arith)
