-- ===== src/DialString/Accept.antt =====
-- Which inputs are accepted, and as what.
use slmodem_sip_bridge.Base.{
  ℕ, [], ◌∷◌, ◌++◌, true, false, ◌≡◌, ◌≢◌, ◌↔◌, inl, inr, refl, ap, arith, All, Bool-cases, is_nil,
}
use slmodem_sip_bridge.Base.Outcome.{ok}
use slmodem_sip_bridge.DialString.{
  DialString, is_tone_pulse, strip_tone_pulse_prefix, is_allowed_dial_char, all_allowed, parse,
}
use slmodem_sip_bridge.Text.{Text, trim_start_matches}

-- A character that a modem may dial.
abbrev pub Dialable : ℕ → Type 0
Dialable c = is_allowed_dial_char c ≡ true

abbrev pub TonePulse : ℕ → Type 0
TonePulse c = is_tone_pulse c ≡ true

-- The dial string behind the letters T, t, P and p in front of it.
pub record Accepts (input dial : Text) : Type 0 where
  pub letters : Text
  pub split : input ≡ letters ++ dial
  pub all_letters : All TonePulse letters
  pub dialable : All Dialable dial
  pub ne_nil : dial ≢ []

all_allowed-All : (s : Text) → all_allowed s ≡ true → All Dialable s
unfolding all_allowed
all_allowed-All [] h = tt
all_allowed-All (c ∷ s) h = ground (arith, all_allowed-All s)

All-all_allowed : (s : Text) → All Dialable s → all_allowed s ≡ true
unfolding all_allowed
All-all_allowed [] h = refl
All-all_allowed (c ∷ s) (hc, hs) = rw (hc, All-all_allowed s hs)

strip_split :
    (s : Text)
    → (letters : Text) × (s ≡ letters ++ strip_tone_pulse_prefix s) × All TonePulse letters
unfolding strip_tone_pulse_prefix trim_start_matches
strip_split [] = ([], refl, tt)
strip_split (c ∷ s) = elim (Bool-cases (is_tone_pulse c)) [
  | inl letter ↦
      let (letters, e, all) = strip_split s in rw letter (c ∷ letters, ap (◌∷◌ c) e, (letter, all))
  | inr other ↦ rw other ([], refl, tt)
]

-- A dialable character is no letter for tone or pulse, so stripping stops in front of it.
strip-Dialable :
    (letters : Text) (c : ℕ) (s : Text)
    → All TonePulse letters
    → Dialable c
    → strip_tone_pulse_prefix (letters ++ c ∷ s) ≡ c ∷ s
unfolding strip_tone_pulse_prefix trim_start_matches
strip-Dialable [] c s h d =
    let other : is_tone_pulse c ≡ false =
      unfold is_tone_pulse is_allowed_dial_char in ground arith in
    rw other
strip-Dialable (l ∷ letters) c s (hl, h) d = rw hl (strip-Dialable letters c s h d)

parse_inv :
    (input dial : Text)
    → parse input ≡ ok (record { as_str = dial })
    → (strip_tone_pulse_prefix input ≡ dial) × (all_allowed dial ≡ true) × (is_nil dial ≡ false)
unfolding parse
parse_inv input dial h = ground arith

parse-Accepts :
    (input dial : Text) → parse input ≡ ok (record { as_str = dial }) → Accepts input dial
parse-Accepts input dial h =
    let (e, allowed, some_left) = parse_inv input dial h in
    let (letters, split, all) = strip_split input in
    record {
      letters = letters;
      split = rw (← e) split;
      all_letters = all;
      dialable = all_allowed-All dial allowed;
      ne_nil = λ z. cc;
    }

parse_of_strip :
    (input dial : Text)
    → strip_tone_pulse_prefix input ≡ dial
    → all_allowed dial ≡ true
    → is_nil dial ≡ false
    → parse input ≡ ok (record { as_str = dial })
unfolding parse
parse_of_strip input dial e allowed some_left = ground arith

Accepts-parse :
    (input dial : Text) → Accepts input dial → parse input ≡ ok (record { as_str = dial })
Accepts-parse input [] a = absurd (a.ne_nil refl)
Accepts-parse input (c ∷ s) a =
    parse_of_strip input (c ∷ s)
      (rw a.split (strip-Dialable a.letters c s a.all_letters a.dialable.0))
      (All-all_allowed (c ∷ s) a.dialable) refl

-- A dial string is accepted exactly if, behind any letters T, t, P and p in front, it has at least
-- one character and only dialable ones; those are the result.
pub parse_iff :
    (input dial : Text) → (parse input ≡ ok (record { as_str = dial })) ↔ Accepts input dial
parse_iff input dial = (parse-Accepts input dial, Accepts-parse input dial)

-- What `parse` returns it accepts unchanged, so checking a dial string twice is harmless.
pub parse-parse : (input : Text) (d : DialString) → parse input ≡ ok d → parse d.as_str ≡ ok d
parse-parse input d h =
    let a = parse-Accepts input d.as_str h in
    Accepts-parse d.as_str d.as_str (record {
      letters = [];
      split = refl;
      all_letters = tt;
      dialable = a.dialable;
      ne_nil = a.ne_nil;
    })
