-- ===== src/Text/Ascii.antt =====
-- ASCII texts: every offset up to the length is a character boundary.
use slmodem_sip_bridge.Base.{
  ℕ, zero, suc, ◌-◌, ◌≤◌, ◌<◌, [], ◌∷◌, ◌++◌, Bool, true, ◌&&◌, some, ◌≡◌, inl, inr, refl, arith,
  ltb, leb, ◌==◌, is_nil, All, All-append, Bool-cases,
}
use slmodem_sip_bridge.Text.Split.{strip_cr, lines_from, lines}
use slmodem_sip_bridge.Text.{
  Text, len_utf8, len, split_at, is_whitespace, trim_start_matches, trim_end, trim,
}

abbrev pub IsAscii : Text → Type 0
IsAscii = All (λ c. c < 0x80)

split_at_ascii :
    (c : ℕ) (s : Text) (n : ℕ) (a b : Text)
    → c < 0x80
    → split_at s n ≡ some (a, b)
    → split_at (c ∷ s) (suc n) ≡ some (c ∷ a, b)
unfolding split_at
split_at_ascii c s n a b h e =
    let fits : leb (len_utf8 c) (suc n) ≡ true = ground arith in
    let back : suc n - len_utf8 c ≡ n = ground arith in rw (fits, back, e) refl

pub split_at-IsAscii :
    (s : Text) (n : ℕ)
    → IsAscii s
    → n ≤ len s
    → (a : Text) × (b : Text) × (split_at s n ≡ some (a, b)) × IsAscii a × IsAscii b
split_at-IsAscii s zero h le = ([], s, unfold split_at in refl, tt, h)
split_at-IsAscii [] (suc n) h le = absurd (omega arith)
split_at-IsAscii (c ∷ s) (suc n) (hc, hs) le =
    let one : len_utf8 c ≡ 1 = ground arith in
    let (a, b, e, ha, hb) = split_at-IsAscii s n hs (omega (arith, one)) in
    (c ∷ a, b, split_at_ascii c s n a b hc e, (hc, ha), hb)

trim_start_matches-All :
    (P : ℕ → Type 0) (p : ℕ → Bool) (s : Text) → All P s → All P (trim_start_matches p s)
unfolding trim_start_matches
trim_start_matches-All P p [] h = tt
trim_start_matches-All P p (c ∷ s) (hc, hs) = elim (Bool-cases (p c)) [
  | inl yea ↦ rw yea (trim_start_matches-All P p s hs)
  | inr nay ↦ rw nay (hc, hs)
]

trim_end-All : (P : ℕ → Type 0) (s : Text) → All P s → All P (trim_end s)
unfolding trim_end
trim_end-All P [] h = tt
trim_end-All P (c ∷ s) (hc, hs) = elim (Bool-cases (is_nil (trim_end s) && is_whitespace c)) [
  | inl yea ↦ rw yea tt
  | inr nay ↦ rw nay (hc, trim_end-All P s hs)
]

-- What holds of every character holds of those that `trim` leaves.
pub trim-All : (P : ℕ → Type 0) (s : Text) → All P s → All P (trim s)
trim-All P s h =
    trim_end-All P (trim_start_matches is_whitespace s) (trim_start_matches-All P is_whitespace s h)

pub trim-IsAscii : (s : Text) → IsAscii s → IsAscii (trim s)
trim-IsAscii s h = trim-All (λ c. c < 0x80) s h

strip_cr-IsAscii : (s : Text) → IsAscii s → IsAscii (strip_cr s)
unfolding strip_cr
strip_cr-IsAscii [] h = tt
strip_cr-IsAscii (c ∷ []) h = elim (Bool-cases (c == b'\r')) [
  | inl yea ↦ rw yea tt
  | inr nay ↦ rw nay h
]
strip_cr-IsAscii (c ∷ d ∷ s) (hc, h) = (hc, strip_cr-IsAscii (d ∷ s) h)

lines_from-IsAscii : (line s : Text) → IsAscii line → IsAscii s → All IsAscii (lines_from line s)
unfolding lines_from
lines_from-IsAscii [] [] hl hs = tt
lines_from-IsAscii (c ∷ line) [] hl hs = (hl, tt)
lines_from-IsAscii [] (c ∷ s) hl (hc, hs) = elim (Bool-cases (c == b'\n')) [
  | inl yea ↦ rw (yea, All, lines_from) (strip_cr-IsAscii [] hl, lines_from-IsAscii [] s tt hs)
  | inr nay ↦
      rw (nay, All, lines_from)
        (lines_from-IsAscii ([] ++ c ∷ []) s (All-append (λ x. x < 0x80) [] (c ∷ []) hl (hc, tt))
          hs)
]
lines_from-IsAscii (d ∷ line) (c ∷ s) hl (hc, hs) = elim (Bool-cases (c == b'\n')) [
  | inl yea ↦
      rw (yea, All, lines_from) (strip_cr-IsAscii (d ∷ line) hl, lines_from-IsAscii [] s tt hs)
  | inr nay ↦
      rw (nay, All, lines_from)
        (lines_from-IsAscii ((d ∷ line) ++ c ∷ []) s
          (All-append (λ x. x < 0x80) (d ∷ line) (c ∷ []) hl (hc, tt)) hs)
]

pub lines-IsAscii : (s : Text) → IsAscii s → All IsAscii (lines s)
unfolding lines
lines-IsAscii s h = lines_from-IsAscii [] s tt h

abbrev pub is_ascii : Text → Bool
is_ascii [] = true
is_ascii (c ∷ s) = ltb c 0x80 && is_ascii s

pub is_ascii-IsAscii : (s : Text) → is_ascii s ≡ true → IsAscii s
is_ascii-IsAscii [] h = tt
is_ascii-IsAscii (c ∷ s) h = (ground arith, is_ascii-IsAscii s (ground arith))
