-- ===== src/Net/Word.antt =====
-- An address is shown as one word: the form that `split_whitespace` and `parse` expect of it.
use slmodem_sip_bridge.Base.{
  ℕ, zero, suc, ◌+◌, ◌/◌, ◌%◌, ◌≤◌, ◌<◌, List, [], ◌∷◌, ◌++◌, false, ltb, ◌≡◌, ◌≢◌, refl, arith,
  Bool-cases, Option-cases, inl, inr, All, All-append, take, drop, length,
}
use slmodem_sip_bridge.Net.{IpAddr, v4, v6}
use slmodem_sip_bridge.Net.Shown.{
  show_v4, hex_digit, hex_digits, show_segment, show_segments, show_v6, show_ip, to_ipv4_mapped,
  longest_zeros, no_span,
}
use slmodem_sip_bridge.Text.Lines.{IsWord, IsDigit-IsWord}
use slmodem_sip_bridge.Text.Number.{show, show-Digits}
use slmodem_sip_bridge.Text.{Text, codes, is_whitespace}

abbrev NotWhite : ℕ → Type 0
NotWhite c = is_whitespace c ≡ false

-- The values that the type `IpAddr` has in Rust.
abbrev pub IsIpAddr : IpAddr → Type 0
IsIpAddr (v4 a b c d) = (a ≤ 255) × (b ≤ 255) × (c ≤ 255) × (d ≤ 255)
IsIpAddr (v6 segments) = All (λ s. s < 65536) segments × (length segments ≡ 8)

pub show-IsWord : (n : ℕ) → IsWord (show n)
show-IsWord n = let (d, ds, e, all) = show-Digits n in rw e (IsDigit-IsWord (d ∷ ds) all)

hex_digit-NotWhite : (d : ℕ) → d < 16 → NotWhite (hex_digit d)
unfolding hex_digit is_whitespace
hex_digit-NotWhite d h = ground arith

hex_digits-IsWord : (k n : ℕ) (rest : Text) → IsWord rest → IsWord (hex_digits k n rest)
unfolding hex_digits
hex_digits-IsWord zero n rest h = h
hex_digits-IsWord (suc k) n rest h = elim (Bool-cases (ltb n 16)) [
  | inl one ↦ rw one (hex_digit-NotWhite n (ground arith), h)
  | inr more ↦ rw more (
      hex_digits-IsWord k (n / 16) (hex_digit (n % 16) ∷ rest)
        (hex_digit-NotWhite (n % 16) (omega arith), h))
]

colon : NotWhite b':'
unfolding is_whitespace
colon = refl

dot : NotWhite b'.'
unfolding is_whitespace
dot = refl

show_segments-IsWord : (s : List ℕ) → IsWord (show_segments s)
unfolding show_segments
show_segments-IsWord [] = tt
show_segments-IsWord (s ∷ []) = hex_digits-IsWord 4 s [] tt
show_segments-IsWord (s ∷ t ∷ rest) =
    All-append NotWhite (show_segment s) _ (hex_digits-IsWord 4 s [] tt)
      (colon, show_segments-IsWord (t ∷ rest))

show_v4-IsWord : (a b c d : ℕ) → IsWord (show_v4 a b c d)
unfolding show_v4
show_v4-IsWord a b c d = All-append NotWhite (show a) _ (show-IsWord a) (
  dot,
  All-append NotWhite (show b) _ (show-IsWord b)
      (dot, All-append NotWhite (show c) _ (show-IsWord c) (dot, show-IsWord d)),
)

show_v6-IsWord : (s : List ℕ) → IsWord (show_v6 s)
unfolding show_v6
show_v6-IsWord s =
    let zeroes = longest_zeros s 0 no_span no_span in
    elim (Bool-cases (ltb 1 zeroes.size)) [
      | inl gap ↦ rw gap (
          All-append NotWhite (show_segments (take zeroes.start s)) _
            (show_segments-IsWord (take zeroes.start s))
            (colon, (colon, show_segments-IsWord (drop (zeroes.start + zeroes.size) s))))
      | inr whole ↦ rw whole (show_segments-IsWord s)
    ]

append_cons-ne-nil : (s : Text) (c : ℕ) (t : Text) → s ++ c ∷ t ≢ []
append_cons-ne-nil [] c t = λ e. cc
append_cons-ne-nil (d ∷ s) c t = λ e. cc

hex_digits-ne-nil : (k n c : ℕ) (rest : Text) → hex_digits k n (c ∷ rest) ≢ []
unfolding hex_digits
hex_digits-ne-nil zero n c rest = λ e. cc
hex_digits-ne-nil (suc k) n c rest = elim (Bool-cases (ltb n 16)) [
  | inl one ↦ rw one (λ e. cc)
  | inr more ↦ rw more (hex_digits-ne-nil k (n / 16) (hex_digit (n % 16)) (c ∷ rest))
]

show_segment-ne-nil : (n : ℕ) → show_segment n ≢ []
unfolding hex_digits
show_segment-ne-nil n = elim (Bool-cases (ltb n 16)) [
  | inl one ↦ rw one (λ e. cc)
  | inr more ↦ rw more (hex_digits-ne-nil 3 (n / 16) (hex_digit (n % 16)) [])
]

show_segments-ne-nil : (s : ℕ) (rest : List ℕ) → show_segments (s ∷ rest) ≢ []
unfolding show_segments
show_segments-ne-nil s [] = show_segment-ne-nil s
show_segments-ne-nil s (t ∷ rest) = append_cons-ne-nil (show_segment s) b':' _

show_v6-ne-nil : (s : ℕ) (rest : List ℕ) → show_v6 (s ∷ rest) ≢ []
unfolding show_v6
show_v6-ne-nil s rest =
    let zeroes = longest_zeros (s ∷ rest) 0 no_span no_span in
    elim (Bool-cases (ltb 1 zeroes.size)) [
      | inl gap ↦ rw gap (append_cons-ne-nil (show_segments (take zeroes.start (s ∷ rest))) b':' _)
      | inr whole ↦ rw whole (show_segments-ne-nil s rest)
    ]

-- A text with no white space that is not empty.
abbrev pub IsToken : Text → Type 0
IsToken t = (c : ℕ) × (w : Text) × (t ≡ c ∷ w) × IsWord (c ∷ w)

IsToken-of : (t : Text) → IsWord t → t ≢ [] → IsToken t
IsToken-of [] h ne = absurd (ne refl)
IsToken-of (c ∷ w) h ne = (c, w, refl, h)

mapped-IsToken :
    (g h : ℕ) → IsToken (codes "::ffff:" ++ show_v4 (g / 256) (g % 256) (h / 256) (h % 256))
unfolding is_whitespace
mapped-IsToken g h =
    IsToken-of _
      (All-append NotWhite (codes "::ffff:") _
        (refl, (refl, (refl, (refl, (refl, (refl, (refl, tt)))))))
        (show_v4-IsWord (g / 256) (g % 256) (h / 256) (h % 256)))
      (λ e. cc)

-- Every address is shown as one word: at least one character, and no white space.
pub show_ip-IsToken : (ip : IpAddr) → IsIpAddr ip → IsToken (show_ip ip)
unfolding show_ip
show_ip-IsToken (v4 a b c d) h =
    IsToken-of _ (show_v4-IsWord a b c d) (unfold show_v4 in append_cons-ne-nil (show a) b'.' _)
show_ip-IsToken (v6 []) h = absurd (omega arith)
show_ip-IsToken (v6 (s ∷ rest)) h = elim (Option-cases (to_ipv4_mapped (s ∷ rest))) [
  | inl plain ↦
      rw (plain, show_ip) (IsToken-of _ (show_v6-IsWord (s ∷ rest)) (show_v6-ne-nil s rest))
  | inr ((g, i), mapped) ↦ rw (mapped, show_ip) (mapped-IsToken g i)
]
