-- ===== src/Sip/Ids.antt =====
-- sip.rs: the fresh identifiers. The clock, the process and the hash of a random state are
-- arguments; md5 is the md5 crate's.
use slmodem_sip_bridge.Base.{
  ℕ, zero, suc, ◌+◌, ◌-◌, ◌*◌, ◌/◌, ◌%◌, ◌^◌, ◌<◌, [], ◌∷◌, ◌++◌, true, some, ltb, leb,
  if◌then◌else◌, ◌≡◌, ◌≢◌, refl, ap, sym, ◌∙◌, arith, All, Bool-cases, inl, inr, Bytes,
}
use slmodem_sip_bridge.Net.Shown.{hex_digit, hex_digits}
use slmodem_sip_bridge.Text.Number.{IsDigit, parse, show, show-Digits, parse-show}
use slmodem_sip_bridge.Text.{Text, codes, starts_with, strip_prefix}

-- `{:x}` of a u64.
abbrev pub show_hex : ℕ → Text
show_hex n = hex_digits 16 n []

unfoldable pub generate_call_id : ℕ → ℕ → Text
generate_call_id now pid = show now ++ b'-' ∷ show pid

unfoldable pub generate_tag : ℕ → Text
generate_tag hash = show_hex hash

unfoldable pub generate_branch : ℕ → Text
generate_branch hash = codes "z9hG4bK" ++ show_hex hash

-- `to_le_bytes`, for so many bytes.
unfoldable pub to_le_bytes : ℕ → ℕ → Bytes
to_le_bytes zero n = []
to_le_bytes (suc k) n = (n % 256) ∷ to_le_bytes k (n / 256)

-- The nanoseconds of the clock are a u128.
unfoldable pub generate_cnonce : (Bytes → Text) → ℕ → Text
generate_cnonce md5_bytes ts = md5_bytes (to_le_bytes 16 ts)

show-inj : (m n : ℕ) → m < 10 ^ 40 → n < 10 ^ 40 → show m ≡ show n → m ≡ n
show-inj m n hm hn e =
    let bound = 10 ^ 40 in
    let back : some m ≡ some n =
      sym (parse-show m bound hm (omega arith))
      ∙ ap (parse bound) e
      ∙ parse-show n bound hn (omega arith) in
    cc

-- The value of hexadecimal digits, behind a value.
abbrev hex_value : Text → ℕ → ℕ
hex_value [] value = value
hex_value (c ∷ s) value =
    hex_value s (value * 16 + (if leb c b'9' then c - b'0' else c - b'a' + 10))

hex_value-digit :
    (d value : ℕ) (s : Text)
    → d < 16
    → hex_value (hex_digit d ∷ s) value ≡ hex_value s (value * 16 + d)
unfolding hex_digit
hex_value-digit d value s h = ground arith

hex_value-hex_digits :
    (k n : ℕ) (rest : Text) → n < 16 ^ k → hex_value (hex_digits k n rest) 0 ≡ hex_value rest n
unfolding hex_digits
hex_value-hex_digits zero n rest h = let e : n ≡ 0 = omega arith in rw e
hex_value-hex_digits (suc k) n rest h = elim (Bool-cases (ltb n 16)) [
  | inl one ↦ rw one (hex_value-digit n 0 rest (ground arith) ∙ ap (hex_value rest) (omega arith))
  | inr more ↦ rw more (
      hex_value-hex_digits k (n / 16) (hex_digit (n % 16) ∷ rest) (omega arith)
      ∙ hex_value-digit (n % 16) (n / 16) rest (omega arith)
      ∙ ap (hex_value rest) (omega arith))
]

show_hex-inj : (m n : ℕ) → m < 2 ^ 64 → n < 2 ^ 64 → show_hex m ≡ show_hex n → m ≡ n
show_hex-inj m n hm hn e =
    sym (hex_value-hex_digits 16 m [] (omega arith))
    ∙ ap (λ t. hex_value t 0) e
    ∙ hex_value-hex_digits 16 n [] (omega arith)

-- Two texts with one separator each are equal piece by piece.
append_cons-inj :
    (sep : ℕ) (s t s' t' : Text)
    → All (λ c. c ≢ sep) s
    → All (λ c. c ≢ sep) t
    → s ++ sep ∷ s' ≡ t ++ sep ∷ t'
    → (s ≡ t) × (s' ≡ t')
append_cons-inj sep [] [] s' t' hs ht e = (refl, cc)
append_cons-inj sep [] (d ∷ t) s' t' hs ht e = absurd (ht.0 (cc))
append_cons-inj sep (c ∷ s) [] s' t' hs ht e = absurd (hs.0 (cc))
append_cons-inj sep (c ∷ s) (d ∷ t) s' t' hs ht e =
    let (same, rest) = append_cons-inj sep s t s' t' hs.1 ht.1 (cc) in (cc, rest)

IsDigit-NotDash : (s : Text) → All IsDigit s → All (λ c. c ≢ b'-') s
IsDigit-NotDash [] h = tt
IsDigit-NotDash (c ∷ s) (hc, hs) = ((λ e. absurd (omega arith)), IsDigit-NotDash s hs)

show-NotDash : (n : ℕ) → All (λ c. c ≢ b'-') (show n)
show-NotDash n = let (d, ds, e, all) = show-Digits n in rw e (IsDigit-NotDash (d ∷ ds) all)

-- Two call identifiers are the same only if the clock and the process were the same.
pub generate_call_id-inj :
    (now pid now' pid' : ℕ)
    → now < 2 ^ 128
    → pid < 2 ^ 32
    → now' < 2 ^ 128
    → pid' < 2 ^ 32
    → generate_call_id now pid ≡ generate_call_id now' pid'
    → (now ≡ now') × (pid ≡ pid')
unfolding generate_call_id
generate_call_id-inj now pid now' pid' h1 h2 h3 h4 e =
    let (clock, process) =
      append_cons-inj b'-' (show now) (show now') (show pid) (show pid') (show-NotDash now)
        (show-NotDash now') e in
    (
      show-inj now now' (omega arith) (omega arith) clock,
      show-inj pid pid' (omega arith) (omega arith) process,
    )

append-inj : (s t t' : Text) → s ++ t ≡ s ++ t' → t ≡ t'
append-inj [] t t' e = e
append-inj (c ∷ s) t t' e = append-inj s t t' (cc)

to_le_bytes-inj :
    (k m n : ℕ) → m < 256 ^ k → n < 256 ^ k → to_le_bytes k m ≡ to_le_bytes k n → m ≡ n
unfolding to_le_bytes
to_le_bytes-inj zero m n hm hn e = omega arith
to_le_bytes-inj (suc k) m n hm hn e =
    let low : m % 256 ≡ n % 256 = cc in
    let high : m / 256 ≡ n / 256 =
      to_le_bytes-inj k (m / 256) (n / 256) (omega arith) (omega arith) (cc) in
    omega arith

-- Tags and branches are different if the hashes are, and a branch starts with the cookie of RFC
-- 3261. The client nonce is the hash of bytes that are different at different times.
pub generate-inj :
    (m n : ℕ)
    → m < 2 ^ 64
    → n < 2 ^ 64
    → (generate_tag m ≡ generate_tag n → m ≡ n)
      × (generate_branch m ≡ generate_branch n → m ≡ n)
      × (starts_with (generate_branch m) (codes "z9hG4bK") ≡ true)
      × (generate_cnonce (λ bytes. bytes) m ≡ generate_cnonce (λ bytes. bytes) n → m ≡ n)
unfolding generate_tag generate_branch generate_cnonce strip_prefix
generate-inj m n hm hn = (
  (λ e. show_hex-inj m n hm hn e),
  (λ e. show_hex-inj m n hm hn (append-inj (codes "z9hG4bK") _ _ e)),
  refl,
  (λ e. to_le_bytes-inj 16 m n (omega arith) (omega arith) e),
)
