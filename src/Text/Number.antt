-- ===== src/Text/Number.antt =====
-- Decimal numbers: `Display` and `FromStr` of the unsigned integers.
use slmodem_sip_bridge.Base.{
  ℕ, zero, suc, ◌+◌, ◌-◌, ◌*◌, ◌/◌, ◌%◌, ◌^◌, ◌≤◌, ◌<◌, [], ◌∷◌, ◌++◌, Bool, ◌&&◌, Option, none,
  some, ltb, leb, ◌==◌, if◌then◌else◌, ◌≡◌, ap, sym, ◌∙◌, inl, inr, Bool-cases, arith, append-nil,
  append_assoc, All, All-append,
}
use slmodem_sip_bridge.Text.{Text}

abbrev pub is_ascii_digit : ℕ → Bool
is_ascii_digit c = leb b'0' c && leb c b'9'

-- The digits of n in front of a text, with at most as many digits as the first argument says.
unfoldable pub digits : ℕ → ℕ → Text → Text
digits zero n rest = rest
digits (suc k) n rest =
    let more = digits k (n / 10) ((b'0' + n % 10) ∷ rest) in
    if ltb n 10 then (b'0' + n) ∷ rest else more

-- `format!("{n}")`. Forty digits are enough for a u128.
unfoldable pub show : ℕ → Text
unfolding digits
show n = digits 40 n []

-- The digits that are left, behind the number read so far; `none` at another character or above
-- the type's largest value.
unfoldable pub scan : ℕ → Text → ℕ → Option ℕ
scan max [] n = some n
scan max (c ∷ s) n =
    let rest = scan max s (n * 10 + (c - b'0')) in
    if is_ascii_digit c && leb (n * 10 + (c - b'0')) max then rest else none

-- `s.parse::<uN>().ok()` for the type with this largest value: an optional `+`, then digits.
unfoldable pub parse : ℕ → Text → Option ℕ
unfolding scan
parse max [] = none
parse max (c ∷ s) =
    if c == b'+' then (elim s [ [] ↦ none | d ∷ ds ↦ scan max (d ∷ ds) 0 ]) else scan max (c ∷ s) 0

abbrev pub u16_max : ℕ
u16_max = 2 ^ 16 - 1

abbrev pub u32_max : ℕ
u32_max = 2 ^ 32 - 1

abbrev pub u64_max : ℕ
u64_max = 2 ^ 64 - 1

abbrev pub IsDigit : ℕ → Type 0
IsDigit c = (b'0' ≤ c) × (c ≤ b'9')

scan-digits :
    (k n max : ℕ) (rest : Text)
    → n < 10 ^ k
    → n ≤ max
    → scan max (digits k n rest) 0 ≡ scan max rest n
unfolding digits scan
scan-digits zero n max rest lt le = let e : n ≡ 0 = omega arith in rw e
scan-digits (suc k) n max rest lt le =
    ground (arith, scan-digits k (n / 10) max ((b'0' + n % 10) ∷ rest))

-- What `digits` writes in front: at least one digit, and digits only.
abbrev Digits : Text → Text → Type 0
Digits rest t = (d : ℕ) × (ds : Text) × (t ≡ d ∷ (ds ++ rest)) × All IsDigit (d ∷ ds)

Digits-snoc : (d : ℕ) (rest t : Text) → IsDigit d → Digits (d ∷ rest) t → Digits rest t
Digits-snoc d rest t h (e, es, eq, all) = (
  e,
  es ++ d ∷ [],
  rw (append_assoc es (d ∷ []) rest) eq,
  (all.0, All-append IsDigit es _ all.1 (h, tt)),
)

digits-Digits : (k n : ℕ) (rest : Text) → Digits rest (digits (suc k) n rest)
unfolding digits
digits-Digits zero n rest = elim (Bool-cases (ltb n 10)) [
  | inl one ↦ (b'0' + n, [], rw one, (ground arith, tt))
  | inr more ↦ (b'0' + n % 10, [], rw more, (omega arith, tt))
]
digits-Digits (suc k) n rest = elim (Bool-cases (ltb n 10)) [
  | inl one ↦ (b'0' + n, [], rw one, (ground arith, tt))
  | inr more ↦ rw more (
      Digits-snoc (b'0' + n % 10) rest _ (omega arith)
        (digits-Digits k (n / 10) ((b'0' + n % 10) ∷ rest)))
]

-- The decimal form of a number is one or more digits.
pub show-Digits : (n : ℕ) → (d : ℕ) × (ds : Text) × (show n ≡ d ∷ ds) × All IsDigit (d ∷ ds)
unfolding show
show-Digits n =
    let (d, ds, eq, all) = digits-Digits 39 n [] in (d, ds, rw (← append-nil ds) eq, all)

parse-scan : (max d : ℕ) (ds : Text) → IsDigit d → parse max (d ∷ ds) ≡ scan max (d ∷ ds) 0
unfolding parse
parse-scan max d ds h = ground arith

-- The digits of a number that fits give it back.
pub scan-show : (n max : ℕ) → n < 10 ^ 40 → n ≤ max → scan max (show n) 0 ≡ some n
unfolding show scan
scan-show n max lt le = scan-digits 40 n max [] lt le

-- Every number that fits is read back from its decimal form.
pub parse-show : (n max : ℕ) → n < 10 ^ 40 → n ≤ max → parse max (show n) ≡ some n
unfolding show scan
parse-show n max lt le =
    let (d, ds, eq, all) = show-Digits n in
    ap (parse max) eq
    ∙ parse-scan max d ds all.0
    ∙ ap (λ t. scan max t 0) (sym eq)
    ∙ scan-digits 40 n max [] lt le
