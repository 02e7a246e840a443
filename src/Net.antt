-- ===== src/Net.antt =====
-- `IpAddr` of Rust's standard library: its `FromStr` (the hand-written parser of core::net) and its
-- `Display`. A failed read leaves the input where it was.
pub mod V4
pub mod Word
pub mod Shown
pub mod Socket
use slmodem_sip_bridge.Base.{
  ℕ, zero, suc, ◌+◌, ◌-◌, ◌*◌, ◌/◌, ◌%◌, ◌^◌, List, [], ◌∷◌, ◌++◌, Bool, true, false, not, ◌&&◌,
  Option, none, some, ltb, leb, ◌==◌, if◌then◌else◌, length,
}
use slmodem_sip_bridge.Text.Number.{is_ascii_digit}
use slmodem_sip_bridge.Text.{Text}

-- A V6 address is its eight 16-bit segments.
pub data IpAddr : Type 0 where
  v4 : ℕ → ℕ → ℕ → ℕ → IpAddr
  v6 : List ℕ → IpAddr

pub record SocketAddr : Type 0 where
  pub ip : IpAddr
  pub port : ℕ

-- A read: the value and the text behind it.
abbrev pub Read : Type 0 → Type 0
Read A = Text → Option (A × Text)

infixl 5 ◌>>=◌ ◌>>◌
abbrev pub ◌>>=◌ : {A B : Type 0} → Read A → (A → Read B) → Read B
◌>>=◌ m f s = elim (m s) [ none ↦ none | some (a, s') ↦ f a s' ]

abbrev pub ◌>>◌ : {B : Type 0} → Read (Unit {0}) → Read B → Read B
m >> k = m >>= λ _. k

abbrev pub give : {A : Type 0} → A → Read A
give a s = some (a, s)

abbrev pub require : Bool → Read (Unit {0})
require true s = some (tt, s)
require false s = none

unfoldable pub read_given_char : ℕ → Read (Unit {0})
read_given_char c [] = none
read_given_char c (d ∷ s) = if d == c then some (tt, s) else none

-- `char::to_digit` for the radices 10 and 16.
unfoldable pub to_digit : ℕ → ℕ → Option ℕ
to_digit radix c =
    if is_ascii_digit c
    then some (c - b'0')
    else if radix == 16 && leb b'a' c && leb c b'f'
    then some (c - b'a' + 10)
    else if radix == 16 && leb b'A' c && leb c b'F'
    then some (c - b'A' + 10)
    else none

-- The digits from here on, behind a value and a count; `none` above `max_digits`.
unfoldable pub read_digits : ℕ → ℕ → ℕ → ℕ → Text → Option ((ℕ × ℕ) × Text)
read_digits radix max_digits value count [] = some ((value, count), [])
read_digits radix max_digits value count (c ∷ s) = elim (to_digit radix c) [
  | none ↦ some ((value, count), c ∷ s)
  | some d ↦
      let rest = read_digits radix max_digits (value * radix + d) (count + 1) s in
      if ltb max_digits (count + 1) then none else rest
]

abbrev pub leading_zero : Text → Bool
leading_zero [] = false
leading_zero (c ∷ s) = c == b'0'

unfoldable pub read_number : ℕ → ℕ → Bool → ℕ → Read ℕ
read_number radix max_digits allow_zero_prefix max s =
    let zero_first = leading_zero s in
    elim (read_digits radix max_digits 0 0 s) [
      | none ↦ none
      | some ((value, count), s') ↦
          if count == 0
          then none
          else if not allow_zero_prefix && zero_first && ltb 1 count
          then none
          else if leb value max
          then some (value, s')
          else none
    ]

abbrev pub read_separator : {A : Type 0} → ℕ → ℕ → Read A → Read A
read_separator sep zero inner = inner
read_separator sep (suc i) inner = do read_given_char sep; inner

abbrev pub read_octet : Read ℕ
read_octet = read_number 10 3 false 255

unfoldable pub read_ipv4_addr : Read (ℕ × ℕ × ℕ × ℕ)
unfolding read_given_char
read_ipv4_addr = do
  a ← read_separator b'.' 0 read_octet
  b ← read_separator b'.' 1 read_octet
  c ← read_separator b'.' 2 read_octet
  d ← read_separator b'.' 3 read_octet
  give (a, b, c, d)

-- At most so many groups, from group `i` on, and whether they end in an embedded V4 address.
unfoldable pub read_groups : ℕ → ℕ → Text → (List ℕ × Bool) × Text
unfolding read_number read_digits to_digit read_given_char read_ipv4_addr
read_groups zero i s = (([], false), s)
read_groups (suc n) i s = elim (if ltb 0 n then read_separator b':' i read_ipv4_addr s else none) [
  | some ((a, b, c, d), s') ↦ (((a * 256 + b) ∷ (c * 256 + d) ∷ [], true), s')
  | none ↦ elim (read_separator b':' i (read_number 16 4 true 65535) s) [
    | some (group, s') ↦
        let ((groups, embedded), s'') = read_groups n (suc i) s' in
        ((group ∷ groups, embedded), s'')
    | none ↦ (([], false), s)
  ]
]

abbrev pub zeros : ℕ → List ℕ
zeros zero = []
zeros (suc n) = 0 ∷ zeros n

-- The groups before `::`, the `::`, and the groups behind it.
unfoldable pub read_ipv6_addr : Read (List ℕ)
unfolding read_groups read_given_char
read_ipv6_addr s =
    let ((head, embedded), s') = read_groups 8 0 s in
    if length head == 8
    then some (head, s')
    else if embedded
    then none
    else (do
      read_given_char b':'
      read_given_char b':'
      λ s''.
          let ((tail, _), s''') = read_groups (8 - (length head + 1)) 0 s'' in
          some (head ++ (zeros (8 - length head - length tail) ++ tail), s'''))
        s'

-- `s.parse::<IpAddr>().ok()`: the whole text has to be read.
unfoldable pub parse_ip : Text → Option IpAddr
unfolding read_ipv4_addr read_ipv6_addr
parse_ip s = elim (read_ipv4_addr s) [
  | some ((a, b, c, d), []) ↦ some (v4 a b c d)
  | some (_, _ ∷ _) ↦ none
  | none ↦ elim (read_ipv6_addr s) [
    | some (segments, []) ↦ some (v6 segments)
    | some (_, _ ∷ _) ↦ none
    | none ↦ none
  ]
]
