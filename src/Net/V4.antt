-- ===== src/Net/V4.antt =====
-- A V4 address is read back from its dotted decimal form.
use slmodem_sip_bridge.Base.{
  ℕ, ◌+◌, ◌*◌, ◌/◌, ◌%◌, ◌≤◌, [], ◌∷◌, ◌++◌, some, ltb, false, if◌then◌else◌, ◌≡◌, refl, sym, ap,
  ◌∙◌, arith, Bool-cases, inl, inr, append-nil, append_assoc,
}
use slmodem_sip_bridge.Net.{
  v4, read_digits, to_digit, read_number, read_octet, read_ipv4_addr, parse_ip,
}
use slmodem_sip_bridge.Net.Shown.{show_v4, show_ip}
use slmodem_sip_bridge.Text.Number.{show, digits, is_ascii_digit}
use slmodem_sip_bridge.Text.{Text}

show_octet :
    (a : ℕ)
    → a ≤ 255
    → show a ≡ (
        if ltb a 10
        then (b'0' + a) ∷ []
        else if ltb a 100
        then (b'0' + a / 10) ∷ (b'0' + a % 10) ∷ []
        else (b'0' + a / 10 / 10) ∷ (b'0' + a / 10 % 10) ∷ (b'0' + a % 10) ∷ [])
unfolding show digits
show_octet a h = ground arith

-- What follows a number: the end, or another character than a digit.
abbrev pub Stops : Text → Type 0
Stops [] = Unit
Stops (c ∷ s) = is_ascii_digit c ≡ false

read_digits_stop :
    (value count : ℕ) (s : Text)
    → Stops s
    → read_digits 10 3 value count s ≡ some ((value, count), s)
unfolding read_digits to_digit
read_digits_stop value count [] h = refl
read_digits_stop value count (c ∷ s) h = ground arith

read_digits_step :
    (d value count : ℕ) (s : Text)
    → d ≤ 9
    → count ≤ 2
    → read_digits 10 3 value count ((b'0' + d) ∷ s)
      ≡ read_digits 10 3 (value * 10 + d) (count + 1) s
unfolding read_digits to_digit
read_digits_step d value count s hd hc = ground arith

pub read_octet-show :
    (a : ℕ) (s : Text) → a ≤ 255 → Stops s → read_octet (show a ++ s) ≡ some (a, s)
unfolding read_number
read_octet-show a s h hs = elim (Bool-cases (ltb a 10)) [
  | inl one ↦
      rw (show_octet a h, one)
        (ground (arith, read_digits_step a 0 0 s, read_digits_stop (0 * 10 + a) (0 + 1) s))
  | inr more ↦ elim (Bool-cases (ltb a 100)) [
    | inl two ↦
        let x = a / 10 in
        let y = a % 10 in
        let n = 0 * 10 + x in
        rw (show_octet a h, more, two)
          (ground (
            arith,
            read_digits_step x 0 0 ((b'0' + y) ∷ s),
            read_digits_step y n (0 + 1) s,
            read_digits_stop (n * 10 + y) (0 + 1 + 1) s,
          ))
    | inr three ↦
        let x = a / 10 / 10 in
        let y = a / 10 % 10 in
        let z = a % 10 in
        let n = 0 * 10 + x in
        let k = n * 10 + y in
        rw (show_octet a h, more, three)
          (ground (
            arith,
            read_digits_step x 0 0 ((b'0' + y) ∷ (b'0' + z) ∷ s),
            read_digits_step y n (0 + 1) ((b'0' + z) ∷ s),
            read_digits_step z k (0 + 1 + 1) s,
            read_digits_stop (k * 10 + z) (0 + 1 + 1 + 1) s,
          ))
  ]
]

show_v4-append :
    (a b c d : ℕ) (s : Text)
    → show_v4 a b c d ++ s ≡ show a ++ b'.' ∷ (show b ++ b'.' ∷ (show c ++ b'.' ∷ (show d ++ s)))
unfolding show_v4
show_v4-append a b c d s = simp append_assoc refl

module _ (a b c d : ℕ) (ha : a ≤ 255) (hb : b ≤ 255) (hc : c ≤ 255) (hd : d ≤ 255) where
  pub read_ipv4_addr-show :
      (s : Text) → Stops s → read_ipv4_addr (show_v4 a b c d ++ s) ≡ some ((a, b, c, d), s)
  unfolding read_ipv4_addr
  read_ipv4_addr-show s hs =
      let last = show d ++ s in
      let third = show c ++ b'.' ∷ last in
      let second = show b ++ b'.' ∷ third in
      rw (show_v4-append a b c d s) (
        ground (
          arith,
          read_octet-show a (b'.' ∷ second) ha refl,
          read_octet-show b (b'.' ∷ third) hb refl,
          read_octet-show c (b'.' ∷ last) hc refl,
          read_octet-show d s hd hs,
        ))

  read_ipv4_addr-show_v4 : read_ipv4_addr (show_v4 a b c d) ≡ some ((a, b, c, d), [])
  read_ipv4_addr-show_v4 =
      ap read_ipv4_addr (sym (append-nil (show_v4 a b c d))) ∙ read_ipv4_addr-show [] tt

  -- A V4 address whose four parts are octets is read back from its dotted decimal form.
  pub parse_ip-show_ip_v4 : parse_ip (show_ip (v4 a b c d)) ≡ some (v4 a b c d)
  unfolding parse_ip show_ip
  parse_ip-show_ip_v4 = rw (read_ipv4_addr-show_v4, parse_ip)
