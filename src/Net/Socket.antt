-- ===== src/Net/Socket.antt =====
-- `FromStr` of `SocketAddr`: the parser of core::net. The scope of a V6 address is read and dropped.
use slmodem_sip_bridge.Base.{
  ℕ, ◌+◌, ◌-◌, ◌*◌, ◌≤◌, ◌<◌, ◌^◌, [], ◌∷◌, ◌++◌, true, Option, none, some, ◌≡◌, refl, ap, ◌∙◌,
  arith, All, length,
}
use slmodem_sip_bridge.Net.{
  v4, v6, SocketAddr, Read, ◌>>=◌, ◌>>◌, give, read_given_char, to_digit, read_digits, read_number,
  read_ipv4_addr, read_ipv6_addr,
}
use slmodem_sip_bridge.Net.Shown.{show_ip, show_v4}
use slmodem_sip_bridge.Net.V4.{read_ipv4_addr-show}
use slmodem_sip_bridge.Text.Number.{IsDigit, scan, show, show-Digits, scan-show}
use slmodem_sip_bridge.Text.{Text}

-- A number of any length below a bound: no digit is one too many.
unfoldable pub read_unsigned : ℕ → Read ℕ
read_unsigned max s = read_number 10 (length s) true max s

unfoldable pub read_port : Read ℕ
read_port = do read_given_char b':'; read_unsigned 65535

-- A scope that cannot be read stays where it is.
unfoldable pub skip_scope_id : Read (Unit {0})
unfolding read_unsigned
skip_scope_id s = elim ((do read_given_char b'%'; read_unsigned 4294967295) s) [
  | some (_, s') ↦ some (tt, s')
  | none ↦ some (tt, s)
]

unfoldable pub read_socket_addr_v4 : Read SocketAddr
unfolding read_port
read_socket_addr_v4 = do
  (a, b, c, d) ← read_ipv4_addr
  port ← read_port
  give (record { ip = v4 a b c d; port = port })

unfoldable pub read_socket_addr_v6 : Read SocketAddr
unfolding read_port skip_scope_id
read_socket_addr_v6 = do
  read_given_char b'['
  segments ← read_ipv6_addr
  skip_scope_id
  read_given_char b']'
  port ← read_port
  give (record { ip = v6 segments; port = port })

-- What has been read of the whole text.
abbrev whole : Option (SocketAddr × Text) → Option SocketAddr
whole (some (addr, [])) = some addr
whole (some (addr, _ ∷ _)) = none
whole none = none

-- `s.parse::<SocketAddr>().ok()`.
unfoldable pub parse_socket_addr : Text → Option SocketAddr
unfolding read_socket_addr_v4 read_socket_addr_v6
parse_socket_addr s = elim (read_socket_addr_v4 s) [
  | some r ↦ whole (some r)
  | none ↦ whole (read_socket_addr_v6 s)
]

-- The digits up to the end of the text, with the value that `parse` has for them.
read_digits-scan :
    (max limit : ℕ) (ds : Text) (value count n : ℕ)
    → All IsDigit ds
    → count + length ds ≤ limit
    → scan max ds value ≡ some n
    → read_digits 10 limit value count ds ≡ some ((n, count + length ds), [])
unfolding read_digits scan to_digit
read_digits-scan max limit [] value count n h le e = ground arith
read_digits-scan max limit (d ∷ ds) value count n (hd, h) le e =
    ground (arith, read_digits-scan max limit ds (value * 10 + (d - b'0')) (count + 1) n)

read_unsigned-show : (n max : ℕ) → n < 10 ^ 40 → n ≤ max → read_unsigned max (show n) ≡ some (n, [])
unfolding read_unsigned read_number
read_unsigned-show n max lt le =
    let (d, ds, eq, all) = show-Digits n in
    let read : read_digits 10 (length (show n)) 0 0 (show n) ≡ some ((n, 0 + length (show n)), []) =
      read_digits-scan max (length (show n)) (show n) 0 0 n (rw eq all) (omega arith)
        (scan-show n max lt le) in
    let some_digits : 0 < length (show n) = rw eq (omega arith) in ground (arith, read, some_digits)

-- A read that succeeds, in front of another.
>>=-some :
    {A B : Type 0} (m : Read A) (f : A → Read B) (s s' : Text) (a : A)
    → m s ≡ some (a, s')
    → (m >>= f) s ≡ f a s'
>>=-some {A} {B} m f s s' a h =
    ap (λ o. elim o as (λ _. Option (B × Text)) [ none ↦ none | some (x, t) ↦ f x t ]) h

read_port-show : (port : ℕ) → port ≤ 65535 → read_port (b':' ∷ show port) ≡ some (port, [])
unfolding read_port read_given_char
read_port-show port le = read_unsigned-show port 65535 (omega arith) le

module _ (a b c d : ℕ) (ha : a ≤ 255) (hb : b ≤ 255) (hc : c ≤ 255) (hd : d ≤ 255) where
  read_socket_addr_v4-show :
      (port : ℕ)
      → port ≤ 65535
      → read_socket_addr_v4 (show_v4 a b c d ++ b':' ∷ show port)
        ≡ some (record { ip = v4 a b c d; port = port }, [])
  unfolding read_socket_addr_v4
  read_socket_addr_v4-show port le =
      >>=-some read_ipv4_addr _ (show_v4 a b c d ++ b':' ∷ show port) (b':' ∷ show port)
        (a, b, c, d) (read_ipv4_addr-show a b c d ha hb hc hd (b':' ∷ show port) refl)
      ∙ >>=-some read_port _ (b':' ∷ show port) [] port (read_port-show port le)

  -- A V4 address and a port, shown as `{ip}:{port}`, are read back.
  pub parse_socket_addr-show_ip :
      (port : ℕ)
      → port ≤ 65535
      → parse_socket_addr (show_ip (v4 a b c d) ++ b':' ∷ show port)
        ≡ some (record { ip = v4 a b c d; port = port })
  unfolding parse_socket_addr show_ip
  parse_socket_addr-show_ip port le = rw (read_socket_addr_v4-show port le, parse_socket_addr) refl
