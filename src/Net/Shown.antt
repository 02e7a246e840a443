-- ===== src/Net/Shown.antt =====
-- `Display` of `IpAddr`.
use slmodem_sip_bridge.Base.{
  ℕ, zero, suc, ◌+◌, ◌-◌, ◌/◌, ◌%◌, List, [], ◌∷◌, ◌++◌, ◌&&◌, ltb, ◌==◌, if◌then◌else◌, take, drop,
  Option, none, some,
}
use slmodem_sip_bridge.Net.{IpAddr, v4, v6}
use slmodem_sip_bridge.Text.Number.{show}
use slmodem_sip_bridge.Text.{Text, codes}

unfoldable pub show_v4 : ℕ → ℕ → ℕ → ℕ → Text
show_v4 a b c d = show a ++ (b'.' ∷ (show b ++ (b'.' ∷ (show c ++ (b'.' ∷ show d)))))

unfoldable pub hex_digit : ℕ → ℕ
hex_digit d = if ltb d 10 then b'0' + d else b'a' + (d - 10)

-- `{:x}` of a segment: at most four digits.
unfoldable pub hex_digits : ℕ → ℕ → Text → Text
unfolding hex_digit
hex_digits zero n rest = rest
hex_digits (suc k) n rest =
    let more = hex_digits k (n / 16) (hex_digit (n % 16) ∷ rest) in
    if ltb n 16 then hex_digit n ∷ rest else more

abbrev pub show_segment : ℕ → Text
show_segment n = hex_digits 4 n []

-- `fmt_subslice`.
unfoldable pub show_segments : List ℕ → Text
unfolding hex_digits
show_segments [] = []
show_segments (s ∷ []) = show_segment s
show_segments (s ∷ t ∷ rest) = show_segment s ++ (b':' ∷ show_segments (t ∷ rest))

pub record Span : Type 0 where
  pub start : ℕ
  pub size : ℕ

-- The loop for the longest span of zero segments.
unfoldable pub longest_zeros : List ℕ → ℕ → Span → Span → Span
longest_zeros [] i longest current = longest
longest_zeros (s ∷ rest) i longest current =
    let start = if current.size == 0 then i else current.start in
    let grown : Span = record { start = start; size = current.size + 1 } in
    longest_zeros rest (i + 1) (if s == 0 && ltb longest.size grown.size then grown else longest)
      (if s == 0 then grown else record { start = 0; size = 0 })

abbrev pub no_span : Span
no_span = record { start = 0; size = 0 }

unfoldable pub show_v6 : List ℕ → Text
unfolding show_segments longest_zeros
show_v6 segments =
    let zeroes = longest_zeros segments 0 no_span no_span in
    if ltb 1 zeroes.size
    then show_segments (take zeroes.start segments)
      ++ (b':' ∷ b':' ∷ show_segments (drop (zeroes.start + zeroes.size) segments))
    else show_segments segments

-- `to_ipv4_mapped`: the last two segments of `::ffff:a.b.c.d`.
unfoldable pub to_ipv4_mapped : List ℕ → Option (ℕ × ℕ)
to_ipv4_mapped (a ∷ b ∷ c ∷ d ∷ e ∷ m ∷ g ∷ h ∷ []) =
    if a == 0 && b == 0 && c == 0 && d == 0 && e == 0 && m == 0xffff then some (g, h) else none
to_ipv4_mapped _ = none

-- `format!("{ip}")`. An IPv4-mapped V6 address shows its last two segments as a V4 address.
unfoldable pub show_ip : IpAddr → Text
unfolding show_v4 show_v6 to_ipv4_mapped
show_ip (v4 a b c d) = show_v4 a b c d
show_ip (v6 segments) = elim (to_ipv4_mapped segments) [
  | some (g, h) ↦ codes "::ffff:" ++ show_v4 (g / 256) (g % 256) (h / 256) (h % 256)
  | none ↦ show_v6 segments
]
