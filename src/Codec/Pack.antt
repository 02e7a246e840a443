-- ===== src/Codec/Pack.antt =====
-- The bit operations of the codec as arithmetic, each checked over the range that it works on.
use slmodem_sip_bridge.Base.{
  ℕ, ◌+◌, ◌*◌, ◌/◌, ◌%◌, ◌^◌, ◌≤◌, ◌<◌, bit_and, bit_or, true, ◌&&◌, ◌||◌, ◌≡◌, refl, arith, leb,
  ltb, ◌==◌, ==_iff, every_under, every_under-true, get_or,
}
use slmodem_sip_bridge.Codec.{exp_lut}

bit_and-0xff_table : every_under 256 (λ x. bit_and x 0xff == x) ≡ true
unfolding every_under
bit_and-0xff_table = refl

pub bit_and-0xff : (x : ℕ) → x < 256 → bit_and x 0xff ≡ x
bit_and-0xff x h = (==_iff _ x).0 (every_under-true 256 _ bit_and-0xff_table x h)

bit_and-0x80_table : every_under 256 (λ x. bit_and x 0x80 == 128 * (x / 128)) ≡ true
unfolding every_under
bit_and-0x80_table = refl

pub bit_and-0x80 : (x : ℕ) → x < 256 → bit_and x 0x80 ≡ 128 * (x / 128)
bit_and-0x80 x h = (==_iff _ _).0 (every_under-true 256 _ bit_and-0x80_table x h)

bit_and-0x0f_table : every_under 4096 (λ x. bit_and x 0x0f == x % 16) ≡ true
unfolding every_under
bit_and-0x0f_table = refl

pub bit_and-0x0f : (x : ℕ) → x < 4096 → bit_and x 0x0f ≡ x % 16
bit_and-0x0f x h = (==_iff _ _).0 (every_under-true 4096 _ bit_and-0x0f_table x h)

bit_and-0x70_table : every_under 256 (λ x. bit_and x 0x70 == 16 * (x / 16 % 8)) ≡ true
unfolding every_under
bit_and-0x70_table = refl

pub bit_and-0x70 : (x : ℕ) → x < 256 → bit_and x 0x70 ≡ 16 * (x / 16 % 8)
bit_and-0x70 x h = (==_iff _ _).0 (every_under-true 256 _ bit_and-0x70_table x h)

-- Sign, segment and mantissa occupy different bits.
bit_or_table :
    every_under 256 (λ x. bit_or (bit_or (128 * (x / 128)) (16 * (x / 16 % 8))) (x % 16) == x)
    ≡ true
unfolding every_under
bit_or_table = refl

pub bit_or_fields :
    (s e m : ℕ)
    → s < 2
    → e < 8
    → m < 16
    → bit_or (bit_or (128 * s) (16 * e)) m ≡ 128 * s + 16 * e + m
bit_or_fields s e m hs he hm =
    let x = 128 * s + 16 * e + m in
    let whole = (==_iff _ x).0 (every_under-true 256 _ bit_or_table x (omega arith)) in
    let sign : x / 128 ≡ s = omega arith in
    let segment : x / 16 % 8 ≡ e = omega arith in
    let mantissa : x % 16 ≡ m = omega arith in rw (sign, segment, mantissa) at whole

-- `exp_lut` at a position that is not 0 is the position's binary logarithm, rounded down.
exp_lut_table :
    every_under 256 (λ x.
      let e = get_or exp_lut x 0 in x == 0 || (leb e 7 && leb (2 ^ e) x && ltb x (2 ^ (e + 1))))
    ≡ true
unfolding every_under exp_lut
exp_lut_table = refl

pub exp_lut_log2 :
    (x : ℕ)
    → 0 < x
    → x < 256
    → (get_or exp_lut x 0 ≤ 7) × (2 ^ get_or exp_lut x 0 ≤ x) × (x < 2 ^ (get_or exp_lut x 0 + 1))
exp_lut_log2 x h lt = ground (arith, every_under-true 256 _ exp_lut_table x lt)
