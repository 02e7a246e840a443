-- ===== src/Text.antt =====
-- The `str` operations of Rust's standard library that the bridge uses. A text is the list of its
-- characters (Unicode scalar values); positions are byte offsets into its UTF-8 form, and a slice
-- that is not at a character boundary, or out of range, is a panic (`none`).
pub mod Split
pub mod Utf8
pub mod Number
pub mod Position
pub mod Lines
pub mod Equal
pub mod Ascii
mod Tests
use Prim.Native.Char.{code}
use Prim.Native.String.{String}
use slmodem_sip_bridge.Base.{
  ℕ, zero, suc, ◌+◌, ◌-◌, List, [], ◌∷◌, ◌++◌, Bool, true, false, not, ◌&&◌, ◌||◌, Option, none,
  some, ltb, leb, ◌==◌, if◌then◌else◌, is_nil,
}

abbrev pub Text : Type 0
Text = List ℕ

-- A text literal.
abbrev pub codes : String → Text
codes String.[] = []
codes (String.◌∷◌ c s) = code c ∷ codes s

-- `char::len_utf8`.
abbrev pub len_utf8 : ℕ → ℕ
len_utf8 c = if ltb c 0x80 then 1 else if ltb c 0x800 then 2 else if ltb c 0x10000 then 3 else 4

-- `str::len`, in bytes.
abbrev pub len : Text → ℕ
len [] = 0
len (c ∷ s) = len_utf8 c + len s

module _ {ℓ} {A : Type ℓ} where
  abbrev pub map_some {κ} : {B : Type κ} → (A → B) → Option A → Option B
  map_some f none = none
  map_some f (some a) = some (f a)

-- `str::split_at`, at a byte offset.
unfoldable pub split_at : Text → ℕ → Option (Text × Text)
split_at s zero = some ([], s)
split_at [] (suc n) = none
split_at (c ∷ s) (suc n) =
    let rest = split_at s (suc n - len_utf8 c) in
    if leb (len_utf8 c) (suc n) then map_some (λ (a, b). (c ∷ a, b)) rest else none

-- `&s[..n]` and `&s[n..]`.
abbrev pub slice_to : Text → ℕ → Option Text
slice_to s n = map_some (λ p. p.0) (split_at s n)

abbrev pub slice_from : Text → ℕ → Option Text
slice_from s n = map_some (λ p. p.1) (split_at s n)

-- `==` on texts.
unfoldable pub text_eq : Text → Text → Bool
text_eq [] [] = true
text_eq (a ∷ s) (b ∷ t) = a == b && text_eq s t
text_eq _ _ = false

unfoldable pub strip_prefix : Text → Text → Option Text
strip_prefix s [] = some s
strip_prefix [] (p ∷ ps) = none
strip_prefix (c ∷ s) (p ∷ ps) = let rest = strip_prefix s ps in if c == p then rest else none

abbrev pub starts_with : Text → Text → Bool
starts_with s p = elim (strip_prefix s p) [ none ↦ false | some _ ↦ true ]

-- `str::find` for a text: the byte offset of the first match.
unfoldable pub find : Text → Text → Option ℕ
find [] p = if starts_with [] p then some 0 else none
find (c ∷ s) p =
    let later = map_some (λ n. len_utf8 c + n) (find s p) in
    if starts_with (c ∷ s) p then some 0 else later

-- `str::find` for a test on characters.
unfoldable pub find_char : (ℕ → Bool) → Text → Option ℕ
find_char p [] = none
find_char p (c ∷ s) =
    let later = map_some (λ n. len_utf8 c + n) (find_char p s) in if p c then some 0 else later

-- `str::contains`.
abbrev pub contains : Text → Text → Bool
contains s p = elim (find s p) [ none ↦ false | some _ ↦ true ]

-- `to_ascii_lowercase`, for a character and for a text.
unfoldable pub ascii_lower : ℕ → ℕ
ascii_lower c = if leb b'A' c && leb c b'Z' then c + 32 else c

unfoldable pub to_ascii_lowercase : Text → Text
to_ascii_lowercase [] = []
to_ascii_lowercase (c ∷ s) = ascii_lower c ∷ to_ascii_lowercase s

abbrev pub eq_ignore_ascii_case : Text → Text → Bool
eq_ignore_ascii_case s t = text_eq (to_ascii_lowercase s) (to_ascii_lowercase t)

-- `char::is_whitespace`: Unicode's White_Space.
unfoldable pub is_whitespace : ℕ → Bool
is_whitespace c =
    c == 0x20
    || (leb 0x09 c && leb c 0x0d)
    || c == 0x85
    || c == 0xa0
    || c == 0x1680
    || (leb 0x2000 c && leb c 0x200a)
    || c == 0x2028
    || c == 0x2029
    || c == 0x202f
    || c == 0x205f
    || c == 0x3000

-- `trim_start_matches` for a test on characters.
unfoldable pub trim_start_matches : (ℕ → Bool) → Text → Text
trim_start_matches p [] = []
trim_start_matches p (c ∷ s) = let rest = trim_start_matches p s in if p c then rest else c ∷ s

unfoldable pub trim_end : Text → Text
trim_end [] = []
trim_end (c ∷ s) = let rest = trim_end s in if is_nil rest && is_whitespace c then [] else c ∷ rest

-- `str::trim`.
abbrev pub trim : Text → Text
trim s = trim_end (trim_start_matches is_whitespace s)
