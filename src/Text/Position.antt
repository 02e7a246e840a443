-- ===== src/Text/Position.antt =====
-- Where `find` points, a slice is at a character boundary: it cuts the text around the match.
use slmodem_sip_bridge.Base.{
  ℕ, zero, suc, ◌+◌, ◌-◌, ◌≤◌, ◌<◌, [], ◌∷◌, ◌++◌, Bool, true, false, Option, none, some, leb, ◌≡◌,
  inl, inr, refl, ap, ◌∙◌, arith, Bool-cases, Option-cases, All,
}
use slmodem_sip_bridge.Text.{Text, len_utf8, len, map_some, split_at, strip_prefix, find, find_char}

pub len_utf8_pos : (c : ℕ) → 0 < len_utf8 c
len_utf8_pos c = ground arith

pub len-append : (s t : Text) → len (s ++ t) ≡ len s + len t
len-append [] t = omega arith
len-append (c ∷ s) t = omega (arith, len-append s t)

split_at_step :
    (c : ℕ) (s : Text) (m : ℕ)
    → len_utf8 c ≤ m
    → split_at (c ∷ s) m ≡ map_some (λ (a, b). (c ∷ a, b)) (split_at s (m - len_utf8 c))
unfolding split_at
split_at_step c s zero h = absurd (omega (arith, h, len_utf8_pos c))
split_at_step c s (suc m) h = let e : leb (len_utf8 c) (suc m) ≡ true = ground arith in rw e

split_at_suc :
    (c : ℕ) (s : Text) (n : ℕ)
    → split_at (c ∷ s) (len_utf8 c + n) ≡ map_some (λ (a, b). (c ∷ a, b)) (split_at s n)
split_at_suc c s n =
    let e : len_utf8 c + n - len_utf8 c ≡ n = omega arith in
    split_at_step c s (len_utf8 c + n) (omega arith) ∙ rw e

-- The offset after a prefix is a boundary, and the slices there are the prefix and the rest.
pub split_at-len : (s t : Text) → split_at (s ++ t) (len s) ≡ some (s, t)
split_at-len [] t = unfold split_at in refl
split_at-len (c ∷ s) t = rw (split_at_suc c (s ++ t) (len s)) (rw (split_at-len s t))

pub strip_prefix_lem : (s p : Text) (t : Text) → strip_prefix s p ≡ some t → s ≡ p ++ t
unfolding strip_prefix
strip_prefix_lem s [] t h = cc
strip_prefix_lem [] (p ∷ ps) t h = cc
strip_prefix_lem (c ∷ s) (p ∷ ps) t h = ground (arith, strip_prefix_lem s ps t)

pub strip_prefix-append : (p t : Text) → strip_prefix (p ++ t) p ≡ some t
unfolding strip_prefix
strip_prefix-append [] t = refl
strip_prefix-append (c ∷ p) t = ground (arith, strip_prefix-append p t)

pub map_some-eq_some {ℓ κ} :
    {A : Type ℓ} {B : Type κ} (f : A → B) (o : Option A) (b : B)
    → map_some f o ≡ some b
    → (a : A) × (o ≡ some a) × (f a ≡ b)
map_some-eq_some f none b h = cc
map_some-eq_some f (some a) b h = (a, refl, cc)

-- Where a match stands: the text around it, and the offset as the length of what is before it.
abbrev pub MatchAt : Text → Text → ℕ → Type 0
MatchAt s p n = (before : Text) × (after : Text) × (s ≡ before ++ (p ++ after)) × (n ≡ len before)

MatchAt-cons : (c : ℕ) (s p : Text) (n : ℕ) → MatchAt s p n → MatchAt (c ∷ s) p (len_utf8 c + n)
MatchAt-cons c s p n (before, after, split, at) = (c ∷ before, after, ap (◌∷◌ c) split, omega arith)

-- `find` gives the byte length of what stands before a match.
-- The pieces of a cut are the text.
pub split_at_sound : (s : Text) (n : ℕ) (p : Text × Text) → split_at s n ≡ some p → s ≡ p.0 ++ p.1
unfolding split_at
split_at_sound s zero p h = let e : ([], s) ≡ p = cc in ap (λ q. q.0 ++ q.1) e
split_at_sound [] (suc n) p h = absurd (cc)
split_at_sound (c ∷ s) (suc n) p h = elim (Bool-cases (leb (len_utf8 c) (suc n))) [
  | inl fits ↦
      let (q, e, at) =
        map_some-eq_some (λ (a, b). (c ∷ a, b)) (split_at s (suc n - len_utf8 c)) p
          (rw fits at h) in
      ap (◌∷◌ c) (split_at_sound s (suc n - len_utf8 c) q e) ∙ ap (λ r. r.0 ++ r.1) at
  | inr over ↦ absurd (let none_left : none ≡ some p = rw over at h in cc)
]

pub find_sound : (s p : Text) (n : ℕ) → find s p ≡ some n → MatchAt s p n
unfolding find
find_sound [] [] n h = ([], [], refl, unfold strip_prefix in ground arith)
find_sound [] (q ∷ p) n h = unfold strip_prefix in cc
find_sound (c ∷ s) p n h = elim (Option-cases (strip_prefix (c ∷ s) p)) [
  | inl other ↦
      let (m, found, at) = map_some-eq_some (λ n. len_utf8 c + n) (find s p) n (ground arith) in
      rw (← at) (MatchAt-cons c s p m (find_sound s p m found))
  | inr (t, e) ↦ ([], t, strip_prefix_lem (c ∷ s) p t e, ground arith)
]

-- `find` with a test: everything before the match fails it.
abbrev pub CharAt : (ℕ → Bool) → Text → ℕ → Type 0
CharAt p s n =
    (before : Text) × (c : ℕ) × (after : Text) × (s ≡ before ++ (c ∷ after))
    × (n ≡ len before)
    × (p c ≡ true)
    × All (λ b. p b ≡ false) before

pub find_char_sound : (p : ℕ → Bool) (s : Text) (n : ℕ) → find_char p s ≡ some n → CharAt p s n
unfolding find_char
find_char_sound p [] n h = cc
find_char_sound p (c ∷ s) n h = elim (Bool-cases (p c)) [
  | inl found ↦ ([], c, s, refl, ground arith, found, tt)
  | inr other ↦
      let (m, e, at) = map_some-eq_some (λ n. len_utf8 c + n) (find_char p s) n (rw other at h) in
      let (before, d, after, split, place, hit, none_before) = find_char_sound p s m e in
      (c ∷ before, d, after, ap (◌∷◌ c) split, omega arith, hit, (other, none_before))
]

-- A character test that fails everywhere finds nothing, and stops at the first that passes.
pub find_char-append :
    (p : ℕ → Bool) (s : Text) (c : ℕ) (t : Text)
    → All (λ b. p b ≡ false) s
    → p c ≡ true
    → find_char p (s ++ c ∷ t) ≡ some (len s)
unfolding find_char
find_char-append p [] c t h hit = ground arith
find_char-append p (d ∷ s) c t (hd, hs) hit = rw hd (rw (find_char-append p s c t hs hit))

pub find_char-none : (p : ℕ → Bool) (s : Text) → All (λ b. p b ≡ false) s → find_char p s ≡ none
unfolding find_char
find_char-none p [] h = refl
find_char-none p (d ∷ s) (hd, hs) = rw hd (rw (find_char-none p s hs))
