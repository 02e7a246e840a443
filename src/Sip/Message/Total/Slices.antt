-- ===== src/Sip/Message/Total/Slices.antt =====
-- The parsing helpers that slice at an offset that `find` gave do not panic, on any text.
use mathlib.Core.Path.{subst}
use slmodem_sip_bridge.Base.{
  ℕ, ◌+◌, [], ◌∷◌, ◌++◌, Option, none, some, ◌≡◌, refl, sym, ap, ◌∙◌, arith, if◌then◌else◌, is_nil,
  append_assoc, append-nil,
}
use slmodem_sip_bridge.Base.Outcome.{Outcome}
use slmodem_sip_bridge.Sip.Message.{
  slice, quoted_value, extract_quoted_param, ends_tag, tag_value, extract_tag_param,
  any_sdp_content_type, body_start, body_at, extract_sdp_body,
}
use slmodem_sip_bridge.Text.Position.{split_at-len, len-append, find_sound, find_char_sound}
use slmodem_sip_bridge.Text.Split.{lines}
use slmodem_sip_bridge.Text.{
  Text, codes, len, map_some, split_at, slice_to, slice_from, find, find_char, trim,
}
use slmodem_sip_bridge.Sip.Message.Total.{
  Returns, ok-Returns, bind-Returns, if-Returns, slice-Returns,
}

-- The offset of a match is a character boundary, and so is the one behind it.
cut_before :
    {E : Type 0} (s before after : Text) (n : ℕ)
    → s ≡ before ++ after
    → n ≡ len before
    → Returns (slice {E = E} (slice_to s n))
cut_before s before after n split at = slice-Returns (slice_to s n) before (
    ap (λ p. map_some (λ q. q.0) (split_at p n)) split
    ∙ ap (λ k. map_some (λ q. q.0) (split_at (before ++ after) k)) at
    ∙ ap (map_some (λ q. q.0)) (split_at-len before after))

cut_behind :
    {E : Type 0} (s before after : Text) (n : ℕ)
    → s ≡ before ++ after
    → n ≡ len before
    → Returns (slice {E = E} (slice_from s n))
cut_behind s before after n split at = slice-Returns (slice_from s n) after (
    ap (λ p. map_some (λ q. q.1) (split_at p n)) split
    ∙ ap (λ k. map_some (λ q. q.1) (split_at (before ++ after) k)) at
    ∙ ap (map_some (λ q. q.1)) (split_at-len before after))

find-cut_before :
    {E : Type 0} (s p : Text) (n : ℕ) → find s p ≡ some n → Returns (slice {E = E} (slice_to s n))
find-cut_before s p n h =
    let (before, after, split, at) = find_sound s p n h in
    cut_before s before (p ++ after) n split at

find-cut_behind :
    {E : Type 0} (s p : Text) (n : ℕ)
    → find s p ≡ some n
    → Returns (slice {E = E} (slice_from s (n + len p)))
find-cut_behind s p n h =
    let (before, after, split, at) = find_sound s p n h in
    cut_behind s (before ++ p) after (n + len p) (split ∙ sym (append_assoc before p after))
      (omega (arith, len-append before p))

-- A match on what `find` gave.
option-Returns :
    {E A : Type 0} (o : Option ℕ) (m : Outcome E A) (f : ℕ → Outcome E A)
    → (o ≡ none → Returns m)
    → ((n : ℕ) → o ≡ some n → Returns (f n))
    → Returns (elim o [ none ↦ m | some n ↦ f n ])
option-Returns none m f h k = h refl
option-Returns (some n) m f h k = k n refl

quoted_value-Returns : {E : Type 0} (rest : Text) → Returns (quoted_value {E = E} rest)
unfolding quoted_value
quoted_value-Returns rest =
    option-Returns (find rest (b'"' ∷ [])) _ _ (λ _. ok-Returns none)
      (λ n e.
        bind-Returns (slice (slice_to rest n)) _ (find-cut_before rest (b'"' ∷ []) n e)
          (λ value _. ok-Returns (some value)))

pub extract_quoted_param-Returns :
    {E : Type 0} (header param : Text) → Returns (extract_quoted_param {E = E} header param)
unfolding extract_quoted_param
extract_quoted_param-Returns header param =
    let search = param ++ (b'=' ∷ b'"' ∷ []) in
    option-Returns (find header search) _ _ (λ _. ok-Returns none)
      (λ n e.
        bind-Returns (slice (slice_from header (n + len search))) _
          (find-cut_behind header search n e) (λ rest _. quoted_value-Returns rest))

tag_value-Returns : {E : Type 0} (rest : Text) → Returns (tag_value {E = E} rest)
unfolding tag_value
tag_value-Returns {E} rest =
    bind-Returns (slice (slice_to rest _)) _ (go (find_char ends_tag rest) refl)
      (λ value _. ok-Returns (if is_nil (trim value) then none else some (trim value)))
  where
    go :
        (o : Option ℕ)
        → find_char ends_tag rest ≡ o
        → Returns (slice {E = E} (slice_to rest (elim o [ none ↦ len rest | some n ↦ n ])))
    go none e = cut_before rest rest [] (len rest) (sym (append-nil rest)) refl
    go (some n) e =
        let (before, c, after, split, at, _, _) = find_char_sound ends_tag rest n e in
        cut_before rest before (c ∷ after) n split at

pub extract_tag_param-Returns :
    {E : Type 0} (header : Text) → Returns (extract_tag_param {E = E} header)
unfolding extract_tag_param
extract_tag_param-Returns header =
    option-Returns (find header (codes "tag=")) _ _ (λ _. ok-Returns none)
      (λ n e.
        bind-Returns (slice (slice_from header (n + len (codes "tag=")))) _
          (find-cut_behind header (codes "tag=") n e) (λ rest _. tag_value-Returns rest))

body_at-Returns :
    {E : Type 0} (msg : Text) (start : Option ℕ)
    → body_start msg ≡ start
    → Returns (body_at {E = E} msg start)
unfolding body_at body_start
body_at-Returns msg none h = ok-Returns none
body_at-Returns {E} msg (some start) h =
    bind-Returns (slice (slice_from msg start)) _ cut
      (λ body _. ok-Returns (if is_nil (trim body) then none else some body))
  where
    crlf : Text
    crlf = b'\r' ∷ b'\n' ∷ b'\r' ∷ b'\n' ∷ []

    lf : Text
    lf = b'\n' ∷ b'\n' ∷ []

    second :
        (o : Option ℕ)
        → find msg lf ≡ o
        → ◌≡◌ {A = Option ℕ} (elim o [ some pos ↦ some (pos + 2) | none ↦ none ]) (some start)
        → Returns (slice {E = E} (slice_from msg start))
    second none e k = absurd (cc)
    second (some n) e k =
        let same : n + len lf ≡ start = ground arith in
        subst (λ i. Returns (slice {E = E} (slice_from msg i))) same (find-cut_behind msg lf n e)

    first :
        (o : Option ℕ)
        → find msg crlf ≡ o
        → ◌≡◌ {A = Option ℕ}
            (elim o [
              | some pos ↦ some (pos + 4)
              | none ↦ elim (find msg lf) [ some pos ↦ some (pos + 2) | none ↦ none ]
            ])
            (some start)
        → Returns (slice {E = E} (slice_from msg start))
    first none e k = second (find msg lf) refl k
    first (some n) e k =
        let same : n + len crlf ≡ start = ground arith in
        subst (λ i. Returns (slice {E = E} (slice_from msg i))) same (find-cut_behind msg crlf n e)

    cut : Returns (slice {E = E} (slice_from msg start))
    cut = first (find msg crlf) refl h

-- The body of any message is found without a panic.
pub extract_sdp_body-Returns : {E : Type 0} (msg : Text) → Returns (extract_sdp_body {E = E} msg)
unfolding extract_sdp_body
extract_sdp_body-Returns msg =
    if-Returns (any_sdp_content_type (lines msg)) _ _
      (λ _. body_at-Returns msg (body_start msg) refl) (λ _. ok-Returns none)
