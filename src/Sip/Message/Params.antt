-- ===== src/Sip/Message/Params.antt =====
-- What `extract_quoted_param` finds in a header that is written as keys and quoted values.
use mathlib.Core.Path.{subst}
use slmodem_sip_bridge.Base.{
  ℕ, ◌+◌, List, [], ◌∷◌, ◌++◌, Bool, true, false, ◌||◌, Option, none, some, if◌then◌else◌, ◌≡◌, ◌≢◌,
  refl, sym, ap, ◌∙◌, arith, inl, inr, All, All-append, Bool-cases, append_assoc,
}
use slmodem_sip_bridge.Base.Outcome.{Outcome, ok, ◌>>=◌}
use slmodem_sip_bridge.Sip.Message.Response.{find_cons, find_here}
use slmodem_sip_bridge.Sip.Message.{slice, quoted_value, extract_quoted_param}
use slmodem_sip_bridge.Text.Equal.{text_eq_iff}
use slmodem_sip_bridge.Text.Position.{split_at-len, len-append}
use slmodem_sip_bridge.Text.{
  Text, len, len_utf8, map_some, slice_from, text_eq, strip_prefix, starts_with, find,
}

abbrev quote : Text
quote = b'"' ∷ []

-- A text without a quote.
abbrev pub NoQuote : Text → Type 0
NoQuote s = All (λ c. c ≢ b'"') s

-- `str::ends_with`.
unfoldable pub ends_with : Text → Text → Bool
ends_with [] p = text_eq [] p
ends_with (c ∷ s) p = let later = ends_with s p in text_eq (c ∷ s) p || later

-- A header as its parameters, each what stands in front of its quote, and its value; and what
-- stands behind the last of them.
unfoldable pub written : List (Text × Text) → Text → Text
written [] tail = tail
written ((key, value) ∷ params) tail = key ++ b'"' ∷ (value ++ b'"' ∷ written params tail)

-- The value of the first parameter whose key ends in the name.
unfoldable pub param : Text → List (Text × Text) → Option Text
param name [] = none
param name ((key, value) ∷ params) =
    let later = param name params in if ends_with key name then some value else later

-- Neither a key nor a value has a quote, and a value does not end like a key of that name.
abbrev pub IsParam : Text → Text × Text → Type 0
IsParam name (key, value) = NoQuote key × NoQuote value × (ends_with value name ≡ false)

strip_prefix-quote :
    (s p rest : Text)
    → NoQuote s
    → NoQuote p
    → starts_with (s ++ b'"' ∷ rest) (p ++ quote) ≡ text_eq s p
unfolding strip_prefix text_eq
strip_prefix-quote [] [] rest hs hp = refl
strip_prefix-quote [] (b ∷ p) rest hs hp = ground arith
strip_prefix-quote (c ∷ s) [] rest hs hp = ground arith
strip_prefix-quote (c ∷ s) (b ∷ p) rest (hc, hs) (hb, hp) =
    ground (arith, strip_prefix-quote s p rest hs hp)

-- The search for a key and a quote, `search` of `extract_quoted_param` without its quote being `key`.
not_here :
    (s key rest : Text)
    → NoQuote s
    → NoQuote key
    → text_eq s key ≡ false
    → strip_prefix (s ++ b'"' ∷ rest) (key ++ quote) ≡ none
not_here s key rest hs hk h = ground (arith, strip_prefix-quote s key rest hs hk)

find_behind :
    (s key rest : Text)
    → NoQuote s
    → NoQuote key
    → ends_with s key ≡ false
    → find (s ++ b'"' ∷ rest) (key ++ quote)
      ≡ map_some (λ n. len s + 1 + n) (find rest (key ++ quote))
unfolding ends_with
find_behind [] key rest hs hk h = find_cons b'"' rest (key ++ quote) (not_here [] key rest hs hk h)
find_behind (c ∷ s) key rest (hc, hs) hk h =
    find_cons c (s ++ b'"' ∷ rest) (key ++ quote)
      (not_here (c ∷ s) key rest (hc, hs) hk (ground arith))
    ∙ ap (map_some (λ n. len_utf8 c + n)) (find_behind s key rest hs hk (ground arith))
    ∙ shift (find rest (key ++ quote))
  where
    shift :
        (o : Option ℕ)
        → map_some (λ n. len_utf8 c + n) (map_some (λ n. len s + 1 + n) o)
          ≡ map_some (λ n. len (c ∷ s) + 1 + n) o
    shift none = refl
    shift (some n) = ap some (omega arith)

-- The front of a text that ends in a key.
Ends : Text → Text → Text → Type 0
Ends s key rest =
    (front : Text) × (s ≡ front ++ key)
    × (find (s ++ b'"' ∷ rest) (key ++ quote) ≡ some (len front))

key_here : (s key rest : Text) → s ≡ key → find (s ++ b'"' ∷ rest) (key ++ quote) ≡ some 0
key_here s key rest e =
    ap (λ t. find (t ++ b'"' ∷ rest) (key ++ quote)) e
    ∙ ap (λ t. find t (key ++ quote)) (sym (append_assoc key quote rest))
    ∙ find_here (key ++ quote) rest

find_key : (s key rest : Text) → NoQuote s → NoQuote key → ends_with s key ≡ true → Ends s key rest
unfolding ends_with Ends
find_key [] key rest hs hk h =
    let same : [] ≡ key = (text_eq_iff [] key).0 h in ([], same, key_here [] key rest same)
find_key (c ∷ s) key rest (hc, hs) hk h = elim (Bool-cases (text_eq (c ∷ s) key)) [
  | inl e ↦
      let same : c ∷ s ≡ key = (text_eq_iff (c ∷ s) key).0 e in
      ([], same, key_here (c ∷ s) key rest same)
  | inr other ↦
      let (front, split, at) = find_key s key rest hs hk (ground arith) in
      (
        c ∷ front,
        ap (◌∷◌ c) split,
        find_cons c (s ++ b'"' ∷ rest) (key ++ quote) (not_here (c ∷ s) key rest (hc, hs) hk other)
            ∙ ap (map_some (λ n. len_utf8 c + n)) at,
      )
]

-- What the search for a key and a quote finds in a text: nothing, or the value behind them.
data Located (key : Text) : Text → Option Text → Type 0 where
  absent : {text : Text} → find text (key ++ quote) ≡ none → Located key text none
  present :
      (front value rest : Text)
      → NoQuote value
      → find (front ++ ((key ++ quote) ++ (value ++ b'"' ∷ rest))) (key ++ quote) ≡ some (len front)
      → Located key (front ++ ((key ++ quote) ++ (value ++ b'"' ∷ rest))) (some value)

Located-behind :
    (s key text : Text) (o : Option Text)
    → NoQuote s
    → NoQuote key
    → ends_with s key ≡ false
    → Located key text o
    → Located key (s ++ b'"' ∷ text) o
Located-behind s key text none hs hk h (absent e) =
    absent (find_behind s key text hs hk h ∙ ap (map_some (λ n. len s + 1 + n)) e)
Located-behind s key _ _ hs hk h (present front value rest hv at) =
    let after = (key ++ quote) ++ (value ++ b'"' ∷ rest) in
    let assoc : (s ++ b'"' ∷ front) ++ after ≡ s ++ b'"' ∷ (front ++ after) =
      append_assoc s (b'"' ∷ front) after in
    subst (λ t. Located key t (some value)) assoc
      (present (s ++ b'"' ∷ front) value rest hv (
        ap (λ t. find t (key ++ quote)) assoc
        ∙ find_behind s key (front ++ after) hs hk h
        ∙ ap (map_some (λ n. len s + 1 + n)) at
        ∙ ap some (omega (arith, len-append s (b'"' ∷ front)))))

Located-key :
    (s key value rest : Text)
    → NoQuote s
    → NoQuote key
    → NoQuote value
    → ends_with s key ≡ true
    → Located key (s ++ b'"' ∷ (value ++ b'"' ∷ rest)) (some value)
unfolding Ends
Located-key s key value rest hs hk hv h =
    let (front, split, at) = find_key s key (value ++ b'"' ∷ rest) hs hk h in
    let after = value ++ b'"' ∷ rest in
    let same : front ++ ((key ++ quote) ++ after) ≡ s ++ b'"' ∷ after =
      ap (λ t. front ++ t) (append_assoc key quote after)
      ∙ sym (append_assoc front key (b'"' ∷ after))
      ∙ ap (λ t. t ++ b'"' ∷ after) (sym split) in
    subst (λ t. Located key t (some value)) same
      (present front value rest hv (ap (λ t. find t (key ++ quote)) same ∙ at))

strip_prefix-NoQuote : (s p : Text) → NoQuote s → strip_prefix s (p ++ quote) ≡ none
unfolding strip_prefix
strip_prefix-NoQuote [] [] h = refl
strip_prefix-NoQuote [] (b ∷ p) h = refl
strip_prefix-NoQuote (c ∷ s) [] h = ground arith
strip_prefix-NoQuote (c ∷ s) (b ∷ p) h = ground (arith, strip_prefix-NoQuote s p h.1)

find-NoQuote : (s p : Text) → NoQuote s → find s (p ++ quote) ≡ none
unfolding find
find-NoQuote [] p h = ground (arith, strip_prefix-NoQuote [] p h)
find-NoQuote (c ∷ s) p h =
    find_cons c s (p ++ quote) (strip_prefix-NoQuote (c ∷ s) p h)
    ∙ ap (map_some (λ n. len_utf8 c + n)) (find-NoQuote s p h.1)

written-Located :
    (key : Text) (params : List (Text × Text)) (tail : Text)
    → NoQuote key
    → All (IsParam key) params
    → NoQuote tail
    → Located key (written params tail) (param key params)
unfolding written param
written-Located key [] tail hk h ht = absent (find-NoQuote tail key ht)
written-Located key ((s, value) ∷ params) tail hk ((hs, hv, he), h) ht =
    elim (Bool-cases (ends_with s key)) [
      | inl found ↦ rw found (Located-key s key value (written params tail) hs hk hv found)
      | inr other ↦ rw other (
          Located-behind s key (value ++ b'"' ∷ written params tail) (param key params) hs hk other
            (Located-behind value key (written params tail) (param key params) hv hk he
              (written-Located key params tail hk h ht)))
    ]

find-quote :
    (value rest : Text) → NoQuote value → find (value ++ b'"' ∷ rest) quote ≡ some (len value)
find-quote [] rest h = find_here quote rest
find-quote (c ∷ value) rest (hc, h) =
    find_cons c (value ++ b'"' ∷ rest) quote (unfold strip_prefix in ground arith)
    ∙ ap (map_some (λ n. len_utf8 c + n)) (find-quote value rest h)

quoted_value_lem :
    {E : Type 0} (value rest : Text)
    → NoQuote value
    → quoted_value {E = E} (value ++ b'"' ∷ rest) ≡ ok (some value)
unfolding quoted_value
quoted_value_lem value rest h =
    rw (find-quote value rest h, quoted_value) (rw (split_at-len value (b'"' ∷ rest)) refl)

-- The search of the code, for a name with its equals sign.
found : {E : Type 0} → Text → Option ℕ → Text → Outcome E (Option Text)
found header none search = ok none
found header (some at) search = slice (slice_from header (at + len search)) >>= quoted_value

Located-found :
    {E : Type 0} (key text : Text) (o : Option Text)
    → Located key text o
    → found {E = E} text (find text (key ++ quote)) (key ++ quote) ≡ ok o
unfolding found
Located-found key text none (absent e) = rw e refl
Located-found key _ _ (present front value rest hv at) = rw at (
    rw (sym (len-append front (key ++ quote))) (
      rw (sym (append_assoc front (key ++ quote) (value ++ b'"' ∷ rest))) (
        rw (split_at-len (front ++ (key ++ quote)) (value ++ b'"' ∷ rest))
          (quoted_value_lem value rest hv))))

-- In a header that is written as keys and quoted values, the parameter that is found is the first
-- one whose key ends in the name and an equals sign, if no key or value has a quote and no value
-- ends in the name and an equals sign.
pub extract_quoted_param-written :
    {E : Type 0} (name : Text) (params : List (Text × Text)) (tail : Text)
    → NoQuote name
    → All (IsParam (name ++ b'=' ∷ [])) params
    → NoQuote tail
    → extract_quoted_param {E = E} (written params tail) name
      ≡ ok (param (name ++ b'=' ∷ []) params)
unfolding extract_quoted_param found
extract_quoted_param-written {E} name params tail hn h ht =
    found_lem (find (written params tail) (name ++ b'=' ∷ quote))
    ∙ ap (λ search. found (written params tail) (find (written params tail) search) search)
        (sym (append_assoc name (b'=' ∷ []) quote))
    ∙ Located-found (name ++ b'=' ∷ []) (written params tail) (param (name ++ b'=' ∷ []) params) (
        written-Located (name ++ b'=' ∷ []) params tail
          (All-append _ name (b'=' ∷ []) hn (ground arith)) h ht)
  where
    found_lem :
        (o : Option ℕ)
        → elim o [
          | none ↦ ok none
          | some at ↦
              slice (slice_from (written params tail) (at + len (name ++ b'=' ∷ quote)))
              >>= quoted_value
        ]
          ≡ found {E = E} (written params tail) o (name ++ b'=' ∷ quote)
    found_lem none = refl
    found_lem (some at) = refl
