-- ===== src/Sip/Digest/Answer.antt =====
-- What a server reads in the header that `auth_header_value` makes.
use slmodem_sip_bridge.Base.{
  List, [], ◌∷◌, ◌++◌, false, Option, none, some, ◌≡◌, refl, ap, ◌∙◌, arith, All, append_assoc,
}
use slmodem_sip_bridge.Base.Outcome.{ok}
use slmodem_sip_bridge.Sip.Digest.{
  DigestChallenge, opaque_part, qop_part, compute_digest_response, auth_header_value,
}
use slmodem_sip_bridge.Sip.{SipError}
use slmodem_sip_bridge.Sip.Message.Params.{
  NoQuote, ends_with, written, param, IsParam, extract_quoted_param-written,
}
use slmodem_sip_bridge.Sip.Message.{extract_quoted_param}
use slmodem_sip_bridge.Text.{Text, codes, text_eq}

-- The names that are looked up in the header.
abbrev keys : List Text
keys =
    codes "username="
    ∷ codes "realm="
    ∷ codes "nonce="
    ∷ codes "uri="
    ∷ codes "response="
    ∷ codes "opaque="
    ∷ []

-- A value that can stand between quotes, and does not end like a parameter's name.
abbrev pub IsValue : Text → Type 0
IsValue value = NoQuote value × All (λ key. ends_with value key ≡ false) keys

abbrev pub IsOptional : Option Text → Type 0
IsOptional none = Unit
IsOptional (some value) = IsValue value

-- What stands behind the response.
abbrev last_params : Option Text → Option Text → Text → List (Text × Text)
last_params none none cnonce = []
last_params (some opaque) none cnonce = (codes ", algorithm=MD5, opaque=", opaque) ∷ []
last_params none (some _) cnonce =
    (codes ", algorithm=MD5, qop=auth, nc=00000001, cnonce=", cnonce) ∷ []
last_params (some opaque) (some _) cnonce =
    (codes ", algorithm=MD5, opaque=", opaque)
    ∷ (codes ", qop=auth, nc=00000001, cnonce=", cnonce)
    ∷ []

abbrev last_text : Option Text → Option Text → Text
last_text none none = codes ", algorithm=MD5"
last_text _ _ = []

last_lem :
    (opaque qop : Option Text) (cnonce : Text)
    → codes ", algorithm=MD5" ++ (opaque_part opaque ++ qop_part qop cnonce)
      ≡ written (last_params opaque qop cnonce) (last_text opaque qop)
unfolding opaque_part qop_part written
last_lem none none cnonce = refl
last_lem (some opaque) none cnonce = simp append_assoc
last_lem none (some _) cnonce = refl
last_lem (some opaque) (some _) cnonce = simp append_assoc

last-IsParam :
    (key : Text) (opaque qop : Option Text) (cnonce : Text)
    → ((value : Text) → IsValue value → ends_with value key ≡ false)
    → IsOptional opaque
    → IsValue cnonce
    → All (IsParam key) (last_params opaque qop cnonce)
last-IsParam key none none cnonce apart ho hc = tt
last-IsParam key (some o) none cnonce apart ho hc = ((ground arith, ho.0, apart o ho), tt)
last-IsParam key none (some _) cnonce apart ho hc = ((ground arith, hc.0, apart cnonce hc), tt)
last-IsParam key (some o) (some _) cnonce apart ho hc =
    ((ground arith, ho.0, apart o ho), ((ground arith, hc.0, apart cnonce hc), tt))

last-opaque :
    (opaque qop : Option Text) (cnonce : Text)
    → param (codes "opaque=") (last_params opaque qop cnonce) ≡ opaque
unfolding param ends_with text_eq
last-opaque none none cnonce = refl
last-opaque (some o) none cnonce = refl
last-opaque none (some _) cnonce = refl
last-opaque (some o) (some _) cnonce = refl

last_text-NoQuote : (opaque qop : Option Text) → NoQuote (last_text opaque qop)
last_text-NoQuote none none = ground arith
last_text-NoQuote (some _) none = tt
last_text-NoQuote none (some _) = tt
last_text-NoQuote (some _) (some _) = tt

module _ (md5_hex : Text → Text) (challenge : DigestChallenge)
    (username password method uri cnonce : Text) where
  abbrev pub response : Text
  response =
      compute_digest_response md5_hex username password challenge.realm challenge.nonce method uri
        challenge.qop cnonce

  params : List (Text × Text)
  params =
      (codes "Digest username=", username)
      ∷ (codes ", realm=", challenge.realm)
      ∷ (codes ", nonce=", challenge.nonce)
      ∷ (codes ", uri=", uri)
      ∷ (codes ", response=", response)
      ∷ last_params challenge.opaque challenge.qop cnonce

  auth_header_value-written :
      auth_header_value md5_hex challenge username password method uri cnonce
      ≡ written params (last_text challenge.opaque challenge.qop)
  unfolding auth_header_value written params
  auth_header_value-written =
      rw (last_lem challenge.opaque challenge.qop cnonce) (simp append_assoc)

  module _ (user : IsValue username) (realm : IsValue challenge.realm)
      (nonce : IsValue challenge.nonce) (target : IsValue uri)
      (opaque : IsOptional challenge.opaque) (client : IsValue cnonce)
      (hashed : IsValue response) where
    params-IsParam :
        (key : Text)
        → ((value : Text) → IsValue value → ends_with value key ≡ false)
        → All (IsParam key) params
    unfolding params
    params-IsParam key apart = (
      (ground arith, user.0, apart username user),
      (
        (ground arith, realm.0, apart challenge.realm realm),
        (
          (ground arith, nonce.0, apart challenge.nonce nonce),
          (
            (ground arith, target.0, apart uri target),
            (
              (ground arith, hashed.0, apart response hashed),
              last-IsParam key challenge.opaque challenge.qop cnonce apart opaque client,
            ),
          ),
        ),
      ),
    )

    read :
        {E : Type 0} (name : Text)
        → NoQuote name
        → ((value : Text) → IsValue value → ends_with value (name ++ b'=' ∷ []) ≡ false)
        → extract_quoted_param {E = E}
            (auth_header_value md5_hex challenge username password method uri cnonce)
            name
          ≡ ok (param (name ++ b'=' ∷ []) params)
    read {E} name hn apart =
        ap (λ header. extract_quoted_param {E = E} header name) auth_header_value-written
        ∙ extract_quoted_param-written name params (last_text challenge.opaque challenge.qop) hn
            (params-IsParam (name ++ b'=' ∷ []) apart)
            (last_text-NoQuote challenge.opaque challenge.qop)

    -- In the header that answers a challenge, `extract_quoted_param` finds the username, the realm,
    -- the nonce and the opaque value of the challenge, the URI, and as the response the one that
    -- is computed from these and the password; if the values have no quote and none of them ends
    -- in one of these names and an equals sign.
    pub extract_quoted_param-auth_header_value :
        (header : Text)
        → header ≡ auth_header_value md5_hex challenge username password method uri cnonce
        → (extract_quoted_param {E = SipError} header (codes "username") ≡ ok (some username))
          × (extract_quoted_param {E = SipError} header (codes "realm") ≡ ok (some challenge.realm))
          × (extract_quoted_param {E = SipError} header (codes "nonce") ≡ ok (some challenge.nonce))
          × (extract_quoted_param {E = SipError} header (codes "opaque") ≡ ok challenge.opaque)
          × (extract_quoted_param {E = SipError} header (codes "uri") ≡ ok (some uri))
          × (extract_quoted_param {E = SipError} header (codes "response")
              ≡ ok (
                  some (
                    compute_digest_response md5_hex username password challenge.realm
                      challenge.nonce method uri challenge.qop cnonce)))
    unfolding params param ends_with text_eq
    extract_quoted_param-auth_header_value header e = rw e (
      read (codes "username") (ground arith) (λ v h. h.1.0),
      read (codes "realm") (ground arith) (λ v h. h.1.1.0),
      read (codes "nonce") (ground arith) (λ v h. h.1.1.1.0),
      read (codes "opaque") (ground arith) (λ v h. h.1.1.1.1.1.1.0)
          ∙ ap ok (last-opaque challenge.opaque challenge.qop cnonce),
      read (codes "uri") (ground arith) (λ v h. h.1.1.1.1.0),
      read (codes "response") (ground arith) (λ v h. h.1.1.1.1.1.0),
    )
