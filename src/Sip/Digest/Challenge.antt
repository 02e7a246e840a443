-- ===== src/Sip/Digest/Challenge.antt =====
-- What `parse_digest_challenge` reads in a challenge that is written as keys and quoted values.
use slmodem_sip_bridge.Base.{List, Option, none, some, ◌≡◌, refl, arith, All}
use slmodem_sip_bridge.Base.Outcome.{Outcome, ok, bail, ◌>>=◌, ok_or}
use slmodem_sip_bridge.Sip.Digest.{DigestChallenge, parse_digest_challenge}
use slmodem_sip_bridge.Sip.Message.Params.{
  NoQuote, written, param, IsParam, extract_quoted_param-written,
}
use slmodem_sip_bridge.Sip.{SipError, missing_realm, missing_nonce}
use slmodem_sip_bridge.Text.{Text, codes}

-- A realm and a nonce are needed.
abbrev pub challenge_from :
    Option Text → Option Text → Option Text → Option Text → Outcome SipError DigestChallenge
challenge_from none n opaque qop = bail missing_realm
challenge_from (some realm) none opaque qop = bail missing_nonce
challenge_from (some realm) (some nonce) opaque qop =
    ok (record { realm = realm; nonce = nonce; opaque = opaque; qop = qop })

-- The challenge that the parameters make.
abbrev pub challenge_of : List (Text × Text) → Outcome SipError DigestChallenge
challenge_of params =
    challenge_from (param (codes "realm=") params) (param (codes "nonce=") params)
      (param (codes "opaque=") params) (param (codes "qop=") params)

-- Parameters whose values are not taken for one of the four that are looked up.
abbrev pub IsChallenge : List (Text × Text) → Type 0
IsChallenge params =
    All (IsParam (codes "realm=")) params
    × All (IsParam (codes "nonce=")) params
    × All (IsParam (codes "opaque=")) params
    × All (IsParam (codes "qop=")) params

-- A challenge that is written as keys and quoted values, in any order and with others among them,
-- is read as the challenge that these make, or refused because the realm or the nonce is missing,
-- if no key or value has a quote and no value ends in the name and equals sign of a parameter that
-- is looked up.
pub parse_digest_challenge-written :
    (params : List (Text × Text)) (tail : Text)
    → IsChallenge params
    → NoQuote tail
    → parse_digest_challenge (written params tail) ≡ challenge_of params
unfolding parse_digest_challenge
parse_digest_challenge-written params tail (hr, hn, ho, hq) ht =
    rw (extract_quoted_param-written (codes "realm") params tail (ground arith) hr ht) (
      rw (extract_quoted_param-written (codes "nonce") params tail (ground arith) hn ht) (
        rw (extract_quoted_param-written (codes "opaque") params tail (ground arith) ho ht) (
          rw (extract_quoted_param-written (codes "qop") params tail (ground arith) hq ht) (
            go (param (codes "realm=") params) (param (codes "nonce=") params)
              (param (codes "opaque=") params) (param (codes "qop=") params)))))
  where
    go :
        (realm nonce opaque qop : Option Text)
        → (do
          r ← ok_or realm missing_realm
          n ← ok_or nonce missing_nonce
          ok (record { realm = r; nonce = n; opaque = opaque; qop = qop }))
          ≡ challenge_from realm nonce opaque qop
    go none n opaque qop = refl
    go (some realm) none opaque qop = refl
    go (some realm) (some nonce) opaque qop = refl
