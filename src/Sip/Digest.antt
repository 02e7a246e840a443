-- ===== src/Sip/Digest.antt =====
-- sip.rs: digest authentication (RFC 2617). The hash, `md5_hex`, is the md5 crate's and a parameter;
-- the client nonce comes from the clock and is an argument.
pub mod Challenge
pub mod Answer
mod Tests
use slmodem_sip_bridge.Base.{[], ◌∷◌, ◌++◌, Bool, false, Option, none, some, if◌then◌else◌}
use slmodem_sip_bridge.Base.Outcome.{Outcome, ok, ◌>>=◌, ok_or}
use slmodem_sip_bridge.Sip.Message.{extract_quoted_param}
use slmodem_sip_bridge.Sip.{SipError, missing_realm, missing_nonce}
use slmodem_sip_bridge.Text.{Text, codes, text_eq}

pub record DigestChallenge : Type 0 where
  pub realm : Text
  pub nonce : Text
  pub opaque : Option Text
  pub qop : Option Text

-- The nonce count.
abbrev pub nc : Text
nc = codes "00000001"

unfoldable pub parse_digest_challenge : Text → Outcome SipError DigestChallenge
parse_digest_challenge header = do
  r ← extract_quoted_param header (codes "realm")
  realm ← ok_or r missing_realm
  n ← extract_quoted_param header (codes "nonce")
  nonce ← ok_or n missing_nonce
  opaque ← extract_quoted_param header (codes "opaque")
  qop ← extract_quoted_param header (codes "qop")
  ok (record { realm = realm; nonce = nonce; opaque = opaque; qop = qop })

-- `a:b`.
abbrev pub join_colon : Text → Text → Text
join_colon a b = a ++ (b':' ∷ b)

abbrev is_auth : Option Text → Bool
is_auth none = false
is_auth (some q) = text_eq q (codes "auth")

abbrev pub quoted : Text → Text
quoted s = b'"' ∷ (s ++ b'"' ∷ [])

-- The part of a header value for an opaque value, if the challenge has one.
unfoldable pub opaque_part : Option Text → Text
opaque_part none = []
opaque_part (some opaque) = codes ", opaque=" ++ quoted opaque

-- The part for the quality of protection, if the challenge names any.
unfoldable pub qop_part : Option Text → Text → Text
qop_part none cnonce = []
qop_part (some _) cnonce = codes ", qop=auth, nc=" ++ (nc ++ (codes ", cnonce=" ++ quoted cnonce))

module _ (md5_hex : Text → Text) where
  -- The `response` of `compute_digest_response`.
  unfoldable pub compute_digest_response :
      Text → Text → Text → Text → Text → Text → Option Text → Text → Text
  compute_digest_response username password realm nonce method uri qop cnonce =
      let ha1 = md5_hex (join_colon username (join_colon realm password)) in
      let ha2 = md5_hex (join_colon method uri) in
      if is_auth qop
      then md5_hex (
          join_colon ha1
            (join_colon nonce (join_colon nc (join_colon cnonce (join_colon (codes "auth") ha2)))))
      else md5_hex (join_colon ha1 (join_colon nonce ha2))

  unfoldable pub auth_header_value : DigestChallenge → Text → Text → Text → Text → Text → Text
  unfolding opaque_part qop_part
  auth_header_value challenge username password method uri cnonce =
      let response =
        compute_digest_response username password challenge.realm challenge.nonce method uri
          challenge.qop cnonce in
      codes "Digest username="
      ++ (quoted username
          ++ (codes ", realm="
              ++ (quoted challenge.realm
                  ++ (codes ", nonce="
                      ++ (quoted challenge.nonce
                          ++ (codes ", uri="
                              ++ (quoted uri
                                  ++ (codes ", response="
                                      ++ (quoted response
                                          ++ (codes ", algorithm=MD5"
                                              ++ (opaque_part challenge.opaque
                                                  ++ qop_part challenge.qop cnonce)))))))))))
