-- ===== src/Sip/Digest/Tests.antt =====
-- A challenge that is read, and the header that answers it.
use slmodem_sip_bridge.Base.{List, [], ◌∷◌, ◌≡◌, some, refl, arith}
use slmodem_sip_bridge.Base.Outcome.{ok}
use slmodem_sip_bridge.Sip.Digest.Answer.{extract_quoted_param-auth_header_value}
use slmodem_sip_bridge.Sip.Digest.Challenge.{challenge_of, parse_digest_challenge-written}
use slmodem_sip_bridge.Sip.Digest.{
  DigestChallenge, parse_digest_challenge, compute_digest_response, auth_header_value,
}
use slmodem_sip_bridge.Sip.Message.Params.{written, param, ends_with}
use slmodem_sip_bridge.Sip.Message.{extract_quoted_param}
use slmodem_sip_bridge.Sip.{SipError}
use slmodem_sip_bridge.Text.{Text, codes, text_eq}

abbrev params : List (Text × Text)
params =
    (codes "Digest nonce=", codes "n==")
    ∷ (codes ", opaque=", codes "o")
    ∷ (codes ", realm=", codes "r")
    ∷ (codes ", qop=", codes "auth")
    ∷ []

abbrev challenge : DigestChallenge
challenge = record {
  realm = codes "r";
  nonce = codes "n==";
  opaque = some (codes "o");
  qop = some (codes "auth");
}

challenge_of-params : challenge_of params ≡ ok challenge
unfolding param ends_with text_eq
challenge_of-params = refl

parse_digest_challenge-written_example :
    parse_digest_challenge (written params (codes ", algorithm=MD5")) ≡ challenge_of params
unfolding ends_with text_eq
parse_digest_challenge-written_example =
    parse_digest_challenge-written params (codes ", algorithm=MD5")
      (ground arith, ground arith, ground arith, ground arith) (ground arith)

abbrev md5_hex : Text → Text
md5_hex s = codes "0a1b"

abbrev header : Text
header =
    auth_header_value md5_hex challenge (codes "u") (codes "p") (codes "INVITE") (codes "sip:1@d")
      (codes "c")

extract_quoted_param-auth_header_value_example :
    (extract_quoted_param {E = SipError} header (codes "username") ≡ ok (some (codes "u")))
    × (extract_quoted_param {E = SipError} header (codes "realm") ≡ ok (some (codes "r")))
    × (extract_quoted_param {E = SipError} header (codes "nonce") ≡ ok (some (codes "n==")))
    × (extract_quoted_param {E = SipError} header (codes "opaque") ≡ ok (some (codes "o")))
    × (extract_quoted_param {E = SipError} header (codes "uri") ≡ ok (some (codes "sip:1@d")))
    × (extract_quoted_param {E = SipError} header (codes "response")
        ≡ ok (
            some (
              compute_digest_response md5_hex
                (codes "u")
                (codes "p")
                (codes "r")
                (codes "n==")
                (codes "INVITE")
                (codes "sip:1@d")
                (some (codes "auth"))
                (codes "c"))))
unfolding ends_with text_eq compute_digest_response
extract_quoted_param-auth_header_value_example =
    extract_quoted_param-auth_header_value md5_hex challenge (codes "u") (codes "p")
      (codes "INVITE") (codes "sip:1@d") (codes "c") (ground arith) (ground arith) (ground arith)
      (ground arith) (ground arith) (ground arith) (ground arith) header refl
