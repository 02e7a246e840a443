-- ===== src/Sip/Build.antt =====
-- sip.rs: the messages that the client sends, as lines with their `\r\n`.
use slmodem_sip_bridge.Base.{ℕ, ◌+◌, List, [], ◌∷◌, ◌++◌, Option, none, some}
use slmodem_sip_bridge.Net.Shown.{show_ip}
use slmodem_sip_bridge.Sip.{Call, SipClient}
use slmodem_sip_bridge.Text.Lines.{unlines}
use slmodem_sip_bridge.Text.Number.{show}
use slmodem_sip_bridge.Text.{Text, codes, len, strip_prefix}

-- `{local_ip}:{local_port}`.
unfoldable pub host_port : SipClient → Text
host_port client = show_ip client.local_ip ++ (b':' ∷ show client.local_port)

unfoldable pub via_line : SipClient → Text → Text
unfolding host_port
via_line client branch =
    codes "Via: SIP/2.0/UDP "
    ++ (host_port client ++ (codes ";branch=" ++ (branch ++ codes ";rport")))

unfoldable pub from_line : SipClient → Text → Text
from_line client local_tag =
    codes "From: \""
    ++ (client.caller_name
        ++ (codes "\" <sip:"
            ++ (client.caller_id ++ (b'@' ∷ (client.sip_domain ++ (codes ">;tag=" ++ local_tag))))))

unfoldable pub cseq_line : ℕ → Text → Text
cseq_line cseq method = codes "CSeq: " ++ (show cseq ++ (b' ' ∷ method))

unfoldable pub contact_line : SipClient → Text
unfolding host_port
contact_line client =
    codes "Contact: <sip:" ++ (client.username ++ (b'@' ∷ (host_port client ++ codes ">")))

-- `;tag=..`, if the far end gave one.
unfoldable pub to_tag : Option Text → Text
to_tag none = []
to_tag (some t) = codes ";tag=" ++ t

-- The line for the credentials, if there are any.
unfoldable pub auth_lines : Option (Text × Text) → List Text
auth_lines none = []
auth_lines (some (name, value)) = (name ++ (codes ": " ++ value)) ∷ []

unfoldable pub build_invite :
    SipClient → Text → Text → Text → Text → ℕ → Text → Option (Text × Text) → Text
unfolding via_line from_line cseq_line contact_line auth_lines
build_invite client uri call_id local_tag branch cseq sdp auth =
    unlines (
      (codes "INVITE " ++ (uri ++ codes " SIP/2.0"))
      ∷ via_line client branch
      ∷ from_line client local_tag
      ∷ (codes "To: <" ++ (uri ++ codes ">"))
      ∷ (codes "Call-ID: " ++ call_id)
      ∷ cseq_line cseq (codes "INVITE")
      ∷ contact_line client
      ∷ codes "Max-Forwards: 70"
      ∷ codes "User-Agent: slmodem-sip-bridge"
      ∷ codes "Allow: INVITE, ACK, BYE, CANCEL"
      ∷ (auth_lines auth
          ++ (codes "Content-Type: application/sdp"
              ∷ (codes "Content-Length: " ++ show (len sdp))
              ∷ []
              ∷ [])))
    ++ sdp

unfoldable pub build_ack : SipClient → Call → Text
unfolding via_line from_line cseq_line to_tag
build_ack client call = unlines (
    (codes "ACK " ++ (call.invite_uri ++ codes " SIP/2.0"))
    ∷ via_line client call.via_branch
    ∷ from_line client call.local_tag
    ∷ (codes "To: <" ++ (call.invite_uri ++ (codes ">" ++ to_tag call.remote_tag)))
    ∷ (codes "Call-ID: " ++ call.call_id)
    ∷ cseq_line call.cseq (codes "ACK")
    ∷ codes "Max-Forwards: 70"
    ∷ codes "User-Agent: slmodem-sip-bridge"
    ∷ codes "Content-Length: 0"
    ∷ []
    ∷ [])

-- `trim_start_matches("sip:")` takes the prefix away as often as it stands there; each round takes
-- four characters, so the text's length is fuel enough.
unfoldable pub strip_sip : Text → Text → Text
strip_sip [] uri = uri
strip_sip (_ ∷ fuel) uri = elim (strip_prefix uri (codes "sip:")) [
  | none ↦ uri
  | some rest ↦ strip_sip fuel rest
]

unfoldable pub build_bye : SipClient → Call → Text → Text
unfolding via_line from_line cseq_line to_tag strip_sip
build_bye client call branch = unlines (
    (codes "BYE " ++ (call.invite_uri ++ codes " SIP/2.0"))
    ∷ via_line client branch
    ∷ from_line client call.local_tag
    ∷ (codes "To: <sip:"
        ++ (strip_sip call.invite_uri call.invite_uri ++ (codes ">" ++ to_tag call.remote_tag)))
    ∷ (codes "Call-ID: " ++ call.call_id)
    ∷ cseq_line (call.cseq + 1) (codes "BYE")
    ∷ codes "Max-Forwards: 70"
    ∷ codes "User-Agent: slmodem-sip-bridge"
    ∷ codes "Content-Length: 0"
    ∷ []
    ∷ [])

-- The account, `<sip:user@domain>`.
unfoldable pub account : SipClient → Text
account client = codes "<sip:" ++ (client.username ++ (b'@' ∷ (client.sip_domain ++ codes ">")))

-- The REGISTER of `register`: the first has CSeq 1 and no credentials, the second CSeq 2 and the
-- answer to the challenge.
unfoldable pub build_register : SipClient → Text → Text → Text → ℕ → Option (Text × Text) → Text
unfolding via_line cseq_line contact_line account auth_lines
build_register client branch tag call_id cseq auth = unlines (
    (codes "REGISTER sip:" ++ (client.sip_domain ++ codes " SIP/2.0"))
    ∷ via_line client branch
    ∷ (codes "From: " ++ (account client ++ (codes ";tag=" ++ tag)))
    ∷ (codes "To: " ++ account client)
    ∷ (codes "Call-ID: " ++ call_id)
    ∷ cseq_line cseq (codes "REGISTER")
    ∷ contact_line client
    ∷ codes "Expires: 180"
    ∷ codes "Max-Forwards: 70"
    ∷ codes "User-Agent: slmodem-sip-bridge"
    ∷ (auth_lines auth ++ (codes "Content-Length: 0" ∷ [] ∷ [])))
