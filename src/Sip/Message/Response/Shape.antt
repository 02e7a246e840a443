-- ===== src/Sip/Message/Response/Shape.antt =====
-- A response that is well formed, and what the client reads from it.
use slmodem_sip_bridge.Base.{ℕ, ◌≤◌, List, [], ◌∷◌, ◌++◌, some, map, ◌≡◌, refl, ap, ◌∙◌, All}
use slmodem_sip_bridge.Base.Outcome.{ok, ◌>>=◌}
use slmodem_sip_bridge.Sip.Message.{
  parse_status_code, status_line, extract_cseq_num, cseq_number, extract_header,
}
use slmodem_sip_bridge.Sip.Message.Fields.{
  Field, field_line, render, lookup, NoColon, no_colon-NoColon, IsField,
}
use slmodem_sip_bridge.Sip.Message.Fields.Lookup.{
  IsStart, lines-render, or_later, extract_header-render,
}
use slmodem_sip_bridge.Sip.Message.Response.{
  response_line, status_line-response_line, cseq_number-show,
}
use slmodem_sip_bridge.Text.Ascii.{IsAscii, is_ascii-IsAscii}
use slmodem_sip_bridge.Text.Number.{show, u32_max}
use slmodem_sip_bridge.Text.Split.{lines}
use slmodem_sip_bridge.Text.{Text, codes}

-- A response with this status to the request with this CSeq: its fields are well formed, and CSeq is
-- the number and the method.
pub record IsResponse (status cseq : ℕ) (resp : Text) : Type 0 where
  pub reason : Text
  pub fields : List Field
  pub body : Text
  pub is_response : resp ≡ render (response_line status reason) fields body
  pub is_start : IsStart (response_line status reason)
  pub are_fields : All IsField fields
  pub cseq_small : cseq ≤ u32_max
  pub method : Text
  pub cseq_is : lookup (codes "CSeq") fields ≡ some (show cseq ++ b' ' ∷ method)

module _ {status cseq : ℕ} {resp : Text} (r : IsResponse status cseq resp) where
  pub IsResponse-status : status ≤ 65535 → parse_status_code resp ≡ some status
  unfolding parse_status_code
  IsResponse-status le =
      ap parse_status_code r.is_response
      ∙ ap status_line
          (lines-render (response_line status r.reason) r.fields r.body r.is_start r.are_fields)
      ∙ status_line-response_line status r.reason (map field_line r.fields ++ [] ∷ lines r.body) le

  pub IsResponse-header :
      {E : Type 0} (name value : Text)
      → IsAscii name
      → NoColon name
      → lookup name r.fields ≡ some value
      → extract_header {E = E} resp name ≡ ok (some value)
  IsResponse-header {E} name value ascii plain h =
      ap (λ m. extract_header {E = E} m name) r.is_response
      ∙ extract_header-render (response_line status r.reason) r.fields r.body name r.is_start
          r.are_fields ascii plain
      ∙ ap (λ o. or_later {E = E} o (extract_header r.body name)) h

  pub IsResponse-cseq : {E : Type 0} → extract_cseq_num {E = E} resp ≡ ok (some cseq)
  unfolding extract_cseq_num
  IsResponse-cseq {E} =
      ap (λ m. m >>= (λ value. ok (cseq_number value)))
        (IsResponse-header {E = E} (codes "CSeq") (show cseq ++ b' ' ∷ r.method)
          (is_ascii-IsAscii (codes "CSeq") refl) (no_colon-NoColon (codes "CSeq") refl) r.cseq_is)
      ∙ ap ok (cseq_number-show cseq r.method r.cseq_small)
