-- ===== src/Sip/Register/Heard/Tests.antt =====
-- A challenge, a late copy of it, and a confirmation.
use slmodem_sip_bridge.Base.{List, [], ◌∷◌, true, none, some, ◌≡◌, refl, arith, inl, inr, All}
use slmodem_sip_bridge.Base.Outcome.{ok}
use slmodem_sip_bridge.Sip.Build.{build_register}
use slmodem_sip_bridge.Sip.Digest.{parse_digest_challenge}
use slmodem_sip_bridge.Sip.Message.{extract_quoted_param, quoted_value}
use slmodem_sip_bridge.Sip.Message.Fields.{
  Field, render, lookup, no_colon-NoColon, is_field-IsField,
}
use slmodem_sip_bridge.Sip.Message.Response.{response_line}
use slmodem_sip_bridge.Sip.Message.Response.Shape.{IsResponse}
use slmodem_sip_bridge.Sip.Register.{RegisterTick, register}
use slmodem_sip_bridge.Sip.Register.Heard.{
  IsPassed, IsConfirmed, Challenges, second_register, register-confirmed,
}
use slmodem_sip_bridge.Sip.Register.Tests.{client, md5_hex}
use slmodem_sip_bridge.Text.Ascii.{is_ascii-IsAscii}
use slmodem_sip_bridge.Text.Lines.{is_line-IsLine}
use slmodem_sip_bridge.Text.Number.{show, digits}
use slmodem_sip_bridge.Text.{
  Text, codes, strip_prefix, find, split_at, trim_end, trim_start_matches, is_whitespace, text_eq,
  to_ascii_lowercase, ascii_lower,
}

abbrev header : Text
header = codes "Digest realm=\"r\", nonce=\"n\""

abbrev challenge_fields : List Field
challenge_fields = (codes "CSeq", codes "1 REGISTER") ∷ (codes "WWW-Authenticate", header) ∷ []

abbrev success_fields : List Field
success_fields = (codes "CSeq", codes "2 REGISTER") ∷ []

abbrev challenge : Text
challenge = render (response_line 401 (codes "Unauthorized")) challenge_fields []

abbrev success : Text
success = render (response_line 200 (codes "OK")) success_fields []

challenges : Challenges challenge
unfolding response_line show digits is_whitespace trim_end trim_start_matches lookup text_eq
    to_ascii_lowercase ascii_lower parse_digest_challenge extract_quoted_param quoted_value find
    strip_prefix split_at
challenges = record {
  response = record {
    reason = codes "Unauthorized";
    fields = challenge_fields;
    body = [];
    is_response = refl;
    is_start = (
      is_ascii-IsAscii (codes "SIP/2.0 401 Unauthorized") refl,
      is_line-IsLine (codes "SIP/2.0 401 Unauthorized") refl,
      no_colon-NoColon (codes "SIP/2.0 401 Unauthorized") refl,
    );
    are_fields = (
      is_field-IsField (codes "CSeq") (codes "1 REGISTER") refl,
      (is_field-IsField (codes "WWW-Authenticate") header refl, tt),
    );
    cseq_small = omega arith;
    method = codes "REGISTER";
    cseq_is = refl;
  };
  header = header;
  header_is = refl;
  digest = record { realm = codes "r"; nonce = codes "n"; opaque = none; qop = none };
  digest_is = refl;
}

confirms : IsResponse 200 2 success
unfolding response_line show digits is_whitespace trim_end trim_start_matches lookup text_eq
    to_ascii_lowercase ascii_lower
confirms = record {
  reason = codes "OK";
  fields = success_fields;
  body = [];
  is_response = refl;
  is_start = (
    is_ascii-IsAscii (codes "SIP/2.0 200 OK") refl,
    is_line-IsLine (codes "SIP/2.0 200 OK") refl,
    no_colon-NoColon (codes "SIP/2.0 200 OK") refl,
  );
  are_fields = (is_field-IsField (codes "CSeq") (codes "2 REGISTER") refl, tt);
  cseq_small = omega arith;
  method = codes "REGISTER";
  cseq_is = refl;
}

abbrev late : RegisterTick
late = record { now = 1; resp = some challenge }

abbrev silent : RegisterTick
silent = record { now = 2; resp = none }

abbrev last : RegisterTick
last = record { now = 3; resp = some success }

passed : All (IsPassed 10000) (late ∷ silent ∷ [])
passed =
    let old : IsPassed 10000 late = record {
      in_time = omega arith;
      old = inr (challenge, 401, 1, refl, challenges.response, (λ e. absurd (omega arith)));
    } in
    let nothing : IsPassed 10000 silent = record { in_time = omega arith; old = inl refl } in
    (old, (nothing, tt))

confirmed : IsConfirmed 10000 last
confirmed = record { in_time = omega arith; resp = success; received = refl; response = confirms }

register-confirmed_example :
    register md5_hex client
      (codes "i")
      (codes "t")
      (codes "b1")
      true
      (some challenge)
      10000
      (codes "c")
      (codes "b2")
      true
      (late ∷ silent ∷ last ∷ [])
      []
    ≡ (
      ok true,
      build_register client (codes "b1") (codes "t") (codes "i") 1 none
          ∷ second_register md5_hex client
              (codes "i")
              (codes "t")
              (codes "b1")
              challenge
              10000
              (codes "c")
              (codes "b2")
              challenges.digest
          ∷ [],
    )
register-confirmed_example =
    register-confirmed md5_hex client (codes "i") (codes "t") (codes "b1") challenge 10000
      (codes "c") (codes "b2") (late ∷ silent ∷ []) last [] challenges passed confirmed
