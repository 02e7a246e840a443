-- ===== src/Text/Equal.antt =====
-- `text_eq` decides equality.
use slmodem_sip_bridge.Base.{◌∷◌, true, ◌≡◌, ◌↔◌, arith}
use slmodem_sip_bridge.Text.{Text, text_eq}

pub text_eq_iff : (s t : Text) → (text_eq s t ≡ true) ↔ (s ≡ t)
unfolding text_eq
text_eq_iff (a ∷ s) (b ∷ t) = ground (arith, text_eq_iff s t)
text_eq_iff _ _ = ground arith
