-- ===== src/Hub/Signed.antt =====
-- crates/fabric-hub/src/utils.rs and crates/fabric-types/src/lib.rs: what every signed request is
-- checked for, its time stamp and its signature. Arithmetic on time stamps wraps as `i64` does in a
-- release build.
pub mod Skew
pub mod Verified
use forgewire_fabric.Prelude.{◌+◌, Bool, true, false, Text, text, ◌++◌, decimal, if◌then◌else◌}
use forgewire_fabric.Prelude.Int.{ℤ, pos, negsuc, ◌-ℤ◌, ltb_ℤ, wrap_i64, decimal_ℤ}
use forgewire_fabric.Prelude.Results.{Result, err, okay}
use forgewire_fabric.Prelude.Json.{Json}
use forgewire_fabric.Protocol.{
  Crates, ProtocolError, hex, public_key_length, private_key_length, signature_length, public_key,
  verify_envelope_hex,
}

-- `abs`, which leaves the smallest `i64` as it is.
abbrev pub abs_i64 : ℤ → ℤ
abs_i64 (pos n) = pos n
abs_i64 (negsuc n) = wrap_i64 (pos (n + 1))

abbrev pub max_skew : ℤ
max_skew = pos 300

-- The error holds the distance.
unfoldable pub check_timestamp_skew : ℤ → ℤ → Result ℤ (Unit {0})
check_timestamp_skew timestamp now =
    let delta = abs_i64 (wrap_i64 (now -ℤ timestamp)) in
    if ltb_ℤ max_skew delta then err delta else okay tt

abbrev skew_text : Result ℤ (Unit {0}) → Result Text (Unit {0})
skew_text (okay u) = okay tt
skew_text (err delta) =
    err (text "timestamp out of skew window: delta=" ++ (decimal_ℤ delta ++ text "s, max=300s"))

-- `check_skew`, at a time of the clock
abbrev pub check_skew : ℤ → ℤ → Result Text (Unit {0})
check_skew timestamp now = skew_text (check_timestamp_skew timestamp now)

module _ {N E K : Type 0} (crates : Crates N E K) (print_hex : E → Text) where
  abbrev protocol_text : ProtocolError E → Text
  protocol_text (hex e) = text "invalid hex: " ++ print_hex e
  protocol_text (public_key_length n) =
      text "invalid public key length: expected 32 bytes, got " ++ decimal n
  protocol_text (private_key_length n) =
      text "invalid private key length: expected 32 bytes, got " ++ decimal n
  protocol_text (signature_length n) =
      text "invalid signature length: expected 64 bytes, got " ++ decimal n
  protocol_text public_key = text "invalid public key bytes"

  abbrev pub verdict : Result (ProtocolError E) Bool → Result Text (Unit {0})
  verdict (okay true) = okay tt
  verdict (okay false) = err (text "invalid signature")
  verdict (err e) = err (protocol_text e)

  unfoldable pub verify_sig : Text → Json N → Text → Result Text (Unit {0})
  verify_sig key envelope signature = verdict (verify_envelope_hex crates key envelope signature)
