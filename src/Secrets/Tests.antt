-- ===== src/Secrets/Tests.antt =====
-- Runs of the secret broker, with stand-ins: a cipher and an encoding that shift every byte.
use forgewire_fabric.Prelude.{
  ℕ, ◌+◌, ◌-◌, ◌≡◌, refl, sym, ap, ◌∙◌, Option, none, some, [], ◌∷◌, map, arith, Text, text, length,
  ◌==◌, Without,
}
use forgewire_fabric.Prelude.Results.{okay}
use forgewire_fabric.Prelude.Json.{string, scalar, obj, end, field}
use forgewire_fabric.Secrets.{
  Bytes, Crypto, envelope_of, seal, open_fields, open_envelope, replace_from, marker, redact_text,
  redact_value,
}
use forgewire_fabric.Secrets.Sealing.{IsFaithful, open-seal}
use forgewire_fabric.Secrets.Pieces.{Cuts, redact_text-Cuts}

abbrev shift : ℕ → Bytes → Bytes
shift n = map (λ b. b + n)

abbrev unshift : ℕ → Bytes → Bytes
unshift n = map (λ b. b - n)

abbrev key_bytes : Bytes
key_bytes = text "0123456789abcdef0123456789abcdef"

abbrev crypto : Crypto
crypto = record {
  encode = shift 100;
  decode = λ s. some (unshift 100 s);
  accepts_key = λ key. length key == 32;
  encrypt = λ key nonce message aad. some (shift 1 message);
  decrypt = λ key nonce ciphertext aad. some (unshift 1 ciphertext);
  load_key = okay key_bytes;
}

shifted_back : (n : ℕ) (b : Bytes) → unshift n (shift n b) ≡ b
shifted_back n [] = refl
shifted_back n (c ∷ b) = let same : c + n - n ≡ c = omega arith in rw (same, shifted_back n b) refl

no_colon : (b : Bytes) → Without (λ c. c == b':') (shift 100 b)
no_colon [] = tt
no_colon (c ∷ b) = (ground arith, no_colon b)

decrypts : (message c : Bytes) → some (shift 1 message) ≡ some c → some (unshift 1 c) ≡ some message
decrypts message c h = ap read (sym h) ∙ ap some (shifted_back 1 message)
  where
    read : Option Bytes → Option Bytes
    read none = none
    read (some c) = some (unshift 1 c)

faithful : IsFaithful crypto
faithful =
    (λ b. ap some (shifted_back 100 b), no_colon, λ key nonce message aad c h. decrypts message c h)

abbrev nonce : Bytes
nonce = text "abcdefghijkl"

abbrev envelope : Text
envelope = envelope_of crypto nonce (shift 1 (text "hunter2"))

sealed : seal crypto nonce (text "db") (text "hunter2") ≡ okay envelope
unfolding seal
sealed = refl

opened : open_envelope crypto (text "db") envelope ≡ okay (text "hunter2")
unfolding open_envelope open_fields
opened = refl

json_redacted :
    redact_value crypto {N = ℕ}
      (obj (field (text "k") (scalar (string (text "a hunter2 b"))) end))
      ((text "db", envelope) ∷ [])
    ≡ okay (obj (field (text "k") (scalar (string (text "a [REDACTED:secret:db] b"))) end))
unfolding redact_value open_envelope open_fields replace_from
json_redacted = refl

open-seal_example : open_envelope crypto (text "db") envelope ≡ okay (text "hunter2")
open-seal_example =
    open-seal crypto (text "db") (text "hunter2") envelope nonce faithful refl refl sealed

redact_text-Cuts_example :
    (out : Text) × (redact_text crypto (text "a hunter2 b") ((text "db", envelope) ∷ []) ≡ okay out)
    × Cuts (text "hunter2") (marker (text "db")) (text "a hunter2 b") out
redact_text-Cuts_example =
    redact_text-Cuts crypto (text "db") envelope (text "hunter2") (text "a hunter2 b") opened
      (λ e. cc)
