-- ===== src/Secrets.antt =====
-- crates/fabric-secrets/src/lib.rs: sealed secrets and their redaction from output. Base64,
-- AES-256-GCM and the provider of the master key are parameters, and the nonce is an argument of
-- `seal`.
pub mod Sealing
pub mod Pieces
pub mod Values
mod Tests
use forgewire_fabric.Prelude.{
  ℕ, zero, suc, ◌+◌, Bool, true, false, not, ◌&&◌, Option, none, some, List, [], ◌∷◌, ◌++◌, Text,
  text, text_eq, leb, ◌==◌, if◌then◌else◌, is_empty, length, byte_len, split, strip_prefix,
}
use forgewire_fabric.Prelude.Utf8.{as_bytes, from_utf8}
use forgewire_fabric.Prelude.Results.{Result, err, okay, and_then, ok_or}
use forgewire_fabric.Prelude.Json.{
  Scalar, null, bool, number, string, Json, scalar, arr, obj, Items, nil, cons, Fields, end, field,
}

abbrev pub Bytes : Type 0
Bytes = List ℕ

pub data SecretError : Type 0 where
  key_unavailable : Text → SecretError
  invalid_key : Text → SecretError
  legacy_unsealed : Text → SecretError
  invalid_envelope : Text → Text → SecretError
  missing_secret : Text → SecretError
  provider_io : Text → SecretError

abbrev pub code : SecretError → Text
code (key_unavailable e) = text "secret_key_unavailable"
code (invalid_key e) = text "secret_key_invalid"
code (legacy_unsealed name) = text "legacy_secret_requires_rotation"
code (invalid_envelope name detail) = text "secret_envelope_invalid"
code (missing_secret name) = text "secret_missing"
code (provider_io e) = text "secret_provider_io"

abbrev pub remediation : SecretError → Text
remediation (legacy_unsealed name) = text "rotate or delete the named legacy secret"
remediation (missing_secret name) = text "create the named secret or remove it from secrets_needed"
remediation (invalid_envelope name detail) = text "rotate or delete the named corrupt secret"
remediation e = text "provision a valid 32-byte master key provider and retry"

-- `encrypt` and `decrypt` take the key, the nonce, the message and the associated data;
-- `accepts_key` is whether `new_from_slice` takes the key.
pub record Crypto : Type 0 where
  pub encode : Bytes → Text
  pub decode : Text → Option Bytes
  pub accepts_key : Bytes → Bool
  pub encrypt : Bytes → Bytes → Bytes → Bytes → Option Bytes
  pub decrypt : Bytes → Bytes → Bytes → Bytes → Option Bytes
  pub load_key : Result SecretError Bytes

abbrev pub nonce_len : ℕ
nonce_len = 12

-- `seal_prefix` is PREFIX.
abbrev pub seal_prefix : Text
seal_prefix = text "fwsecret:v1"

-- The parts behind the prefix `fwsecret`, `v1`.
abbrev pub after_prefix : List Text → Option (List Text)
after_prefix (a ∷ b ∷ rest) =
    if text_eq a (text "fwsecret") && text_eq b (text "v1") then some rest else none
after_prefix _ = none

abbrev pub envelope_fields : Text → List Text → Result SecretError (Text × Text)
envelope_fields name [] = err (invalid_envelope name (text "nonce missing"))
envelope_fields name (n ∷ []) = err (invalid_envelope name (text "ciphertext missing"))
envelope_fields name (n ∷ c ∷ []) = okay (n, c)
envelope_fields name (n ∷ c ∷ more ∷ rest) =
    err (invalid_envelope name (text "unexpected envelope fields"))

module _ (crypto : Crypto) where
  open crypto use {encode, decode, accepts_key, encrypt, decrypt, load_key}

  -- The key, and a cipher made from it.
  abbrev pub load_cipher : Result SecretError Bytes
  load_cipher = and_then load_key (λ key.
      if accepts_key key then okay key else err (invalid_key (text "AES-256 requires 32 bytes")))

  abbrev pub envelope_of : Bytes → Bytes → Text
  envelope_of nonce ciphertext = seal_prefix ++ b':' ∷ (encode nonce ++ b':' ∷ encode ciphertext)

  unfoldable pub seal : Bytes → Text → Text → Result SecretError Text
  seal nonce name plaintext = and_then load_cipher (λ key.
      and_then
        (ok_or (invalid_envelope name (text "encryption failed"))
          (encrypt key nonce (as_bytes plaintext) (as_bytes name)))
        (λ ciphertext. okay (envelope_of nonce ciphertext)))

  abbrev pub decode_nonce : Text → Text → Result SecretError Bytes
  decode_nonce name nonce_text =
      and_then (ok_or (invalid_envelope name (text "nonce is not base64")) (decode nonce_text))
        (λ nonce.
          if not (length nonce == nonce_len)
          then err (invalid_envelope name (text "nonce must be 12 bytes"))
          else okay nonce)

  unfoldable pub open_fields : Text → Text × Text → Result SecretError Text
  open_fields name (nonce_text, cipher_text) = and_then (decode_nonce name nonce_text) (λ nonce.
      and_then
        (ok_or (invalid_envelope name (text "ciphertext is not base64")) (decode cipher_text))
        (λ ciphertext. and_then load_cipher (λ key.
          and_then
            (ok_or (invalid_envelope name (text "authentication failed"))
              (decrypt key nonce ciphertext (as_bytes name)))
            (λ plaintext.
              ok_or (invalid_envelope name (text "plaintext is not UTF-8"))
                (from_utf8 plaintext)))))

  unfoldable pub open_envelope : Text → Text → Result SecretError Text
  unfolding open_fields
  open_envelope name envelope = elim (after_prefix (split b':' envelope)) [
    | none ↦ err (legacy_unsealed name)
    | some parts ↦ and_then (envelope_fields name parts) (λ fields. open_fields name fields)
  ]

  -- `collect` into a result: the first error, or all secrets with their values.
  abbrev pub open_all : List (Text × Text) → Result SecretError (List (Text × Text))
  open_all [] = okay []
  open_all (e ∷ envelopes) =
      and_then (open_envelope e.0 e.1)
        (λ value. and_then (open_all envelopes) (λ values. okay ((e.0, value) ∷ values)))

-- The longest values first; equal lengths keep their order.
abbrev pub insert_value : Text × Text → List (Text × Text) → List (Text × Text)
insert_value e [] = e ∷ []
insert_value e (f ∷ fs) =
    let rest = insert_value e fs in
    if leb (byte_len f.1) (byte_len e.1) then e ∷ f ∷ fs else f ∷ rest

abbrev pub sort_values : List (Text × Text) → List (Text × Text)
sort_values [] = []
sort_values (e ∷ es) = insert_value e (sort_values es)

-- `str::replace` of a pattern that is not empty, from left to right, with fuel; every round takes
-- at least a character.
unfoldable pub replace_from : ℕ → Text → Text → Text → Text
replace_from zero s pattern to = s
replace_from (suc fuel) s pattern to = elim (strip_prefix s pattern) [
  | some rest ↦ to ++ replace_from fuel rest pattern to
  | none ↦ elim s [ [] ↦ [] | c ∷ rest ↦ c ∷ replace_from fuel rest pattern to ]
]

abbrev pub replace_text : Text → Text → Text → Text
replace_text s pattern to = replace_from (suc (length s)) s pattern to

abbrev pub marker : Text → Text
marker name = text "[REDACTED:secret:" ++ name ++ text "]"

-- The loop over the secrets.
abbrev pub redact_with : List (Text × Text) → Text → Text
redact_with [] redacted = redacted
redact_with (secret ∷ secrets) redacted =
    redact_with secrets
      (if is_empty secret.1 then redacted else replace_text redacted secret.1 (marker secret.0))

unfoldable mutual
  pub visit : List (Text × Text) → {N : Type 0} → Json N → Json N
  visit secrets (scalar (string s)) = scalar (string (redact_with secrets s))
  visit secrets (scalar v) = scalar v
  visit secrets (arr xs) = arr (visit_items secrets xs)
  visit secrets (obj fs) = obj (visit_fields secrets fs)

  pub visit_items : List (Text × Text) → {N : Type 0} → Items N → Items N
  visit_items secrets nil = nil
  visit_items secrets (cons x xs) = cons (visit secrets x) (visit_items secrets xs)

  pub visit_fields : List (Text × Text) → {N : Type 0} → Fields N → Fields N
  visit_fields secrets end = end
  visit_fields secrets (field k v fs) = field k (visit secrets v) (visit_fields secrets fs)

module _ (crypto : Crypto) where
  unfoldable pub redact_text : Text → List (Text × Text) → Result SecretError Text
  redact_text s envelopes =
      and_then (open_all crypto envelopes) (λ values. okay (redact_with (sort_values values) s))

  unfoldable pub redact_value :
      {N : Type 0} → Json N → List (Text × Text) → Result SecretError (Json N)
  unfolding visit
  redact_value value envelopes =
      and_then (open_all crypto envelopes) (λ values. okay (visit (sort_values values) value))
