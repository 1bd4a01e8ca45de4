-- ===== src/Secrets/Sealing.antt =====
-- crates/fabric-secrets/src/lib.rs, seal and open.
use forgewire_fabric.Prelude.{
  ℕ, ◌≡◌, refl, sym, ap, ◌∙◌, inl, inr, true, Option, none, some, [], ◌∷◌, ◌++◌, arith, Text, text,
  ◌==◌, length, split, split-append, Without,
}
use forgewire_fabric.Prelude.Utf8.{as_bytes, from_utf8}
use forgewire_fabric.Prelude.Results.{
  Result, Result-cases, okay-injective, err-okay, err, okay, and_then, ok_or,
}
use forgewire_fabric.Secrets.{
  Bytes, SecretError, legacy_unsealed, envelope_fields, invalid_envelope, Crypto, nonce_len,
  load_cipher, envelope_of, seal, after_prefix, open_fields, open_envelope,
}

-- A text without the separator is one piece.
split_single : (sep : ℕ) (s : Text) → Without (λ c. c == sep) s → split sep s ≡ s ∷ []
split_single sep [] h = refl
split_single sep (c ∷ s) h = rw (h.0, split_single sep s h.1) refl

module _ (crypto : Crypto) where
  open crypto use {encode, decode, encrypt, decrypt}

  -- What is documented of the libraries: base64 decodes what it encodes and has no colon, and
  -- decryption with the same key, nonce and associated data gives the message back.
  abbrev pub IsFaithful : Type 0
  IsFaithful =
      ((b : Bytes) → decode (encode b) ≡ some b)
      × ((b : Bytes) → Without (λ c. c == b':') (encode b))
      × ((key nonce message aad c : Bytes)
          → encrypt key nonce message aad ≡ some c
          → decrypt key nonce c aad ≡ some message)

  envelope_parts :
      (nonce ciphertext : Bytes)
      → IsFaithful
      → split b':' (envelope_of crypto nonce ciphertext)
        ≡ text "fwsecret" ∷ text "v1" ∷ encode nonce ∷ encode ciphertext ∷ []
  envelope_parts nonce ciphertext (decodes, plain, decrypts) =
      split-append b':' (text "fwsecret:v1") (encode nonce ++ b':' ∷ encode ciphertext)
      ∙ ap (λ l. text "fwsecret" ∷ text "v1" ∷ l)
          (split-append b':' (encode nonce) (encode ciphertext)
            ∙ ap (λ l. l ++ split b':' (encode ciphertext))
                (split_single b':' (encode nonce) (plain nonce))
            ∙ ap (λ l. encode nonce ∷ l) (split_single b':' (encode ciphertext) (plain ciphertext)))

  open_fields_lem :
      (name plaintext : Text) (nonce ciphertext key : Bytes)
      → IsFaithful
      → length nonce ≡ 12
      → from_utf8 (as_bytes plaintext) ≡ some plaintext
      → load_cipher crypto ≡ okay key
      → encrypt key nonce (as_bytes plaintext) (as_bytes name) ≡ some ciphertext
      → open_fields crypto name (encode nonce, encode ciphertext) ≡ okay plaintext
  unfolding open_fields
  open_fields_lem name plaintext nonce ciphertext key (decodes, plain, decrypts) twelve formed
        loaded encrypted =
      let right_length : (length nonce == nonce_len) ≡ true = ground (arith, twelve) in
      rw
        (
          open_fields,
          decodes nonce,
          right_length,
          decodes ciphertext,
          loaded,
          decrypts key nonce (as_bytes plaintext) (as_bytes name) ciphertext encrypted,
          formed,
        )
        refl

  sealed_opens :
      (name plaintext : Text) (nonce ciphertext key : Bytes)
      → IsFaithful
      → length nonce ≡ 12
      → from_utf8 (as_bytes plaintext) ≡ some plaintext
      → load_cipher crypto ≡ okay key
      → encrypt key nonce (as_bytes plaintext) (as_bytes name) ≡ some ciphertext
      → open_envelope crypto name (envelope_of crypto nonce ciphertext) ≡ okay plaintext
  unfolding open_envelope
  sealed_opens name plaintext nonce ciphertext key faithful twelve formed loaded encrypted =
      ap
        (λ parts. elim (after_prefix parts) [
          | none ↦ err (legacy_unsealed name)
          | some rest ↦
              and_then (envelope_fields name rest) (λ fields. open_fields crypto name fields)
        ])
        (envelope_parts nonce ciphertext faithful)
      ∙ open_fields_lem name plaintext nonce ciphertext key faithful twelve formed loaded encrypted

  sealed_with :
      (name plaintext envelope : Text) (nonce key : Bytes)
      → load_cipher crypto ≡ okay key
      → seal crypto nonce name plaintext ≡ okay envelope
      → (ciphertext : Bytes) × (encrypt key nonce (as_bytes plaintext) (as_bytes name)
          ≡ some ciphertext)
        × (envelope_of crypto nonce ciphertext ≡ envelope)
  unfolding seal
  sealed_with name plaintext envelope nonce key loaded sealed =
      of_cipher (encrypt key nonce (as_bytes plaintext) (as_bytes name)) refl
        (sym (ap (λ k. and_then k with_key) loaded) ∙ sealed)
    where
      wrap : Option Bytes → Result SecretError Text
      wrap o =
          and_then (ok_or (invalid_envelope name (text "encryption failed")) o)
            (λ ciphertext. okay (envelope_of crypto nonce ciphertext))

      with_key : Bytes → Result SecretError Text
      with_key k = wrap (encrypt k nonce (as_bytes plaintext) (as_bytes name))

      of_cipher :
          (o : Option Bytes)
          → encrypt key nonce (as_bytes plaintext) (as_bytes name) ≡ o
          → wrap o ≡ okay envelope
          → (ciphertext : Bytes) × (encrypt key nonce (as_bytes plaintext) (as_bytes name)
              ≡ some ciphertext)
            × (envelope_of crypto nonce ciphertext ≡ envelope)
      of_cipher none e k = absurd (err-okay _ envelope k)
      of_cipher (some c) e k = (c, e, okay-injective _ envelope k)

  -- A sealed secret opens, under its name, to what was sealed, if the libraries keep their promises,
  -- the nonce has 12 bytes and the plaintext is a text of Unicode characters.
  pub open-seal :
      (name plaintext envelope : Text) (nonce : Bytes)
      → IsFaithful
      → length nonce ≡ 12
      → from_utf8 (as_bytes plaintext) ≡ some plaintext
      → seal crypto nonce name plaintext ≡ okay envelope
      → open_envelope crypto name envelope ≡ okay plaintext
  unfolding seal
  open-seal name plaintext envelope nonce faithful twelve formed sealed =
      elim (Result-cases (load_cipher crypto)) [
        | inl (e, k) ↦ absurd (err-okay e envelope (sym (ap (λ l. and_then l with_key) k) ∙ sealed))
        | inr (key, loaded) ↦
            let (ciphertext, encrypted, same) =
              sealed_with name plaintext envelope nonce key loaded sealed in
            sym (ap (open_envelope crypto name) same)
            ∙ sealed_opens name plaintext nonce ciphertext key faithful twelve formed loaded
                encrypted
      ]
    where
      with_key : Bytes → Result SecretError Text
      with_key k =
          and_then
            (ok_or (invalid_envelope name (text "encryption failed"))
              (encrypt k nonce (as_bytes plaintext) (as_bytes name)))
            (λ ciphertext. okay (envelope_of crypto nonce ciphertext))
